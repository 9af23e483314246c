-- ===== src/Cache/Queue.antt =====
-- The queue of pairs that a cache of cache.go stands for.
use libhfs.Prelude.{
  ℕ, zero, suc, ◌-◌, ◌≤◌, ◌≡◌, ◌≢◌, ◌↔◌, refl, sym, ◌∙◌, ap, Bool, true, false, inl, inr, Option,
  none, some, Bool-cases, Option-cases, List, [], ◌∷◌, ◌++◌, map, arith, ltb, leb, ◌==◌,
  if◌then◌else◌, length, drop, length-append, length-drop,
}
use libhfs.Cache.{Cache, update, evict_from, insert, node_cache_put}

length-map : {K V : Type 0} (xs : List (K × V)) → length (map (λ p. p.0) xs) ≡ length xs
length-map [] = refl
length-map (x ∷ xs) = ap suc (length-map xs)

some-ne-none : {V : Type 0} (v : V) → some v ≢ none
some-ne-none v h = ground arith

true-ne-false : true ≢ false
true-ne-false h = ground arith

apart :
    {K : Type 0} (same : K → K → Bool)
    → ((a b : K) → (same a b ≡ true) ↔ (a ≡ b))
    → (j k : K) → same k j ≡ false
    → same j k ≡ false
apart same law j k q = elim (Bool-cases (same j k)) [
  | inr p ↦ p
  | inl p ↦ absurd (true-ne-false (sym ((law k j).1 (sym ((law j k).0 p))) ∙ q))
]

map-append :
    {K V : Type 0} (xs ys : List (K × V))
    → map (λ p. p.0) (xs ++ ys) ≡ map (λ p. p.0) xs ++ map (λ p. p.0) ys
map-append [] ys = refl
map-append (x ∷ xs) ys = ap (x.0 ∷◌) (map-append xs ys)

module _ {K V : Type 0} (same : K → K → Bool) where
  abbrev pub find : K → List (K × V) → Option V
  find x [] = none
  find x ((k, v) ∷ xs) = if same x k then some v else find x xs

  -- No key comes twice.
  abbrev pub AreDistinct : List (K × V) → Type 0
  AreDistinct [] = Unit
  AreDistinct ((k, v) ∷ xs) = (find k xs ≡ none) × AreDistinct xs

  -- The cache holds the pairs of a queue, the oldest first.
  pub record Represents (c : Cache K V) (xs : List (K × V)) : Type 0 where
    pub keys : c.order ≡ map (λ p. p.0) xs
    pub finds : (x : K) → c.held x ≡ find x xs
    pub distinct : AreDistinct xs

  abbrev put_if : ℕ → K → V → List (K × V) → Option V → List (K × V)
  put_if bound k v xs (some _) = xs
  put_if bound k v xs none = drop (suc (length xs) - bound) xs ++ ((k, v) ∷ [])

  -- A queue after a pair is put into it: unchanged if the key is there, else at the end of the
  -- youngest that leave it room.
  abbrev pub put : ℕ → K → V → List (K × V) → List (K × V)
  put bound k v xs = put_if bound k v xs (find k xs)

  module _ (law : (a b : K) → (same a b ≡ true) ↔ (a ≡ b)) where
    delete-find :
        (m : K → Option V) (k : K) (v : V) (xs : List (K × V))
        → ((x : K) → m x ≡ find x ((k, v) ∷ xs))
        → find k xs ≡ none
        → (x : K) → update same m k none x ≡ find x xs
    delete-find m k v xs f d x = elim (Bool-cases (same x k)) [
      | inl q ↦ let e : x ≡ k = (law x k).0 q in rw (q, e, d) refl
      | inr q ↦ rw (q) (f x ∙ rw (q) refl)
    ]

    -- Evicting while there are more than `limit` keys.
    evict_from-Represents :
        (over : ℕ → Bool) (limit b : ℕ) (m : K → Option V) (xs : List (K × V))
        → ((l : ℕ) → over l ≡ ltb limit l)
        → ((x : K) → m x ≡ find x xs)
        → AreDistinct xs
        → Represents (evict_from same over b m (map (λ p. p.0) xs)) (drop (length xs - limit) xs)
    unfolding evict_from
    evict_from-Represents over limit b m [] o f d =
        let z : 0 - limit ≡ 0 = omega arith in
        rw (z) (record { keys = refl; finds = f; distinct = d })
    evict_from-Represents over limit b m ((k, v) ∷ xs) o f (d, ds) =
        let l : length (map (λ p. p.0) xs) ≡ length xs = length-map xs in
        elim (Bool-cases (ltb limit (suc (length xs)))) [
          | inl q ↦
              let n : suc (length xs) - limit ≡ suc (length xs - limit) = ground (arith, q) in
              rw (o, l, q, n)
                (evict_from-Represents over limit b (update same m k none) xs o
                  (delete-find m k v xs f d) ds)
          | inr q ↦
              let n : suc (length xs) - limit ≡ 0 = ground (arith, q) in
              rw (o, l, q, n) (record { keys = refl; finds = f; distinct = (d, ds) })
        ]

    find-append :
        (x k : K) (v : V) (xs : List (K × V))
        → find k xs ≡ none
        → find x (xs ++ ((k, v) ∷ [])) ≡ (if same x k then some v else find x xs)
    find-append x k v [] h = refl
    find-append x k v ((j, w) ∷ xs) h = elim (Bool-cases (same k j)) [
      | inl q ↦ absurd (some-ne-none w (sym (rw (q) refl) ∙ h))
      | inr q ↦
          let h' : find k xs ≡ none = sym (rw (q) refl) ∙ h in
          elim (Bool-cases (same x j)) [
            | inr p ↦ rw (p) (find-append x k v xs h')
            | inl p ↦ elim (Bool-cases (same x k)) [
              | inr r ↦ rw (p, r) refl
              | inl r ↦
                  let e : x ≡ j = (law x j).0 p in
                  let e' : x ≡ k = (law x k).0 r in
                  absurd (true-ne-false (sym ((law k j).1 (sym e' ∙ e)) ∙ q))
            ]
          ]
    ]

    find-drop : (k : K) (n : ℕ) (xs : List (K × V)) → find k xs ≡ none → find k (drop n xs) ≡ none
    find-drop k zero xs h = h
    find-drop k (suc n) [] h = h
    find-drop k (suc n) ((j, w) ∷ xs) h = elim (Bool-cases (same k j)) [
      | inl q ↦ absurd (some-ne-none w (sym (rw (q) refl) ∙ h))
      | inr q ↦ find-drop k n xs (sym (rw (q) refl) ∙ h)
    ]

    append-AreDistinct :
        (k : K) (v : V) (xs : List (K × V))
        → find k xs ≡ none
        → AreDistinct xs
        → AreDistinct (xs ++ ((k, v) ∷ []))
    append-AreDistinct k v [] h d = (refl, tt)
    append-AreDistinct k v ((j, w) ∷ xs) h (d, ds) = elim (Bool-cases (same k j)) [
      | inl q ↦ absurd (some-ne-none w (sym (rw (q) refl) ∙ h))
      | inr q ↦
          let p : same j k ≡ false = apart same law j k q in
          (
            find-append j k v xs (sym (rw (q) refl) ∙ h) ∙ rw (p) d,
            append-AreDistinct k v xs (sym (rw (q) refl) ∙ h) ds,
          )
    ]

    insert-Represents :
        (k : K) (v : V) (c : Cache K V) (xs : List (K × V))
        → c.bound ≢ 0
        → find k xs ≡ none
        → Represents c xs
        → Represents (insert same k v c) (drop (suc (length xs) - c.bound) xs ++ ((k, v) ∷ []))
    insert-Represents k v c xs b h r =
        let n : suc (length xs) - c.bound ≡ length xs - (c.bound - 1) = omega arith in
        let kept = drop (length xs - (c.bound - 1)) xs in
        let e =
          evict_from-Represents (λ l. leb c.bound l) (c.bound - 1) c.bound c.held xs
            (λ l. ground arith) r.finds r.distinct in
        let fresh = find-drop k (length xs - (c.bound - 1)) xs h in
        rw (r.keys, n)
          (record {
            keys = ap (λ ks. ks ++ (k ∷ [])) e.keys ∙ sym (map-append kept ((k, v) ∷ []));
            finds = λ x.
                ap (λ o. if same x k then some v else o) (e.finds x)
                ∙ sym (find-append x k v kept fresh);
            distinct = append-AreDistinct k v kept fresh e.distinct;
          })

    length-put :
        (bound : ℕ) (k : K) (v : V) (xs : List (K × V)) (o : Option V)
        → bound ≢ 0
        → length xs ≤ bound
        → length (put_if bound k v xs o) ≤ bound
    length-put bound k v xs (some _) b h = h
    length-put bound k v xs none b h =
        let n = suc (length xs) - bound in
        omega (arith, length-append (drop n xs) ((k, v) ∷ []), length-drop n xs)

    -- For a decidable equality of keys: putting a pair into a cache that represents a queue of at
    -- most `bound` pairs, for a bound that is not 0, gives one that represents the queue with the
    -- pair put into it, which has at most `bound` pairs again. A key that is there is left alone;
    -- otherwise the pair comes last, after the youngest pairs that leave it room.
    pub node_cache_put-Represents :
        (k : K) (v : V) (c : Cache K V) (xs : List (K × V))
        → c.bound ≢ 0
        → length xs ≤ c.bound
        → Represents c xs
        → Represents (node_cache_put same k v c) (put c.bound k v xs)
          × (length (put c.bound k v xs) ≤ c.bound)
    unfolding node_cache_put
    node_cache_put-Represents k v c xs b h r =
        let z : (c.bound == 0) ≡ false = ground (arith, b) in
        let l = length-put c.bound k v xs (find k xs) b h in
        elim (Option-cases (find k xs)) [
          | inl q ↦ rw (z, r.finds k, q) (insert-Represents k v c xs b q r, rw (q) at l)
          | inr (w, q) ↦ rw (z, r.finds k, q) (r, rw (q) at l)
        ]
