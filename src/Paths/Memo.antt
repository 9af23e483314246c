-- ===== src/Paths/Memo.antt =====
-- What the memo of paths.go holds: put, failPath and the assembly of a path on the way down.
use libhfs.Prelude.{
  ℕ, suc, ◌≡◌, ◌≢◌, sym, Bool, Bool-cases, inl, inr, Option, none, some, List, [], ◌∷◌, ◌++◌, ltb,
  ◌==◌, ==_iff, length,
}
use mathlib.Core.List.{reverse, reverse-cons}
use libhfs.Errors.{Error, Result}
use libhfs.Bytes.{Bytes}
use libhfs.Cache.{update, evict_from, lookup}
use libhfs.Catalog.{CatalogRecord}
use libhfs.Catalog.Session.{same_cnid}
use libhfs.Paths.{
  PathMemoEntry, known, broken, PathMemo, put, with_key, get_if, put_if, Hop, descend, put_broken,
  fail_path,
}
use libhfs.Paths.Chains.{HasPath, IsOrphan, IsAtDepth, AreHops, hop_up, hop_down}

none-ne-some : {A : Type 0} (a : A) → none ≢ some a
none-ne-some a h = cc

some-injective : {A : Type 0} {a b : A} → some a ≡ some b → a ≡ b
some-injective h = cc

-- An eviction only takes entries away.
held-evict_from :
    (over : ℕ → Bool) (b : ℕ) (m : ℕ → Option PathMemoEntry) (ks : List ℕ) (x : ℕ)
    (e : PathMemoEntry)
    → (evict_from same_cnid over b m ks).held x ≡ some e
    → m x ≡ some e
unfolding evict_from
held-evict_from over b m [] x e h = h
held-evict_from over b m (k ∷ ks) x e h = elim (Bool-cases (over (length (k ∷ ks)))) [
  | inr q ↦ rw (q) at h
  | inl q ↦
      let later : update same_cnid m k none x ≡ some e =
        held-evict_from over b (update same_cnid m k none) ks x e (rw (q) at h) in
      elim (Bool-cases (x == k)) [
        | inl p ↦ absurd (none-ne-some e (rw (p) at later))
        | inr p ↦ rw (p) at later
      ]
]

module _ (thread : ℕ → Result CatalogRecord) where
  -- A path is the node's, and an error stands at a node without one.
  abbrev pub IsTrue : ℕ → PathMemoEntry → Type 0
  IsTrue n (known p) = HasPath thread n p
  IsTrue n (broken e) = IsOrphan thread n

  abbrev pub IsSound : Option PathMemo → Type 0
  IsSound memo = (n : ℕ) (e : PathMemoEntry) → get_if memo n ≡ some e → IsTrue n e

  pub put_if-IsSound :
      (n : ℕ) (e : PathMemoEntry) (memo : Option PathMemo)
      → IsSound memo
      → IsTrue n e
      → IsSound (put_if n e memo)
  unfolding put lookup
  put_if-IsSound n e none sound t x f h = sound x f h
  put_if-IsSound n e (some m) sound t x f h =
      let found : update same_cnid m.held n (some e) x ≡ some f =
        held-evict_from (λ l. ltb m.bound l) m.bound (update same_cnid m.held n (some e))
          (with_key (m.held n) m.order n) x f h in
      elim (Bool-cases (x == n)) [
        | inl q ↦
            let same : e ≡ f = some-injective (rw (q) at found) in
            let at : x ≡ n = (==_iff x n).0 q in rw (at, sym same) t
        | inr q ↦ sound x f (rw (q) at found)
      ]

  -- The way down from a node with a path gives the path of the node that the climb began at.
  pub descend-HasPath :
      (cnid : ℕ) (hops : List Hop) (cur k : ℕ) (p : Bytes) (memo : Option PathMemo)
      → AreHops thread cnid hops cur
      → IsAtDepth thread k cur p
      → IsSound memo
      → HasPath thread cnid (descend p hops memo).1 × IsSound (descend p hops memo).0
  unfolding descend
  descend-HasPath cnid [] cur k p memo l h sound = ((k, rw (sym l) h), sound)
  descend-HasPath cnid ((n, name) ∷ hops) cur k p memo (hop, l) h sound =
      let up = hop_up thread k n cur name p hop h in
      descend-HasPath cnid hops n (suc k) (p ++ (47 ∷ name))
        (put_if n (known (p ++ (47 ∷ name))) memo) l up
        (put_if-IsSound n (known (p ++ (47 ∷ name))) memo sound (suc k, up))

  abbrev AreOrphans : List Hop → Type 0
  AreOrphans [] = Unit
  AreOrphans ((n, name) ∷ hops) = IsOrphan thread n × AreOrphans hops

  hops-AreOrphans :
      (cnid : ℕ) (hops : List Hop) (cur : ℕ)
      → AreHops thread cnid hops cur
      → IsOrphan thread cur
      → IsOrphan thread cnid × AreOrphans hops
  hops-AreOrphans cnid [] cur l o = (rw (sym l) o, tt)
  hops-AreOrphans cnid ((n, name) ∷ hops) cur (hop, l) o =
      let here = hop_down thread n cur name hop o in
      let (first, rest) = hops-AreOrphans cnid hops n l here in (first, (here, rest))

  put_broken-IsSound :
      (e : Error) (hops : List Hop) (memo : Option PathMemo)
      → AreOrphans hops
      → IsSound memo
      → IsSound (put_broken e hops memo)
  unfolding put_broken
  put_broken-IsSound e [] memo o sound = sound
  put_broken-IsSound e ((n, name) ∷ hops) memo (here, o) sound =
      put_broken-IsSound e hops (put_if n (broken e) memo) o
        (put_if-IsSound n (broken e) memo sound here)

  append-AreOrphans : (xs ys : List Hop) → AreOrphans xs → AreOrphans ys → AreOrphans (xs ++ ys)
  append-AreOrphans [] ys o o' = o'
  append-AreOrphans ((n, name) ∷ xs) ys (here, o) o' = (here, append-AreOrphans xs ys o o')

  reverse-AreOrphans : (hops : List Hop) → AreOrphans hops → AreOrphans (reverse hops)
  reverse-AreOrphans [] o = tt
  reverse-AreOrphans ((n, name) ∷ hops) (here, o) =
      rw (reverse-cons (n, name) hops)
        (append-AreOrphans (reverse hops) ((n, name) ∷ []) (reverse-AreOrphans hops o) (here, tt))

  -- A climb that ends at a node without a path fails for each of its nodes.
  pub fail_path-IsOrphan :
      (cnid : ℕ) (hops : List Hop) (cur : ℕ) (memo : Option PathMemo) (e : Error)
      → AreHops thread cnid hops cur
      → IsOrphan thread cur
      → IsSound memo
      → IsOrphan thread cnid × IsSound (fail_path cnid hops memo e)
  unfolding fail_path
  fail_path-IsOrphan cnid hops cur memo e l o sound =
      let (first, rest) = hops-AreOrphans cnid hops cur l o in
      (
        first,
        put_broken-IsSound e (reverse hops) (put_if cnid (broken e) memo)
            (reverse-AreOrphans hops rest) (put_if-IsSound cnid (broken e) memo sound first),
      )
