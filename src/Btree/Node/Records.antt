-- ===== src/Btree/Node/Records.antt =====
-- The records of a node: extractNodeRecords of btree_walk.go beside orderedNodeRecords of
-- btree_search.go.
use libhfs.Prelude.{
  ℕ, zero, suc, ◌≤◌, ◌<◌, ◌≡◌, refl, ◌∙◌, inl, inr, false, List, [], ◌∷◌, arith, length, take,
  get_or,
}
use libhfs.Errors.{Result-cases, ok}
use libhfs.Bytes.{Bytes, slice, slice-ok}
use libhfs.Btree.Node.Offsets.{IsNotPanic, parse_node_record_offsets-AreOffsets}
use libhfs.Btree.Node.{
  BtreeNodeDescriptor, parse_node_record_offsets, records_between, ordered_node_records, member,
  starts_of, insert_sorted, sort_ints, end_of, cut_records, record_limit, extract_node_records,
}

-- Offsets that the strict records accept.
abbrev Rising : Bytes → List ℕ → Type 0
Rising node [] = Unit
Rising node (a ∷ []) = Unit
Rising node (a ∷ b ∷ offs) = (14 ≤ a) × (a < b) × (b ≤ length node) × Rising node (b ∷ offs)

records_between-Rising :
    (node : Bytes) (offs : List ℕ) {recs : List Bytes}
    → records_between node offs ≡ ok recs
    → Rising node offs
unfolding records_between slice
records_between-Rising node [] h = tt
records_between-Rising node (a ∷ []) h = tt
records_between-Rising node (a ∷ b ∷ offs) h =
    elim (Result-cases (records_between node (b ∷ offs))) [
      | inl (rs, e) ↦
          let later = records_between-Rising node (b ∷ offs) e in
          (ground arith, ground arith, ground arith, later)
      | inr (inl (x, e)) ↦ absurd (ground arith)
      | inr (inr e) ↦ absurd (ground arith)
    ]

-- The last of `n + 1` offsets is above all the others.
last_above :
    (node : Bytes) (a : ℕ) (offs : List ℕ) (n d : ℕ)
    → length offs ≡ suc n
    → Rising node (a ∷ offs)
    → (a < get_or (a ∷ offs) (suc n) d) × (get_or (a ∷ offs) (suc n) d ≤ length node)
last_above node a [] n d e r = absurd (omega arith)
last_above node a (b ∷ []) zero d e r = (r.1, r.2)
last_above node a (b ∷ c ∷ offs) zero d e r = absurd (omega arith)
last_above node a (b ∷ []) (suc n) d e r = absurd (omega arith)
last_above node a (b ∷ c ∷ offs) (suc n) d e r =
    let l = last_above node b (c ∷ offs) n d (omega arith) r.3 in (omega arith, l.1)

cut_records-records_between :
    (node : Bytes) (a : ℕ) (offs : List ℕ) (n d : ℕ)
    → length offs ≡ n
    → Rising node (a ∷ offs)
    → cut_records node (get_or (a ∷ offs) n d) (take n (a ∷ offs)) ≡ records_between node (a ∷ offs)
unfolding cut_records records_between
cut_records-records_between node a [] zero d e r = refl
cut_records-records_between node a [] (suc n) d e r = absurd (omega arith)
cut_records-records_between node a (b ∷ offs) zero d e r = absurd (omega arith)
cut_records-records_between node a (b ∷ []) (suc zero) d e r = ground arith
cut_records-records_between node a (b ∷ c ∷ offs) (suc zero) d e r = absurd (omega arith)
cut_records-records_between node a (b ∷ []) (suc (suc n)) d e r = absurd (omega arith)
cut_records-records_between node a (b ∷ c ∷ offs) (suc (suc n)) d e r =
    ground (arith, cut_records-records_between node b (c ∷ offs) (suc n) d (omega arith) r.3)

sort_ints-Rising :
    (node : Bytes) (a : ℕ) (offs : List ℕ) (n : ℕ)
    → Rising node (a ∷ offs)
    → sort_ints (take n (a ∷ offs)) ≡ take n (a ∷ offs)
unfolding sort_ints insert_sorted
sort_ints-Rising node a offs zero r = refl
sort_ints-Rising node a [] (suc zero) r = refl
sort_ints-Rising node a [] (suc (suc n)) r = refl
sort_ints-Rising node a (b ∷ offs) (suc zero) r = refl
sort_ints-Rising node a (b ∷ offs) (suc (suc n)) r =
    ground (arith, sort_ints-Rising node b offs (suc n) r.3)

abbrev AreBelow : ℕ → List ℕ → Type 0
AreBelow a [] = Unit
AreBelow a (x ∷ xs) = (x < a) × AreBelow a xs

AreBelow-lt : (a b : ℕ) (xs : List ℕ) → a ≤ b → AreBelow a xs → AreBelow b xs
AreBelow-lt a b [] h k = tt
AreBelow-lt a b (x ∷ xs) h k = (omega arith, AreBelow-lt a b xs h k.1)

not-member : (a : ℕ) (xs : List ℕ) → AreBelow a xs → member a xs ≡ false
not-member a [] h = refl
not-member a (x ∷ xs) h = ground (arith, not-member a xs)

starts_of-Rising :
    (node : Bytes) (a : ℕ) (offs : List ℕ) (n d limit : ℕ) (seen : List ℕ)
    → length offs ≡ n
    → Rising node (a ∷ offs)
    → get_or (a ∷ offs) n d ≡ limit
    → AreBelow a seen
    → starts_of limit seen (take n (a ∷ offs)) ≡ take n (a ∷ offs)
unfolding starts_of
starts_of-Rising node a offs zero d limit seen e r l s = refl
starts_of-Rising node a [] (suc n) d limit seen e r l s = absurd (omega arith)
starts_of-Rising node a (b ∷ offs) (suc n) d limit seen e r l s = ground (
  arith,
  last_above node a (b ∷ offs) n d,
  not-member a seen s,
  starts_of-Rising node b offs n d limit (a ∷ seen) (omega arith) r.3 l
      (r.1, AreBelow-lt a b seen (omega arith) s),
)

cut_records-IsNotPanic :
    (node : Bytes) (limit : ℕ) (ss : List ℕ) → IsNotPanic (cut_records node limit ss)
unfolding cut_records
cut_records-IsNotPanic node limit [] = tt
cut_records-IsNotPanic node limit (s ∷ ss) =
    ground (arith, slice-ok node s (end_of limit ss), cut_records-IsNotPanic node limit ss)

-- The tolerant extraction never reads outside the node, whatever its bytes.
pub extract_node_records-IsNotPanic :
    (node : Bytes) (desc : BtreeNodeDescriptor) → IsNotPanic (extract_node_records node desc)
unfolding extract_node_records
extract_node_records-IsNotPanic node desc =
    elim (Result-cases (parse_node_record_offsets node desc.num_records)) [
      | inl (offs, e) ↦ rw (e, extract_node_records) (cut_records-IsNotPanic node _ _)
      | inr (inl (x, e)) ↦ rw (e, extract_node_records) tt
      | inr (inr e) ↦ absurd (rw e at (parse_node_record_offsets-AreOffsets node desc.num_records))
    ]

agree :
    (node : Bytes) (offs : List ℕ) (n : ℕ)
    → length offs ≡ suc n
    → Rising node offs
    → cut_records node
        (record_limit node (get_or offs n (length node)))
        (sort_ints (starts_of (record_limit node (get_or offs n (length node))) [] (take n offs)))
      ≡ records_between node offs
agree node [] n e r = absurd (omega arith)
agree node (a ∷ []) zero e r = unfold cut_records sort_ints starts_of records_between in refl
agree node (a ∷ b ∷ offs) zero e r = absurd (omega arith)
agree node (a ∷ []) (suc n) e r = absurd (omega arith)
agree node (a ∷ b ∷ offs) (suc n) e r =
    let l = last_above node a (b ∷ offs) n (length node) (omega arith) r in
    let last = get_or (a ∷ b ∷ offs) (suc n) (length node) in
    let lim : record_limit node last ≡ last = ground arith in
    rw
      (
        lim,
        starts_of-Rising node a (b ∷ offs) (suc n) (length node) last [] (omega arith) r refl tt,
        sort_ints-Rising node a (b ∷ offs) (suc n) r,
      )
      (cut_records-records_between node a (b ∷ offs) (suc n) (length node) (omega arith) r)

-- Wherever the strict records succeed, the tolerant extraction returns the same records: the free
-- space and anything else is left out by both.
pub extract_node_records-ordered_node_records :
    (node : Bytes) (desc : BtreeNodeDescriptor) {recs : List Bytes}
    → ordered_node_records node desc ≡ ok recs
    → extract_node_records node desc ≡ ok recs
unfolding extract_node_records ordered_node_records
extract_node_records-ordered_node_records node desc {recs} h =
    elim (Result-cases (parse_node_record_offsets node desc.num_records)) [
      | inl (offs, e) ↦
          let size = (rw e at (parse_node_record_offsets-AreOffsets node desc.num_records)).0 in
          let b : records_between node offs ≡ ok recs = ground arith in
          rw (e, extract_node_records)
            (agree node offs desc.num_records size (records_between-Rising node offs b) ∙ b)
      | inr (inl (x, e)) ↦ absurd (ground arith)
      | inr (inr e) ↦ absurd (ground arith)
    ]
