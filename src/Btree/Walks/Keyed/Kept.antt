-- ===== src/Btree/Walks/Keyed/Kept.antt =====
-- The keys of the records that a keyed scan of btree_search.go passes on.
use libhfs.Prelude.{
  ℕ, zero, suc, inl, inr, List, [], ◌∷◌, ltb, ◌==◌, ◌&&◌, not, length, Bool, true, false,
  Bool-cases,
}
use libhfs.Errors.{Result, Result-cases}
use libhfs.Bytes.{Bytes, slice}
use libhfs.Btree.Node.{BtreeHeaderRecord, member}
use libhfs.Btree.Search.{KeyOps, or_degraded, is_before, is_empty, find_leaf}
use libhfs.Btree.Walks.Delivery.{AreOf, append-AreOf, Trace}
use libhfs.Btree.Walks.Keyed.{
  onward, ends, Part, payload_part, records_part, leaf_read, chained, leaves_trace, scan_trace,
}

module _ {K : Type 0} (node_at : ℕ → ℕ → Result Bytes) (header : BtreeHeaderRecord) (ops : KeyOps K)
    (past same : K → Bool) (target : K) where
  payload_part-AreOf :
      (b : Bytes) (k : K) (later : Part node_at header ops past same target)
      → AreOf same later.0
      → AreOf same (payload_part node_at header ops past same target b k later).0
  unfolding payload_part
  payload_part-AreOf b k later h = elim (Bool-cases (past k)) [
    | inl p ↦ rw (p) tt
    | inr p ↦ elim (Bool-cases (same k)) [ inl q ↦ rw (p, q) (q, h) | inr q ↦ rw (p, q) h ]
  ]

  records_part-AreOf :
      (started : Bool) (recs : List Bytes)
      → AreOf same (records_part node_at header ops past same target started recs).0
  unfolding records_part
  records_part-AreOf started [] = tt
  records_part-AreOf started (rec ∷ recs) = elim (Result-cases (or_degraded (ops.parse rec))) [
    | inr (inl (e, q)) ↦ rw (records_part, q) tt
    | inr (inr q) ↦ rw (records_part, q) tt
    | inl ((k, consumed), q) ↦ elim (Bool-cases (ltb (length rec) consumed)) [
      | inl l ↦ rw (records_part, q, l) tt
      | inr l ↦ elim (Bool-cases (not started && is_before (ops.compare k target))) [
        | inl b ↦ rw (records_part, q, l, b) (records_part-AreOf false recs)
        | inr b ↦ elim (Result-cases (slice rec consumed (length rec))) [
          | inr (inl (e, p)) ↦ rw (records_part, q, l, b, p) tt
          | inr (inr p) ↦ rw (records_part, q, l, b, p) tt
          | inl (bytes, p) ↦
              rw (records_part, q, l, b, p)
                (payload_part-AreOf bytes k
                  (records_part node_at header ops past same target true recs)
                  (records_part-AreOf true recs))
        ]
      ]
    ]
  ]

  chained-AreOf :
      (part : Part node_at header ops past same target) (rest : Bool → Trace K)
      → AreOf same part.0
      → ((b : Bool) → AreOf same (rest b).0)
      → AreOf same (chained node_at header ops past same target part rest).0
  unfolding chained
  chained-AreOf (es, ends r) rest h i = h
  chained-AreOf (es, onward b) rest h i = append-AreOf same es (rest b).0 h (i b)

  leaves_trace-AreOf :
      (fuel : ℕ) (visited : List ℕ) (started first : Bool) (leaf : ℕ)
      → AreOf same
          (leaves_trace node_at header ops past same target fuel visited started first leaf).0
  unfolding leaves_trace
  leaves_trace-AreOf zero visited started first leaf = tt
  leaves_trace-AreOf (suc fuel) visited started first leaf = elim (Bool-cases (leaf == 0)) [
    | inl z ↦ rw (leaves_trace, z) tt
    | inr z ↦ elim (Bool-cases (member leaf visited)) [
      | inl m ↦ rw (leaves_trace, z, m) tt
      | inr m ↦ elim (Result-cases (leaf_read node_at header ops past same target leaf first)) [
        | inr (inl (e, q)) ↦ rw (leaves_trace, z, m, q) tt
        | inr (inr q) ↦ rw (leaves_trace, z, m, q) tt
        | inl ((recs, link), q) ↦
            rw (leaves_trace, z, m, q)
              (chained-AreOf (records_part node_at header ops past same target started recs)
                (λ b.
                  leaves_trace node_at header ops past same target fuel (leaf ∷ visited) b false
                    link)
                (records_part-AreOf started recs)
                (λ b. leaves_trace-AreOf fuel (leaf ∷ visited) b false link))
      ]
    ]
  ]

  pub scan_trace-AreOf : AreOf same (scan_trace node_at header ops past same target).0
  unfolding scan_trace
  scan_trace-AreOf = elim (Bool-cases (is_empty node_at header ops)) [
    | inl z ↦ rw (scan_trace, z) tt
    | inr z ↦ elim (Result-cases (find_leaf node_at header ops target)) [
      | inr (inl (e, q)) ↦ rw (scan_trace, z, q) tt
      | inr (inr q) ↦ rw (scan_trace, z, q) tt
      | inl (leaf, q) ↦
          rw (scan_trace, z, q) (leaves_trace-AreOf (suc header.total_nodes) [] false true leaf)
    ]
  ]
