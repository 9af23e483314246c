-- ===== src/Btree/Search/Fuel.antt =====
-- The rounds of scanFrom of btree_search.go, counted by the nodes that it has not visited.
use libhfs.Prelude.{
  ℕ, zero, suc, ◌+◌, ◌≤◌, ◌<◌, ◌≡◌, ◌≢◌, Bool, true, false, inl, inr, none, List, [], ◌∷◌, arith,
  ◌==◌, if◌then◌else◌, Bool-cases,
}
use libhfs.Errors.{Result, ok, Result-cases}
use libhfs.Bytes.{Bytes}
use libhfs.Btree.Node.{BtreeHeaderRecord, member}
use libhfs.Btree.Search.{
  KeyOps, Visit, read_node, leaf_records, scan_records, scan_leaves, scan_from, Step-cases,
  is_empty, find_leaf,
}

-- The numbers below `n` that are not among `visited`.
abbrev pub unvisited : ℕ → List ℕ → ℕ
unvisited zero visited = 0
unvisited (suc n) visited = (if member n visited then 0 else 1) + unvisited n visited

pub unvisited-le : (n : ℕ) (visited : List ℕ) → unvisited n visited ≤ n
unvisited-le zero visited = omega arith
unvisited-le (suc n) visited = ground (arith, unvisited-le n visited)

pub visit-le : (n x : ℕ) (visited : List ℕ) → unvisited n (x ∷ visited) ≤ unvisited n visited
visit-le zero x visited = omega arith
visit-le (suc n) x visited = ground (arith, visit-le n x visited)

-- Visiting a number below `n` for the first time leaves fewer.
pub visit-lt :
    (n x : ℕ) (visited : List ℕ)
    → member x visited ≡ false
    → x < n
    → unvisited n (x ∷ visited) < unvisited n visited
visit-lt zero x visited m h = absurd (omega arith)
visit-lt (suc n) x visited m h = elim (Bool-cases (n == x)) [
  | inl q ↦ let e : n ≡ x = ground (arith, q) in rw (e, m) (ground (arith, visit-le x x visited))
  | inr q ↦ let l : x < n = ground (arith, q) in rw (q) (ground (arith, visit-lt n x visited m l))
]

module _ {K S : Type 0} (node_at : ℕ → ℕ → Result Bytes) (header : BtreeHeaderRecord)
    (ops : KeyOps K) (cb : Visit S K) (target : K) where
  -- A leaf whose records are read is a node of the tree.
  leaf-lt :
      (leaf : ℕ) (first : Bool) {r : List Bytes × ℕ}
      → leaf_records node_at header ops cb target leaf first ≡ ok r
      → leaf < header.total_nodes
  unfolding leaf_records read_node
  leaf-lt leaf first h = ground (arith, h)

  scan_leaves-ne-none :
      (fuel : ℕ) (visited : List ℕ) (s : S) (started first : Bool) (leaf : ℕ)
      → unvisited header.total_nodes visited < fuel
      → scan_leaves node_at header ops cb target fuel visited s started first leaf ≢ none
  unfolding scan_leaves
  scan_leaves-ne-none zero visited s started first leaf h = absurd (omega arith)
  scan_leaves-ne-none (suc fuel) visited s started first leaf h =
      let records = leaf_records node_at header ops cb target leaf first in
      elim (Bool-cases (leaf == 0)) [
        | inl z ↦ rw (z) (ground arith)
        | inr z ↦ elim (Bool-cases (member leaf visited)) [
          | inl m ↦ rw (z, m) (ground arith)
          | inr m ↦ elim (Result-cases records) [
            | inr (inl (e, q)) ↦ rw (z, m, q) (ground arith)
            | inr (inr q) ↦ rw (z, m, q) (ground arith)
            | inl ((recs, link), q) ↦
                let l = visit-lt header.total_nodes leaf visited m (leaf-lt leaf first q) in
                elim (Step-cases (scan_records node_at header ops cb target s started recs)) [
                  | inr (s', r, p) ↦ rw (z, m, q, p) (ground arith)
                  | inl (s', b, p) ↦
                      rw (z, m, q, p)
                        (scan_leaves-ne-none fuel (leaf ∷ visited) s' b false link (omega arith))
                ]
          ]
        ]
      ]

  -- For any reader of nodes, header, keys, callback and target, the scan ends: it visits no more
  -- leaves than the header's TotalNodes.
  pub scan_from-ne-none : (s : S) → scan_from node_at header ops cb target s ≢ none
  unfolding scan_from
  scan_from-ne-none s = elim (Bool-cases (is_empty node_at header ops)) [
    | inl z ↦ rw (z) (ground arith)
    | inr z ↦ elim (Result-cases (find_leaf node_at header ops target)) [
      | inr (inl (e, q)) ↦ rw (z, q) (ground arith)
      | inr (inr q) ↦ rw (z, q) (ground arith)
      | inl (leaf, q) ↦
          let f : unvisited header.total_nodes [] < suc header.total_nodes =
            omega (arith, unvisited-le header.total_nodes []) in
          rw (z, q) (scan_leaves-ne-none (suc header.total_nodes) [] s false true leaf f)
    ]
  ]
