-- ===== src/Btree/Leaves/Fuel.antt =====
-- The rounds of the walks of btree_walk.go and of the keyed walks, counted by the nodes not
-- visited.
use libhfs.Prelude.{ℕ, ◌≤◌, ◌<◌, ◌≡◌, Option, none, some, List}
use libhfs.Errors.{Result, ok}
use libhfs.Bytes.{Bytes}
use libhfs.Btree.Node.{BtreeHeaderRecord}
use libhfs.Btree.Search.Fuel.{unvisited}
use libhfs.Btree.Leaves.{LeafCallback, Visited}

module _ {K S : Type 0} (node_at : ℕ → ℕ → Result Bytes) (header : BtreeHeaderRecord)
    (parse : Bytes → Result (K × ℕ)) (cb : LeafCallback S K) where
  -- A node whose records are read, from a place where the walk may be, is one of the first `bound`,
  -- and leads to another such place.
  Leads : (ℕ → Result (List Bytes × ℕ)) → ℕ → (ℕ → Type 0) → Type 0
  Leads read bound In =
      (n : ℕ) (recs : List Bytes) (link : ℕ)
      → In n
      → read n ≡ ok (recs, link)
      → (n < bound) × In link

  -- A walk that ends and leaves at most `bound` nodes unvisited.
  Ends : ℕ → Option (Visited S) → Type 0
  Ends bound none = ⊥
  Ends bound (some (visited, r)) = unvisited header.total_nodes visited ≤ bound
