-- ===== src/Btree/Walks/Tree.antt =====
-- The recursive walk of btree_walk.go, as a trace.
use libhfs.Prelude.{
  ℕ, zero, suc, ◌≤◌, ◌<◌, ◌≡◌, refl, sym, ◌∙◌, ap, ◌||◌, inl, inr, Option, none, some, List, [],
  ◌∷◌, arith, ltb, ◌==◌, ◌+◌, if◌then◌else◌, length, Bool-cases,
}
use mathlib.Core.Path.{fun_ext}
use libhfs.Errors.{Result, ok, err, panic, ◌>>=◌, Result-cases}
use libhfs.Bytes.{Bytes, field32}
use libhfs.Btree.Node.{
  BtreeHeaderRecord, member, extract_node_records, node_type_idx, node_type_leaf,
}
use libhfs.Btree.Search.{Scan}
use libhfs.Btree.Search.Fuel.{unvisited, unvisited-le, visit-lt, visit-le}
use libhfs.Btree.Leaves.{
  LeafCallback, Visited, and_then, go_on, go_on_tree, read_walk_node, child_of, walk_children,
  tree_node, walk_node, scan_of, walk_tree,
}
use libhfs.Btree.Walks.Delivery.{Trace, done, seq, play_events, play, play-seq}
use libhfs.Btree.Walks.Chain.{records_trace, visit_records-play}

module _ {K : Type 0} (node_at : ℕ → ℕ → Result Bytes) (header : BtreeHeaderRecord)
    (parse : Bytes → Result (K × ℕ)) where
  child_read : Bytes → Result (Option ℕ)
  child_read rec = elim (parse rec) [
    | err e ↦ ok none
    | panic ↦ panic
    | ok (k, consumed) ↦
        let child = field32 rec consumed in
        if ltb (length rec) (consumed + 4) then ok none else (child >>= λ c. ok (some c))
  ]

  tree_read : ℕ → Result (ℕ × List Bytes)
  tree_read n = do
    (node, desc) ← read_walk_node node_at header n
    let records = extract_node_records node desc
    (if desc.node_type == node_type_idx || desc.node_type == node_type_leaf
        then (records >>= λ recs. ok (desc.node_type, recs))
        else ok (desc.node_type, []))

  tree_read-lt : (n : ℕ) {r : ℕ × List Bytes} → tree_read n ≡ ok r → n < header.total_nodes
  unfolding tree_read read_walk_node
  tree_read-lt n h = ground (arith, h)

  -- What the walk of the children of an index node plays, and the nodes that it has visited then.
  children_trace : (List ℕ → ℕ → Trace K × List ℕ) → List ℕ → List Bytes → Trace K × List ℕ
  children_trace walk visited [] = (done, visited)
  children_trace walk visited (rec ∷ recs) = elim (child_read rec) [
    | err e ↦ (([], err e), visited)
    | panic ↦ (([], panic), visited)
    | ok none ↦ children_trace walk visited recs
    | ok (some child) ↦ (
      seq (walk visited child).0 (children_trace walk (walk visited child).1 recs).0,
      (children_trace walk (walk visited child).1 recs).1,
    )
  ]

  pub tree_trace : ℕ → List ℕ → ℕ → Trace K × List ℕ
  tree_trace zero visited n = (done, visited)
  tree_trace (suc fuel) visited n =
      if member n visited then (done, visited) else elim (tree_read n) [
        | err e ↦ (([], err e), n ∷ visited)
        | panic ↦ (([], panic), n ∷ visited)
        | ok (t, recs) ↦
            if t == node_type_idx
            then children_trace (tree_trace fuel) (n ∷ visited) recs
            else (records_trace node_at header parse recs, n ∷ visited)
      ]

  -- The nodes that are not visited are no more than before.
  children_trace-le :
      (bound : ℕ) (walk : List ℕ → ℕ → Trace K × List ℕ)
      → ((visited : List ℕ) (n : ℕ)
          → unvisited header.total_nodes visited ≤ bound
          → unvisited header.total_nodes (walk visited n).1 ≤ bound)
      → (visited : List ℕ) (recs : List Bytes) → unvisited header.total_nodes visited ≤ bound
      → unvisited header.total_nodes (children_trace walk visited recs).1 ≤ bound
  unfolding children_trace
  children_trace-le bound walk f visited [] h = h
  children_trace-le bound walk f visited (rec ∷ recs) h = elim (Result-cases (child_read rec)) [
    | inr (inl (e, q)) ↦ rw (children_trace, q) h
    | inr (inr q) ↦ rw (children_trace, q) h
    | inl (none, q) ↦ rw (children_trace, q) (children_trace-le bound walk f visited recs h)
    | inl (some child, q) ↦
        rw (children_trace, q)
          (children_trace-le bound walk f (walk visited child).1 recs (f visited child h))
  ]

  tree_trace-le :
      (fuel bound : ℕ) (visited : List ℕ) (n : ℕ)
      → unvisited header.total_nodes visited ≤ bound
      → unvisited header.total_nodes (tree_trace fuel visited n).1 ≤ bound
  unfolding tree_trace
  tree_trace-le zero bound visited n h = h
  tree_trace-le (suc fuel) bound visited n h =
      let l = visit-le header.total_nodes n visited in
      elim (Bool-cases (member n visited)) [
        | inl m ↦ rw (tree_trace, m) h
        | inr m ↦ elim (Result-cases (tree_read n)) [
          | inr (inl (e, q)) ↦ rw (tree_trace, m, q) (omega (arith, h, l))
          | inr (inr q) ↦ rw (tree_trace, m, q) (omega (arith, h, l))
          | inl ((t, recs), q) ↦ elim (Bool-cases (t == node_type_idx)) [
            | inr i ↦ rw (tree_trace, m, q, i) (omega (arith, h, l))
            | inl i ↦
                rw (tree_trace, m, q, i)
                  (children_trace-le bound (tree_trace fuel)
                    (λ v n' h'. tree_trace-le fuel bound v n' h') (n ∷ visited) recs
                    (omega (arith, h, l)))
          ]
        ]
      ]

  module _ {S : Type 0} (note : S → S) (cb : LeafCallback S K) where
    abbrev scan : Option (Visited S) → Option (Scan S)
    scan = scan_of node_at header parse cb

    go_on_tree_assoc :
        (r : Option (Visited S)) (f g : List ℕ → S → Option (Visited S))
        → go_on_tree (go_on_tree r f) g ≡ go_on_tree r (λ v s. go_on_tree (f v s) g)
    go_on_tree_assoc none f g = refl
    go_on_tree_assoc (some (v, (s, ok _))) f g = refl
    go_on_tree_assoc (some (v, (s, err e))) f g = refl
    go_on_tree_assoc (some (v, (s, panic))) f g = refl

    go_on-and_then :
        (r : Scan S) (f : S → Scan S) (g : S → Option (Scan S))
        → go_on (and_then r f) g ≡ go_on r (λ s. go_on (f s) g)
    go_on-and_then (s, ok _) f g = refl
    go_on-and_then (s, err e) f g = refl
    go_on-and_then (s, panic) f g = refl

    go_on_leaf :
        (v : List ℕ) (r : Scan S) (k : List ℕ → S → Option (Visited S))
        → scan (go_on_tree (some (v, r)) k) ≡ go_on r (λ s. scan (k v s))
    go_on_leaf v (s, ok _) k = refl
    go_on_leaf v (s, err e) k = refl
    go_on_leaf v (s, panic) k = refl

    -- A walk plays a trace and goes on with the nodes that it visited.
    abbrev Plays : Option (Visited S) → Trace K × List ℕ → S → Type 0
    Plays r (t, v) s =
        (k : List ℕ → S → Option (Visited S))
        → scan (go_on_tree r k) ≡ go_on (play note cb t s) (λ s'. scan (k v s'))

    walk_children-Plays :
        (bound : ℕ) (walk : List ℕ → S → ℕ → Option (Visited S))
        (traces : List ℕ → ℕ → Trace K × List ℕ)
        → ((visited : List ℕ) (s : S) (n : ℕ)
            → unvisited header.total_nodes visited ≤ bound
            → Plays (walk visited s n) (traces visited n) s)
        → ((visited : List ℕ) (n : ℕ)
            → unvisited header.total_nodes visited ≤ bound
            → unvisited header.total_nodes (traces visited n).1 ≤ bound)
        → (visited : List ℕ) (s : S) (recs : List Bytes)
        → unvisited header.total_nodes visited ≤ bound
        → Plays
            (walk_children node_at header parse cb walk visited s recs)
            (children_trace traces visited recs)
            s
    unfolding walk_children children_trace child_of child_read play_events
    walk_children-Plays bound walk traces f le visited s [] h k = refl
    walk_children-Plays bound walk traces f le visited s (rec ∷ recs) h k =
        elim (Result-cases (child_read rec)) [
          | inr (inl (e, q)) ↦ rw (children_trace, walk_children, q) refl
          | inr (inr q) ↦ rw (children_trace, walk_children, q) refl
          | inl (none, q) ↦
              rw (children_trace, walk_children, q)
                (walk_children-Plays bound walk traces f le visited s recs h k)
          | inl (some child, q) ↦
              let t = (traces visited child).0 in
              let v = (traces visited child).1 in
              let u = (children_trace traces v recs).0 in
              let later = λ (s' : S). scan (k (children_trace traces v recs).1 s') in
              rw (children_trace, walk_children, q)
                (ap scan (
                    go_on_tree_assoc (walk visited s child)
                      (λ v' s'. walk_children node_at header parse cb walk v' s' recs) k)
                  ∙ f visited s child h (λ v' s'.
                    go_on_tree (walk_children node_at header parse cb walk v' s' recs) k)
                  ∙ ap (go_on (play note cb t s)) (
                      fun_ext (λ s'.
                        walk_children-Plays bound walk traces f le v s' recs (le visited child h)
                          k))
                  ∙ sym (
                      ap (λ r. go_on r later) (play-seq note cb t u s)
                      ∙ go_on-and_then (play note cb t s) (play note cb u) later))
        ]

    walk_node-Plays :
        (fuel bound : ℕ) (visited : List ℕ) (s : S) (n : ℕ)
        → unvisited header.total_nodes visited ≤ bound
        → bound < fuel
        → Plays (walk_node node_at header parse cb fuel visited s n) (tree_trace fuel visited n) s
    unfolding walk_node tree_trace tree_node tree_read play_events
    walk_node-Plays zero bound visited s n u h k = absurd (omega (arith, h))
    walk_node-Plays (suc fuel) bound visited s n u h k = elim (Bool-cases (member n visited)) [
      | inl m ↦ rw (walk_node, tree_trace, m) refl
      | inr m ↦ elim (Result-cases (tree_read n)) [
        | inr (inl (e, q)) ↦ rw (walk_node, tree_trace, m, q) refl
        | inr (inr q) ↦ rw (walk_node, tree_trace, m, q) refl
        | inl ((t, recs), q) ↦ elim (Bool-cases (t == node_type_idx)) [
          | inr i ↦
              rw
                (
                  walk_node,
                  tree_trace,
                  m,
                  q,
                  i,
                  visit_records-play node_at header parse note cb recs s,
                )
                (go_on_leaf (n ∷ visited) (play note cb (records_trace node_at header parse recs) s)
                  k)
          | inl i ↦
              let l = visit-lt header.total_nodes n visited m (tree_read-lt n q) in
              let b = unvisited header.total_nodes (n ∷ visited) in
              rw (walk_node, tree_trace, m, q, i)
                (walk_children-Plays b (walk_node node_at header parse cb fuel) (tree_trace fuel)
                  (λ v s' n' h'. walk_node-Plays fuel b v s' n' h' (omega (arith, h, l, u)))
                  (λ v n' h'. tree_trace-le fuel b v n' h') (n ∷ visited) s recs (omega arith) k)
        ]
      ]
    ]

    go_on_tree_ok :
        (r : Option (Visited S)) → scan (go_on_tree r (λ v s. some (v, (s, ok tt)))) ≡ scan r
    go_on_tree_ok none = refl
    go_on_tree_ok (some (v, (s, ok _))) = refl
    go_on_tree_ok (some (v, (s, err e))) = refl
    go_on_tree_ok (some (v, (s, panic))) = refl

    go_on_ok : (r : Scan S) → go_on r (λ s. some (s, ok tt)) ≡ some r
    go_on_ok (s, ok _) = refl
    go_on_ok (s, err e) = refl
    go_on_ok (s, panic) = refl

    pub walk_tree-play :
        (s : S)
        → walk_tree node_at header parse cb s
          ≡ some (play note cb (tree_trace (suc header.total_nodes) [] header.root_node).0 s)
    unfolding walk_tree
    walk_tree-play s =
        let start = suc header.total_nodes in
        sym (go_on_tree_ok (walk_node node_at header parse cb start [] s header.root_node))
        ∙ walk_node-Plays start header.total_nodes [] s header.root_node
            (unvisited-le header.total_nodes []) (omega arith) (λ v s'. some (v, (s', ok tt)))
        ∙ go_on_ok (play note cb (tree_trace start [] header.root_node).0 s)
