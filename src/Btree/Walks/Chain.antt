-- ===== src/Btree/Walks/Chain.antt =====
-- The leaf chain of btree_walk.go, as a trace.
use libhfs.Prelude.{
  ℕ, zero, suc, ◌+◌, ◌%◌, ◌^◌, ◌<◌, ◌≡◌, refl, sym, ◌∙◌, ap, inl, inr, some, List, [], ◌∷◌, arith,
  ltb, ◌==◌, if◌then◌else◌, length, Bool-cases,
}
use mathlib.Core.Path.{fun_ext}
use libhfs.Errors.{Result, ok, err, panic, ◌>>=◌, Result-cases}
use libhfs.Bytes.{Bytes, slice}
use libhfs.Btree.Node.{BtreeHeaderRecord, member, extract_node_records, parse_btree_node_descriptor}
use libhfs.Btree.Search.{Scan}
use libhfs.Btree.Search.Fuel.{unvisited, unvisited-le, visit-lt}
use libhfs.Btree.Leaves.{
  LeafCallback, and_then, go_on, read_walk_node, visit_record, visit_records, leaf_node,
  walk_leaves, walk_leaf_chain, attribute_node, attribute_rounds, walk_attribute_chain,
}
use libhfs.Btree.Walks.Delivery.{item, Trace, done, seq, play_events, play, play-seq}

module _ {K : Type 0} (node_at : ℕ → ℕ → Result Bytes) (header : BtreeHeaderRecord)
    (parse : Bytes → Result (K × ℕ)) where
  payload_trace : K → Result Bytes → Trace K
  payload_trace k (ok b) = (item k b ∷ [], ok tt)
  payload_trace k (err e) = ([], err e)
  payload_trace k panic = ([], panic)

  parsed_trace : Bytes → Result (K × ℕ) → Trace K
  parsed_trace rec (err e) = done
  parsed_trace rec panic = ([], panic)
  parsed_trace rec (ok (k, consumed)) =
      if ltb (length rec) consumed then done else payload_trace k (slice rec consumed (length rec))

  pub records_trace : List Bytes → Trace K
  records_trace [] = done
  records_trace (rec ∷ recs) = seq (parsed_trace rec (parse rec)) (records_trace recs)

  module _ {S : Type 0} (note : S → S) (cb : LeafCallback S K) where
    pub and_then_ok : (r : Scan S) → and_then r (λ s. (s, ok tt)) ≡ r
    and_then_ok (s, ok _) = refl
    and_then_ok (s, err e) = refl
    and_then_ok (s, panic) = refl

    visit_record-play :
        (rec : Bytes) (s : S)
        → visit_record node_at header parse cb s rec ≡ play note cb (parsed_trace rec (parse rec)) s
    unfolding visit_record parsed_trace payload_trace play_events
    visit_record-play rec s = elim (Result-cases (parse rec)) [
      | inr (inl (e, q)) ↦ rw (visit_record, q) refl
      | inr (inr q) ↦ rw (visit_record, q) refl
      | inl ((k, consumed), q) ↦ elim (Bool-cases (ltb (length rec) consumed)) [
        | inl l ↦ rw (visit_record, q, l) refl
        | inr l ↦ elim (Result-cases (slice rec consumed (length rec))) [
          | inl (b, p) ↦ rw (visit_record, q, l, p) (sym (and_then_ok (cb s k b)))
          | inr (inl (e, p)) ↦ rw (visit_record, q, l, p) refl
          | inr (inr p) ↦ rw (visit_record, q, l, p) refl
        ]
      ]
    ]

    pub visit_records-play :
        (recs : List Bytes) (s : S)
        → visit_records node_at header parse cb s recs ≡ play note cb (records_trace recs) s
    unfolding visit_records records_trace play_events
    visit_records-play [] s = refl
    visit_records-play (rec ∷ recs) s =
        rw (visit_record-play rec s, fun_ext (visit_records-play recs))
          (sym (play-seq note cb (parsed_trace rec (parse rec)) (records_trace recs) s))

    pub go_on-some : (r : Scan S) (f : S → Scan S) → go_on r (λ s. some (f s)) ≡ some (and_then r f)
    go_on-some (s, ok _) f = refl
    go_on-some (s, err e) f = refl
    go_on-some (s, panic) f = refl

  leaf_read : ℕ → Result (List Bytes × ℕ)
  leaf_read n = do
    (node, desc) ← read_walk_node node_at header n
    recs ← extract_node_records node desc
    ok (recs, desc.forward_link)

  leaf_read-lt : (n : ℕ) {r : List Bytes × ℕ} → leaf_read n ≡ ok r → n < header.total_nodes
  unfolding leaf_read read_walk_node
  leaf_read-lt n h = ground (arith, h)

  attribute_read : ℕ → Result (List Bytes × ℕ)
  attribute_read n = do
    node ← node_at n header.node_size
    desc ← parse_btree_node_descriptor node
    recs ← extract_node_records node desc
    ok (recs, desc.forward_link % 2 ^ 32)

  attribute_read-lt :
      (n : ℕ) {recs : List Bytes} {link : ℕ} → attribute_read n ≡ ok (recs, link) → link < 2 ^ 32
  unfolding attribute_read
  attribute_read-lt n h = ground (arith, h)

  module _ (read : ℕ → Result (List Bytes × ℕ)) where
    -- The trace of a chain of leaves from one of them on.
    links_trace : ℕ → List ℕ → ℕ → Trace K
    links_trace zero visited n = done
    links_trace (suc fuel) visited n =
        if n == 0 then done else if member n visited then done else elim (read n) [
          | err e ↦ ([], err e)
          | panic ↦ ([], panic)
          | ok (recs, link) ↦ seq (records_trace recs) (links_trace fuel (n ∷ visited) link)
        ]

    module _ {S : Type 0} (note : S → S) (cb : LeafCallback S K) (bound : ℕ) (In : ℕ → Type 0)
        (leads : (n : ℕ) (recs : List Bytes) (link : ℕ)
          → In n
          → read n ≡ ok (recs, link)
          → (n < bound) × In link) where
      walk_leaves-play :
          (fuel : ℕ) (visited : List ℕ) (n : ℕ) (s : S)
          → In n
          → unvisited bound visited < fuel
          → walk_leaves node_at header parse cb read fuel visited s n
            ≡ some (play note cb (links_trace fuel visited n) s)
      unfolding walk_leaves links_trace play_events
      walk_leaves-play zero visited n s i h = absurd (omega arith)
      walk_leaves-play (suc fuel) visited n s i h = elim (Bool-cases (n == 0)) [
        | inl z ↦ rw (z) refl
        | inr z ↦ elim (Bool-cases (member n visited)) [
          | inl m ↦ rw (z, m) refl
          | inr m ↦ elim (Result-cases (read n)) [
            | inr (inl (e, q)) ↦ rw (z, m, q) refl
            | inr (inr q) ↦ rw (z, m, q) refl
            | inl ((recs, link), q) ↦
                let (below, after) = leads n recs link i q in
                let l = visit-lt bound n visited m below in
                rw
                  (
                    z,
                    m,
                    q,
                    visit_records-play note cb recs s,
                    fun_ext (λ s'.
                        walk_leaves-play fuel (n ∷ visited) link s' after (omega (arith, h, l))),
                  )
                  (go_on-some note cb (play note cb (records_trace recs) s)
                      (play note cb (links_trace fuel (n ∷ visited) link))
                    ∙ ap some (
                        sym (
                          play-seq note cb (records_trace recs)
                            (links_trace fuel (n ∷ visited) link) s)))
          ]
        ]
      ]

      walk_from-play :
          (fuel n : ℕ) (s : S)
          → In n
          → bound < fuel
          → walk_leaves node_at header parse cb read fuel [] s n
            ≡ some (play note cb (links_trace fuel [] n) s)
      walk_from-play fuel n s i h =
          walk_leaves-play fuel [] n s i (omega (arith, h, unvisited-le bound []))

  -- The traces of walkCatalogLeafChain and walkExtentsLeafChain, and of walkAttributesLeafChain.
  pub chain_trace : Trace K
  chain_trace = links_trace leaf_read (suc header.total_nodes) [] header.first_leaf_node

  rounds : ℕ
  rounds = 2 ^ 32 + 1

  pub attribute_chain_trace : Trace K
  attribute_chain_trace = links_trace attribute_read rounds [] (header.first_leaf_node % 2 ^ 32)

  module _ {S : Type 0} (note : S → S) (cb : LeafCallback S K) where
    pub walk_leaf_chain-play :
        (s : S) → walk_leaf_chain node_at header parse cb s ≡ some (play note cb chain_trace s)
    unfolding walk_leaf_chain chain_trace leaf_node leaf_read
    walk_leaf_chain-play s =
        walk_from-play leaf_read note cb header.total_nodes (λ n. Unit)
          (λ n recs link i q. (leaf_read-lt n q, tt)) (suc header.total_nodes)
          header.first_leaf_node s tt (omega arith)

    pub walk_attribute_chain-play :
        (s : S)
        → walk_attribute_chain node_at header parse cb s
          ≡ some (play note cb attribute_chain_trace s)
    unfolding walk_attribute_chain attribute_chain_trace attribute_rounds rounds attribute_node
        attribute_read
    walk_attribute_chain-play s =
        walk_from-play attribute_read note cb (2 ^ 32) (λ n. n < 2 ^ 32)
          (λ n recs link i q. (i, attribute_read-lt n q)) rounds (header.first_leaf_node % 2 ^ 32) s
          (omega arith) (omega arith)
