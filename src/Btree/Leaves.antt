-- ===== src/Btree/Leaves.antt =====
-- The linear walks of btree_walk.go and attributes.go along the leaf chain, and the keyed walks of
-- btree_search.go that fall back to them. The walks of the three trees differ in their key parser.
pub mod Fuel
use libhfs.Prelude.{
  ℕ, zero, suc, ◌+◌, ◌%◌, ◌^◌, ◌≡◌, ◌≢◌, refl, inl, inr, ◌⊎◌, Bool, true, false, not, ◌&&◌, ◌||◌,
  Option, none, some, List, [], ◌∷◌, ltb, leb, ◌==◌, if◌then◌else◌, length,
}
use libhfs.Errors.{
  Error, sentinel, parse_error, callback_error, wrapped, foreign, invalid_btree_node, Result, ok,
  err, panic, ◌>>=◌, fail,
}
use libhfs.Bytes.{Bytes, slice, field32}
use libhfs.Extents.{FileSystemKind, hfs, hfs_plus, hfsx}
use libhfs.Btree.Keys.{
  CatalogKey, ExtentsKey, AttributesKey, parse_catalog_key_for_kind, parse_extents_key_for_kind,
  parse_attributes_key,
}
use libhfs.Btree.Order.{compare_catalog_keys, compare_extents_keys, compare_attributes_keys}
use libhfs.Btree.Node.{
  BtreeHeaderRecord, node_type_idx, node_type_leaf, parse_btree_node_descriptor,
  extract_node_records, member,
}
use libhfs.Btree.Search.{KeyOps, Node, Scan, Visit, scan_from}

-- A callback: its new state and the error that it returns.
abbrev pub LeafCallback : Type 0 → Type 0 → Type 0
LeafCallback S K = S → K → Bytes → S × Result (Unit {0})

-- Go on unless an error ends the walk.
abbrev pub and_then : {S : Type 0} → Scan S → (S → Scan S) → Scan S
and_then (s, ok _) k = k s
and_then (s, err e) k = (s, err e)
and_then (s, panic) k = (s, panic)

abbrev pub go_on : {S : Type 0} → Scan S → (S → Option (Scan S)) → Option (Scan S)
go_on (s, ok _) k = k s
go_on (s, err e) k = some (s, err e)
go_on (s, panic) k = some (s, panic)

-- What a recursive walk leaves: the nodes visited, and how it ended.
abbrev pub Visited : Type 0 → Type 0
Visited S = List ℕ × Scan S

-- Go on with the next record unless an error ended the walk of a child.
abbrev pub go_on_tree :
    {S : Type 0} → Option (Visited S) → (List ℕ → S → Option (Visited S)) → Option (Visited S)
go_on_tree none k = none
go_on_tree (some (visited, (s, ok _))) k = k visited s
go_on_tree (some (visited, (s, err e))) k = some (visited, (s, err e))
go_on_tree (some (visited, (s, panic))) k = some (visited, (s, panic))

-- readNode of the walk states.
unfoldable pub read_walk_node : (ℕ → ℕ → Result Bytes) → BtreeHeaderRecord → ℕ → Result Node
read_walk_node node_at header node_num =
    if leb header.total_nodes node_num
    then fail "read_btree_node" node_num invalid_btree_node
    else (do
      node ← node_at node_num header.node_size
      desc ← parse_btree_node_descriptor node
      ok (node, desc))

module _ {K S : Type 0} (node_at : ℕ → ℕ → Result Bytes) (header : BtreeHeaderRecord)
    (parse : Bytes → Result (K × ℕ)) where
  module _ (cb : LeafCallback S K) where
    -- One record: one that does not parse is passed over.
    unfoldable pub visit_record : S → Bytes → Scan S
    visit_record s rec = elim (parse rec) [
      | err e ↦ (s, ok tt)
      | panic ↦ (s, panic)
      | ok (key, consumed) ↦
          let payload = slice rec consumed (length rec) in
          if ltb (length rec) consumed
          then (s, ok tt)
          else elim payload [ ok bytes ↦ cb s key bytes | err e ↦ (s, err e) | panic ↦ (s, panic) ]
    ]

    unfoldable pub visit_records : S → List Bytes → Scan S
    visit_records s [] = (s, ok tt)
    visit_records s (rec ∷ recs) = and_then (visit_record s rec) (λ s'. visit_records s' recs)

    -- The records of a node and the number of the next one.
    unfoldable pub leaf_node : ℕ → Result (List Bytes × ℕ)
    leaf_node node_num = do
      (node, desc) ← read_walk_node node_at header node_num
      recs ← extract_node_records node desc
      ok (recs, desc.forward_link)

    -- The same in walkAttributesLeafChain, which reads any node that it is led to; the number of a
    -- node is a uint32.
    unfoldable pub attribute_node : ℕ → Result (List Bytes × ℕ)
    attribute_node node_num = do
      node ← node_at node_num header.node_size
      desc ← parse_btree_node_descriptor node
      recs ← extract_node_records node desc
      ok (recs, desc.forward_link % 2 ^ 32)

    -- The loop of walkCatalogLeafChain, walkExtentsLeafChain and walkAttributesLeafChain, on fuel;
    -- `read` is how they read a node.
    unfoldable pub walk_leaves :
        (ℕ → Result (List Bytes × ℕ)) → ℕ → List ℕ → S → ℕ → Option (Scan S)
    walk_leaves read zero visited s node_num = none
    walk_leaves read (suc fuel) visited s node_num =
        if node_num == 0
        then some (s, ok tt)
        else if member node_num visited
        then some (s, ok tt)
        else elim (read node_num) [
          | err e ↦ some (s, err e)
          | panic ↦ some (s, panic)
          | ok (recs, link) ↦
              go_on (visit_records s recs)
                (λ s'. walk_leaves read fuel (node_num ∷ visited) s' link)
        ]

    unfoldable pub walk_leaf_chain : S → Option (Scan S)
    walk_leaf_chain s = walk_leaves leaf_node (suc header.total_nodes) [] s header.first_leaf_node

    -- Room for every uint32, and one round more.
    unfoldable pub attribute_rounds : ℕ
    attribute_rounds = 2 ^ 32 + 1

    unfoldable pub walk_attribute_chain : S → Option (Scan S)
    walk_attribute_chain s =
        walk_leaves attribute_node attribute_rounds [] s (header.first_leaf_node % 2 ^ 32)

    -- The child of an index record; one that does not parse or is too short is passed over.
    unfoldable pub child_of : Bytes → Result (Option ℕ)
    child_of rec = elim (parse rec) [
      | err e ↦ ok none
      | panic ↦ panic
      | ok (k, consumed) ↦
          let child = field32 rec consumed in
          if ltb (length rec) (consumed + 4) then ok none else (child >>= λ c. ok (some c))
    ]

    -- The loop over the records of an index node, with the walk of a child.
    unfoldable pub walk_children :
        (List ℕ → S → ℕ → Option (Visited S)) → List ℕ → S → List Bytes → Option (Visited S)
    walk_children walk visited s [] = some (visited, (s, ok tt))
    walk_children walk visited s (rec ∷ recs) = elim (child_of rec) [
      | err e ↦ some (visited, (s, err e))
      | panic ↦ some (visited, (s, panic))
      | ok none ↦ walk_children walk visited s recs
      | ok (some child) ↦
          go_on_tree (walk visited s child) (λ visited' s'. walk_children walk visited' s' recs)
    ]

    -- A node's type and records. (Nodes of other types have their records left alone.)
    unfoldable pub tree_node : ℕ → Result (ℕ × List Bytes)
    tree_node node_num = do
      (node, desc) ← read_walk_node node_at header node_num
      let records = extract_node_records node desc
      (if desc.node_type == node_type_idx || desc.node_type == node_type_leaf
          then (records >>= λ recs. ok (desc.node_type, recs))
          else ok (desc.node_type, []))

    -- walkNode, on fuel for the depth of the recursion.
    unfoldable pub walk_node : ℕ → List ℕ → S → ℕ → Option (Visited S)
    walk_node zero visited s node_num = none
    walk_node (suc fuel) visited s node_num =
        if member node_num visited then some (visited, (s, ok tt)) else elim (tree_node node_num) [
          | err e ↦ some (node_num ∷ visited, (s, err e))
          | panic ↦ some (node_num ∷ visited, (s, panic))
          | ok (t, recs) ↦
              if t == node_type_idx
              then walk_children (walk_node fuel) (node_num ∷ visited) s recs
              else some (node_num ∷ visited, visit_records s recs)
        ]

    abbrev pub scan_of : Option (Visited S) → Option (Scan S)
    scan_of none = none
    scan_of (some (visited, r)) = some r

    -- walkNode from the root.
    unfoldable pub walk_tree : S → Option (Scan S)
    walk_tree s = scan_of (walk_node (suc header.total_nodes) [] s header.root_node)

-- unwrapSearchErr: `some r` is what to return, `none` asks for the linear walk.
unfoldable pub unwrap_search_err : Error → Option Error
unwrap_search_err (callback_error e) = some e
unwrap_search_err (parse_error op off e) = unwrap_search_err e
unwrap_search_err (wrapped n e) = unwrap_search_err e
unwrap_search_err (sentinel x) = none
unwrap_search_err (foreign n) = none

module _ {K S : Type 0} (node_at : ℕ → ℕ → Result Bytes) (header : BtreeHeaderRecord)
    (ops : KeyOps K) (past same : K → Bool) (cb : LeafCallback S K)
    (linear : LeafCallback S K → S → Option (Scan S)) where
  -- The callback of a keyed walk: it stops at a key that is `past` the run, and passes on only the
  -- `same` keys.
  abbrev pub keyed : Visit S K
  keyed s k payload =
      let (s', r) = cb s k payload in
      if past k then (s, ok false) else if same k then (s', r >>= λ _. ok true) else (s, ok true)

  -- The callback of the linear walk.
  abbrev pub filtered : LeafCallback S K
  filtered s k payload = if same k then cb s k payload else (s, ok tt)

  -- What a scan's end leads to: its result, or the linear walk from the state it left.
  abbrev pub or_linear : Scan S → Option (Scan S)
  or_linear (s, ok _) = some (s, ok tt)
  or_linear (s, panic) = some (s, panic)
  or_linear (s, err e) = elim (unwrap_search_err e) [
    | some e' ↦ some (s, err e')
    | none ↦ linear filtered s
  ]

  -- The keyed walk of a tree whose searcher could be built, before it notes the anomaly of a
  -- linear walk.
  unfoldable pub walk_keyed : K → S → Option (Scan S)
  walk_keyed target s = elim (scan_from node_at header ops keyed target s) [
    | none ↦ none
    | some r ↦ or_linear r
  ]

module _ {S : Type 0} (node_at : ℕ → ℕ → Result Bytes) (header : BtreeHeaderRecord) where
  unfoldable pub walk_catalog_leaf_chain :
      FileSystemKind → LeafCallback S CatalogKey → S → Option (Scan S)
  walk_catalog_leaf_chain kind = walk_leaf_chain node_at header (parse_catalog_key_for_kind kind)

  unfoldable pub walk_extents_leaf_chain :
      FileSystemKind → LeafCallback S ExtentsKey → S → Option (Scan S)
  walk_extents_leaf_chain kind = walk_leaf_chain node_at header (parse_extents_key_for_kind kind)

  -- `decode` turns the code units of a name into a Go string.
  unfoldable pub walk_attributes_leaf_chain :
      (List ℕ → Bytes) → LeafCallback S AttributesKey → S → Option (Scan S)
  walk_attributes_leaf_chain decode =
      walk_attribute_chain node_at header (parse_attributes_key decode)

  unfoldable pub walk_catalog_btree :
      FileSystemKind → LeafCallback S CatalogKey → S → Option (Scan S)
  walk_catalog_btree hfs = walk_catalog_leaf_chain hfs
  walk_catalog_btree kind = λ cb. walk_tree node_at header (parse_catalog_key_for_kind kind) cb

  unfoldable pub walk_extents_btree :
      FileSystemKind → LeafCallback S ExtentsKey → S → Option (Scan S)
  walk_extents_btree hfs = walk_extents_leaf_chain hfs
  walk_extents_btree kind = λ cb. walk_tree node_at header (parse_extents_key_for_kind kind) cb

  unfoldable pub walk_catalog_children :
      FileSystemKind → ℕ → LeafCallback S CatalogKey → S → Option (Scan S)
  walk_catalog_children kind parent cb =
      walk_keyed node_at header
        (record { parse = parse_catalog_key_for_kind kind; compare = compare_catalog_keys })
        (λ k. not (k.parent_cnid == parent)) (λ k. k.parent_cnid == parent) cb
        (walk_catalog_btree kind)
        (record { key_length = 0; parent_cnid = parent; name_utf16 = []; name_bytes = [] })

  unfoldable pub walk_extents_for_fork :
      FileSystemKind → ℕ → ℕ → LeafCallback S ExtentsKey → S → Option (Scan S)
  walk_extents_for_fork kind file_id fork_type cb =
      walk_keyed node_at header
        (record { parse = parse_extents_key_for_kind kind; compare = compare_extents_keys })
        (λ k. not (k.file_id == file_id)) (λ k. k.file_id == file_id && k.fork_type == fork_type) cb
        (walk_extents_btree kind)
        (record { key_length = 0; fork_type = fork_type; file_id = file_id; start_block = 0 })

  unfoldable pub walk_attributes_for_file :
      (List ℕ → Bytes) → ℕ → LeafCallback S AttributesKey → S → Option (Scan S)
  walk_attributes_for_file decode file_id cb =
      walk_keyed node_at header
        (record { parse = parse_attributes_key decode; compare = compare_attributes_keys })
        (λ k. not (k.file_id == file_id)) (λ k. k.file_id == file_id) cb
        (walk_attributes_leaf_chain decode)
        (record { file_id = file_id; start_block = 0; name = [] })
