-- ===== src/Btree/Walks/Fallback.antt =====
-- The walks of a volume's catalog as their callbacks see them: walkCatalogChildren of
-- btree_search.go, and walkCatalogBTree and walkCatalogLeafChain of btree_walk.go.
use libhfs.Prelude.{
  ℕ, suc, ◌≡◌, refl, sym, ◌∙◌, ap, inl, inr, Option, none, some, List, [], ◌∷◌, ◌++◌, ◌==◌, not,
  Bool, Bool-cases, Option-cases,
}
use mathlib.Core.Path.{fun_ext}
use libhfs.Errors.{Result, ok, err, panic}
use libhfs.Bytes.{Bytes}
use libhfs.Extents.{FileSystemKind, hfs, hfs_plus, hfsx}
use libhfs.Btree.Keys.{
  CatalogKey, AttributesKey, parse_attributes_key, parse_catalog_key, parse_catalog_key_for_kind,
}
use libhfs.Btree.Node.{BtreeHeaderRecord}
use libhfs.Btree.Order.{compare_catalog_keys, compare_attributes_keys}
use libhfs.Btree.Search.{KeyOps, Scan}
use libhfs.Btree.Leaves.{
  LeafCallback, and_then, go_on, filtered, or_linear, walk_keyed, unwrap_search_err,
  walk_catalog_leaf_chain, walk_catalog_btree, walk_attributes_leaf_chain,
}
use libhfs.Btree.Walks.{
  Walk, Opened, ended, over_tree, children_scan, children_of, records_of, chain_of,
  catalog_children, catalog_records, catalog_leaf_chain, attributes_of_file, attributes_chain,
  attributes_for_file, attributes_leaf_chain,
}
use libhfs.Btree.Walks.Delivery.{
  Event, item, fell_back, Trace, play_events, play_events-append, play, keep, keep-AreOf, AreOf,
  append-AreOf, Delivers,
}
use libhfs.Btree.Walks.Chain.{
  chain_trace, attribute_chain_trace, walk_leaf_chain-play, walk_attribute_chain-play, go_on-some,
}
use libhfs.Btree.Walks.Tree.{tree_trace, walk_tree-play}
use libhfs.Btree.Walks.Keyed.Kept.{scan_trace-AreOf}
use libhfs.Btree.Walks.Keyed.{scan_trace, wrap, scan-play}

module _ {K : Type 0} (node_at : ℕ → ℕ → Result Bytes) (header : BtreeHeaderRecord) (ops : KeyOps K)
    (past same : K → Bool) (target : K) (whole : Trace K) where
  -- What follows a scan that ends with `r`: the linear walk, if descent failed.
  after_scan : Result (Unit {0}) → Trace K
  after_scan (ok _) = ([], ok tt)
  after_scan panic = ([], panic)
  after_scan (err e) = elim (unwrap_search_err e) [
    | some e' ↦ ([], err e')
    | none ↦ (fell_back ∷ keep same whole.0, whole.1)
  ]

  pub keyed_trace : Trace K
  keyed_trace = (
    (scan_trace node_at header ops past same target).0
        ++ (after_scan (scan_trace node_at header ops past same target).1).0,
    (after_scan (scan_trace node_at header ops past same target).1).1,
  )

  after_scan-AreOf : (r : Result (Unit {0})) → AreOf same (after_scan r).0
  unfolding after_scan
  after_scan-AreOf (ok _) = tt
  after_scan-AreOf panic = tt
  after_scan-AreOf (err e) = elim (Option-cases (unwrap_search_err e)) [
    | inr (e', q) ↦ rw (after_scan, q) tt
    | inl q ↦ rw (after_scan, q) (keep-AreOf same whole.0)
  ]

  pub keyed_trace-AreOf : AreOf same keyed_trace.0
  unfolding keyed_trace
  keyed_trace-AreOf =
      let t = scan_trace node_at header ops past same target in
      append-AreOf same t.0 (after_scan t.1).0
        (scan_trace-AreOf node_at header ops past same target) (after_scan-AreOf t.1)

  module _ {S : Type 0} (note : S → S) (cb : LeafCallback S K)
      (linear : LeafCallback S K → S → Option (Scan S)) where
    abbrev pub or_else : Scan S → Option (Scan S)
    or_else = or_linear node_at header ops past same cb linear

    play-keep :
        (es : List (Event K)) (final : Result (Unit {0})) (s : S)
        → play note (filtered node_at header ops past same cb linear) (es, final) s
          ≡ play note cb (keep same es, final) s
    unfolding play_events
    play-keep [] final s = refl
    play-keep (item k b ∷ es) final s = elim (Bool-cases (same k)) [
      | inl q ↦ rw (q) (ap (and_then (cb s k b)) (fun_ext (play-keep es final)))
      | inr q ↦ rw (q) (play-keep es final s)
    ]
    play-keep (fell_back ∷ es) final s = play-keep es final (note s)

    or_linear-wrap :
        (sc : Scan S) (r : Result (Unit {0}))
        → or_else (wrap node_at header ops past same target note cb sc r)
          ≡ go_on sc (λ s. or_else (s, r))
    unfolding unwrap_search_err
    or_linear-wrap (s, ok _) r = refl
    or_linear-wrap (s, err e) r = refl
    or_linear-wrap (s, panic) r = refl

    module _
        (plays : (cb' : LeafCallback S K) (s : S)
          → linear cb' s ≡ some (play note cb' whole (note s))) where
      or_linear-play :
          (r : Result (Unit {0})) (s : S) → or_else (s, r) ≡ some (play note cb (after_scan r) s)
      unfolding after_scan play_events
      or_linear-play (ok _) s = refl
      or_linear-play panic s = refl
      or_linear-play (err e) s = elim (Option-cases (unwrap_search_err e)) [
        | inr (e', q) ↦ rw (or_linear, after_scan, q) refl
        | inl q ↦
            rw (or_linear, after_scan, q)
              (plays (filtered node_at header ops past same cb linear) s
                ∙ ap some (play-keep whole.0 whole.1 (note s)))
      ]

      pub walk_keyed-play :
          (s : S)
          → walk_keyed node_at header ops past same cb linear target s
            ≡ some (play note cb keyed_trace s)
      unfolding walk_keyed keyed_trace
      walk_keyed-play s =
          let t = scan_trace node_at header ops past same target in
          rw (walk_keyed, scan-play node_at header ops past same target note cb s)
            (or_linear-wrap (play note cb (t.0, ok tt) s) t.1
              ∙ ap (go_on (play note cb (t.0, ok tt) s)) (fun_ext (or_linear-play t.1))
              ∙ go_on-some node_at header ops.parse note cb (play note cb (t.0, ok tt) s)
                  (play note cb (after_scan t.1))
              ∙ ap some
                  (sym (play_events-append note cb t.0 (after_scan t.1).0 (after_scan t.1).1 s)))

-- The trace of walkCatalogLeafChain, and that of walkCatalogBTree.
pub leaf_trace : FileSystemKind → Opened → Trace CatalogKey
leaf_trace kind (header, node_at) = chain_trace node_at header (parse_catalog_key_for_kind kind)

pub whole_trace : FileSystemKind → Opened → Trace CatalogKey
whole_trace hfs t = leaf_trace hfs t
whole_trace hfs_plus (header, node_at) =
    (tree_trace node_at header parse_catalog_key (suc header.total_nodes) [] header.root_node).0
whole_trace hfsx (header, node_at) =
    (tree_trace node_at header parse_catalog_key (suc header.total_nodes) [] header.root_node).0

pub children_trace : FileSystemKind → ℕ → Opened → Trace CatalogKey
children_trace kind parent (header, node_at) =
    keyed_trace node_at header
      (record { parse = parse_catalog_key_for_kind kind; compare = compare_catalog_keys })
      (λ k. not (k.parent_cnid == parent)) (λ k. k.parent_cnid == parent)
      (record { key_length = 0; parent_cnid = parent; name_utf16 = []; name_bytes = [] })
      (whole_trace kind (header, node_at))

module _ {S : Type 0} (note : S → S) (cb : LeafCallback S CatalogKey) where
  leaf_chain-play :
      (kind : FileSystemKind) (header : BtreeHeaderRecord) (node_at : ℕ → ℕ → Result Bytes) (s : S)
      → walk_catalog_leaf_chain node_at header kind cb s
        ≡ some (play note cb (leaf_trace kind (header, node_at)) s)
  unfolding walk_catalog_leaf_chain leaf_trace
  leaf_chain-play kind header node_at s =
      walk_leaf_chain-play node_at header (parse_catalog_key_for_kind kind) note cb s

  whole-play :
      (kind : FileSystemKind) (header : BtreeHeaderRecord) (node_at : ℕ → ℕ → Result Bytes) (s : S)
      → walk_catalog_btree node_at header kind cb s
        ≡ some (play note cb (whole_trace kind (header, node_at)) s)
  unfolding walk_catalog_btree whole_trace parse_catalog_key_for_kind
  whole-play hfs header node_at s = leaf_chain-play hfs header node_at s
  whole-play hfs_plus header node_at s = walk_tree-play node_at header parse_catalog_key note cb s
  whole-play hfsx header node_at s = walk_tree-play node_at header parse_catalog_key note cb s

-- What a tree that does not open leaves to play.
opened_trace : {K : Type 0} → Result Opened → (Opened → Trace K) → Trace K
opened_trace (ok t) f = f t
opened_trace (err e) f = ([], err e)
opened_trace panic f = ([], panic)

over_tree-Delivers :
    {K : Type 0} (tree : Result Opened) (w : Opened → Walk K) (f : Opened → Trace K)
    → ((t : Opened) (S : Type 0) (note : S → S) (cb : LeafCallback S K) (s : S)
        → w t S note cb s ≡ play note cb (f t) s)
    → Delivers (over_tree tree w)
unfolding opened_trace play_events
over_tree-Delivers (ok t) w f h = record { trace = f t; plays = h t }
over_tree-Delivers (err e) w f h = record { trace = ([], err e); plays = λ S note cb s. refl }
over_tree-Delivers panic w f h = record { trace = ([], panic); plays = λ S note cb s. refl }

children_scan-play :
    (kind : FileSystemKind) (parent : ℕ) (t : Opened) {S : Type 0} (note : S → S)
    (cb : LeafCallback S CatalogKey) (s : S)
    → children_scan kind parent t note cb s ≡ some (play note cb (children_trace kind parent t) s)
unfolding children_scan children_trace
children_scan-play kind parent (header, node_at) note cb s =
    walk_keyed-play node_at header
      (record { parse = parse_catalog_key_for_kind kind; compare = compare_catalog_keys })
      (λ k. not (k.parent_cnid == parent)) (λ k. k.parent_cnid == parent)
      (record { key_length = 0; parent_cnid = parent; name_utf16 = []; name_bytes = [] })
      (whole_trace kind (header, node_at)) note cb
      (λ cb' s'. walk_catalog_btree node_at header kind cb' (note s'))
      (λ cb' s'. whole-play note cb' kind header node_at (note s')) s

-- The walks of a catalog as volumes make them, as sequences of records.
pub catalog_walks-Delivers :
    (kind : FileSystemKind) (tree : Result Opened) (parent : ℕ)
    → Delivers (catalog_children kind tree parent)
      × Delivers (catalog_records kind tree)
      × Delivers (catalog_leaf_chain kind tree)
unfolding catalog_children catalog_records catalog_leaf_chain records_of chain_of children_of
catalog_walks-Delivers kind tree parent = (
  over_tree-Delivers tree (children_of kind parent) (children_trace kind parent)
      (λ t S note cb s. ap (ended s) (children_scan-play kind parent t note cb s)),
  over_tree-Delivers tree (records_of kind) (whole_trace kind)
      (λ t S note cb s. ap (ended s) (whole-play note cb kind t.0 t.1 s)),
  over_tree-Delivers tree (chain_of kind) (leaf_trace kind)
      (λ t S note cb s. ap (ended s) (leaf_chain-play note cb kind t.0 t.1 s)),
)

attribute_leaf_trace : (List ℕ → Bytes) → Opened → Trace AttributesKey
attribute_leaf_trace decode (header, node_at) =
    attribute_chain_trace node_at header (parse_attributes_key decode)

attribute_trace : (List ℕ → Bytes) → ℕ → Opened → Trace AttributesKey
attribute_trace decode file_id (header, node_at) =
    keyed_trace node_at header
      (record { parse = parse_attributes_key decode; compare = compare_attributes_keys })
      (λ k. not (k.file_id == file_id)) (λ k. k.file_id == file_id)
      (record { file_id = file_id; start_block = 0; name = [] })
      (attribute_leaf_trace decode (header, node_at))

attribute_chain-play :
    (decode : List ℕ → Bytes) (t : Opened) (S : Type 0) (note : S → S)
    (cb : LeafCallback S AttributesKey) (s : S)
    → walk_attributes_leaf_chain t.1 t.0 decode cb s
      ≡ some (play note cb (attribute_leaf_trace decode t) s)
unfolding walk_attributes_leaf_chain attribute_leaf_trace
attribute_chain-play decode (header, node_at) S note cb s =
    walk_attribute_chain-play node_at header (parse_attributes_key decode) note cb s

attributes_of_file-play :
    (decode : List ℕ → Bytes) (file_id : ℕ) (t : Opened) (S : Type 0) (note : S → S)
    (cb : LeafCallback S AttributesKey) (s : S)
    → attributes_of_file decode file_id t S note cb s
      ≡ play note cb (attribute_trace decode file_id t) s
unfolding attributes_of_file attribute_trace
attributes_of_file-play decode file_id (header, node_at) S note cb s = ap (ended s) (
    walk_keyed-play node_at header
      (record { parse = parse_attributes_key decode; compare = compare_attributes_keys })
      (λ k. not (k.file_id == file_id)) (λ k. k.file_id == file_id)
      (record { file_id = file_id; start_block = 0; name = [] })
      (attribute_leaf_trace decode (header, node_at)) note cb
      (λ cb' s'. walk_attributes_leaf_chain node_at header decode cb' (note s'))
      (λ cb' s'. attribute_chain-play decode (header, node_at) S note cb' (note s')) s)

-- The walks of the attributes tree.
pub attribute_walks-Delivers :
    (decode : List ℕ → Bytes) (tree : Result Opened) (file_id : ℕ)
    → Delivers (attributes_for_file decode tree file_id)
      × Delivers (attributes_leaf_chain decode tree)
unfolding attributes_for_file attributes_leaf_chain attributes_chain
attribute_walks-Delivers decode tree file_id = (
  over_tree-Delivers tree (attributes_of_file decode file_id) (attribute_trace decode file_id)
      (attributes_of_file-play decode file_id),
  over_tree-Delivers tree (attributes_chain decode) (attribute_leaf_trace decode)
      (λ t S note cb s. ap (ended s) (attribute_chain-play decode t S note cb s)),
)
