-- ===== src/Btree/Walks.antt =====
-- The walks of the catalog tree as volumes make them: walkCatalogChildren of btree_search.go with
-- its searcher, and the walks of btree_walk.go with their states. A walk's `note` is the call of
-- noteAnomaly on the state that the callback shares with the volume.
pub mod Delivery
pub mod Chain
pub mod Tree
pub mod Keyed
pub mod Fallback
use libhfs.Prelude.{ℕ, Bool, not, Option, none, some, List, [], ◌∷◌, ◌++◌, ◌==◌}
use libhfs.Errors.{Result, ok, err, panic, ◌>>=◌, ◌>>◌, invalid_btree_node, reject_if}
use libhfs.Bytes.{Bytes}
use libhfs.Reader.{ReaderAt}
use libhfs.Extents.{FileSystemKind}
use libhfs.Volume.Open.{Volume, read_fork_btree_header}
use libhfs.Special.{node_reader_for}
use libhfs.Btree.Keys.{CatalogKey, AttributesKey, parse_catalog_key_for_kind, parse_attributes_key}
use libhfs.Btree.Node.{BtreeHeaderRecord}
use libhfs.Btree.Order.{compare_catalog_keys, compare_attributes_keys}
use libhfs.Btree.Search.{Scan}
use libhfs.Btree.Leaves.{
  LeafCallback, walk_keyed, walk_catalog_btree, walk_catalog_leaf_chain, walk_attributes_leaf_chain,
}

-- A walk: the call of noteAnomaly, the callback and the state in, and how it ends.
abbrev pub Walk : Type 0 → Type 1
Walk K = (S : Type 0) → (S → S) → LeafCallback S K → S → Scan S

-- The walks always end (see Btree.Walks.Fallback), so their fuel never runs out.
abbrev pub ended : {S : Type 0} → S → Option (Scan S) → Scan S
ended s none = (s, panic)
ended s (some r) = r

-- The header of a tree and the reader of its nodes.
abbrev pub Opened : Type 0
Opened = BtreeHeaderRecord × (ℕ → ℕ → Result Bytes)

-- newCatalogWalkState, and catalogSearcher, whose errors lead to it.
unfoldable pub open_catalog_tree :
    ReaderAt → Volume → (ℕ → Result (List (ℕ × Bytes))) → Result Opened
open_catalog_tree r v overflow = do
  header ← read_fork_btree_header r v v.header.catalog_file "catalog_btree_header"
  reject_if (header.node_size == 0) "walk_catalog_btree" 0 invalid_btree_node
  node_at ← node_reader_for r v overflow 4 v.header.catalog_file header.node_size
  ok (header, node_at)

-- A walk of a tree that may not open.
abbrev pub over_tree : {K : Type 0} → Result Opened → (Opened → Walk K) → Walk K
over_tree (ok t) w = w t
over_tree (err e) w = λ S note cb s. (s, err e)
over_tree panic w = λ S note cb s. (s, panic)

-- walkCatalogChildren, of a tree that opens, with the note of its fallback.
unfoldable pub children_scan :
    FileSystemKind
    → ℕ
    → Opened
    → {S : Type 0} → (S → S)
    → LeafCallback S CatalogKey
    → S
    → Option (Scan S)
children_scan kind parent (header, node_at) note cb s =
    walk_keyed node_at header
      (record { parse = parse_catalog_key_for_kind kind; compare = compare_catalog_keys })
      (λ k. not (k.parent_cnid == parent)) (λ k. k.parent_cnid == parent) cb
      (λ cb' s'. walk_catalog_btree node_at header kind cb' (note s'))
      (record { key_length = 0; parent_cnid = parent; name_utf16 = []; name_bytes = [] }) s

unfoldable pub children_of : FileSystemKind → ℕ → Opened → Walk CatalogKey
children_of kind parent t S note cb s = ended s (children_scan kind parent t note cb s)

unfoldable pub records_of : FileSystemKind → Opened → Walk CatalogKey
records_of kind (header, node_at) S note cb s =
    ended s (walk_catalog_btree node_at header kind cb s)

unfoldable pub chain_of : FileSystemKind → Opened → Walk CatalogKey
chain_of kind (header, node_at) S note cb s =
    ended s (walk_catalog_leaf_chain node_at header kind cb s)

unfoldable pub catalog_children : FileSystemKind → Result Opened → ℕ → Walk CatalogKey
catalog_children kind tree parent = over_tree tree (children_of kind parent)

unfoldable pub catalog_records : FileSystemKind → Result Opened → Walk CatalogKey
catalog_records kind tree = over_tree tree (records_of kind)

unfoldable pub catalog_leaf_chain : FileSystemKind → Result Opened → Walk CatalogKey
catalog_leaf_chain kind tree = over_tree tree (chain_of kind)

-- walkAttributesForFile, of a tree that opens; `decode` is string(utf16.Decode(...)).
unfoldable pub attributes_of_file : (List ℕ → Bytes) → ℕ → Opened → Walk AttributesKey
attributes_of_file decode file_id (header, node_at) S note cb s = ended s (
    walk_keyed node_at header
      (record { parse = parse_attributes_key decode; compare = compare_attributes_keys })
      (λ k. not (k.file_id == file_id)) (λ k. k.file_id == file_id) cb
      (λ cb' s'. walk_attributes_leaf_chain node_at header decode cb' (note s'))
      (record { file_id = file_id; start_block = 0; name = [] }) s)

unfoldable pub attributes_chain : (List ℕ → Bytes) → Opened → Walk AttributesKey
attributes_chain decode (header, node_at) S note cb s =
    ended s (walk_attributes_leaf_chain node_at header decode cb s)

unfoldable pub attributes_for_file : (List ℕ → Bytes) → Result Opened → ℕ → Walk AttributesKey
attributes_for_file decode tree file_id = over_tree tree (attributes_of_file decode file_id)

unfoldable pub attributes_leaf_chain : (List ℕ → Bytes) → Result Opened → Walk AttributesKey
attributes_leaf_chain decode tree = over_tree tree (attributes_chain decode)
