-- ===== src/Tests/Trees.antt =====
-- B-tree keys, nodes, walks and the cache in front of them.
use libhfs.Prelude.{
  ℕ, suc, ◌≤◌, ◌≡◌, ◌↔◌, refl, inr, true, none, some, List, [], ◌∷◌, ◌++◌, arith, length,
  if◌then◌else◌,
}
use libhfs.Errors.{Result, ok}
use libhfs.Bytes.{Bytes, field16, slice, be16}
use libhfs.Extents.{hfs_plus}
use libhfs.Btree.Keys.{
  parse_catalog_key, parse_extents_key, parse_attributes_key, parse_catalog_key_for_kind,
  parse_extents_key_for_kind,
}
use libhfs.Btree.Keys.Bounds.{IsWithin, parse_keys-IsWithin}
use libhfs.Btree.Keys.RoundTrip.{
  catalog_key_bytes, extents_key_bytes, parse_extents_key_bytes,
  parse_catalog_key-catalog_key_bytes,
}
use libhfs.Btree.Node.{
  BtreeNodeDescriptor, BtreeHeaderRecord, parse_btree_node_descriptor, parse_btree_header_record,
  parse_node_record_offsets, offsets_from, records_between, ordered_node_records,
  extract_node_records,
}
use libhfs.Btree.Node.Offsets.{
  AreOffsets, IsNotPanic, IsPlausible, parse_node_record_offsets-AreOffsets, parse_btree_headers,
}
use libhfs.Btree.Node.Records.{
  extract_node_records-IsNotPanic, extract_node_records-ordered_node_records,
}
use libhfs.Btree.Leaves.{LeafCallback}
use libhfs.Cache.{NodeCacheKey, same_key, Cache, node_cache_put}
use libhfs.Cache.Queue.{Represents, put, node_cache_put-Represents}

-- A leaf node with one catalog record: the empty name below folder 2, and one byte.
abbrev node : Bytes
node =
    0 ∷ 0 ∷ 0 ∷ 0 ∷ 0 ∷ 0 ∷ 0 ∷ 0 ∷ 255 ∷ 1 ∷ 0 ∷ 1 ∷ 0 ∷ 0 ∷ 0 ∷ 6 ∷ 0 ∷ 0 ∷ 0 ∷ 2 ∷ 0 ∷ 0 ∷ 7 ∷ 0
    ∷ 23 ∷ 0 ∷ 14 ∷ []

abbrev record_bytes : Bytes
record_bytes = 0 ∷ 6 ∷ 0 ∷ 0 ∷ 0 ∷ 2 ∷ 0 ∷ 0 ∷ 7 ∷ []

abbrev desc : BtreeNodeDescriptor
desc = record { forward_link = 0; backward_link = 0; node_type = 255; height = 1; num_records = 1 }

abbrev decode : List ℕ → Bytes
decode units = units

parse_keys-IsWithin_example :
    IsWithin 8 record_bytes (parse_catalog_key_for_kind hfs_plus record_bytes)
    × IsWithin 12 record_bytes (parse_extents_key_for_kind hfs_plus record_bytes)
    × IsWithin 14 record_bytes (parse_attributes_key decode record_bytes)
parse_keys-IsWithin_example = parse_keys-IsWithin hfs_plus decode record_bytes

parse_catalog_key-catalog_key_bytes_example :
    parse_catalog_key (catalog_key_bytes 2 (97 ∷ 98 ∷ []) ++ (7 ∷ []))
    ≡ ok (
      record { key_length = 10; parent_cnid = 2; name_utf16 = 97 ∷ 98 ∷ []; name_bytes = [] },
      12,
    )
parse_catalog_key-catalog_key_bytes_example =
    parse_catalog_key-catalog_key_bytes 2 (97 ∷ 98 ∷ []) (7 ∷ []) (omega arith)
      (omega arith, (omega arith, tt)) (omega arith)

parse_extents_key_bytes_example :
    parse_extents_key (extents_key_bytes 255 20 8 ++ (7 ∷ []))
    ≡ ok (record { key_length = 10; fork_type = 255; file_id = 20; start_block = 8 }, 12)
parse_extents_key_bytes_example =
    parse_extents_key_bytes 255 20 8 (7 ∷ []) (inr refl) (omega arith) (omega arith)

strict : ordered_node_records node desc ≡ ok (record_bytes ∷ [])
unfolding ordered_node_records parse_node_record_offsets offsets_from records_between field16 slice
    be16
strict = refl

extract_node_records-ordered_node_records_example :
    extract_node_records node desc ≡ ok (record_bytes ∷ [])
extract_node_records-ordered_node_records_example =
    extract_node_records-ordered_node_records node desc strict

extract_node_records-IsNotPanic_example : IsNotPanic (extract_node_records node desc)
extract_node_records-IsNotPanic_example = extract_node_records-IsNotPanic node desc

parse_node_record_offsets-AreOffsets_example : AreOffsets node 2 (parse_node_record_offsets node 1)
parse_node_record_offsets-AreOffsets_example = parse_node_record_offsets-AreOffsets node 1

parse_btree_headers_example :
    IsNotPanic (parse_btree_node_descriptor node) × IsPlausible (parse_btree_header_record node)
parse_btree_headers_example = parse_btree_headers node node

-- A tree of two nodes, the second of which is its only leaf.
abbrev header : BtreeHeaderRecord
header = record {
  depth = 1;
  root_node = 1;
  leaf_records = 1;
  first_leaf_node = 1;
  last_leaf_node = 1;
  node_size = 27;
  max_key_len = 516;
  total_nodes = 2;
  free_nodes = 0;
  clump_size = 0;
  tree_type = 0;
  comp_type = 0;
  attributes = 0;
}

abbrev node_at : ℕ → ℕ → Result Bytes
node_at n size = ok node

abbrev counting : {K : Type 0} → LeafCallback ℕ K
counting n k payload = (suc n, ok tt)

-- The test of keys of the node cache is equality.
same_key_iff : (a b : NodeCacheKey) → (same_key a b ≡ true) ↔ (a ≡ b)
same_key_iff a b = (
  λ h.
      let t : a.tree ≡ b.tree = ground (arith, h) in
      let n : a.num ≡ b.num = ground (arith, h) in λ i. record { tree = t i; num = n i },
  λ h. rw (h) (ground arith),
)

abbrev key : ℕ → NodeCacheKey
key n = record { tree = 0; num = n }

-- A cache of one node at most.
abbrev full_cache : Cache NodeCacheKey Bytes
full_cache = record {
  bound = 1;
  held = λ k. if same_key k (key 1) then some node else none;
  order = key 1 ∷ [];
}

abbrev queue : List (NodeCacheKey × Bytes)
queue = (key 1, node) ∷ []

full_cache-Represents : Represents same_key full_cache queue
full_cache-Represents = record { keys = refl; finds = λ x. refl; distinct = (refl, tt) }

node_cache_put-Represents_example :
    Represents same_key
      (node_cache_put same_key (key 2) node full_cache)
      (put same_key 1 (key 2) node queue)
    × (length (put same_key 1 (key 2) node queue) ≤ 1)
node_cache_put-Represents_example =
    node_cache_put-Represents same_key same_key_iff (key 2) node full_cache queue (ground arith)
      (omega arith) full_cache-Represents
