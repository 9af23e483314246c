-- ===== src/Btree/Node.antt =====
-- B-tree nodes: the descriptor, the header record and the record offsets of btree.go, the strict
-- records of btree_search.go (orderedNodeRecords) and the tolerant ones of btree_walk.go
-- (extractNodeRecords).
pub mod Offsets
pub mod Records
use libhfs.Prelude.{
  ℕ, zero, suc, ◌+◌, ◌-◌, ◌*◌, Bool, true, false, not, ◌&&◌, ◌||◌, List, [], ◌∷◌, ltb, leb, ◌==◌,
  if◌then◌else◌, length, take, get_or,
}
use libhfs.Errors.{
  short_read, corrupt, invalid_btree_node, Result, ok, err, panic, ◌>>=◌, ◌>>◌, fail, reject_if,
}
use libhfs.Bytes.{Bytes, slice, index, field16, field32}

-- `node_type` is an int8 as its bit pattern.
pub record BtreeNodeDescriptor : Type 0 where
  pub forward_link : ℕ
  pub backward_link : ℕ
  pub node_type : ℕ
  pub height : ℕ
  pub num_records : ℕ

abbrev pub node_type_leaf : ℕ
node_type_leaf = 255

abbrev pub node_type_idx : ℕ
node_type_idx = 0

abbrev pub node_type_head : ℕ
node_type_head = 1

unfoldable pub parse_btree_node_descriptor : Bytes → Result BtreeNodeDescriptor
parse_btree_node_descriptor node = do
  reject_if (ltb (length node) 14) "parse_btree_node" 0 short_read
  forward ← field32 node 0
  backward ← field32 node 4
  t ← index node 8
  h ← index node 9
  n ← field16 node 10
  ok (record {
    forward_link = forward;
    backward_link = backward;
    node_type = t;
    height = h;
    num_records = n;
  })

pub record BtreeHeaderRecord : Type 0 where
  pub depth : ℕ
  pub root_node : ℕ
  pub leaf_records : ℕ
  pub first_leaf_node : ℕ
  pub last_leaf_node : ℕ
  pub node_size : ℕ
  pub max_key_len : ℕ
  pub total_nodes : ℕ
  pub free_nodes : ℕ
  pub clump_size : ℕ
  pub tree_type : ℕ
  pub comp_type : ℕ
  pub attributes : ℕ

unfoldable pub parse_btree_header_record : Bytes → Result BtreeHeaderRecord
parse_btree_header_record rec = do
  reject_if (ltb (length rec) 106) "parse_btree_header" 0 short_read
  depth ← field16 rec 0
  root ← field32 rec 2
  leaf_records ← field32 rec 6
  first_leaf ← field32 rec 10
  last_leaf ← field32 rec 14
  node_size ← field16 rec 18
  max_key ← field16 rec 20
  total ← field32 rec 22
  free ← field32 rec 26
  clump ← field32 rec 32
  t ← index rec 36
  comp ← index rec 37
  attrs ← field32 rec 38
  reject_if (ltb node_size 512 || ltb 32768 node_size) "parse_btree_header" 0 invalid_btree_node
  reject_if (total == 0) "parse_btree_header" 0 corrupt
  ok (record {
    depth = depth;
    root_node = root;
    leaf_records = leaf_records;
    first_leaf_node = first_leaf;
    last_leaf_node = last_leaf;
    node_size = node_size;
    max_key_len = max_key;
    total_nodes = total;
    free_nodes = free;
    clump_size = clump;
    tree_type = t;
    comp_type = comp;
    attributes = attrs;
  })

-- The loop of parseNodeRecordOffsets, from entry `i`, with `n` entries left.
unfoldable pub offsets_from : Bytes → ℕ → ℕ → Result (List ℕ)
offsets_from node i zero = ok []
offsets_from node i (suc n) = do
  let base = length node - 2 * (i + 1)
  reject_if (ltb (length node) (2 * (i + 1)) || ltb (length node) (base + 2)) "parse_node_offsets" 0
      invalid_btree_node
  v ← field16 node base
  reject_if (ltb (length node) v) "parse_node_offsets" 0 invalid_btree_node
  vs ← offsets_from node (i + 1) n
  ok (v ∷ vs)

-- One offset more than there are records: the last is where the free space begins.
unfoldable pub parse_node_record_offsets : Bytes → ℕ → Result (List ℕ)
parse_node_record_offsets node num_records = do
  reject_if (ltb (length node) 14) "parse_node_offsets" 0 short_read
  reject_if (ltb (length node) ((num_records + 1) * 2)) "parse_node_offsets" 0 invalid_btree_node
  offsets_from node 0 (num_records + 1)

-- The loop of orderedNodeRecords over neighbouring offsets.
unfoldable pub records_between : Bytes → List ℕ → Result (List Bytes)
records_between node [] = ok []
records_between node (start ∷ []) = ok []
records_between node (start ∷ end ∷ offs) = do
  reject_if (ltb start 14 || ltb (length node) end || leb end start) "ordered_node_records" start
      invalid_btree_node
  r ← slice node start end
  rs ← records_between node (end ∷ offs)
  ok (r ∷ rs)

unfoldable pub ordered_node_records : Bytes → BtreeNodeDescriptor → Result (List Bytes)
ordered_node_records node desc = do
  offs ← parse_node_record_offsets node desc.num_records
  records_between node offs

abbrev pub member : ℕ → List ℕ → Bool
member x [] = false
member x (y ∷ ys) = x == y || member x ys

-- The loop of extractNodeRecords that keeps the plausible starts, each once; `seen` is its set.
unfoldable pub starts_of : ℕ → List ℕ → List ℕ → List ℕ
starts_of limit seen [] = []
starts_of limit seen (start ∷ offs) =
    let keep = starts_of limit (start ∷ seen) offs in
    let skip = starts_of limit seen offs in
    if ltb start 14 || leb limit start
    then skip
    else if member start seen
    then skip
    else start ∷ keep

-- sort.Ints
unfoldable pub insert_sorted : ℕ → List ℕ → List ℕ
insert_sorted x [] = x ∷ []
insert_sorted x (y ∷ ys) =
    let later = y ∷ insert_sorted x ys in if leb x y then x ∷ y ∷ ys else later

unfoldable pub sort_ints : List ℕ → List ℕ
sort_ints [] = []
sort_ints (x ∷ xs) = insert_sorted x (sort_ints xs)

-- Where the record before these starts ends.
abbrev pub end_of : ℕ → List ℕ → ℕ
end_of limit [] = limit
end_of limit (next ∷ ss) = next

-- The last loop: a record ends where the next begins, and the last at the limit.
unfoldable pub cut_records : Bytes → ℕ → List ℕ → Result (List Bytes)
cut_records node limit [] = ok []
cut_records node limit (s ∷ ss) =
    let e = end_of limit ss in
    let rest = cut_records node limit ss in
    if leb e s || ltb (length node) e then rest else (do r ← slice node s e; rs ← rest; ok (r ∷ rs))

-- `limit`: where the free space begins, if that is plausible.
abbrev pub record_limit : Bytes → ℕ → ℕ
record_limit node fo = if leb 14 fo && leb fo (length node) then fo else length node

unfoldable pub extract_node_records : Bytes → BtreeNodeDescriptor → Result (List Bytes)
extract_node_records node desc = elim (parse_node_record_offsets node desc.num_records) [
  | err e ↦ ok []
  | panic ↦ panic
  | ok offs ↦
      let limit = record_limit node (get_or offs desc.num_records (length node)) in
      cut_records node limit (sort_ints (starts_of limit [] (take desc.num_records offs)))
]
