-- ===== src/Btree/Keys.antt =====
-- The key parsers of btree.go and attributes.go, with the key types of types.go. A parser returns
-- the key and the number of bytes that it occupies.
pub mod Bounds
pub mod RoundTrip
use libhfs.Prelude.{
  ℕ, zero, suc, ◌+◌, ◌*◌, ◌%◌, Bool, true, false, not, ◌&&◌, ◌||◌, List, [], ◌∷◌, ltb, ◌==◌,
  if◌then◌else◌, length,
}
use libhfs.Errors.{invalid_btree_key, Result, ok, err, panic, ◌>>=◌, ◌>>◌, fail, reject_if}
use libhfs.Bytes.{Bytes, slice, index, be16, field16, field32}
use libhfs.Extents.{FileSystemKind, hfs, hfs_plus, hfsx}

pub record CatalogKey : Type 0 where
  pub key_length : ℕ
  pub parent_cnid : ℕ
  pub name_utf16 : List ℕ
  pub name_bytes : Bytes

pub record ExtentsKey : Type 0 where
  pub key_length : ℕ
  pub fork_type : ℕ
  pub file_id : ℕ
  pub start_block : ℕ

-- The name is a Go string, as its bytes.
pub record AttributesKey : Type 0 where
  pub file_id : ℕ
  pub start_block : ℕ
  pub name : Bytes

-- The loop that reads `n` UTF-16 code units from `base` on.
unfoldable pub units_from : Bytes → ℕ → ℕ → Result (List ℕ)
units_from body base zero = ok []
units_from body base (suc n) = do
  u ← field16 body base
  us ← units_from body (base + 2) n
  ok (u ∷ us)

unfoldable pub parse_catalog_key : Bytes → Result (CatalogKey × ℕ)
parse_catalog_key raw = do
  reject_if (ltb (length raw) 8) "parse_catalog_key" 0 invalid_btree_key
  key_len ← field16 raw 0
  let total = key_len + 2
  reject_if (ltb (length raw) total || ltb total 8) "parse_catalog_key" 0 invalid_btree_key
  body ← slice raw 2 total
  name_chars ← field16 body 4
  reject_if (ltb (length body) (6 + name_chars * 2)) "parse_catalog_key" 0 invalid_btree_key
  name ← units_from body 6 name_chars
  parent ← field32 body 0
  ok (
    record { key_length = key_len; parent_cnid = parent; name_utf16 = name; name_bytes = [] },
    total,
  )

-- Records of classic HFS are padded to an even length.
abbrev pub pad : ℕ → ℕ
pad total = if total % 2 == 0 then total else total + 1

unfoldable pub parse_catalog_key_hfs : Bytes → Result (CatalogKey × ℕ)
parse_catalog_key_hfs raw = do
  reject_if (ltb (length raw) 7) "parse_catalog_key_hfs" 0 invalid_btree_key
  key_len ← index raw 0
  let total = key_len + 1
  reject_if (ltb (length raw) total || ltb total 7) "parse_catalog_key_hfs" 0 invalid_btree_key
  body ← slice raw 1 total
  parent ← field32 body 1
  name_len ← index body 5
  reject_if (ltb 31 name_len || ltb (length body) (6 + name_len)) "parse_catalog_key_hfs" 0
      invalid_btree_key
  name ← slice body 6 (6 + name_len)
  reject_if (ltb (length raw) (pad total)) "parse_catalog_key_hfs" 0 invalid_btree_key
  ok (
    record { key_length = key_len; parent_cnid = parent; name_utf16 = name; name_bytes = name },
    pad total,
  )

-- `forkType != extentKeyTypeData && forkType != extentKeyTypeRsrc`
abbrev pub bad_fork_type : ℕ → Bool
bad_fork_type t = not (t == 0) && not (t == 255)

unfoldable pub parse_extents_key : Bytes → Result (ExtentsKey × ℕ)
parse_extents_key raw = do
  reject_if (ltb (length raw) 12) "parse_extents_key" 0 invalid_btree_key
  key_len ← field16 raw 0
  let total = key_len + 2
  reject_if (ltb (length raw) total || ltb total 12) "parse_extents_key" 0 invalid_btree_key
  fork_type ← index raw 2
  reject_if (bad_fork_type fork_type) "parse_extents_key" 0 invalid_btree_key
  file_id ← field32 raw 4
  start_block ← field32 raw 8
  ok (
    record {
      key_length = key_len;
      fork_type = fork_type;
      file_id = file_id;
      start_block = start_block;
    },
    total,
  )

unfoldable pub parse_extents_key_hfs : Bytes → Result (ExtentsKey × ℕ)
parse_extents_key_hfs raw = do
  reject_if (ltb (length raw) 8) "parse_extents_key_hfs" 0 invalid_btree_key
  key_len ← index raw 0
  let total = key_len + 1
  reject_if (ltb (length raw) total || ltb total 8) "parse_extents_key_hfs" 0 invalid_btree_key
  body ← slice raw 1 total
  fork_type ← index body 0
  reject_if (bad_fork_type fork_type) "parse_extents_key_hfs" 0 invalid_btree_key
  reject_if (ltb (length raw) (pad total)) "parse_extents_key_hfs" 0 invalid_btree_key
  file_id ← field32 body 1
  start_block ← field16 body 5
  ok (
    record {
      key_length = key_len;
      fork_type = fork_type;
      file_id = file_id;
      start_block = start_block;
    },
    pad total,
  )

-- `decode` is string(utf16.Decode(...)) of the standard library.
unfoldable pub parse_attributes_key : (List ℕ → Bytes) → Bytes → Result (AttributesKey × ℕ)
parse_attributes_key decode raw = do
  reject_if (ltb (length raw) 14) "parse_attributes_key" 0 invalid_btree_key
  key_len ← field16 raw 0
  let total = key_len + 2
  reject_if (ltb (length raw) total || ltb total 14) "parse_attributes_key" 0 invalid_btree_key
  body ← slice raw 2 total
  name_chars ← field16 body 10
  reject_if (ltb (length body) (12 + name_chars * 2)) "parse_attributes_key" 0 invalid_btree_key
  name ← units_from body 12 name_chars
  file_id ← field32 body 2
  start_block ← field32 body 6
  ok (record { file_id = file_id; start_block = start_block; name = decode name }, total)

unfoldable pub parse_catalog_key_for_kind : FileSystemKind → Bytes → Result (CatalogKey × ℕ)
parse_catalog_key_for_kind hfs raw = parse_catalog_key_hfs raw
parse_catalog_key_for_kind hfs_plus raw = parse_catalog_key raw
parse_catalog_key_for_kind hfsx raw = parse_catalog_key raw

unfoldable pub parse_extents_key_for_kind : FileSystemKind → Bytes → Result (ExtentsKey × ℕ)
parse_extents_key_for_kind hfs raw = parse_extents_key_hfs raw
parse_extents_key_for_kind hfs_plus raw = parse_extents_key raw
parse_extents_key_for_kind hfsx raw = parse_extents_key raw
