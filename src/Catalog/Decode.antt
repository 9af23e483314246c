-- ===== src/Catalog/Decode.antt =====
-- decodeCatalogRecord of catalog.go for both formats, and decodeCatalogRecordHFS.
use libhfs.Prelude.{
  ℕ, ◌+◌, ◌-◌, ◌*◌, ◌/◌, ◌%◌, ◌^◌, Bool, true, false, Option, none, some, List, ◌++◌, drop, ltb,
  leb, ◌==◌, if◌then◌else◌, length, replicate,
}
use libhfs.Errors.{corrupt, Result, ok, ◌>>=◌, ◌>>◌, fail, reject_if}
use libhfs.Bytes.{Bytes, slice, index, field16, field32}
use libhfs.Extents.{
  ExtentDescriptor, ForkData, FileSystemKind, hfs, hfs_plus, hfsx, parse_extents_record_hfs,
}
use libhfs.Volume.{fork_at}
use libhfs.Volume.Master.{no_extent}
use libhfs.Btree.Keys.{CatalogKey, units_from}
use libhfs.Text.{TextEncoding, name_string, decoded_name, decode_hfs_name}
use libhfs.Catalog.{
  CatalogRecordType, folder, file, folder_thread, file_thread, LinkKind, hard_file, hard_dir,
  CatalogRecord, no_fork, new_record, classify_link, parse_bsd_info, decode_catalog_times_hfs_plus,
  decode_catalog_times_hfs_file, decode_catalog_times_hfs_dir,
}

-- The case of the switch on a record's type.
abbrev pub record_type : ℕ → Option CatalogRecordType
record_type t =
    if t == 1
    then some folder
    else if t == 2
    then some file
    else if t == 3
    then some folder_thread
    else if t == 4
    then some file_thread
    else none

-- A fork that the record holds only if it is long enough.
abbrev pub fork_if : Bytes → ℕ → Result ForkData
fork_if payload at = if leb (at + 80) (length payload) then fork_at payload at else ok no_fork

-- `LinkTarget` is set for hard links only.
abbrev pub link_target_of : LinkKind → ℕ → ℕ
link_target_of hard_file special = special
link_target_of hard_dir special = special
link_target_of _ special = 0

-- What folders and files have in common; `is_dir` is the last argument of classifyLink.
unfoldable pub decode_node : CatalogRecordType → Bool → CatalogKey → Bytes → Result CatalogRecord
decode_node t is_dir key payload = do
  cnid ← field32 payload 8
  times ← decode_catalog_times_hfs_plus payload
  perms ← parse_bsd_info payload
  finder_type ← field32 payload 48
  finder_creator ← field32 payload 52
  finder ← slice payload 48 80
  flags ← field16 payload 2
  ok (record (new_record t key.parent_cnid (name_string key.name_utf16)) {
    cnid = cnid;
    times = times;
    perms = perms;
    link_id = perms.special;
    finder_type = finder_type;
    finder_creator = finder_creator;
    finder_info = finder;
    link = classify_link finder_type finder_creator perms.file_mode flags is_dir;
  })

unfoldable pub decode_folder : CatalogKey → Bytes → Result CatalogRecord
decode_folder key payload = do
  reject_if (ltb (length payload) 88) "decode_catalog_record" 0 corrupt
  valence ← field32 payload 4
  r ← decode_node folder true key payload
  ok (record r { valence = valence })

unfoldable pub decode_file : CatalogKey → Bytes → Result CatalogRecord
decode_file key payload = do
  reject_if (ltb (length payload) 88) "decode_catalog_record" 0 corrupt
  r ← decode_node file false key payload
  fork ← fork_if payload 88
  rsrc ← fork_if payload 168
  ok (record r {
    link_target = link_target_of r.link r.perms.special;
    data_fork = fork;
    rsrc_fork = rsrc;
  })

unfoldable pub decode_thread : CatalogRecordType → CatalogKey → Bytes → Result CatalogRecord
decode_thread t key payload = do
  reject_if (ltb (length payload) 10) "decode_catalog_record" 0 corrupt
  parent ← field32 payload 4
  name_chars ← field16 payload 8
  reject_if (ltb (length payload) (10 + name_chars * 2)) "decode_catalog_record" 0 corrupt
  units ← units_from payload 10 name_chars
  ok (record (new_record t parent (decoded_name units)) { thread_cnid = key.parent_cnid })

-- The switch of decodeCatalogRecord.
abbrev pub decode_as : CatalogKey → Bytes → Option CatalogRecordType → Result CatalogRecord
decode_as key payload none = fail "decode_catalog_record" 0 corrupt
decode_as key payload (some folder) = decode_folder key payload
decode_as key payload (some file) = decode_file key payload
decode_as key payload (some folder_thread) = decode_thread folder_thread key payload
decode_as key payload (some file_thread) = decode_thread file_thread key payload

-- decodeCatalogRecord, the function.
unfoldable pub decode_catalog_record : CatalogKey → Bytes → Result CatalogRecord
decode_catalog_record key payload = do
  reject_if (ltb (length payload) 2) "decode_catalog_record" 0 corrupt
  t ← field16 payload 0
  decode_as key payload (record_type t)

-- `blocksFor`
abbrev pub blocks_for : ℕ → ℕ → ℕ
blocks_for block_size bytes =
    if block_size == 0
    then 0
    else ((((bytes + block_size) % 2 ^ 64 + 2 ^ 64 - 1) % 2 ^ 64) / block_size) % 2 ^ 32

-- `copy(fork.Extents[:], exts)`
abbrev pub in_eight : List ExtentDescriptor → List ExtentDescriptor
in_eight es = es ++ drop (length es) (replicate 8 no_extent)

-- A fork of a classic record: its sizes at `sizes` and its extents at `exts_at`.
unfoldable pub hfs_fork_at : ℕ → Bytes → ℕ → ℕ → Result ForkData
hfs_fork_at block_size payload sizes exts_at = do
  logical ← field32 payload sizes
  physical ← field32 payload (sizes + 4)
  part ← slice payload exts_at (exts_at + 12)
  exts ← parse_extents_record_hfs part
  ok (record {
    logical_size = logical;
    clump_size = 0;
    total_blocks = blocks_for block_size physical;
    extents = in_eight exts;
  })

module _ (enc : TextEncoding) (block_size : ℕ) (key : CatalogKey) (payload : Bytes) where
  abbrev pub hfs_name : Bytes
  hfs_name = decode_hfs_name enc key.name_bytes

  unfoldable pub decode_folder_hfs : Result CatalogRecord
  decode_folder_hfs = do
    reject_if (ltb (length payload) 22) "decode_catalog_record_hfs" 0 corrupt
    valence ← field16 payload 4
    cnid ← field32 payload 6
    times ← decode_catalog_times_hfs_dir payload
    ok (record (new_record folder key.parent_cnid hfs_name) {
      valence = valence;
      cnid = cnid;
      times = times;
    })

  unfoldable pub decode_file_hfs : Result CatalogRecord
  decode_file_hfs = do
    reject_if (ltb (length payload) 98) "decode_catalog_record_hfs" 0 corrupt
    cnid ← field32 payload 20
    times ← decode_catalog_times_hfs_file payload
    finder_type ← field32 payload 4
    finder_creator ← field32 payload 8
    fork ← hfs_fork_at block_size payload 26 74
    rsrc ← hfs_fork_at block_size payload 36 86
    ok (record (new_record file key.parent_cnid hfs_name) {
      cnid = cnid;
      times = times;
      finder_type = finder_type;
      finder_creator = finder_creator;
      data_fork = fork;
      rsrc_fork = rsrc;
    })

  unfoldable pub decode_thread_hfs : CatalogRecordType → Result CatalogRecord
  decode_thread_hfs t = do
    reject_if (ltb (length payload) 15) "decode_catalog_record_hfs" 0 corrupt
    parent ← field32 payload 10
    name_len ← index payload 14
    reject_if (ltb (length payload) (15 + name_len)) "decode_catalog_record_hfs" 0 corrupt
    name ← slice payload 15 (15 + name_len)
    ok (record (new_record t parent (decode_hfs_name enc name)) { thread_cnid = key.parent_cnid })

  -- Its switch.
  abbrev pub decode_as_hfs : Option CatalogRecordType → Result CatalogRecord
  decode_as_hfs none = fail "decode_catalog_record_hfs" 0 corrupt
  decode_as_hfs (some folder) = decode_folder_hfs
  decode_as_hfs (some file) = decode_file_hfs
  decode_as_hfs (some folder_thread) = decode_thread_hfs folder_thread
  decode_as_hfs (some file_thread) = decode_thread_hfs file_thread

  -- decodeCatalogRecordHFS
  unfoldable pub decode_catalog_record_hfs : Result CatalogRecord
  decode_catalog_record_hfs = do
    reject_if (ltb (length payload) 1) "decode_catalog_record_hfs" 0 corrupt
    t ← index payload 0
    decode_as_hfs (record_type t)

-- decodeCatalogRecord, the method.
unfoldable pub decode_by_kind :
    FileSystemKind → TextEncoding → ℕ → CatalogKey → Bytes → Result CatalogRecord
decode_by_kind hfs enc block_size key payload = decode_catalog_record_hfs enc block_size key payload
decode_by_kind hfs_plus enc block_size key payload = decode_catalog_record key payload
decode_by_kind hfsx enc block_size key payload = decode_catalog_record key payload
