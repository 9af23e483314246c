-- ===== src/Volume.antt =====
-- volume.go and openAt of hfs.go: volume headers, and where a volume and its allocation block 0
-- begin. Dates are seconds of the Unix epoch, as int64 bit patterns.
pub mod Header
pub mod Master
pub mod Open
pub mod Geometry
use libhfs.Prelude.{
  ℕ, zero, suc, ◌+◌, ◌-◌, ◌*◌, ◌/◌, ◌%◌, ◌^◌, ◌≤◌, ◌<◌, Bool, true, false, not, ◌&&◌, ◌||◌, Option,
  none, some, List, [], ◌∷◌, ltb, leb, ◌==◌, if◌then◌else◌, length, add64, sub64, max_int64,
  is_neg64, slt64,
}
use libhfs.Errors.{
  Error, sentinel, parse_error, invalid_signature, unsupported_format, unsupported_ver, corrupt,
  short_read, invalid_offset, missing_extent, invalid_btree_node, is, Result, ok, err, panic, ◌>>=◌,
  ◌>>◌, fail, reject_if,
}
use libhfs.Bytes.{Bytes, slice, field16, field32, field64}
use libhfs.Extents.{ExtentDescriptor, ForkData, FileSystemKind, hfs, hfs_plus, hfsx}
use libhfs.Reader.{ReaderAt, read_at_exact}

pub record VolumeHeader : Type 0 where
  pub signature : ℕ
  pub version : ℕ
  pub attributes : ℕ
  pub last_mounted_version : ℕ
  pub journal_info_block : ℕ
  pub create_time : ℕ
  pub modify_time : ℕ
  pub backup_time : ℕ
  pub checked_time : ℕ
  pub file_count : ℕ
  pub folder_count : ℕ
  pub block_size : ℕ
  pub total_blocks : ℕ
  pub free_blocks : ℕ
  pub next_allocation : ℕ
  pub rsrc_clump_size : ℕ
  pub data_clump_size : ℕ
  pub next_catalog_id : ℕ
  pub write_count : ℕ
  pub encodings_bitmap : ℕ
  pub finder_info : List ℕ
  pub allocation_file : ForkData
  pub extents_file : ForkData
  pub catalog_file : ForkData
  pub attributes_file : ForkData
  pub startup_file : ForkData

abbrev pub signature_hfs : ℕ
signature_hfs = 16964

abbrev pub signature_hfsp : ℕ
signature_hfsp = 18475

abbrev pub signature_hfsx : ℕ
signature_hfsx = 18520

abbrev pub volume_header_offset : ℕ
volume_header_offset = 1024

abbrev pub volume_header_size : ℕ
volume_header_size = 512

-- hfsTimeToUnix
unfoldable pub hfs_time_to_unix : ℕ → ℕ
hfs_time_to_unix raw = if leb raw 2082844800 then 0 else raw - 2082844800

-- hfsCatalogTime; `none` is the zero time.
unfoldable pub hfs_catalog_time : ℕ → Option ℕ
hfs_catalog_time raw = if raw == 0 then none else some (sub64 raw 2082844800)

unfoldable pub kind_from_signature : ℕ → Result FileSystemKind
kind_from_signature sig =
    if sig == signature_hfs
    then ok hfs
    else if sig == signature_hfsp
    then ok hfs_plus
    else if sig == signature_hfsx
    then ok hfsx
    else err (sentinel invalid_signature)

unfoldable pub validate_version : FileSystemKind → ℕ → Option Error
validate_version hfs_plus ver = if ver == 4 then none else some (sentinel unsupported_ver)
validate_version hfsx ver = if ver == 5 then none else some (sentinel unsupported_ver)
validate_version hfs ver = some (sentinel unsupported_format)

-- `n` extents of two 32-bit words each from `base` on.
unfoldable pub fork_extents_from : Bytes → ℕ → ℕ → Result (List ExtentDescriptor)
fork_extents_from buf base zero = ok []
fork_extents_from buf base (suc n) = do
  s ← field32 buf base
  c ← field32 buf (base + 4)
  es ← fork_extents_from buf (base + 8) n
  ok (record { start_block = s; block_count = c } ∷ es)

unfoldable pub parse_fork_data : Bytes → Result ForkData
parse_fork_data buf = do
  size ← field64 buf 0
  clump ← field32 buf 8
  total ← field32 buf 12
  es ← fork_extents_from buf 16 8
  ok (record { logical_size = size; clump_size = clump; total_blocks = total; extents = es })

-- `n` words of the Finder information from `off` on.
unfoldable pub words_from : Bytes → ℕ → ℕ → Result (List ℕ)
words_from buf off zero = ok []
words_from buf off (suc n) = do w ← field32 buf off; ws ← words_from buf (off + 4) n; ok (w ∷ ws)

-- `parseForkData(buf[at:at+forkDataSize])`
unfoldable pub fork_at : Bytes → ℕ → Result ForkData
fork_at buf at = do part ← slice buf at (at + 80); parse_fork_data part

-- The signature and version checks of parseVolumeHeader: the kind that they allow.
unfoldable pub header_kind : ℕ → ℕ → ℕ → Result FileSystemKind
header_kind sig ver hdr_at = elim (kind_from_signature sig) [
  | err e ↦ err (parse_error "parse_signature" hdr_at e)
  | panic ↦ panic
  | ok hfs ↦ fail "parse_signature" hdr_at unsupported_format
  | ok kind ↦ elim (validate_version kind ver) [
    | some e ↦ err (parse_error "parse_version" (add64 hdr_at 2) e)
    | none ↦ ok kind
  ]
]

-- parseVolumeHeader after the checks of the signature and the version.
unfoldable pub header_from :
    Bytes → ℕ → ℕ → ℕ → FileSystemKind → Result (VolumeHeader × FileSystemKind)
header_from buf hdr_at sig ver kind = do
  attributes ← field32 buf 4
  last_mounted ← field32 buf 8
  journal ← field32 buf 12
  created ← field32 buf 16
  modified ← field32 buf 20
  backed_up ← field32 buf 24
  checked ← field32 buf 28
  files ← field32 buf 32
  folders ← field32 buf 36
  block_size ← field32 buf 40
  total ← field32 buf 44
  free ← field32 buf 48
  next_allocation ← field32 buf 52
  rsrc_clump ← field32 buf 56
  data_clump ← field32 buf 60
  next_id ← field32 buf 64
  writes ← field32 buf 68
  encodings ← field64 buf 72
  finder ← words_from buf 80 8
  allocation ← fork_at buf 112
  extents ← fork_at buf 192
  catalog ← fork_at buf 272
  attributes_fork ← fork_at buf 352
  startup ← fork_at buf 432
  reject_if (block_size == 0 || total == 0) "validate_header" hdr_at corrupt
  ok (
    record {
      signature = sig;
      version = ver;
      attributes = attributes;
      last_mounted_version = last_mounted;
      journal_info_block = journal;
      create_time = hfs_time_to_unix created;
      modify_time = hfs_time_to_unix modified;
      backup_time = hfs_time_to_unix backed_up;
      checked_time = hfs_time_to_unix checked;
      file_count = files;
      folder_count = folders;
      block_size = block_size;
      total_blocks = total;
      free_blocks = free;
      next_allocation = next_allocation;
      rsrc_clump_size = rsrc_clump;
      data_clump_size = data_clump;
      next_catalog_id = next_id;
      write_count = writes;
      encodings_bitmap = encodings;
      finder_info = finder;
      allocation_file = allocation;
      extents_file = extents;
      catalog_file = catalog;
      attributes_file = attributes_fork;
      startup_file = startup;
    },
    kind,
  )

unfoldable pub parse_volume_header : Bytes → ℕ → Result (VolumeHeader × FileSystemKind)
parse_volume_header buf origin = do
  let hdr_at = add64 origin volume_header_offset
  reject_if (ltb (length buf) volume_header_size) "parse_header" hdr_at short_read
  sig ← field16 buf 0
  ver ← field16 buf 2
  kind ← header_kind sig ver hdr_at
  header_from buf hdr_at sig ver kind
