-- ===== src/Volume/Master.antt =====
-- The classic HFS master directory block of volume.go, and the HFS+ volume that it may wrap.
use libhfs.Prelude.{
  ℕ, zero, suc, ◌+◌, ◌-◌, ◌*◌, ◌/◌, ◌%◌, ◌^◌, ◌||◌, not, Option, none, some, List, [], ◌∷◌, ◌++◌,
  ltb, ◌==◌, if◌then◌else◌, length, add64, sub64,
}
use libhfs.Errors.{invalid_signature, corrupt, short_read, Result, ok, ◌>>=◌, ◌>>◌, reject_if}
use libhfs.Bytes.{Bytes, slice, field16, field32}
use libhfs.Extents.{ExtentDescriptor, ForkData}
use libhfs.Volume.{
  VolumeHeader, signature_hfs, signature_hfsp, volume_header_offset, volume_header_size,
  hfs_time_to_unix, words_from,
}

-- parseHFSWrapperEmbeddedOffset: `none` is its `false`.
unfoldable pub parse_hfs_wrapper_embedded_offset : Bytes → Result (Option ℕ)
parse_hfs_wrapper_embedded_offset mdb = if ltb (length mdb) volume_header_size then ok none else (do
  sig ← field16 mdb 0
  embedded_sig ← field16 mdb 124
  block_size ← field32 mdb 20
  start_512 ← field16 mdb 28
  start ← field16 mdb 126
  count ← field16 mdb 128
  let unusable =
      not (sig == signature_hfs)
      || not (embedded_sig == signature_hfsp)
      || block_size == 0
      || count == 0
  if unusable then ok none else ok (some (start_512 * 512 + start * block_size)))

abbrev pub no_extent : ExtentDescriptor
no_extent = record { start_block = 0; block_count = 0 }

-- The loop of parseHFSForkData: `n` entries from byte `base` on, those that are not there zero.
unfoldable pub hfs_extents_at : Bytes → ℕ → ℕ → Result (List ExtentDescriptor)
hfs_extents_at rec base zero = ok []
hfs_extents_at rec base (suc n) =
    let later = hfs_extents_at rec (base + 4) n in
    if ltb (length rec) (base + 4) then (do es ← later; ok (no_extent ∷ es)) else (do
      s ← field16 rec base
      c ← field16 rec (base + 2)
      es ← later
      ok (record { start_block = s; block_count = c } ∷ es))

-- A Go fork has eight extents, of which classic HFS fills the first three.
abbrev pub hfs_fork : ℕ → ℕ → List ExtentDescriptor → ForkData
hfs_fork size total es = record {
  logical_size = size;
  clump_size = 0;
  total_blocks = total;
  extents = es ++ (no_extent ∷ no_extent ∷ no_extent ∷ no_extent ∷ no_extent ∷ []);
}

unfoldable pub parse_hfs_fork_data : ℕ → Bytes → ℕ → Result ForkData
parse_hfs_fork_data logical_size rec block_size =
    if block_size == 0
    then ok (hfs_fork logical_size 0 (no_extent ∷ no_extent ∷ no_extent ∷ []))
    else (do
      es ← hfs_extents_at rec 0 3
      ok (hfs_fork logical_size (((logical_size + block_size - 1) / block_size) % 2 ^ 32) es))

abbrev pub no_fork : ForkData
no_fork = hfs_fork 0 0 (no_extent ∷ no_extent ∷ no_extent ∷ [])

-- The zero time.Time, January 1 of year 1, as seconds of the Unix epoch.
abbrev pub year_one : ℕ
year_one = sub64 0 62135596800

-- The header, the byte offset of the allocation blocks, and drVBMSt.
unfoldable pub parse_hfs_master_directory_block : Bytes → ℕ → Result (VolumeHeader × ℕ × ℕ)
parse_hfs_master_directory_block mdb origin = do
  let hdr_at = add64 origin volume_header_offset
  reject_if (ltb (length mdb) volume_header_size) "parse_hfs_mdb" hdr_at short_read
  sig ← field16 mdb 0
  reject_if (not (sig == signature_hfs)) "parse_hfs_mdb" hdr_at invalid_signature
  block_size ← field32 mdb 20
  total ← field16 mdb 18
  reject_if (block_size == 0 || total == 0) "parse_hfs_mdb" hdr_at corrupt
  start_512 ← field16 mdb 28
  attributes ← field16 mdb 10
  created ← field32 mdb 2
  modified ← field32 mdb 6
  backed_up ← field32 mdb 64
  files ← field32 mdb 84
  folders ← field32 mdb 88
  free ← field16 mdb 34
  next_allocation ← field16 mdb 16
  next_id ← field32 mdb 30
  writes ← field32 mdb 70
  finder ← words_from mdb 92 8
  extents_size ← field32 mdb 130
  extents_rec ← slice mdb 134 146
  extents ← parse_hfs_fork_data extents_size extents_rec block_size
  catalog_size ← field32 mdb 146
  catalog_rec ← slice mdb 150 162
  catalog ← parse_hfs_fork_data catalog_size catalog_rec block_size
  bitmap_start ← field16 mdb 14
  ok (
    record {
      signature = signature_hfs;
      version = 0;
      attributes = attributes;
      last_mounted_version = 0;
      journal_info_block = 0;
      create_time = hfs_time_to_unix created;
      modify_time = hfs_time_to_unix modified;
      backup_time = hfs_time_to_unix backed_up;
      checked_time = year_one;
      file_count = files;
      folder_count = folders;
      block_size = block_size;
      total_blocks = total;
      free_blocks = free;
      next_allocation = next_allocation;
      rsrc_clump_size = 0;
      data_clump_size = 0;
      next_catalog_id = next_id;
      write_count = writes;
      encodings_bitmap = 0;
      finder_info = finder;
      allocation_file = no_fork;
      extents_file = extents;
      catalog_file = catalog;
      attributes_file = no_fork;
      startup_file = no_fork;
    },
    start_512 * 512,
    bitmap_start,
  )
