-- ===== src/Volume/Open.antt =====
-- openAt of hfs.go: finding the volume at a byte of a reader, and the header of a B-tree file.
use libhfs.Prelude.{
  ℕ, ◌&&◌, ◌||◌, not, Option, none, some, List, [], ◌∷◌, ◌==◌, if◌then◌else◌, String, add64, sub64,
  mul64, max_int64, is_neg64, slt64,
}
use libhfs.Errors.{
  is, corrupt, short_read, invalid_offset, missing_extent, invalid_btree_node, Result, ok, err,
  panic, ◌>>=◌, ◌>>◌, fail, reject_if,
}
use libhfs.Bytes.{Bytes, slice, field16}
use libhfs.Extents.{ForkData, ExtentDescriptor, FileSystemKind, hfs}
use libhfs.Reader.{ReaderAt, read_at_exact}
use libhfs.Ranges.{disk_offset}
use libhfs.Btree.Node.{
  node_type_head, parse_btree_node_descriptor, BtreeHeaderRecord, parse_btree_header_record,
}
use libhfs.Volume.{
  VolumeHeader, signature_hfs, volume_header_offset, volume_header_size, parse_volume_header,
}
use libhfs.Volume.Master.{parse_hfs_wrapper_embedded_offset, parse_hfs_master_directory_block}

-- The fields of a Volume that Open writes and nothing changes after.
pub record Volume : Type 0 where
  pub kind : FileSystemKind
  pub header : VolumeHeader
  pub volume_start : ℕ
  pub base_offset : ℕ
  pub hfs_vbm_start : ℕ

-- `f.Extents[0]`
abbrev pub first_extent : List ExtentDescriptor → Result ExtentDescriptor
first_extent [] = panic
first_extent (e ∷ es) = ok e

module _ (r : ReaderAt) where
  -- readVolumeStartHeader
  unfoldable pub read_volume_start_header : ℕ → Result Bytes
  read_volume_start_header volume_start =
      elim (read_at_exact r (add64 volume_start volume_header_offset) volume_header_size) [
        | ok buf ↦ ok buf
        | panic ↦ panic
        | err e ↦
            if not (volume_start == 0) && is e short_read
            then fail "open" volume_start short_read
            else err e
      ]

  -- checkBaseOffsetFits
  unfoldable pub check_base_offset_fits : ℕ → ℕ → Result (Unit {0})
  check_base_offset_fits volume_start derived =
      reject_if (is_neg64 derived || slt64 (sub64 max_int64 derived) volume_start) "open"
        volume_start invalid_offset

  -- newVolume, without the configuration that the reads do not use.
  abbrev pub new_volume : FileSystemKind → VolumeHeader → ℕ → ℕ → ℕ → Volume
  new_volume kind hdr volume_start derived vbm_start = record {
    kind = kind;
    header = hdr;
    volume_start = volume_start;
    base_offset = add64 volume_start derived;
    hfs_vbm_start = vbm_start;
  }

  -- The branch of a classic HFS volume.
  unfoldable pub open_classic : ℕ → Bytes → Result Volume
  open_classic volume_start buf = do
    (hdr, hfs_base, vbm_start) ← parse_hfs_master_directory_block buf volume_start
    check_base_offset_fits volume_start hfs_base
    ok (new_volume hfs hdr volume_start hfs_base vbm_start)

  -- The HFS+ or HFSX volume whose header `buf` holds.
  unfoldable pub open_plus : ℕ → ℕ → Bytes → Result Volume
  open_plus volume_start derived buf = do
    (hdr, kind) ← parse_volume_header buf (add64 volume_start derived)
    ok (new_volume kind hdr volume_start derived 0)

  -- The branch of an HFS wrapper.
  unfoldable pub open_embedded : ℕ → ℕ → Result Volume
  open_embedded volume_start embedded_offset = do
    check_base_offset_fits volume_start embedded_offset
    buf ←
        read_at_exact r (add64 (add64 volume_start embedded_offset) volume_header_offset)
          volume_header_size
    open_plus volume_start embedded_offset buf

  -- The branches on what parseHFSWrapperEmbeddedOffset finds.
  abbrev pub open_embedded_or_classic : ℕ → Bytes → Option ℕ → Result Volume
  open_embedded_or_classic volume_start buf none = open_classic volume_start buf
  open_embedded_or_classic volume_start buf (some offset) = open_embedded volume_start offset

  -- The volume under the signature of classic HFS: wrapped or plain.
  unfoldable pub open_hfs : ℕ → Bytes → Result Volume
  open_hfs volume_start buf =
      parse_hfs_wrapper_embedded_offset buf >>= open_embedded_or_classic volume_start buf

  -- openAt, on a reader that is there.
  unfoldable pub open_at : ℕ → Result Volume
  open_at volume_start = do
    reject_if (is_neg64 volume_start) "open" volume_start invalid_offset
    buf ← read_volume_start_header volume_start
    sig ← field16 buf 0
    if sig == signature_hfs then open_hfs volume_start buf else open_plus volume_start 0 buf

  -- readForkBTreeHeader. `op` is the operation's name with its suffix.
  unfoldable pub read_fork_btree_header : Volume → ForkData → String → Result BtreeHeaderRecord
  read_fork_btree_header v f op = do
    reject_if (v.header.block_size == 0) op 0 corrupt
    first ← first_extent f.extents
    reject_if (first.block_count == 0) op 0 missing_extent
    let tree_start =
        disk_offset v.base_offset v.header.block_size (mul64 first.start_block v.header.block_size)
    buf ← read_at_exact r tree_start 120
    desc_bytes ← slice buf 0 14
    desc ← parse_btree_node_descriptor desc_bytes
    reject_if (not (desc.node_type == node_type_head)) op tree_start invalid_btree_node
    header_bytes ← slice buf 14 120
    parse_btree_header_record header_bytes
