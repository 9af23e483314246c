-- ===== src/Special.antt =====
-- forkio.go, and readBitmapAt of alloc.go: reading the special files of a volume.
pub mod Bits
use libhfs.Prelude.{
  ℕ, ◌+◌, ◌*◌, Option, none, some, List, [], ◌∷◌, ◌==◌, if◌then◌else◌, length, add64, mul64,
}
use libhfs.Errors.{
  invalid_btree_node, missing_extent, Result, ok, err, panic, ◌>>=◌, ◌>>◌, fail, reject_if,
}
use libhfs.Bytes.{Bytes}
use libhfs.Reader.{ReaderAt, read_at_exact}
use libhfs.Extents.{
  ExtentDescriptor, ForkData, hfs, hfs_plus, hfsx, compact_extents, resolve_fork_extents_from_fork,
}
use libhfs.ForkRead.{read_from_extents}
use libhfs.Volume.Open.{Volume}

-- The resolution of a fork always ends (see Extents.Resolve), so its fuel never runs out.
abbrev pub ended : Option (Result (List ExtentDescriptor)) → Result (List ExtentDescriptor)
ended none = panic
ended (some r) = r

-- `walk` is what the extents-overflow tree holds for a file.
module _ (r : ReaderAt) (v : Volume) (walk : ℕ → Result (List (ℕ × Bytes))) where
  -- forkExtents
  unfoldable pub fork_extents : ℕ → ForkData → Result (List ExtentDescriptor)
  fork_extents cnid fork =
      if cnid == 3
      then ok (compact_extents fork.extents)
      else ended (resolve_fork_extents_from_fork v.kind (walk cnid) cnid fork)

  -- nodeReaderFor: the reader of a node of so many bytes.
  unfoldable pub node_reader_for : ℕ → ForkData → ℕ → Result (ℕ → ℕ → Result Bytes)
  node_reader_for cnid fork node_size = do
    reject_if (node_size == 0) "node_reader" cnid invalid_btree_node
    exts ← fork_extents cnid fork
    reject_if (length exts == 0) "node_reader" cnid missing_extent
    ok (λ num n. read_from_extents r v.header.block_size v.base_offset exts (mul64 num node_size) n)

  unfoldable pub hfs_bitmap_offset : ℕ
  hfs_bitmap_offset = add64 v.volume_start (v.hfs_vbm_start * 512)

  -- The bitmap of an HFS+ or HFSX volume, in its allocation file.
  unfoldable pub read_bitmap_file : ℕ → ℕ → Result Bytes
  read_bitmap_file off n = do
    exts ← fork_extents 6 v.header.allocation_file
    reject_if (length exts == 0) "read_bitmap" off missing_extent
    read_from_extents r v.header.block_size v.base_offset exts off n

  -- readBitmapAt
  unfoldable pub read_bitmap_at : ℕ → ℕ → Result Bytes
  read_bitmap_at off n = elim v.kind [
    | hfs ↦ read_at_exact r (add64 hfs_bitmap_offset off) n
    | _ ↦ read_bitmap_file off n
  ]
