-- ===== src/Tests/Volumes.antt =====
-- Volume headers, opening a volume, and compressed files.
use libhfs.Prelude.{
  ℕ, ◌+◌, ◌*◌, ◌/◌, ◌≡◌, refl, List, [], ◌∷◌, ◌++◌, arith, length, take, drop, replicate,
}
use libhfs.Errors.{Holds, Result, ok}
use libhfs.Bytes.{Bytes}
use libhfs.Reader.{image_reader, image_reader-IsImage}
use libhfs.Volume.{parse_volume_header}
use libhfs.Volume.Header.{Parses, parse_volume_header-Parses}
use libhfs.Volume.Open.{open_at, Volume}
use libhfs.Extents.{
  ForkData, FileSystemKind, hfs, hfs_plus, resolve_fork_extents_from_fork, compact_extents,
  extent_block_count, block_count_from, trim_extents_to_blocks, trim_from,
}
use libhfs.ForkRead.View.{fork_bytes, extent_bytes}
use libhfs.Bitmap.Delivery.{Readable}
use libhfs.Special.{fork_extents, read_bitmap_at}
use libhfs.Special.Bits.{read_bitmap_at-Readable, read_bitmap_at_plus-Readable}
use libhfs.Volume.Geometry.{IsOpened, open_at-IsOpened}
use libhfs.Decmpfs.{Inflate, decode_decmpfs_resource_fork}
use libhfs.Decmpfs.Chunks.{IsSafe, decode_decmpfs_resource_fork-Holds}

-- An HFS+ header of a volume of three blocks of 512 bytes.
abbrev header : Bytes
header =
    (72 ∷ 43 ∷ 0 ∷ 4 ∷ [])
    ++ (replicate 36 0 ++ ((0 ∷ 0 ∷ 2 ∷ 0 ∷ 0 ∷ 0 ∷ 0 ∷ 3 ∷ []) ++ replicate 464 0))

parse_volume_header-Parses_example : Parses header (parse_volume_header header 0)
parse_volume_header-Parses_example = parse_volume_header-Parses header 0

open_at-IsOpened_example :
    Holds
      (IsOpened (image_reader (replicate 1024 0 ++ header)) 0)
      (open_at (image_reader (replicate 1024 0 ++ header)) 0)
open_at-IsOpened_example = open_at-IsOpened (image_reader (replicate 1024 0 ++ header)) 0

-- A resource fork with one chunk of three bytes, stored as they are.
abbrev fork : Bytes
fork =
    replicate 256 0
    ++ (0 ∷ 0 ∷ 0 ∷ 0 ∷ 1 ∷ 0 ∷ 0 ∷ 0 ∷ 12 ∷ 0 ∷ 0 ∷ 0 ∷ 3 ∷ 0 ∷ 0 ∷ 0 ∷ 65 ∷ 66 ∷ 67 ∷ [])

abbrev stored : Inflate
stored src n = ok (take n src)

stored-IsSafe : IsSafe stored
stored-IsSafe src n = tt

decode_decmpfs_resource_fork-Holds_example :
    Holds (λ out. length out ≡ 3) (decode_decmpfs_resource_fork fork 3 stored)
decode_decmpfs_resource_fork-Holds_example =
    decode_decmpfs_resource_fork-Holds fork 3 stored stored-IsSafe

abbrev no_fork_data : ForkData
no_fork_data = record { logical_size = 0; clump_size = 0; total_blocks = 0; extents = [] }

-- An allocation file of one block, the second of the image.
abbrev allocation : ForkData
allocation = record {
  logical_size = 512;
  clump_size = 0;
  total_blocks = 1;
  extents = record { start_block = 1; block_count = 1 } ∷ [];
}

-- A volume of ten blocks of four bytes; as a classic volume its bitmap is at its start.
abbrev ten_blocks : FileSystemKind → Volume
ten_blocks kind = record {
  kind = kind;
  header = record {
    signature = 0;
    version = 0;
    attributes = 0;
    last_mounted_version = 0;
    journal_info_block = 0;
    create_time = 0;
    modify_time = 0;
    backup_time = 0;
    checked_time = 0;
    file_count = 0;
    folder_count = 0;
    block_size = 4;
    total_blocks = 10;
    free_blocks = 0;
    next_allocation = 0;
    rsrc_clump_size = 0;
    data_clump_size = 0;
    next_catalog_id = 0;
    write_count = 0;
    encodings_bitmap = 0;
    finder_info = [];
    allocation_file = allocation;
    extents_file = no_fork_data;
    catalog_file = no_fork_data;
    attributes_file = no_fork_data;
    startup_file = no_fork_data;
  };
  volume_start = 3;
  base_offset = 0;
  hfs_vbm_start = 0;
}

abbrev bits_image : Bytes
bits_image = 0 ∷ 0 ∷ 0 ∷ 0 ∷ 165 ∷ 64 ∷ 0 ∷ 0 ∷ []

abbrev no_records : ℕ → Result (List (ℕ × Bytes))
no_records cnid = ok []

read_bitmap_at-Readable_example :
    Readable 10
      (take ((10 + 7) / 8) (drop (3 + 0 * 512) bits_image))
      (read_bitmap_at (image_reader bits_image) (ten_blocks hfs) no_records)
read_bitmap_at-Readable_example =
    read_bitmap_at-Readable (image_reader-IsImage bits_image) (omega arith) (ten_blocks hfs)
      no_records 10 (omega arith) refl (omega arith)

allocated :
    fork_extents (image_reader bits_image) (ten_blocks hfs_plus) no_records 6 allocation
    ≡ ok (record { start_block = 1; block_count = 1 } ∷ [])
unfolding fork_extents resolve_fork_extents_from_fork compact_extents extent_block_count
    block_count_from trim_extents_to_blocks trim_from
allocated = refl

read_bitmap_at_plus-Readable_example :
    Readable 10
      (take
        ((10 + 7) / 8)
        (fork_bytes bits_image 4 0 (record { start_block = 1; block_count = 1 } ∷ [])))
      (read_bitmap_at (image_reader bits_image) (ten_blocks hfs_plus) no_records)
unfolding fork_bytes extent_bytes
read_bitmap_at_plus-Readable_example =
    read_bitmap_at_plus-Readable (image_reader-IsImage bits_image) (omega arith)
      (ten_blocks hfs_plus) no_records 10 (omega arith)
      (record { start_block = 1; block_count = 1 } ∷ []) (λ e. cc) allocated (ground arith)
      (omega arith, tt) (omega arith) (omega arith)
