-- ===== src/Tests/Forks.antt =====
-- Extents, reads through them, the allocation bitmap and batches of free blocks.
use libhfs.Prelude.{
  ℕ, ◌+◌, ◌^◌, ◌%◌, ◌≡◌, ◌≢◌, refl, true, inr, none, some, List, [], ◌∷◌, ◌++◌, arith, length, take,
  drop, get_or, leb, if◌then◌else◌,
}
use libhfs.Errors.{ok}
use libhfs.Bytes.{Bytes, field16, slice, be16}
use libhfs.Reader.{image_reader, image_reader-IsImage}
use libhfs.Extents.{
  ExtentDescriptor, ForkData, hfs, compact_extents, extent_block_count, block_count_from, trim_from,
  trim_extents_to_blocks, no_overflow, note_overflow, next_extents, collect_overflow, complete,
  resolve_fork_extents_from_fork, parse_extents_record_by_kind, parse_extents_record_hfs,
  extents_from_hfs,
}
use libhfs.Extents.Blocks.{
  run, blocks, before_end, AreNonempty, trim_extents_to_blocks-blocks, compact_extents-blocks,
  extent_block_count-blocks,
}
use libhfs.Extents.Parse.{extents_of, parse_extents_record_by_kind-extents_of}
use libhfs.Extents.Resolve.{
  Continues, stop, more, overflow_of, resolve_fork_extents_from_fork-ne-none,
  resolve_fork_extents_from_fork-Continues,
}
use libhfs.Extents.Cover.{resolve_fork_extents_from_fork-ok}
use libhfs.ForkRead.{read_from_extents}
use libhfs.ForkRead.View.{fork_bytes, extent_bytes, piece_of, read_from_extents-fork_bytes}
use libhfs.Bitmap.{Callback, ReadBitmap, walk_unallocated, free_block_count, block_allocated}
use libhfs.Bitmap.Runs.{free_runs, free_from}
use libhfs.Bitmap.Delivery.{
  Readable, feed, ended, block_bits, walk_unallocated-feed, free_block_count-free_from,
  block_allocated-block_bits,
}
use libhfs.Ranges.{extent_ranges}
use libhfs.Ranges.Spans.{Delivers, extent_ranges-Delivers}
use libhfs.Workers.{
  BlockRange, split_block_runs, range_blocks, Splits, split_block_runs-Splits,
  split_block_runs-none,
}
use libhfs.File.{File, at_eof, read_at}
use libhfs.File.View.{read_at-fork_bytes}

abbrev extent : ℕ → ℕ → ExtentDescriptor
extent start count = record { start_block = start; block_count = count }

-- A fork of three blocks, two of them in its record.
abbrev fork : ForkData
fork = record {
  logical_size = 1500;
  clump_size = 0;
  total_blocks = 3;
  extents = extent 5 2 ∷ extent 0 0 ∷ [];
}

-- The overflow record of its third block.
abbrev payload : Bytes
payload = 0 ∷ 9 ∷ 0 ∷ 1 ∷ 0 ∷ 0 ∷ 0 ∷ 0 ∷ 0 ∷ 0 ∷ 0 ∷ 0 ∷ []

abbrev records : List (ℕ × Bytes)
records = (2, payload) ∷ []

resolved :
    resolve_fork_extents_from_fork hfs (ok records) 20 fork
    ≡ some (ok (extent 5 2 ∷ extent 9 1 ∷ []))
unfolding resolve_fork_extents_from_fork complete next_extents collect_overflow note_overflow
    compact_extents extent_block_count block_count_from trim_extents_to_blocks trim_from
    parse_extents_record_by_kind parse_extents_record_hfs extents_from_hfs field16 slice be16
resolved = refl

resolve_fork_extents_from_fork-Continues_example :
    (rest : List ExtentDescriptor) × Continues
      (overflow_of hfs (ok records))
      (compact_extents fork.extents)
      rest
    × (blocks (extent 5 2 ∷ extent 9 1 ∷ [])
        ≡ take 3 (blocks (compact_extents fork.extents ++ rest)))
    × (length (blocks (extent 5 2 ∷ extent 9 1 ∷ [])) ≡ 3)
resolve_fork_extents_from_fork-Continues_example =
    resolve_fork_extents_from_fork-Continues hfs (ok records) 20 fork (omega arith) (omega arith)
      resolved

resolve_fork_extents_from_fork-ne-none_example :
    resolve_fork_extents_from_fork hfs (ok records) 20 fork ≢ none
resolve_fork_extents_from_fork-ne-none_example =
    resolve_fork_extents_from_fork-ne-none hfs (ok records) 20 fork

-- The same record continues the two blocks of the fork.
continued :
    Continues
      (collect_overflow hfs no_overflow records)
      (compact_extents fork.extents)
      (extent 9 1 ∷ [])
unfolding next_extents collect_overflow note_overflow compact_extents extent_block_count
    block_count_from parse_extents_record_by_kind parse_extents_record_hfs extents_from_hfs field16
    slice be16 blocks run
continued = more {next = extent 9 1 ∷ []} refl (omega arith) stop

covered : length (blocks (compact_extents fork.extents ++ (extent 9 1 ∷ []))) ≡ 3
unfolding compact_extents blocks run
covered = refl

resolve_fork_extents_from_fork-ok_example :
    (out : List ExtentDescriptor) × (resolve_fork_extents_from_fork hfs (ok records) 20 fork
      ≡ some (ok out))
resolve_fork_extents_from_fork-ok_example =
    resolve_fork_extents_from_fork-ok hfs records 20 fork continued (omega (arith, covered))
      (omega (arith, covered))

trim_extents_to_blocks-blocks_example :
    blocks (trim_extents_to_blocks (extent 5 2 ∷ extent 9 4 ∷ []) 3)
    ≡ take 3 (blocks (extent 5 2 ∷ extent 9 4 ∷ []))
trim_extents_to_blocks-blocks_example =
    trim_extents_to_blocks-blocks (extent 5 2 ∷ extent 9 4 ∷ []) 3 (omega arith)

compact_extents-blocks_example :
    (blocks (compact_extents fork.extents) ≡ blocks (before_end fork.extents))
    × AreNonempty (compact_extents fork.extents)
compact_extents-blocks_example = compact_extents-blocks fork.extents

extent_block_count-blocks_example :
    extent_block_count (extent 5 2 ∷ extent 9 4 ∷ [])
    ≡ length (blocks (extent 5 2 ∷ extent 9 4 ∷ [])) % 2 ^ 32
extent_block_count-blocks_example = extent_block_count-blocks (extent 5 2 ∷ extent 9 4 ∷ [])

parse_extents_record_by_kind-extents_of_example :
    parse_extents_record_by_kind hfs payload ≡ extents_of hfs payload
parse_extents_record_by_kind-extents_of_example =
    parse_extents_record_by_kind-extents_of hfs payload

-- An image of three blocks of four bytes.
abbrev image : Bytes
image = 1 ∷ 2 ∷ 3 ∷ 4 ∷ 5 ∷ 6 ∷ 7 ∷ 8 ∷ 9 ∷ 10 ∷ 11 ∷ 12 ∷ []

abbrev two_blocks : List ExtentDescriptor
two_blocks = extent 2 1 ∷ extent 0 1 ∷ []

read_from_extents-fork_bytes_example :
    read_from_extents (image_reader image) 4 0 two_blocks 2 4
    ≡ piece_of 2 (fork_bytes image 4 0 two_blocks) 2 4
unfolding fork_bytes extent_bytes
read_from_extents-fork_bytes_example =
    read_from_extents-fork_bytes 4 0 (image_reader-IsImage image) (omega arith) two_blocks 2 4
      (omega arith, (omega arith, tt)) (omega arith) (omega arith) (omega arith) (omega arith)

abbrev file : File
file = record { extents = two_blocks; inline = none; size = 7; off = 0 }

read_at-fork_bytes_example : read_at (image_reader image) 4 0 file 4 5 ≡ (
  take 4 (drop 5 (take 7 (fork_bytes image 4 0 two_blocks))),
  if leb 7 (5 + 4) then at_eof else ok tt,
)
unfolding fork_bytes extent_bytes
read_at-fork_bytes_example =
    read_at-fork_bytes 4 0 (image_reader-IsImage image) (omega arith) file 4 5 refl
      (omega arith, (omega arith, tt)) (omega arith) (omega arith) (omega arith) (omega arith)
      (omega arith)

-- A volume of ten blocks, of which four are in use.
abbrev bitmap : Bytes
bitmap = 165 ∷ 0 ∷ []

abbrev read_bitmap : ReadBitmap
read_bitmap off n = ok (take n (drop off bitmap))

readable : Readable 10 bitmap read_bitmap
readable = record { small = omega arith; enough = refl; reads = λ off n h. refl }

-- A callback that notes each run.
abbrev noting : Callback (List (ℕ × ℕ))
noting s start count = ((start, count) ∷ s, none)

walk_unallocated-feed_example :
    walk_unallocated noting read_bitmap 10 []
    ≡ some (ended (feed noting (free_runs (block_bits 10 bitmap)) []))
walk_unallocated-feed_example = walk_unallocated-feed readable noting []

free_block_count-free_from_example :
    free_block_count read_bitmap 10 ≡ some (ok (length (free_from 0 (block_bits 10 bitmap))))
free_block_count-free_from_example = free_block_count-free_from readable

block_allocated-block_bits_example :
    block_allocated read_bitmap 10 2 ≡ ok (get_or (block_bits 10 bitmap) 2 true)
block_allocated-block_bits_example = block_allocated-block_bits readable 2 (omega arith)

extent_ranges-Delivers_example :
    Delivers 1024 512 700 0 two_blocks (extent_ranges 1024 512 two_blocks 700)
extent_ranges-Delivers_example =
    extent_ranges-Delivers 700 two_blocks (omega arith) (ground arith) (omega arith)
      (inr (omega arith)) (omega arith, omega arith, (omega arith, omega arith, tt))

abbrev free_run : BlockRange
free_run = record { start = 10; count = 100 }

split_block_runs-Splits_example :
    Splits 64 (range_blocks (free_run ∷ [])) (split_block_runs 4294967297 64 (free_run ∷ []))
split_block_runs-Splits_example =
    split_block_runs-Splits 4294967297 64 (free_run ∷ []) (ground arith)
      (omega arith, omega arith, tt) (omega arith)

split_block_runs-none_example :
    split_block_runs 1000 64 (record { start = 0; count = 4294967290 } ∷ []) ≡ none
split_block_runs-none_example =
    split_block_runs-none 1000 (record { start = 0; count = 4294967290 }) [] (omega arith)
