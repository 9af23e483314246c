-- ===== src/Ranges.antt =====
-- ranges.go, and BaseOffset, diskOffset and BlockOffset of volume.go: where allocation blocks and
-- extents lie in the image.
pub mod Spans
use libhfs.Prelude.{
  ℕ, ◌+◌, ◌-◌, ◌^◌, Bool, true, false, List, [], ◌∷◌, ltb, ◌==◌, ◌||◌, ◌&&◌, not, if◌then◌else◌,
  length, add64, sub64, mul64, max_int64, is_neg64, slt64,
}
use libhfs.Errors.{corrupt, Result, ok, err, panic, ◌>>=◌, fail}
use libhfs.Extents.{ExtentDescriptor}

-- SizeUnknown, which is -1.
abbrev pub size_unknown : ℕ
size_unknown = 2 ^ 64 - 1

pub record ByteRange : Type 0 where
  pub fork_offset : ℕ
  pub disk_offset : ℕ
  pub data_length : ℕ
  pub slack : ℕ
  pub start_block : ℕ
  pub block_count : ℕ

-- AllocatedLength
unfoldable pub allocated_length : ByteRange → ℕ
allocated_length r = add64 r.data_length r.slack

-- Of a volume: the image offset of its block 0, and the size of a block.
module _ (base b_size : ℕ) where
  -- diskOffset
  unfoldable pub disk_offset : ℕ → ℕ
  disk_offset rel = add64 base rel

  unfoldable pub block_offset : ℕ → Result ℕ
  block_offset block =
      let rel = mul64 block b_size in
      if b_size == 0
      then fail "block_offset" block corrupt
      else if is_neg64 base
      then fail "block_offset" block corrupt
      else if ltb (sub64 max_int64 base) rel
      then fail "block_offset" block corrupt
      else ok (add64 base rel)

  -- `data`, the bytes of a span that belong to the fork.
  unfoldable pub data_of : ℕ → ℕ → ℕ → ℕ
  data_of logical_size fork_offset span =
      let remaining = sub64 logical_size fork_offset in
      let rest = if is_neg64 remaining then 0 else remaining in
      if logical_size == size_unknown then span else if slt64 rest span then rest else span

  -- The loop of ExtentRanges.
  unfoldable pub ranges_from : ℕ → ℕ → List ExtentDescriptor → Result (List ByteRange)
  ranges_from logical_size fork_offset [] = ok []
  ranges_from logical_size fork_offset (e ∷ es) =
      let span = mul64 e.block_count b_size in
      let owned = data_of logical_size fork_offset span in
      let rest = ranges_from logical_size (add64 fork_offset span) es in
      block_offset e.start_block >>= λ disk.
      if ltb (sub64 max_int64 fork_offset) span
      then fail "extent_ranges" e.start_block corrupt
      else if ltb (sub64 max_int64 disk) span
      then fail "extent_ranges" e.start_block corrupt
      else (rest >>= λ rs. ok (
          record {
            fork_offset = fork_offset;
            disk_offset = disk;
            data_length = owned;
            slack = sub64 span owned;
            start_block = e.start_block;
            block_count = e.block_count;
          }
          ∷ rs))

  unfoldable pub extent_ranges : List ExtentDescriptor → ℕ → Result (List ByteRange)
  extent_ranges exts logical_size =
      if is_neg64 logical_size && not (logical_size == size_unknown)
      then fail "extent_ranges" logical_size corrupt
      else if length exts == 0
      then ok []
      else if b_size == 0
      then fail "extent_ranges" 0 corrupt
      else ranges_from logical_size 0 exts
