-- ===== src/ForkRead.antt =====
-- readFromExtents of attributes.go: one read of a fork's logical bytes through its extents.
pub mod View
use libhfs.Prelude.{
  ℕ, ◌+◌, ◌-◌, Bool, true, false, List, [], ◌∷◌, ◌++◌, ltb, leb, ◌==◌, if◌then◌else◌, length, add64,
  sub64, mul64, is_neg64, slt64, sle64,
}
use libhfs.Errors.{short_read, invalid_offset, Result, ok, err, panic, ◌>>=◌, fail}
use libhfs.Bytes.{Bytes}
use libhfs.Reader.{ReaderAt, read_at_exact}
use libhfs.Extents.{ExtentDescriptor}

-- The start of the unread part inside an extent: `inExt`, which is not negative.
abbrev pub in_extent : ℕ → ℕ → ℕ
in_extent cur logical_base = if is_neg64 (sub64 cur logical_base) then 0 else sub64 cur logical_base

-- `can`: the bytes that the extent still has, at most those that are left to read.
abbrev pub span_in : ℕ → ℕ → ℕ → ℕ
span_in ext_bytes in_ext left =
    if slt64 left (sub64 ext_bytes in_ext) then left else sub64 ext_bytes in_ext

module _ (r : ReaderAt) (b_size base : ℕ) where
  -- The loop over the extents. `remain` is the length of `dst`; the result is what it holds from
  -- `wrote` on. A `can` beyond the end of `dst` would be a slice out of range.
  unfoldable pub read_loop : List ExtentDescriptor → ℕ → ℕ → ℕ → ℕ → ℕ → Result Bytes
  read_loop [] off remain logical_base cur wrote = fail "read_from_extents" off short_read
  read_loop (ext ∷ exts) off remain logical_base cur wrote =
      let ext_bytes = mul64 ext.block_count b_size in
      let in_ext = in_extent cur logical_base in
      let can = span_in ext_bytes in_ext (remain - wrote) in
      let phys = add64 (add64 base (mul64 ext.start_block b_size)) in_ext in
      let skip = read_loop exts off remain (add64 logical_base ext_bytes) cur wrote in
      let more =
        read_loop exts off remain (add64 logical_base ext_bytes) (add64 cur can) (wrote + can) in
      if sle64 (add64 logical_base ext_bytes) cur
      then skip
      else if ltb (remain - wrote) can
      then panic
      else (do
        chunk ← read_at_exact r phys can
        if wrote + can == remain then ok chunk else (do rest ← more; ok (chunk ++ rest)))

  unfoldable pub read_from_extents : List ExtentDescriptor → ℕ → ℕ → Result Bytes
  read_from_extents exts off n =
      if is_neg64 off
      then fail "read_from_extents" off invalid_offset
      else if n == 0
      then ok []
      else read_loop exts off n 0 off 0
