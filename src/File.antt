-- ===== src/File.antt =====
-- file.go: reading an open fork.
pub mod View
use libhfs.Prelude.{
  ℕ, ◌+◌, ◌-◌, ◌^◌, Bool, true, false, Option, none, some, List, [], ◌∷◌, ◌++◌, ltb, leb, ◌==◌,
  if◌then◌else◌, length, take, drop, add64, sub64, mul64, is_neg64, slt64, sle64,
}
use libhfs.Errors.{
  Error, sentinel, eof, corrupt, invalid_offset, Result, ok, err, panic, ◌>>=◌, ◌>>◌, fail,
}
use libhfs.Bytes.{Bytes}
use libhfs.Reader.{ReaderAt, read_at_exact, is_eof}
use libhfs.Extents.{ExtentDescriptor}
use libhfs.ForkRead.{in_extent, span_in}
use libhfs.Decmpfs.{check_alloc}

-- A File: `inline` holds the bytes of a decompressed file, and is `none` for a nil slice.
pub record File : Type 0 where
  pub extents : List ExtentDescriptor
  pub inline : Option Bytes
  pub size : ℕ
  pub off : ℕ

-- What a read gives: the bytes that it wrote, whose number is the count, and its error.
abbrev pub Read : Type 0
Read = Bytes × Result (Unit {0})

abbrev pub at_eof : Result (Unit {0})
at_eof = err (sentinel eof)

abbrev pub prepend : Bytes → Read → Read
prepend chunk (rest, e) = (chunk ++ rest, e)

-- The rest of a round after its read.
abbrev pub after_read : Result Bytes → Bool → Read → Read
after_read (err e) done more = ([], err e)
after_read panic done more = ([], panic)
after_read (ok chunk) true more = (chunk, ok tt)
after_read (ok chunk) false more = prepend chunk more

-- An error of the loop is returned; a read that is short, or that reaches the end, is an io.EOF.
abbrev pub finish : ℕ → ℕ → ℕ → Read → Read
finish want off size (bytes, err e) = (bytes, err e)
finish want off size (bytes, panic) = (bytes, panic)
finish want off size (bytes, ok _) =
    if ltb (length bytes) want
    then (bytes, at_eof)
    else if sle64 size (add64 off (length bytes))
    then (bytes, at_eof)
    else (bytes, ok tt)

-- `want`: the length of `p`, at most what the file has from `off` on.
abbrev pub wanted : ℕ → ℕ → ℕ → ℕ
wanted size off n = if slt64 (sub64 size off) n then sub64 size off else n

module _ (r : ReaderAt) (b_size base : ℕ) where
  -- The loop of ReadAt over the extents: what it writes from `wrote` on.
  unfoldable pub file_loop : List ExtentDescriptor → ℕ → ℕ → ℕ → ℕ → Read
  file_loop [] want logical_base cur wrote = ([], ok tt)
  file_loop (ext ∷ exts) want logical_base cur wrote =
      let ext_bytes = mul64 ext.block_count b_size in
      let in_ext = in_extent cur logical_base in
      let can = span_in ext_bytes in_ext (want - wrote) in
      let phys = add64 base (add64 (mul64 ext.start_block b_size) in_ext) in
      let skip = file_loop exts want (add64 logical_base ext_bytes) cur wrote in
      let more = file_loop exts want (add64 logical_base ext_bytes) (add64 cur can) (wrote + can) in
      if sle64 (add64 logical_base ext_bytes) cur
      then skip
      else if leb want wrote
      then ([], ok tt)
      else if ltb (want - wrote) can
      then ([], panic)
      else after_read (read_at_exact r phys can) (leb want (wrote + can)) more

  -- ReadAt into `n` bytes, on a file that is there.
  unfoldable pub read_at : File → ℕ → ℕ → Read
  read_at f n off =
      if is_neg64 off
      then ([], fail "file_read_at" off invalid_offset)
      else if n == 0
      then ([], ok tt)
      else elim f.inline [
        | some bytes ↦
            if leb (length bytes) off
            then ([], at_eof)
            else if leb (length bytes) (off + n)
            then (drop off bytes, at_eof)
            else (take n (drop off bytes), ok tt)
        | none ↦
            if sle64 f.size off
            then ([], at_eof)
            else finish (wanted f.size off n) off f.size
                (file_loop f.extents (wanted f.size off n) 0 off 0)
      ]

  -- Read, which moves the offset of the file.
  unfoldable pub read : File → ℕ → File × Read
  read f n =
      let out = read_at f n f.off in
      let moved : File = record {
        extents = f.extents;
        inline = f.inline;
        size = f.size;
        off = add64 f.off (length out.0);
      } in
      if n == 0 then (f, ([], ok tt)) else (moved, out)

  -- An io.EOF of ReadAll's read is no error.
  abbrev pub all_of : Read → Result Bytes
  all_of (bytes, ok _) = ok bytes
  all_of (bytes, panic) = panic
  all_of (bytes, err e) = if is_eof e then ok bytes else err e

  -- ReadAll, under the allocation limit.
  unfoldable pub read_all : ℕ → File → Result Bytes
  read_all limit f =
      if f.size == 0
      then ok []
      else if is_neg64 f.size
      then fail "file_read_all" f.size corrupt
      else (check_alloc limit "file_read_all" f.size >> all_of (read_at f f.size 0))
