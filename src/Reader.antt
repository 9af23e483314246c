-- ===== src/Reader.antt =====
-- io.ReaderAt, which the caller of Open supplies, and readAtExact of binary.go.
use libhfs.Prelude.{
  ℕ, ◌+◌, ◌≡◌, refl, ◌≤◌, ◌<◌, Bool, true, false, Option, none, some, arith, ◌==◌, leb,
  if◌then◌else◌, length, take, drop, length-take, length-drop,
}
use libhfs.Errors.{Error, sentinel, parse_error, short_read, eof, Result, ok, err, fail}
use libhfs.Bytes.{Bytes}

-- `r.ReadAt(dst, off)` for a `dst` of `n` bytes: the bytes stored at its start, whose number is
-- the count returned, and the error.
abbrev pub ReaderAt : Type 0
ReaderAt = ℕ → ℕ → Bytes × Option Error

-- `err == io.EOF`
unfoldable pub is_eof : Error → Bool
is_eof (sentinel eof) = true
is_eof _ = false

-- Reads exactly `n` bytes. An error beside a full read is dropped.
unfoldable pub read_at_exact : ReaderAt → ℕ → ℕ → Result Bytes
unfolding is_eof
read_at_exact r off n =
    let (got, e) = r off n in
    elim e [
      | none ↦ if length got == n then ok got else fail "read" off short_read
      | some e ↦
          if length got == n
          then ok got
          else if is_eof e
          then fail "read" off short_read
          else err (parse_error "read" off e)
    ]

-- What io.ReaderAt documents, of a reader over the bytes of an image: a read inside the image
-- fills the buffer, and one of some bytes that runs past its end returns fewer.
pub record IsImage (r : ReaderAt) (img : Bytes) : Type 0 where
  pub full : (off n : ℕ) → off + n ≤ length img → (r off n).0 ≡ take n (drop off img)
  pub short : (off n : ℕ) → 0 < n → length img < off + n → length (r off n).0 < n

-- bytes.Reader, for one.
abbrev pub image_reader : Bytes → ReaderAt
image_reader img off n =
    (take n (drop off img), if leb (off + n) (length img) then none else some (sentinel eof))

pub image_reader-IsImage : (img : Bytes) → IsImage (image_reader img) img
image_reader-IsImage img = record {
  full = λ off n h. refl;
  short = λ off n p h. omega (arith, length-take n (drop off img), length-drop off img);
}

pub read_at_exact-IsImage :
    {r : ReaderAt} {img : Bytes} (off n : ℕ)
    → IsImage r img
    → off + n ≤ length img
    → read_at_exact r off n ≡ ok (take n (drop off img))
unfolding read_at_exact
read_at_exact-IsImage {r} {img} off n i h =
    ground (arith, i.full off n h, length-take n (drop off img), length-drop off img)
