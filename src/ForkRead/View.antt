-- ===== src/ForkRead/View.antt =====
-- A fork as the concatenation of its extents' bytes in the image, for readFromExtents of
-- attributes.go.
use libhfs.Prelude.{
  ℕ, ◌+◌, ◌-◌, ◌*◌, ◌^◌, ◌≤◌, ◌<◌, ◌≡◌, refl, sym, ap, ◌∙◌, inl, inr, true, false, List, [], ◌∷◌,
  ◌++◌, arith, ltb, leb, ◌==◌, if◌then◌else◌, Bool-cases, leb→le, ltb→lt, take_of_length-le, length,
  take, drop, length-take, length-drop, length-append, take-append_le, take-append_ge,
  drop-append_le, drop-append_ge, drop-drop, take-drop-take, add64, mul64, sle64,
}
use libhfs.Errors.{short_read, Result, ok, ◌>>=◌, fail}
use libhfs.Bytes.{Bytes}
use libhfs.Reader.{ReaderAt, read_at_exact, IsImage, read_at_exact-IsImage}
use libhfs.Extents.{ExtentDescriptor}
use libhfs.ForkRead.{in_extent, span_in, read_loop, read_from_extents}

module _ (img : Bytes) (b_size base : ℕ) where
  -- The bytes of an extent, where they stand in the image.
  unfoldable pub extent_bytes : ExtentDescriptor → Bytes
  extent_bytes e = take (e.block_count * b_size) (drop (base + e.start_block * b_size) img)

  unfoldable pub fork_bytes : List ExtentDescriptor → Bytes
  fork_bytes [] = []
  fork_bytes (e ∷ es) = extent_bytes e ++ fork_bytes es

  -- Every extent lies inside the image.
  abbrev pub AreInside : List ExtentDescriptor → Type 0
  AreInside [] = Unit
  AreInside (e ∷ es) =
      (base + e.start_block * b_size + e.block_count * b_size ≤ length img) × AreInside es

  length-extent_bytes :
      (e : ExtentDescriptor)
      → base + e.start_block * b_size + e.block_count * b_size ≤ length img
      → length (extent_bytes e) ≡ e.block_count * b_size
  unfolding extent_bytes
  length-extent_bytes e h = omega (
    arith,
    length-take (e.block_count * b_size) (drop (base + e.start_block * b_size) img),
    length-drop (base + e.start_block * b_size) img,
  )

  -- A read inside one extent.
  piece :
      (e : ExtentDescriptor) (i n : ℕ)
      → i + n ≤ e.block_count * b_size
      → take n (drop (base + e.start_block * b_size + i) img) ≡ take n (drop i (extent_bytes e))
  unfolding extent_bytes
  piece e i n h =
      ap (take n) (sym (drop-drop i (base + e.start_block * b_size) _ img (omega arith)))
      ∙ sym (take-drop-take n i (e.block_count * b_size) _ h)

-- One extent of the loop, where no 64-bit sum or product wraps.
module _ (r : ReaderAt) (b_size base : ℕ) (e : ExtentDescriptor) (exts : List ExtentDescriptor)
    (off remain lb cur wrote len start : ℕ) (e_len : e.block_count * b_size ≡ len)
    (e_start : e.start_block * b_size ≡ start) (fits : base + start + len < 2 ^ 63) (le : lb ≤ cur)
    (cur_fits : cur < 2 ^ 63) (end_fits : lb + len < 2 ^ 63) (remain_fits : remain < 2 ^ 63) where
  step_skip :
      lb + len ≤ cur
      → read_loop r b_size base (e ∷ exts) off remain lb cur wrote
        ≡ read_loop r b_size base exts off remain (lb + len) cur wrote
  unfolding read_loop
  step_skip h =
      let w : mul64 e.block_count b_size ≡ len = omega arith in
      let a : add64 lb len ≡ lb + len = omega arith in
      let t : sle64 (lb + len) cur ≡ true = ground arith in rw (w, a, t) refl

  step_read :
      {chunk : Bytes} (can : ℕ)
      → cur < lb + len
      → (if ltb (remain - wrote) (lb + len - cur) then remain - wrote else lb + len - cur) ≡ can
      → read_at_exact r (base + start + (cur - lb)) can ≡ ok chunk
      → read_loop r b_size base (e ∷ exts) off remain lb cur wrote ≡ (
          if wrote + can == remain then ok chunk else (do
            rest ← read_loop r b_size base exts off remain (lb + len) (cur + can) (wrote + can)
            ok (chunk ++ rest)))
  unfolding read_loop
  step_read can h choice got =
      let w : mul64 e.block_count b_size ≡ len = omega arith in
      let v : mul64 e.start_block b_size ≡ start = omega arith in
      let a : add64 lb len ≡ lb + len = omega arith in
      let t : sle64 (lb + len) cur ≡ false = ground arith in
      let i : in_extent cur lb ≡ cur - lb = ground arith in
      let p : add64 (add64 base start) (cur - lb) ≡ base + start + (cur - lb) = omega arith in
      let sp : span_in len (cur - lb) (remain - wrote) ≡ can = ground arith in
      let room : ltb (remain - wrote) can ≡ false = ground arith in
      let c : add64 cur can ≡ cur + can = ground arith in
      rw (w, a, t, i, v, sp, p, room, got, c) refl

-- `n` bytes of a fork from `i`, or the error of a read that runs past its end.
abbrev pub piece_of : ℕ → Bytes → ℕ → ℕ → Result Bytes
piece_of off fork i n =
    if leb (i + n) (length fork)
    then ok (take n (drop i fork))
    else fail "read_from_extents" off short_read

module _ (off : ℕ) (xs rest : Bytes) (i n : ℕ) where
  piece_of-append_skip :
      length xs ≤ i → piece_of off (xs ++ rest) i n ≡ piece_of off rest (i - length xs) n
  piece_of-append_skip h =
      ground (arith, length-append xs rest, drop-append_ge i (i - length xs) xs rest (omega arith))

  piece_of-append_last : i + n ≤ length xs → piece_of off (xs ++ rest) i n ≡ ok (take n (drop i xs))
  piece_of-append_last h = ground (
    arith,
    length-append xs rest,
    drop-append_le i xs rest (omega arith),
    take-append_le n (drop i xs) rest (omega (arith, length-drop i xs)),
  )

  piece_of-append_more :
      i ≤ length xs
      → length xs ≤ i + n
      → piece_of off (xs ++ rest) i n
        ≡ (do more ← piece_of off rest 0 (i + n - length xs); ok (drop i xs ++ more))
  piece_of-append_more h k =
      let m = i + n - length xs in
      ground (
        arith,
        length-append xs rest,
        drop-append_le i xs rest h,
        take-append_ge n m (drop i xs) rest (omega (arith, length-drop i xs)),
      )

module _ {img : Bytes} (b_size base : ℕ) {r : ReaderAt} (image : IsImage r img)
    (small : length img < 2 ^ 63) where
  -- The extent that holds the next byte to read; `later` is the rest of the loop.
  inside_extent :
      (e : ExtentDescriptor) (exts : List ExtentDescriptor) (off remain lb cur wrote : ℕ)
      → AreInside img b_size base (e ∷ exts)
      → lb ≤ cur
      → cur < 2 ^ 63
      → wrote < remain
      → remain < 2 ^ 63
      → lb + e.block_count * b_size + length (fork_bytes img b_size base exts) < 2 ^ 63
      → cur < lb + e.block_count * b_size
      → ((cur' wrote' : ℕ)
          → lb + e.block_count * b_size ≤ cur'
          → cur' < 2 ^ 63
          → wrote' < remain
          → read_loop r b_size base exts off remain (lb + e.block_count * b_size) cur' wrote'
            ≡ piece_of off
                (fork_bytes img b_size base exts)
                (cur' - (lb + e.block_count * b_size))
                (remain - wrote'))
      → read_loop r b_size base (e ∷ exts) off remain lb cur wrote
        ≡ piece_of off (fork_bytes img b_size base (e ∷ exts)) (cur - lb) (remain - wrote)
  unfolding fork_bytes
  inside_extent e exts off remain lb cur wrote inside le c w rf lf h later =
      let x = extent_bytes img b_size base e in
      let f = fork_bytes img b_size base exts in
      let len = e.block_count * b_size in
      let start = e.start_block * b_size in
      let lx : length x ≡ len = length-extent_bytes img b_size base e inside.0 in
      let left = remain - wrote in
      let room = lb + len - cur in
      let fits : base + start + len < 2 ^ 63 = omega arith in
      let ef : lb + len < 2 ^ 63 = omega arith in
      let chunk : (n : ℕ)
          → n ≤ room
          → read_at_exact r (base + start + (cur - lb)) n ≡ ok (take n (drop (cur - lb) x)) =
        λ n le'.
          read_at_exact-IsImage (base + start + (cur - lb)) n image (omega arith)
          ∙ ap ok (piece img b_size base e (cur - lb) n (omega arith)) in
      elim (Bool-cases (ltb room left)) [
        | inr enough ↦
            let le' : left ≤ room = ground arith in
            let end : (wrote + left == remain) ≡ true = ground arith in
            step_read r b_size base e exts off remain lb cur wrote len start refl refl fits le c ef
              rf left h (ground arith) (chunk left le')
            ∙ rw end refl
            ∙ sym (piece_of-append_last off x f (cur - lb) left (omega arith))
        | inl short ↦
            let lt : room < left = ltb→lt room left short in
            let end : (wrote + room == remain) ≡ false = ground arith in
            let whole : take room (drop (cur - lb) x) ≡ drop (cur - lb) x =
              take_of_length-le room (drop (cur - lb) x)
                (omega (arith, length-drop (cur - lb) x)) in
            let at : cur + room - (lb + len) ≡ 0 = omega arith in
            let rem : remain - (wrote + room) ≡ cur - lb + left - length x = omega arith in
            step_read r b_size base e exts off remain lb cur wrote len start refl refl fits le c ef
              rf room h (ground arith) (chunk room (omega arith))
            ∙ rw
                (
                  end,
                  later (cur + room) (wrote + room) (omega arith) (omega arith) (omega arith),
                  at,
                  rem,
                  whole,
                )
                refl
            ∙ sym (piece_of-append_more off x f (cur - lb) left (omega arith) (omega arith))
      ]

  read_loop-fork_bytes :
      (exts : List ExtentDescriptor) (off remain lb cur wrote : ℕ)
      → AreInside img b_size base exts
      → lb ≤ cur
      → cur < 2 ^ 63
      → wrote < remain
      → remain < 2 ^ 63
      → lb + length (fork_bytes img b_size base exts) < 2 ^ 63
      → read_loop r b_size base exts off remain lb cur wrote
        ≡ piece_of off (fork_bytes img b_size base exts) (cur - lb) (remain - wrote)
  unfolding read_loop fork_bytes
  read_loop-fork_bytes [] off remain lb cur wrote inside le c w rf t = ground arith
  read_loop-fork_bytes (e ∷ exts) off remain lb cur wrote inside le c w rf t =
      let x = extent_bytes img b_size base e in
      let f = fork_bytes img b_size base exts in
      let len = e.block_count * b_size in
      let start = e.start_block * b_size in
      let lx : length x ≡ len = length-extent_bytes img b_size base e inside.0 in
      let lf : lb + len + length f < 2 ^ 63 = omega (arith, length-append x f) in
      let fits : base + start + len < 2 ^ 63 = omega arith in
      let ef : lb + len < 2 ^ 63 = omega arith in
      elim (Bool-cases (leb (lb + len) cur)) [
        | inl past ↦
            let h = leb→le (lb + len) cur past in
            let d : cur - lb - length x ≡ cur - (lb + len) = omega arith in
            step_skip r b_size base e exts off remain lb cur wrote len start refl refl fits le c ef
              rf h
            ∙ read_loop-fork_bytes exts off remain (lb + len) cur wrote inside.1 h c w rf lf
            ∙ sym (piece_of-append_skip off x f (cur - lb) (remain - wrote) (omega arith) ∙ rw d)
        | inr inx ↦
            let h : cur < lb + len = ground arith in
            inside_extent e exts off remain lb cur wrote inside le c w rf lf h
              (λ cur' wrote' a b c'.
                read_loop-fork_bytes exts off remain (lb + len) cur' wrote' inside.1 a b c' rf lf)
      ]

  -- On a reader of an image, for extents that lie inside it, an offset and a positive number of
  -- bytes, all sizes below 2 ^ 63: readFromExtents gives the bytes at that offset of the
  -- concatenation of the extents' bytes, or a short read where they run past its end.
  pub read_from_extents-fork_bytes :
      (exts : List ExtentDescriptor) (off n : ℕ)
      → AreInside img b_size base exts
      → off < 2 ^ 63
      → 0 < n
      → n < 2 ^ 63
      → length (fork_bytes img b_size base exts) < 2 ^ 63
      → read_from_extents r b_size base exts off n
        ≡ piece_of off (fork_bytes img b_size base exts) off n
  unfolding read_from_extents
  read_from_extents-fork_bytes exts off n inside o p q t =
      ground (arith, read_loop-fork_bytes exts off n 0 off 0 inside)
