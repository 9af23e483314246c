-- ===== src/File/View.antt =====
-- ReadAt of file.go against the bytes of a fork.
use libhfs.Prelude.{
  ℕ, ◌+◌, ◌-◌, ◌^◌, ◌≤◌, ◌<◌, ◌≡◌, refl, sym, ap, ◌∙◌, inl, inr, Bool, true, false, none, List, [],
  ◌∷◌, ◌++◌, arith, ltb, leb, ◌==◌, if◌then◌else◌, Bool-cases, length, take, drop, take-drop-take,
  take_of_length-le, length-take, length-drop, add64, sub64, mul64, sle64, slt64, is_neg64,
}
use libhfs.Errors.{Result, ok, err, panic, ◌>>=◌}
use libhfs.Bytes.{Bytes}
use libhfs.Reader.{ReaderAt, read_at_exact, IsImage}
use libhfs.Extents.{ExtentDescriptor}
use libhfs.ForkRead.{in_extent, span_in, read_loop, read_from_extents}
use libhfs.ForkRead.View.{fork_bytes, AreInside, read_from_extents-fork_bytes}
use libhfs.File.{File, Read, after_read, finish, at_eof, file_loop, wanted, read_at}

-- One round of both loops.
round :
    (skipped beyond : Bool) (got : Result Bytes) (full done : Bool) {skip more : Result Bytes}
    {skip' more' : Read} {bytes : Bytes}
    → (if skipped
        then skip
        else if beyond
        then panic
        else (do chunk ← got; (if full then ok chunk else (do rest ← more; ok (chunk ++ rest)))))
      ≡ ok bytes
    → (beyond ≡ false → done ≡ full)
    → (skip ≡ ok bytes → skip' ≡ (bytes, ok tt))
    → (beyond ≡ false → full ≡ false → (rest : Bytes) → more ≡ ok rest → more' ≡ (rest, ok tt))
    → (if skipped then skip' else if beyond then ([], panic) else after_read got done more')
      ≡ (bytes, ok tt)
round true beyond got full done h d f g = f h
round false true got full done h d f g = ground (arith, h)
round false false (err e) full done h d f g = ground (arith, h)
round false false panic full done h d f g = ground (arith, h)
round false false (ok chunk) true done h d f g = rw (d refl) (ground (arith, h))
round false false (ok chunk) false done {more = ok rest} h d f g =
    rw (d refl, g refl refl rest refl) (ground (arith, h))
round false false (ok chunk) false done {more = err e} h d f g = ground (arith, h)
round false false (ok chunk) false done {more = panic} h d f g = ground (arith, h)

module _ (r : ReaderAt) (b_size base : ℕ) where
  -- Where the loop of readFromExtents fills its buffer, that of ReadAt writes the same bytes.
  file_loop-read_loop :
      (exts : List ExtentDescriptor) (off want lb cur wrote : ℕ) {bytes : Bytes}
      → wrote < want
      → read_loop r b_size base exts off want lb cur wrote ≡ ok bytes
      → file_loop r b_size base exts want lb cur wrote ≡ (bytes, ok tt)
  unfolding read_loop file_loop
  file_loop-read_loop [] off want lb cur wrote w h = ground (arith, h)
  file_loop-read_loop (e ∷ exts) off want lb cur wrote w h =
      let ext_bytes = mul64 e.block_count b_size in
      let can = span_in ext_bytes (in_extent cur lb) (want - wrote) in
      let p : add64 base (add64 (mul64 e.start_block b_size) (in_extent cur lb))
          ≡ add64 (add64 base (mul64 e.start_block b_size)) (in_extent cur lb) =
        omega arith in
      let z : leb want wrote ≡ false = ground arith in
      rw (p, z)
        (round (sle64 (add64 lb ext_bytes) cur) (ltb (want - wrote) can)
          (read_at_exact r (add64 (add64 base (mul64 e.start_block b_size)) (in_extent cur lb)) can)
          (wrote + can == want) (leb want (wrote + can)) h (λ t. ground arith)
          (λ k. file_loop-read_loop exts off want (add64 lb ext_bytes) cur wrote w k)
          (λ t q rest k.
            file_loop-read_loop exts off want (add64 lb ext_bytes) (add64 cur can) (wrote + can)
              (ground (arith, t, q)) k))

-- Taking no more than a prefix holds, from a place inside it.
clip :
    (n off size : ℕ) (f : Bytes)
    → off < size
    → size < 2 ^ 63
    → n < 2 ^ 63
    → size ≤ length f
    → take (wanted size off n) (drop off f) ≡ take n (drop off (take size f))
clip n off size f h s p k = elim (Bool-cases (slt64 (sub64 size off) n)) [
  | inr q ↦ rw (q) (sym (take-drop-take n off size f (ground (arith, q))))
  | inl q ↦
      let d : sub64 size off ≡ size - off = omega arith in
      let l : length (drop off (take size f)) ≤ n =
        ground (arith, q, length-drop off (take size f), length-take size f) in
      let m : length (drop off (take size f)) ≤ size - off =
        omega (arith, length-drop off (take size f), length-take size f) in
      rw (q, d, take_of_length-le n (drop off (take size f)) l)
        (sym (take-drop-take (size - off) off size f (omega arith))
          ∙ take_of_length-le (size - off) (drop off (take size f)) m)
]

either :
    (b : Bytes) (c : Bool)
    → if◌then◌else◌ {A = Read} c (b, at_eof) (b, ok tt) ≡ (b, if c then at_eof else ok tt)
either b true = refl
either b false = refl

finish-clip :
    (n off size : ℕ) (f : Bytes)
    → off < size
    → size < 2 ^ 63
    → n < 2 ^ 63
    → size ≤ length f
    → finish (wanted size off n) off size (take (wanted size off n) (drop off f), ok tt)
      ≡ (take (wanted size off n) (drop off f), if leb size (off + n) then at_eof else ok tt)
finish-clip n off size f h s p k =
    let want = wanted size off n in
    let l : length (take want (drop off f)) ≡ want =
      ground (arith, length-take want (drop off f), length-drop off f) in
    let q : sle64 size (add64 off want) ≡ leb size (off + n) = ground arith in
    let z : ltb want want ≡ false = ground arith in
    rw (l, z, q) (either (take want (drop off f)) (leb size (off + n)))

module _ {img : Bytes} (b_size base : ℕ) {r : ReaderAt} (image : IsImage r img)
    (small : length img < 2 ^ 63) where
  -- ReadAt, on a file that is not decompressed, whose extents lie inside the image and hold its
  -- size, all sizes below 2 ^ 63: a read of some bytes from an offset inside the file writes the
  -- bytes at that place of the file, as many as there are, and returns io.EOF exactly when it
  -- reaches the file's end.
  pub read_at-fork_bytes :
      (f : File) (n off : ℕ)
      → f.inline ≡ none
      → AreInside img b_size base f.extents
      → 0 < n
      → n < 2 ^ 63
      → off < f.size
      → f.size ≤ length (fork_bytes img b_size base f.extents)
      → length (fork_bytes img b_size base f.extents) < 2 ^ 63
      → read_at r b_size base f n off ≡ (
        take n (drop off (take f.size (fork_bytes img b_size base f.extents))),
        if leb f.size (off + n) then at_eof else ok tt,
      )
  unfolding read_at read_from_extents
  read_at-fork_bytes f n off i inside p q o s t =
      let bytes = fork_bytes img b_size base f.extents in
      let want = wanted f.size off n in
      let c = clip n off f.size bytes o (omega arith) q s in
      let w : (0 < want) × (off + want ≤ f.size) = (ground arith, ground arith) in
      let whole : read_from_extents r b_size base f.extents off want
          ≡ ok (take want (drop off bytes)) =
        read_from_extents-fork_bytes b_size base image small f.extents off want inside (omega arith)
          w.0 (omega (arith, w.1)) t
        ∙ ground (arith, w.1) in
      let neg : is_neg64 off ≡ false = ground arith in
      let some_left : (want == 0) ≡ false = ground (arith, w.0) in
      let some_wanted : (n == 0) ≡ false = ground arith in
      let inside_file : sle64 f.size off ≡ false = ground arith in
      let looped =
        file_loop-read_loop r b_size base f.extents off want 0 off 0 w.0
          (rw (neg, some_left) at whole) in
      rw (neg, some_wanted, i, inside_file, looped)
        (finish-clip n off f.size bytes o (omega arith) q s
          ∙ ap (λ b. (b, if leb f.size (off + n) then at_eof else ok tt)) c)
