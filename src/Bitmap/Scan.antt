-- ===== src/Bitmap/Scan.antt =====
-- The loops of alloc.go over chunks, bytes and bits as one scan of the volume's blocks.
use mathlib.Core.Path.{fun_ext}
use libhfs.Prelude.{
  ℕ, zero, suc, ◌+◌, ◌-◌, ◌*◌, ◌/◌, ◌%◌, ◌^◌, ◌≤◌, ◌<◌, ◌≡◌, refl, sym, ap, min, ◌∙◌, inl, inr,
  Bool, true, false, List, [], ◌∷◌, ◌++◌, arith, append-nil, take-append-drop, drop-drop, ltb→lt,
  take_of_length-le, drop_of_length-le, length-take, length-drop, ◌==◌, ltb, leb, if◌then◌else◌,
  Bool-cases, length, take, drop, replicate, append_assoc, length-append, Option, none, some, add32,
  ==_iff,
}
use libhfs.Errors.{Error, ok, err, panic}
use libhfs.Bytes.{Bytes}
use libhfs.Bitmap.{
  Walk, Callback, Outcome, and_then, go_on, to_result, flush, extend, is_set, walk_bits, walk_bytes,
  walk_chunks, chunk_size, ReadBitmap,
}

-- The allocation bits of the blocks of a byte, from `bit` on.
unfoldable pub bits_of : ℕ → ℕ → ℕ → List Bool
bits_of bt bit zero = []
bits_of bt bit (suc n) = is_set bt bit ∷ bits_of bt (bit + 1) n

module _ {S : Type 0} (cb : Callback S) where
  -- One block after the other, from block `pos` on.
  unfoldable pub scan : ℕ → List Bool → Walk S → Outcome S
  scan pos [] w = (w, ok tt)
  scan pos (true ∷ bits) w = and_then (flush cb w) (scan (suc pos) bits)
  scan pos (false ∷ bits) w = scan (suc pos) bits (extend cb pos w)

  and_then_assoc :
      (o : Outcome S) (f g : Walk S → Outcome S)
      → and_then (and_then o f) g ≡ and_then o (λ w. and_then (f w) g)
  and_then_assoc (w, ok _) f g = refl
  and_then_assoc (w, err e) f g = refl
  and_then_assoc (w, panic) f g = refl

  pub scan-append :
      (pos : ℕ) (xs ys : List Bool) (w : Walk S) {next : ℕ}
      → pos + length xs ≡ next
      → scan pos (xs ++ ys) w ≡ and_then (scan pos xs w) (scan next ys)
  unfolding scan
  scan-append pos [] ys w {next} e = let k : pos ≡ next = omega arith in rw k refl
  scan-append pos (true ∷ xs) ys w {next} e =
      ap (and_then (flush cb w)) (fun_ext (λ v. scan-append (suc pos) xs ys v (omega arith)))
      ∙ sym (and_then_assoc (flush cb w) (scan (suc pos) xs) (scan next ys))
  scan-append pos (false ∷ xs) ys w e = scan-append (suc pos) xs ys (extend cb pos w) (omega arith)

  -- The first `k` bits from `bit` on, which stand for blocks of the volume.
  walk_bits-scan :
      (total base bt bit n pos k : ℕ) (w : Walk S)
      → base + bit ≡ pos
      → k ≡ min n (total - pos)
      → pos + n ≤ 2 ^ 32
      → walk_bits cb total base bt bit n w ≡ scan pos (bits_of bt bit k) w
  unfolding walk_bits scan bits_of
  walk_bits-scan total base bt bit zero pos zero w e c h = refl
  walk_bits-scan total base bt bit zero pos (suc k) w e c h = absurd (omega arith)
  walk_bits-scan total base bt bit (suc n) pos zero w e c h =
      let p : add32 base bit ≡ pos = omega arith in
      let t : leb total pos ≡ true = ground arith in rw (p, t) refl
  walk_bits-scan total base bt bit (suc n) pos (suc k) w e c h =
      let p : add32 base bit ≡ pos = omega arith in
      let t : leb total pos ≡ false = ground arith in
      let step : (v : Walk S)
          → walk_bits cb total base bt (bit + 1) n v ≡ scan (suc pos) (bits_of bt (bit + 1) k) v =
        λ v.
          walk_bits-scan total base bt (bit + 1) n (suc pos) k v (omega arith) (omega arith)
            (omega arith) in
      elim (Bool-cases (is_set bt bit)) [
        | inl set ↦ rw (p, t, set) (ap (and_then (flush cb w)) (fun_ext step))
        | inr unset ↦ rw (p, t, unset) (step (extend cb pos w))
      ]

  flush_closed :
      (w : Walk S) (e : Option Error)
      → w.run_len ≡ 0
      → and_then (w, to_result e) (flush cb) ≡ (w, to_result e)
  unfolding flush
  flush_closed w none h = rw h refl
  flush_closed w (some e) h = refl

  -- A second flush does nothing.
  flush_twice : (w : Walk S) → and_then (flush cb w) (flush cb) ≡ flush cb w
  unfolding flush
  flush_twice w = elim (Bool-cases (w.run_len == 0)) [
    | inl closed ↦ rw (closed, closed) refl
    | inr open_ ↦ rw open_ (flush_closed _ (cb w.user w.run_start w.run_len).1 refl)
  ]

  and_then-done : (o : Outcome S) → and_then o (λ w. (w, ok tt)) ≡ o
  and_then-done (w, ok _) = refl
  and_then-done (w, err e) = refl
  and_then-done (w, panic) = refl

  -- Allocated blocks alone are one flush.
  scan-true : (pos n : ℕ) (w : Walk S) → scan pos (replicate (suc n) true) w ≡ flush cb w
  unfolding scan
  scan-true pos zero w = and_then-done (flush cb w)
  scan-true pos (suc n) w =
      ap (and_then (flush cb w)) (fun_ext (λ v. scan-true (suc pos) n v)) ∙ flush_twice w

is_set-255 : (bit : ℕ) → bit < 8 → is_set 255 bit ≡ true
unfolding is_set
is_set-255 zero h = refl
is_set-255 (suc zero) h = refl
is_set-255 (suc (suc zero)) h = refl
is_set-255 (suc (suc (suc zero))) h = refl
is_set-255 (suc (suc (suc (suc zero)))) h = refl
is_set-255 (suc (suc (suc (suc (suc zero))))) h = refl
is_set-255 (suc (suc (suc (suc (suc (suc zero)))))) h = refl
is_set-255 (suc (suc (suc (suc (suc (suc (suc zero))))))) h = refl
is_set-255 (suc (suc (suc (suc (suc (suc (suc (suc bit)))))))) h = absurd (omega arith)

bits_of-255 : (bit n : ℕ) → bit + n ≤ 8 → bits_of 255 bit n ≡ replicate n true
unfolding bits_of
bits_of-255 bit zero h = refl
bits_of-255 bit (suc n) h =
    rw (is_set-255 bit (omega arith)) (ap (◌∷◌ true) (bits_of-255 (bit + 1) n (omega arith)))

pub length-bits_of : (bt bit n : ℕ) → length (bits_of bt bit n) ≡ n
unfolding bits_of
length-bits_of bt bit zero = refl
length-bits_of bt bit (suc n) = ap suc (length-bits_of bt (bit + 1) n)

-- The bits of the blocks below `total` in a bitmap's bytes, of which the first is byte `i`.
unfoldable pub bitmap_bits : ℕ → ℕ → Bytes → List Bool
bitmap_bits total i [] = []
bitmap_bits total i (bt ∷ bts) =
    bits_of bt 0 (min 8 (total - i * 8)) ++ bitmap_bits total (suc i) bts

module _ {S : Type 0} (cb : Callback S) (total : ℕ) (small : total < 2 ^ 32) where
  walk_byte-scan :
      (bt j : ℕ) (w : Walk S)
      → j * 8 < total
      → (if bt == 255 then flush cb w else walk_bits cb total (j % 2 ^ 32 * 8 % 2 ^ 32) bt 0 8 w)
        ≡ scan cb (j * 8) (bits_of bt 0 (min 8 (total - j * 8))) w
  walk_byte-scan bt j w h =
      let base : j % 2 ^ 32 * 8 % 2 ^ 32 ≡ j * 8 = omega arith in
      elim (Bool-cases (bt == 255)) [
        | inl full ↦
            let k = min 8 (total - j * 8) - 1 in
            let e : min 8 (total - j * 8) ≡ suc k = omega arith in
            let b : bt ≡ 255 = (==_iff bt 255).0 full in
            rw (full, e)
              (sym (
                ap (λ bs. scan cb (j * 8) bs w)
                  (ap (λ c. bits_of c 0 (suc k)) b ∙ bits_of-255 0 (suc k) (omega arith))
                ∙ scan-true cb (j * 8) k w))
        | inr mixed ↦
            rw (mixed, base)
              (walk_bits-scan cb total (j * 8) bt 0 8 (j * 8) _ w (omega arith) refl (omega arith))
      ]

  walk_bytes-scan :
      (off i j : ℕ) (bts : Bytes) (w : Walk S)
      → off + i ≡ j
      → (0 < length bts → (j + length bts - 1) * 8 < total)
      → walk_bytes cb total off i bts w ≡ scan cb (j * 8) (bitmap_bits total j bts) w
  unfolding walk_bytes scan bitmap_bits
  walk_bytes-scan off i j [] w e h = refl
  walk_bytes-scan off i j (bt ∷ []) w e h =
      let last = h (omega arith) in
      let here = min 8 (total - j * 8) in
      rw (e, walk_byte-scan bt j w (omega arith), append-nil (bits_of bt 0 here))
        (and_then-done cb (scan cb (j * 8) (bits_of bt 0 here) w))
  walk_bytes-scan off i j (bt ∷ b ∷ bts) w e h =
      let last = h (omega arith) in
      let here = min 8 (total - j * 8) in
      let next : j * 8 + length (bits_of bt 0 here) ≡ suc j * 8 =
        omega (arith, length-bits_of bt 0 here) in
      rw (e, walk_byte-scan bt j w (omega arith))
        (ap (and_then (scan cb (j * 8) (bits_of bt 0 here) w)) (
            fun_ext (λ v.
              walk_bytes-scan off (i + 1) (suc j) (b ∷ bts) v (omega arith) (λ p. omega arith)))
          ∙ sym (
              scan-append cb (j * 8) (bits_of bt 0 here) (bitmap_bits total (suc j) (b ∷ bts)) w
                next))

  bitmap_bits-append :
      (i k : ℕ) (xs ys : Bytes)
      → i + length xs ≡ k
      → bitmap_bits total i (xs ++ ys) ≡ bitmap_bits total i xs ++ bitmap_bits total k ys
  unfolding bitmap_bits
  bitmap_bits-append i k [] ys e = let h : i ≡ k = omega arith in rw h refl
  bitmap_bits-append i k (x ∷ xs) ys e =
      ap (λ bs. bits_of x 0 (min 8 (total - i * 8)) ++ bs)
        (bitmap_bits-append (suc i) k xs ys (omega arith))
      ∙ sym (append_assoc (bits_of x 0 (min 8 (total - i * 8))) _ _)

  -- Bytes whose successor still holds blocks hold eight each.
  pub length-bitmap_bits :
      (i : ℕ) (xs : Bytes)
      → (i + length xs) * 8 ≤ total
      → length (bitmap_bits total i xs) ≡ length xs * 8
  unfolding bitmap_bits
  length-bitmap_bits i [] h = omega arith
  length-bitmap_bits i (x ∷ xs) h = omega (
    arith,
    length-append (bits_of x 0 (min 8 (total - i * 8))) (bitmap_bits total (suc i) xs),
    length-bits_of x 0 (min 8 (total - i * 8)),
    length-bitmap_bits (suc i) xs,
  )

  go_on-and_then :
      (o : Outcome S) (f : Walk S → Outcome S) → go_on o (λ w. some (f w)) ≡ some (and_then o f)
  go_on-and_then (w, ok _) f = refl
  go_on-and_then (w, err e) f = refl
  go_on-and_then (w, panic) f = refl

  -- The loop over the chunks of a bitmap `bm` of just the bytes that hold blocks.
  module _ (bm : Bytes) (read : ReadBitmap) (enough : length bm ≡ (total + 7) / 8)
      (reads : (off n : ℕ) → off + n ≤ length bm → read off n ≡ ok (take n (drop off bm))) where
    -- A last chunk is all that is left, and any other is full.
    last_chunk :
        (off : ℕ)
        → length bm ≤ off + 65536
        → (off < length bm)
        → read off (chunk_size off (length bm)) ≡ ok (drop off bm)
    last_chunk off short h =
        let e : chunk_size off (length bm) ≡ length bm - off = ground arith in
        rw e (
          reads off (length bm - off) (omega arith)
          ∙ ap ok (take_of_length-le _ (drop off bm) (omega (arith, length-drop off bm))))

    full_chunk :
        (off : ℕ)
        → off + 65536 < length bm
        → read off (chunk_size off (length bm)) ≡ ok (take 65536 (drop off bm))
    full_chunk off h =
        let e : chunk_size off (length bm) ≡ 65536 = ground arith in
        rw e (reads off 65536 (omega arith))

    abbrev chunk_of : ℕ → Bytes
    chunk_of off = take 65536 (drop off bm)

    split_chunk :
        (off : ℕ)
        → off + 65536 < length bm
        → bitmap_bits total off (drop off bm)
          ≡ bitmap_bits total off (chunk_of off)
            ++ bitmap_bits total (off + 65536) (drop (off + 65536) bm)
    split_chunk off h =
        let l : length (take 65536 (drop off bm)) ≡ 65536 =
          omega (arith, length-take 65536 (drop off bm), length-drop off bm) in
        ap (bitmap_bits total off) (
          sym (take-append-drop 65536 (drop off bm))
          ∙ ap (λ ys. take 65536 (drop off bm) ++ ys)
              (drop-drop 65536 off (off + 65536) bm (omega arith)))
        ∙ bitmap_bits-append off (off + 65536) (take 65536 (drop off bm)) _ (omega arith)

    scan_chunk :
        (off : ℕ) (w : Walk S)
        → off + 65536 < length bm
        → scan cb (off * 8) (bitmap_bits total off (drop off bm)) w
          ≡ and_then (walk_bytes cb total off 0 (chunk_of off) w) (
              scan cb ((off + 65536) * 8) (bitmap_bits total (off + 65536) (drop (off + 65536) bm)))
    scan_chunk off w h =
        let chunk = take 65536 (drop off bm) in
        let l : length chunk ≡ 65536 =
          omega (arith, length-take 65536 (drop off bm), length-drop off bm) in
        let here = walk_bytes-scan off 0 off chunk w (omega arith) (λ p. omega arith) in
        let next : off * 8 + length (bitmap_bits total off chunk) ≡ (off + 65536) * 8 =
          omega (arith, length-bitmap_bits off chunk (omega arith)) in
        ap (λ bits. scan cb (off * 8) bits w) (split_chunk off h)
        ∙ scan-append cb (off * 8) (bitmap_bits total off chunk) _ w next
        ∙ ap
            (λ o. and_then o (
              scan cb ((off + 65536) * 8)
                (bitmap_bits total (off + 65536) (drop (off + 65536) bm))))
            (sym here)

    -- With fuel for every chunk, the loop scans all the blocks and flushes once more.
    pub walk_chunks-scan :
        (fuel off : ℕ) (w : Walk S)
        → length bm ≤ off + fuel * 65536
        → walk_chunks cb read total (length bm) (suc fuel) off w
          ≡ some (and_then (scan cb (off * 8) (bitmap_bits total off (drop off bm)) w) (flush cb))
    unfolding walk_chunks scan bitmap_bits
    walk_chunks-scan zero off w h =
        let e = drop_of_length-le off bm (omega arith) in
        let done : ltb off (length bm) ≡ false = ground arith in rw (done, e) refl
    walk_chunks-scan (suc fuel) off w h = elim (Bool-cases (ltb off (length bm))) [
      | inr done ↦ let e = drop_of_length-le off bm (ground arith) in rw (done, e) refl
      | inl open_ ↦
          let again = λ (v : Walk S). walk_chunks-scan fuel (off + 65536) v (omega arith) in
          elim (Bool-cases (ltb (off + 65536) (length bm))) [
            | inl more ↦
                let lt = ltb→lt (off + 65536) (length bm) more in
                rw (open_, full_chunk off lt, scan_chunk off w lt)
                  (ap (go_on (walk_bytes cb total off 0 (chunk_of off) w)) (fun_ext again)
                    ∙ go_on-and_then (walk_bytes cb total off 0 (chunk_of off) w) _
                    ∙ ap some
                        (sym (and_then_assoc cb (walk_bytes cb total off 0 (chunk_of off) w) _ _)))
            | inr last ↦
                let le : length bm ≤ off + 65536 = ground arith in
                let e = drop_of_length-le (off + 65536) bm le in
                let here =
                  walk_bytes-scan off 0 off (drop off bm) w (omega arith)
                    (λ p. omega (arith, length-drop off bm)) in
                rw (open_, last_chunk off le (ltb→lt off (length bm) open_), here)
                  (ap (go_on (scan cb (off * 8) (bitmap_bits total off (drop off bm)) w))
                      (fun_ext (λ v. again v ∙ rw e refl))
                    ∙ go_on-and_then (scan cb (off * 8) (bitmap_bits total off (drop off bm)) w)
                        (flush cb))
          ]
    ]
