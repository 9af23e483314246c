-- ===== src/Bitmap/Delivery.antt =====
-- The public operations of alloc.go on a volume whose bitmap can be read.
use libhfs.Prelude.{
  Option-cases, ltb→lt, ℕ, zero, suc, ◌+◌, ◌-◌, ◌*◌, ◌/◌, ◌%◌, ◌^◌, ◌≤◌, ◌<◌, ◌≡◌, refl, sym, ap,
  min, ◌∙◌, inl, inr, Bool, true, false, List, [], ◌∷◌, ◌++◌, arith, ◌==◌, ltb, leb, Bool-cases,
  length, take, drop, length-append, none, some, add32, ==_iff, get_or,
}
use libhfs.Errors.{Result, ok, err, panic, end_walk}
use libhfs.Bytes.{Bytes, u8, index-ok}
use libhfs.Bitmap.{
  Walk, Callback, Outcome, and_then, to_result, flush, extend, is_set, walk_free_runs,
  walk_unallocated, free_block_count, count_free, block_allocated, ReadBitmap,
}
use libhfs.Extents.Blocks.{run, length-run}
use libhfs.Bitmap.Runs.{runs_from, free_runs, free_from, free_runs_lem, run_blocks}
use libhfs.Bitmap.Scan.{scan, bitmap_bits, walk_chunks-scan, bits_of, length-bits_of}

-- A callback is given one run after the other, until it returns an error.
unfoldable pub feed : {S : Type 0} → Callback S → List (ℕ × ℕ) → S → S × Result (Unit {0})
feed cb [] u = (u, ok tt)
feed cb ((s, n) ∷ rs) u =
    let (u', e) = cb u s n in
    let rest = feed cb rs u' in elim e [ none ↦ rest | some x ↦ (u', err x) ]

-- A stop of the callback is no error.
abbrev pub ended : {S : Type 0} → S × Result (Unit {0}) → S × Result (Unit {0})
ended (u, ok _) = (u, ok tt)
ended (u, err e) = (u, to_result (end_walk (some e)))
ended (u, panic) = (u, panic)

abbrev result_of : {S : Type 0} → Outcome S → S × Result (Unit {0})
result_of (w, r) = (w.user, r)

module _ {S : Type 0} (cb : Callback S) where
  abbrev open_run : ℕ → ℕ → S → Walk S
  open_run start len u = record { run_start = start; run_len = len; user = u }

  scan-feed :
      (pos start len : ℕ) (bits : List Bool) (u : S)
      → len + length bits < 2 ^ 32
      → result_of (and_then (scan cb pos bits (open_run start len u)) (flush cb))
        ≡ feed cb (runs_from pos start len bits) u
  unfolding scan flush extend runs_from feed
  scan-feed pos start zero [] u h = refl
  scan-feed pos start (suc len) [] u h =
      let t : (suc len == 0) ≡ false = ground arith in
      elim (Option-cases (cb u start (suc len)).1) [
        | inl e ↦ rw (t, e) refl
        | inr (x, e) ↦ rw (t, e) refl
      ]
  scan-feed pos start zero (true ∷ bits) u h = scan-feed (suc pos) start 0 bits u (omega arith)
  scan-feed pos start (suc len) (true ∷ bits) u h =
      let (u', r) = cb u start (suc len) in
      let t : (suc len == 0) ≡ false = ground arith in
      elim (Option-cases r) [
        | inl e ↦ rw (t, e) (scan-feed (suc pos) start 0 bits u' (omega arith))
        | inr (x, e) ↦ rw (t, e) refl
      ]
  scan-feed pos start zero (false ∷ bits) u h = scan-feed (suc pos) pos 1 bits u (omega arith)
  scan-feed pos start (suc len) (false ∷ bits) u h =
      let e : add32 (suc len) 1 ≡ suc (suc len) = omega arith in
      let t : (suc len == 0) ≡ false = ground arith in
      rw (e, t) (scan-feed (suc pos) start (suc (suc len)) bits u (omega arith))

-- The readable bitmap of a volume: `bm` holds just the bytes that describe its blocks.
pub record Readable (total : ℕ) (bm : Bytes) (read : ReadBitmap) : Type 0 where
  pub small : total < 2 ^ 32
  pub enough : length bm ≡ (total + 7) / 8
  pub reads : (off n : ℕ) → off + n ≤ length bm → read off n ≡ ok (take n (drop off bm))

-- The allocation bits of the volume's blocks.
abbrev pub block_bits : ℕ → Bytes → List Bool
block_bits total bm = bitmap_bits total 0 bm

length-bitmap_bits-le : (total i : ℕ) (xs : Bytes) → length (bitmap_bits total i xs) ≤ total - i * 8
unfolding bitmap_bits
length-bitmap_bits-le total i [] = omega arith
length-bitmap_bits-le total i (x ∷ xs) = omega (
  arith,
  length-append (bits_of x 0 (min 8 (total - i * 8))) (bitmap_bits total (suc i) xs),
  length-bits_of x 0 (min 8 (total - i * 8)),
  length-bitmap_bits-le total (suc i) xs,
)

no_blocks : (total : ℕ) (bm : Bytes) → length bm ≡ 0 → free_runs (block_bits total bm) ≡ []
unfolding free_runs bitmap_bits runs_from
no_blocks total [] h = refl
no_blocks total (b ∷ bm) h = absurd (omega arith)

feed-count_free :
    (rs : List (ℕ × ℕ)) (c n : ℕ)
    → c + length (run_blocks rs) ≡ n
    → n < 2 ^ 32
    → feed count_free rs c ≡ (n, ok tt)
unfolding feed run_blocks
feed-count_free [] c n e h = ap (λ k. (k, ok tt)) (omega arith)
feed-count_free ((s, m) ∷ rs) c n e h =
    let l = length-append (run s m) (run_blocks rs) in
    let k : add32 c m ≡ c + m = omega (arith, l, length-run s m) in
    rw k (feed-count_free rs (c + m) n (omega (arith, l, length-run s m)) h)

length-free_from-le : (pos : ℕ) (bits : List Bool) → length (free_from pos bits) ≤ length bits
unfolding free_from
length-free_from-le pos [] = omega arith
length-free_from-le pos (true ∷ bits) = omega (arith, length-free_from-le (suc pos) bits)
length-free_from-le pos (false ∷ bits) = omega (arith, length-free_from-le (suc pos) bits)

take_one : (xs : Bytes) (k : ℕ) → k < length xs → take 1 (drop k xs) ≡ get_or xs k 0 ∷ []
take_one [] k h = elim h [ ]
take_one (x ∷ xs) zero h = refl
take_one (x ∷ xs) (suc k) h = take_one xs k (omega arith)

get_or-append_le :
    (xs ys : List Bool) (k : ℕ) → k < length xs → get_or (xs ++ ys) k true ≡ get_or xs k true
get_or-append_le [] ys k h = elim h [ ]
get_or-append_le (x ∷ xs) ys zero h = refl
get_or-append_le (x ∷ xs) ys (suc k) h = get_or-append_le xs ys k (omega arith)

get_or-append_ge :
    (xs ys : List Bool) (k m : ℕ) → k ≡ length xs + m → get_or (xs ++ ys) k true ≡ get_or ys m true
get_or-append_ge [] ys k m h = ap (λ j. get_or ys j true) (omega arith)
get_or-append_ge (x ∷ xs) ys zero m h = absurd (omega arith)
get_or-append_ge (x ∷ xs) ys (suc k) m h = get_or-append_ge xs ys k m (omega arith)

bits_of-get_or : (bt bit n k : ℕ) → k < n → get_or (bits_of bt bit n) k true ≡ is_set bt (bit + k)
unfolding bits_of
bits_of-get_or bt bit zero k h = elim h [ ]
bits_of-get_or bt bit (suc n) zero h = ap (is_set bt) (omega arith)
bits_of-get_or bt bit (suc n) (suc k) h =
    bits_of-get_or bt (bit + 1) n k (omega arith) ∙ ap (is_set bt) (omega arith)

bitmap_bits-get_or :
    (total i : ℕ) (xs : Bytes) (k : ℕ)
    → i * 8 + k < total
    → k / 8 < length xs
    → get_or (bitmap_bits total i xs) k true ≡ is_set (get_or xs (k / 8) 0) (k % 8)
unfolding bitmap_bits
bitmap_bits-get_or total i [] k h lt = elim lt [ ]
bitmap_bits-get_or total i (x ∷ xs) k h lt =
    let n = min 8 (total - i * 8) in
    let l = length-bits_of x 0 n in
    elim (Bool-cases (ltb k 8)) [
      | inl here ↦
          let lt8 = ltb→lt k 8 here in
          let d : k / 8 ≡ 0 = omega arith in
          let m : 0 + k ≡ k % 8 = omega arith in
          rw d (
            get_or-append_le (bits_of x 0 n) _ k (omega arith)
            ∙ bits_of-get_or x 0 n k (omega arith)
            ∙ ap (is_set x) m)
      | inr later ↦
          let ge : 8 ≤ k = ground arith in
          let d : k / 8 ≡ suc ((k - 8) / 8) = omega arith in
          let m : (k - 8) % 8 ≡ k % 8 = omega arith in
          rw d (
            get_or-append_ge (bits_of x 0 n) _ k (k - 8) (omega arith)
            ∙ bitmap_bits-get_or total (suc i) xs (k - 8) (omega arith) (omega arith)
            ∙ ap (is_set (get_or xs ((k - 8) / 8) 0)) m)
    ]

module _ {total : ℕ} {bm : Bytes} {read : ReadBitmap} (v : Readable total bm read) where
  module _ {S : Type 0} (cb : Callback S) where
    walk_free_runs-feed :
        (s : S)
        → (o : Outcome S) × (walk_free_runs cb read total s ≡ some o)
          × (result_of o ≡ feed cb (free_runs (block_bits total bm)) s)
    unfolding walk_free_runs free_runs feed
    walk_free_runs-feed s = elim (Bool-cases (total == 0)) [
      | inl z ↦
          let n = (==_iff total 0).0 z in
          let e : length bm ≡ 0 = omega arith in
          (
            (open_run cb 0 0 s, ok tt),
            rw z refl,
            sym (ap (λ rs. feed cb rs s) (no_blocks total bm e)),
          )
      | inr some_blocks ↦
          let e : (total + 7) / 8 ≡ length bm = sym v.enough in
          let f : length bm + 1 ≡ suc (length bm) = omega arith in
          (
            and_then (scan cb 0 (block_bits total bm) (open_run cb 0 0 s)) (flush cb),
            rw (some_blocks, e, f)
                (walk_chunks-scan cb total v.small bm read v.enough v.reads (length bm) 0 _
                  (omega arith)),
            scan-feed cb 0 0 0 (block_bits total bm) s
                (omega (arith, length-bitmap_bits-le total 0 bm)),
          )
    ]

    walk_unallocated-result_of :
        (s : S) (o : Outcome S)
        → walk_free_runs cb read total s ≡ some o
        → walk_unallocated cb read total s ≡ some (ended (result_of o))
    unfolding walk_unallocated
    walk_unallocated-result_of s (w, ok _) e = rw (e, walk_unallocated) refl
    walk_unallocated-result_of s (w, err x) e = rw (e, walk_unallocated) refl
    walk_unallocated-result_of s (w, panic) e = rw (e, walk_unallocated) refl

    -- On a volume of fewer than 2 ^ 32 blocks whose bitmap can be read, WalkUnallocated gives
    -- the callback the maximal runs of free blocks in ascending order, until it returns an
    -- error; a stop becomes success, and any other error is returned.
    pub walk_unallocated-feed :
        (s : S)
        → walk_unallocated cb read total s
          ≡ some (ended (feed cb (free_runs (block_bits total bm)) s))
    unfolding walk_unallocated
    walk_unallocated-feed s =
        let (o, e, f) = walk_free_runs-feed s in
        walk_unallocated-result_of s o e ∙ ap (λ r. some (ended r)) f

  -- On a volume of fewer than 2 ^ 32 blocks whose bitmap can be read, FreeBlockCount is the
  -- number of blocks whose bit is clear.
  pub free_block_count-free_from :
      free_block_count read total ≡ some (ok (length (free_from 0 (block_bits total bm))))
  unfolding free_block_count
  free_block_count-free_from =
      let runs = free_runs (block_bits total bm) in
      let e = (free_runs_lem (block_bits total bm)).0 in
      let n = length (run_blocks runs) in
      let f : n < 2 ^ 32 = omega (
        arith,
        ap length e,
        length-free_from-le 0 (block_bits total bm),
        length-bitmap_bits-le total 0 bm,
        v.small,
      ) in
      let w : walk_unallocated count_free read total 0 ≡ some (n, ok tt) =
        walk_unallocated-feed count_free 0
        ∙ ap (λ r. some (ended r)) (feed-count_free runs 0 n (omega arith) f) in
      rw (w, free_block_count) (ap (λ bs. some (ok (length bs))) e)

  -- On a volume of fewer than 2 ^ 32 blocks whose bitmap can be read, BlockAllocated answers
  -- for a block of the volume with the bit that the walk reads for it.
  pub block_allocated-block_bits :
      (block : ℕ)
      → block < total
      → block_allocated read total block ≡ ok (get_or (block_bits total bm) block true)
  unfolding block_allocated u8
  block_allocated-block_bits block h =
      let k = block / 8 in
      let lt : k < length bm = omega (arith, v.enough) in
      let inside : leb total block ≡ false = ground arith in
      let got : read k 1 ≡ ok (get_or bm k 0 ∷ []) =
        v.reads k 1 (omega arith) ∙ ap ok (take_one bm k lt) in
      rw (inside, got, index-ok (get_or bm k 0 ∷ []) 0 (omega arith))
        (ap ok (sym (bitmap_bits-get_or total 0 bm block (omega arith) lt)))
