-- ===== src/Ranges/Spans.antt =====
-- The ranges that ExtentRanges of ranges.go is to give for an extent list.
use libhfs.Prelude.{
  ℕ, ◌+◌, ◌-◌, ◌*◌, ◌^◌, ◌≤◌, ◌<◌, min, ◌≡◌, ◌≢◌, ◌⊎◌, mul64, add64, sub64, ltb, is_neg64, not,
  ◌&&◌, inl, inr, refl, true, false, List, [], ◌∷◌, arith, ◌==◌, if◌then◌else◌, length, max_int64,
}
use native.Mathlib.Nat.{mul-le-mul_left}
use libhfs.Errors.{Error, Result, ok, err, panic, ◌>>=◌}
use libhfs.Extents.{ExtentDescriptor}
use libhfs.Ranges.{size_unknown, ByteRange, block_offset, data_of, ranges_from, extent_ranges}

-- The bytes of a span of a fork, from `at` on, that lie below its logical size.
abbrev pub bytes_below : ℕ → ℕ → ℕ → ℕ
bytes_below logical_size at span =
    if logical_size == size_unknown then span else min (logical_size - at) span

module _ (base b_size logical_size : ℕ) where
  pub record IsRange (at : ℕ) (e : ExtentDescriptor) (r : ByteRange) : Type 0 where
    pub placed : r.fork_offset ≡ at
    pub located : r.disk_offset ≡ base + e.start_block * b_size
    pub data_eq : r.data_length ≡ bytes_below logical_size at (e.block_count * b_size)
    pub spans : r.data_length + r.slack ≡ e.block_count * b_size
    pub addressable : r.disk_offset + (r.data_length + r.slack) ≤ max_int64
    pub same_start : r.start_block ≡ e.start_block
    pub same_count : r.block_count ≡ e.block_count

  -- One range per extent, in order, each beginning in the fork where the one before it ends.
  abbrev pub AreRanges : ℕ → List ExtentDescriptor → List ByteRange → Type 0
  AreRanges at [] [] = Unit
  AreRanges at (e ∷ es) (r ∷ rs) = IsRange at e r × AreRanges (at + e.block_count * b_size) es rs
  AreRanges at _ _ = ⊥

  -- Every extent ends below 2 ^ 63, both in the image and in the fork.
  abbrev pub Fits : ℕ → List ExtentDescriptor → Type 0
  Fits at [] = Unit
  Fits at (e ∷ es) =
      (base + e.start_block * b_size + e.block_count * b_size ≤ max_int64)
      × (at + e.block_count * b_size ≤ max_int64)
      × Fits (at + e.block_count * b_size) es

  abbrev pub Delivers : ℕ → List ExtentDescriptor → Result (List ByteRange) → Type 0
  Delivers at exts (ok rs) = AreRanges at exts rs
  Delivers at exts (err e) = Fits at exts → ⊥
  Delivers at exts panic = ⊥

-- A size that is known is at most the largest int64.
abbrev pub IsSize : ℕ → Type 0
IsSize logical_size = (logical_size ≡ size_unknown) ⊎ (logical_size ≤ max_int64)

-- The numbers of an extent are 32-bit.
abbrev pub AreWide : List ExtentDescriptor → Type 0
AreWide [] = Unit
AreWide (e ∷ es) = (e.start_block < 2 ^ 32) × (e.block_count < 2 ^ 32) × AreWide es

mul-small : (a b : ℕ) → a < 2 ^ 32 → b < 2 ^ 32 → mul64 a b ≡ a * b
mul-small a b h k = let q : a * b ≤ a * 2 ^ 32 = mul-le-mul_left a (omega arith) in omega arith

fits-cases :
    (at span : ℕ)
    → at ≤ max_int64
    → ((ltb (sub64 max_int64 at) span ≡ false) × (at + span ≤ max_int64))
      ⊎ ((ltb (sub64 max_int64 at) span ≡ true) × (max_int64 < at + span))
fits-cases at span h = ground arith

add-small : (at span : ℕ) → at + span ≤ max_int64 → add64 at span ≡ at + span
add-small at span h = omega arith

spans_lem :
    (logical_size at span : ℕ)
    → at + span ≤ max_int64
    → bytes_below logical_size at span + sub64 span (bytes_below logical_size at span) ≡ span
spans_lem logical_size at span h = ground arith

-- A range for the first extent, before the ranges of the others.
prepend :
    (base b_size logical_size at : ℕ) (e : ExtentDescriptor) (es : List ExtentDescriptor)
    {r : ByteRange} (rest : Result (List ByteRange))
    → IsRange base b_size logical_size at e r
    → Delivers base b_size logical_size (at + e.block_count * b_size) es rest
    → Delivers base b_size logical_size at (e ∷ es) (rest >>= λ rs. ok (r ∷ rs))
prepend base b_size logical_size at e es (ok rs) i d = (i, d)
prepend base b_size logical_size at e es (err x) i d = λ (_, _, f). d f
prepend base b_size logical_size at e es panic i d = d

data_of_lem :
    (base b_size logical_size at span : ℕ)
    → at + span ≤ max_int64
    → IsSize logical_size
    → data_of base b_size logical_size at span ≡ bytes_below logical_size at span
unfolding data_of
data_of_lem base b_size logical_size at span h k = ground arith

known :
    (logical_size : ℕ)
    → IsSize logical_size
    → (is_neg64 logical_size && not (logical_size == size_unknown)) ≡ false
known logical_size h = ground arith

module _ {base b_size : ℕ} (based : base ≤ max_int64) (block : b_size ≢ 0) where
  block_offset-cases :
      (n : ℕ)
      → n < 2 ^ 32
      → b_size < 2 ^ 32
      → ((block_offset base b_size n ≡ ok (base + n * b_size)) × (base + n * b_size ≤ max_int64))
        ⊎ (((e : Error) × (block_offset base b_size n ≡ err e)) × (max_int64 < base + n * b_size))
  unfolding block_offset
  block_offset-cases n h k = let m = mul-small n b_size h k in ground (arith, m)

  ranges_from-Delivers :
      (logical_size at : ℕ) (exts : List ExtentDescriptor)
      → b_size < 2 ^ 32
      → IsSize logical_size
      → at ≤ max_int64
      → AreWide exts
      → Delivers base b_size logical_size at exts (ranges_from base b_size logical_size at exts)
  unfolding ranges_from
  ranges_from-Delivers logical_size at [] k s h w = tt
  ranges_from-Delivers logical_size at (e ∷ es) k s h (ws, wc, w) =
      let span = e.block_count * b_size in
      let m = mul-small e.block_count b_size wc k in
      elim (block_offset-cases e.start_block ws k) [
        | inr ((x, q), over) ↦ rw (q) (λ (f, _, _). omega (arith, f))
        | inl (q, under) ↦
            rw (q, m)
              (elim (fits-cases at span h) [
                | inr (far, over) ↦ rw (far) (λ (_, f, _). omega (arith, f))
                | inl (near, room) ↦
                    rw (near) (elim (fits-cases (base + e.start_block * b_size) span under) [
                      | inr (far, over) ↦ rw (far) (λ (f, _, _). omega (arith, f))
                      | inl (inside, fit) ↦
                          rw
                            (
                              inside,
                              data_of_lem base b_size logical_size at span room s,
                              add-small at span room,
                            )
                            (prepend base b_size logical_size at e es _
                              (record {
                                placed = refl;
                                located = refl;
                                data_eq = refl;
                                spans = spans_lem logical_size at span room;
                                addressable = rw (spans_lem logical_size at span room) fit;
                                same_start = refl;
                                same_count = refl;
                              })
                              (ranges_from-Delivers logical_size (at + span) es k s room w))
                    ])
              ])
      ]

-- For a volume whose block 0 lies at an int64 offset and whose block size is a uint32 that is not
-- 0, extents of uint32 numbers and a logical size that is unknown or an int64 of at least 0: if
-- every extent ends below 2 ^ 63 in the image and in the fork, ExtentRanges gives one range for
-- each extent, in order and end to end in the fork, located at its block's image offset, whose data
-- are its bytes below the logical size (all of them for an unknown size) and whose slack is the
-- rest; otherwise it gives an error. It never panics.
pub extent_ranges-Delivers :
    {base b_size : ℕ} (logical_size : ℕ) (exts : List ExtentDescriptor)
    → base ≤ max_int64
    → b_size ≢ 0
    → b_size < 2 ^ 32
    → IsSize logical_size
    → AreWide exts
    → Delivers base b_size logical_size 0 exts (extent_ranges base b_size exts logical_size)
unfolding extent_ranges
extent_ranges-Delivers {base} {b_size} logical_size [] based block k s w =
    rw (known logical_size s) tt
extent_ranges-Delivers {base} {b_size} logical_size (e ∷ es) based block k s w =
    let q : (b_size == 0) ≡ false = ground arith in
    let n : (length (e ∷ es) == 0) ≡ false = ground arith in
    rw (known logical_size s, n, q)
      (ranges_from-Delivers based block logical_size 0 (e ∷ es) k s (omega arith) w)
