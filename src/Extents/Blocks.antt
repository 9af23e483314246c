-- ===== src/Extents/Blocks.antt =====
-- The allocation blocks that an extent list stands for, and what extents.go's cleaning, counting
-- and trimming do to them.
use libhfs.Prelude.{
  ℕ, zero, suc, ◌+◌, ◌-◌, ◌%◌, ◌^◌, ◌≤◌, ◌<◌, ◌≡◌, refl, sym, ap, ◌∙◌, inl, inr, List, [], ◌∷◌,
  ◌++◌, arith, leb, ◌==◌, if◌then◌else◌, Bool-cases, length, take, length-append, take_of_length-le,
  take-append_le, take-append_ge, add32, sub32, append_assoc, append-nil, leb→le, ==_iff,
}
use libhfs.Extents.{
  ExtentDescriptor, is_end, compact_extents, block_count_from, extent_block_count, trim_from,
  trim_extents_to_blocks,
}

-- `n` consecutive blocks from `start`.
unfoldable pub run : ℕ → ℕ → List ℕ
run start zero = []
run start (suc n) = start ∷ run (suc start) n

-- The blocks of an extent list, in the order of the fork.
unfoldable pub blocks : List ExtentDescriptor → List ℕ
blocks [] = []
blocks (e ∷ es) = run e.start_block e.block_count ++ blocks es

-- Every count is a uint32.
abbrev pub AreWords : List ExtentDescriptor → Type 0
AreWords [] = Unit
AreWords (e ∷ es) = (e.block_count < 2 ^ 32) × AreWords es

-- The list up to its terminator, a (0, 0) entry.
unfoldable pub before_end : List ExtentDescriptor → List ExtentDescriptor
before_end [] = []
before_end (e ∷ es) = let rest = before_end es in if is_end e then [] else e ∷ rest

abbrev pub AreNonempty : List ExtentDescriptor → Type 0
AreNonempty [] = Unit
AreNonempty (e ∷ es) = (0 < e.block_count) × AreNonempty es

pub length-run : (s n : ℕ) → length (run s n) ≡ n
unfolding run
length-run s zero = refl
length-run s (suc n) = ap suc (length-run (suc s) n)

pub take-run : (k s n : ℕ) → k ≤ n → take k (run s n) ≡ run s k
unfolding run
take-run zero s n h = refl
take-run (suc k) s zero h = elim h [ ]
take-run (suc k) s (suc n) h = ap (◌∷◌ s) (take-run k (suc s) n (omega arith))

pub blocks-append : (xs ys : List ExtentDescriptor) → blocks (xs ++ ys) ≡ blocks xs ++ blocks ys
unfolding blocks
blocks-append [] ys = refl
blocks-append (e ∷ xs) ys = rw (blocks-append xs ys, append_assoc) refl

block_count_from-blocks :
    (total : ℕ) (es : List ExtentDescriptor)
    → total < 2 ^ 32
    → block_count_from total es ≡ (total + length (blocks es)) % 2 ^ 32
unfolding block_count_from blocks
block_count_from-blocks total [] h = omega arith
block_count_from-blocks total (e ∷ es) h = omega (
  arith,
  block_count_from-blocks (add32 total e.block_count) es (omega arith),
  length-append (run e.start_block e.block_count) (blocks es),
  length-run e.start_block e.block_count,
)

-- extentBlockCount is the number of blocks, modulo 2 ^ 32.
pub extent_block_count-blocks :
    (es : List ExtentDescriptor) → extent_block_count es ≡ length (blocks es) % 2 ^ 32
unfolding extent_block_count
extent_block_count-blocks es = block_count_from-blocks 0 es (omega arith) ∙ omega arith

-- Cleaning an extent list drops what follows its terminator and no block before it, and leaves no
-- empty extent.
pub compact_extents-blocks :
    (es : List ExtentDescriptor)
    → (blocks (compact_extents es) ≡ blocks (before_end es)) × AreNonempty (compact_extents es)
unfolding compact_extents before_end blocks run
compact_extents-blocks [] = (refl, tt)
compact_extents-blocks (e ∷ es) = ground (arith, compact_extents-blocks es)

take_append-run :
    (s c k : ℕ) (rest : List ℕ) → c ≤ k → run s c ++ take (k - c) rest ≡ take k (run s c ++ rest)
take_append-run s c k rest h =
    sym (take-append_ge k (k - c) (run s c) rest (omega (arith, length-run s c)))

run-take_append : (s c k : ℕ) (rest : List ℕ) → k ≤ c → run s k ++ [] ≡ take k (run s c ++ rest)
run-take_append s c k rest h =
    append-nil (run s k)
    ∙ sym (take-append_le k (run s c) rest (omega (arith, length-run s c)) ∙ take-run k s c h)

trim_from-blocks :
    (n seen k : ℕ) (es : List ExtentDescriptor)
    → n < 2 ^ 32
    → seen + k ≡ n
    → blocks (trim_from n seen es) ≡ take k (blocks es)
unfolding trim_from blocks
trim_from-blocks n seen k [] hn h = sym (take_of_length-le k [] (omega arith))
trim_from-blocks n seen k (e ∷ es) hn h = elim (Bool-cases (leb n seen)) [
  | inl done ↦ let z : k ≡ 0 = omega (arith, leb→le n seen done) in rw (done, z) refl
  | inr more ↦
      let need : sub32 n seen ≡ k = omega arith in
      elim (Bool-cases (leb e.block_count k)) [
        | inl fits ↦
            let c = e.block_count in
            let le : c ≤ k = leb→le c k fits in
            let wide : add32 seen c ≡ seen + c = omega arith in
            rw (more, need, fits, wide)
              (ap (λ bs. run e.start_block c ++ bs)
                  (trim_from-blocks n (seen + c) (k - c) es hn (omega arith))
                ∙ take_append-run e.start_block c k (blocks es) le)
        | inr over ↦
            let le : k ≤ e.block_count = ground arith in
            rw (more, need, over) (run-take_append e.start_block e.block_count k (blocks es) le)
      ]
]

-- Trimming to a uint32 number of blocks keeps exactly the first so many blocks of the fork.
pub trim_extents_to_blocks-blocks :
    (es : List ExtentDescriptor) (n : ℕ)
    → n < 2 ^ 32
    → blocks (trim_extents_to_blocks es n) ≡ take n (blocks es)
unfolding trim_extents_to_blocks blocks
trim_extents_to_blocks-blocks es n h = elim (Bool-cases (n == 0)) [
  | inl z ↦ let e : n ≡ 0 = (==_iff n 0).0 z in rw (z, e) refl
  | inr _ ↦ ground (arith, trim_from-blocks n 0 n es h)
]
