-- ===== src/Workers.antt =====
-- workers.go: splitBlockRuns, which cuts runs of free blocks into the batches of a worker pool.
-- (parallelMap, the pool itself, is not modelled.)
use libhfs.Prelude.{
  ℕ, zero, suc, ◌+◌, ◌-◌, ◌%◌, ◌^◌, ◌≤◌, ◌<◌, ◌≡◌, ◌≢◌, refl, true, false, Option, none, some, List,
  [], ◌∷◌, ◌++◌, arith, ltb, ◌==◌, if◌then◌else◌, add32, sub32, ap, append_assoc, inl, inr, ◌⊎◌,
  ◌∙◌, sym, Bool-cases, ltb→lt, lt→ltb,
}
use mathlib.Core.Path.{subst}
use libhfs.Extents.Blocks.{run}

pub record BlockRange : Type 0 where
  pub start : ℕ
  pub count : ℕ

-- `n`, the blocks of the batch at `off`.
abbrev pub batch_at : ℕ → ℕ → ℕ → ℕ
batch_at batch_size count off =
    if ltb (sub32 count off) batch_size then sub32 count off else batch_size

-- `out` with what the rest of a loop appends.
abbrev pub more : BlockRange → Option (List BlockRange) → Option (List BlockRange)
more b none = none
more b (some bs) = some (b ∷ bs)

abbrev pub join : Option (List BlockRange) → Option (List BlockRange) → Option (List BlockRange)
join none cs = none
join (some bs) none = none
join (some bs) (some cs) = some (bs ++ cs)

-- The inner loop, on fuel: `off` is a uint32, and `off += batchSize` wraps. `none` means that the
-- fuel ran out.
unfoldable pub split_from : ℕ → ℕ → BlockRange → ℕ → Option (List BlockRange)
split_from zero batch_size r off = none
split_from (suc fuel) batch_size r off =
    let rest = split_from fuel batch_size r (add32 off batch_size) in
    let batch : BlockRange = record {
      start = add32 r.start off;
      count = batch_at batch_size r.count off;
    } in
    if ltb off r.count then more batch rest else some []

-- The outer loop.
unfoldable pub split_all : ℕ → ℕ → List BlockRange → Option (List BlockRange)
split_all fuel batch_size [] = some []
split_all fuel batch_size (r ∷ rs) =
    join (split_from fuel batch_size r 0) (split_all fuel batch_size rs)

unfoldable pub split_block_runs : ℕ → ℕ → List BlockRange → Option (List BlockRange)
split_block_runs fuel batch_size runs =
    if batch_size == 0 then some runs else split_all fuel batch_size runs

-- The blocks of some ranges.
abbrev pub range_blocks : List BlockRange → List ℕ
range_blocks [] = []
range_blocks (b ∷ bs) = run b.start b.count ++ range_blocks bs

-- Each batch holds a block and at most `batch_size`.
abbrev pub AreBatches : ℕ → List BlockRange → Type 0
AreBatches batch_size [] = Unit
AreBatches batch_size (b ∷ bs) = (0 < b.count) × (b.count ≤ batch_size) × AreBatches batch_size bs

-- The runs lie below 2 ^ 32, and a batch more than a run does not exceed it.
abbrev pub AreRoomy : ℕ → List BlockRange → Type 0
AreRoomy batch_size [] = Unit
AreRoomy batch_size (r ∷ rs) =
    (r.start + r.count ≤ 2 ^ 32) × (r.count + batch_size ≤ 2 ^ 32) × AreRoomy batch_size rs

abbrev pub Splits : ℕ → List ℕ → Option (List BlockRange) → Type 0
Splits batch_size blocks none = ⊥
Splits batch_size blocks (some bs) = (range_blocks bs ≡ blocks) × AreBatches batch_size bs

run-append : (s m n : ℕ) → run s m ++ run (s + m) n ≡ run s (m + n)
unfolding run
run-append s zero n =
    let q : s + 0 ≡ s = omega arith in let z : 0 + n ≡ n = omega arith in rw (q, z) refl
run-append s (suc m) n =
    let q : s + suc m ≡ suc s + m = omega arith in
    let z : suc m + n ≡ suc (m + n) = omega arith in rw (q, z) (ap (◌∷◌ s) (run-append (suc s) m n))

no-run : (s : ℕ) → [] ≡ run s 0
unfolding run
no-run s = refl

same-run : (s t m : ℕ) → (s ≡ t) ⊎ (m ≡ 0) → run s m ≡ run t m
unfolding run
same-run s t m (inl h) = ap (λ u. run u m) h
same-run s t m (inr h) = rw (h) refl

-- Putting the batch at `off` before the batches of the rest.
batch-first :
    (batch_size s n m : ℕ) (bs : Option (List BlockRange))
    → 0 < n
    → n ≤ batch_size
    → Splits batch_size (run (s + n) m) bs
    → Splits batch_size (run s (n + m)) (more (record { start = s; count = n }) bs)
batch-first batch_size s n m none h k d = d
batch-first batch_size s n m (some cs) h k (d, b) =
    (ap (run s n ++◌) d ∙ run-append s n m, (h, k, b))

-- The loop from `off` on, with fuel for a round for each block that is left.
split_from-Splits :
    (fuel batch_size : ℕ) (r : BlockRange) (off : ℕ)
    → batch_size ≢ 0
    → r.start + r.count ≤ 2 ^ 32
    → r.count + batch_size ≤ 2 ^ 32
    → off ≤ r.count + batch_size
    → r.count - off < fuel
    → Splits batch_size (run (r.start + off) (r.count - off)) (split_from fuel batch_size r off)
unfolding split_from
split_from-Splits zero batch_size r off p h k o f = absurd (omega arith)
split_from-Splits (suc fuel) batch_size r off p h k o f = elim (Bool-cases (ltb off r.count)) [
  | inr q ↦ let z : r.count - off ≡ 0 = ground arith in rw (q, z) (no-run (r.start + off), tt)
  | inl q ↦
      let lt : off < r.count = ltb→lt off r.count q in
      let s : add32 r.start off ≡ r.start + off = omega arith in
      let t : add32 off batch_size ≡ off + batch_size = omega arith in
      let n = batch_at batch_size r.count off in
      let m = r.count - (off + batch_size) in
      let all : n + m ≡ r.count - off = ground arith in
      let same : run (r.start + (off + batch_size)) m ≡ run (r.start + off + n) m =
        same-run _ _ m (ground arith) in
      let later =
        split_from-Splits fuel batch_size r (off + batch_size) p h k (omega arith) (omega arith) in
      rw (q, s, t, sym all)
        (batch-first batch_size (r.start + off) n m _ (ground arith) (ground arith) (
          subst (λ bs. Splits batch_size bs (split_from fuel batch_size r (off + batch_size))) same
            later))
]

range_blocks-append :
    (bs cs : List BlockRange) → range_blocks (bs ++ cs) ≡ range_blocks bs ++ range_blocks cs
range_blocks-append [] cs = refl
range_blocks-append (b ∷ bs) cs =
    ap (run b.start b.count ++◌) (range_blocks-append bs cs)
    ∙ sym (append_assoc (run b.start b.count) (range_blocks bs) (range_blocks cs))

append-AreBatches :
    (batch_size : ℕ) (bs cs : List BlockRange)
    → AreBatches batch_size bs
    → AreBatches batch_size cs
    → AreBatches batch_size (bs ++ cs)
append-AreBatches batch_size [] cs b c = c
append-AreBatches batch_size (x ∷ bs) cs (h, k, b) c =
    (h, k, append-AreBatches batch_size bs cs b c)

-- Two lists of batches, one after the other.
both :
    (batch_size : ℕ) (xs ys : List ℕ) (bs cs : Option (List BlockRange))
    → Splits batch_size xs bs
    → Splits batch_size ys cs
    → Splits batch_size (xs ++ ys) (join bs cs)
both batch_size xs ys none cs d e = d
both batch_size xs ys (some bs) none d e = e
both batch_size xs ys (some bs) (some cs) (p, b) (q, c) = (
  range_blocks-append bs cs ∙ ap (λ k. k ++ range_blocks cs) p ∙ ap (xs ++◌) q,
  append-AreBatches batch_size bs cs b c,
)

split_all-Splits :
    (fuel batch_size : ℕ) (runs : List BlockRange)
    → batch_size ≢ 0
    → AreRoomy batch_size runs
    → 2 ^ 32 < fuel
    → Splits batch_size (range_blocks runs) (split_all fuel batch_size runs)
unfolding split_all
split_all-Splits fuel batch_size [] p a f = (refl, tt)
split_all-Splits fuel batch_size (r ∷ rs) p (h, k, a) f =
    let z : r.start + 0 ≡ r.start = omega arith in
    let y : r.count - 0 ≡ r.count = omega arith in
    let first = split_from-Splits fuel batch_size r 0 p h k (omega arith) (omega arith) in
    both batch_size _ _ _ _ (rw (z, y) at first) (split_all-Splits fuel batch_size rs p a f)

-- For a batch size that is not 0, runs below 2 ^ 32 whose counts are each at most 2 ^ 32 less the
-- batch size, and fuel above 2 ^ 32: splitBlockRuns ends, the batches hold the blocks of the runs,
-- each once and in order, and each batch holds at least one block and at most the batch size.
pub split_block_runs-Splits :
    (fuel batch_size : ℕ) (runs : List BlockRange)
    → batch_size ≢ 0
    → AreRoomy batch_size runs
    → 2 ^ 32 < fuel
    → Splits batch_size (range_blocks runs) (split_block_runs fuel batch_size runs)
unfolding split_block_runs
split_block_runs-Splits fuel batch_size runs p a f =
    let q : (batch_size == 0) ≡ false = ground arith in
    rw (q) (split_all-Splits fuel batch_size runs p a f)

endless :
    (fuel : ℕ) (r : BlockRange) (off : ℕ)
    → 2 ^ 32 - 64 < r.count
    → off % 64 ≡ 0
    → off < 2 ^ 32
    → split_from fuel 64 r off ≡ none
unfolding split_from
endless zero r off h m k = refl
endless (suc fuel) r off h m k =
    let q : ltb off r.count ≡ true = lt→ltb off r.count (omega arith) in
    let e = endless fuel r (add32 off 64) h (omega arith) (omega arith) in rw (q, e) refl

-- For batches of 64 blocks, the size the package uses, a run of more than 2 ^ 32 - 64 blocks is
-- never split: the offset wraps back to 0, whatever the fuel.
pub split_block_runs-none :
    (fuel : ℕ) (r : BlockRange) (runs : List BlockRange)
    → 2 ^ 32 - 64 < r.count
    → split_block_runs fuel 64 (r ∷ runs) ≡ none
unfolding split_block_runs split_all
split_block_runs-none fuel r runs h =
    ap (λ bs. join bs (split_all fuel 64 runs)) (endless fuel r 0 h refl (omega arith))
