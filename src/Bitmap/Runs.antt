-- ===== src/Bitmap/Runs.antt =====
-- The maximal runs of free blocks, and the walk of alloc.go as a scan of single blocks.
use libhfs.Prelude.{
  ℕ, zero, suc, ◌+◌, ◌≤◌, ◌<◌, ◌≡◌, refl, sym, ap, ◌∙◌, Bool, true, false, List, [], ◌∷◌, ◌++◌,
  arith,
}
use libhfs.Extents.Blocks.{run}

-- Runs as (start, length), of a list that says of each block from `pos` on whether it is
-- allocated; `start` and `len` are the run that is open.
unfoldable pub runs_from : ℕ → ℕ → ℕ → List Bool → List (ℕ × ℕ)
runs_from pos start zero [] = []
runs_from pos start (suc len) [] = (start, suc len) ∷ []
runs_from pos start zero (true ∷ bits) = runs_from (suc pos) start 0 bits
runs_from pos start (suc len) (true ∷ bits) = (start, suc len) ∷ runs_from (suc pos) start 0 bits
runs_from pos start zero (false ∷ bits) = runs_from (suc pos) pos 1 bits
runs_from pos start (suc len) (false ∷ bits) = runs_from (suc pos) start (suc (suc len)) bits

unfoldable pub free_runs : List Bool → List (ℕ × ℕ)
free_runs = runs_from 0 0 0

-- The free blocks themselves, in ascending order.
unfoldable pub free_from : ℕ → List Bool → List ℕ
free_from pos [] = []
free_from pos (true ∷ bits) = free_from (suc pos) bits
free_from pos (false ∷ bits) = pos ∷ free_from (suc pos) bits

unfoldable pub run_blocks : List (ℕ × ℕ) → List ℕ
run_blocks [] = []
run_blocks ((s, n) ∷ rs) = run s n ++ run_blocks rs

-- Every run has a block, and at least one block lies between two runs; the first begins at
-- `from` or later.
abbrev pub AreApart : ℕ → List (ℕ × ℕ) → Type 0
AreApart from [] = Unit
AreApart from ((s, n) ∷ rs) = (from ≤ s) × (0 < n) × AreApart (s + n + 1) rs

run-concat : (s n : ℕ) (rest : List ℕ) → run s n ++ (s + n) ∷ rest ≡ run s (suc n) ++ rest
unfolding run
run-concat s zero rest = ap (λ k. k ∷ rest) (omega arith)
run-concat s (suc n) rest =
    let e : s + suc n ≡ suc s + n = omega arith in ap (◌∷◌ s) (rw e (run-concat (suc s) n rest))

run_blocks-runs_from :
    (pos start len : ℕ) (bits : List Bool)
    → (0 < len → start + len ≡ pos)
    → run_blocks (runs_from pos start len bits) ≡ run start len ++ free_from pos bits
unfolding run_blocks runs_from free_from run
run_blocks-runs_from pos start zero [] e = refl
run_blocks-runs_from pos start (suc len) [] e = refl
run_blocks-runs_from pos start zero (true ∷ bits) e =
    run_blocks-runs_from (suc pos) start 0 bits (λ h. absurd (omega arith))
run_blocks-runs_from pos start (suc len) (true ∷ bits) e =
    ap (λ bs. start ∷ (run (suc start) len ++ bs))
      (run_blocks-runs_from (suc pos) start 0 bits (λ h. absurd (omega arith)))
run_blocks-runs_from pos start zero (false ∷ bits) e =
    run_blocks-runs_from (suc pos) pos 1 bits (λ h. omega arith)
run_blocks-runs_from pos start (suc len) (false ∷ bits) e =
    let k : start + suc len ≡ pos = e (omega arith) in
    run_blocks-runs_from (suc pos) start (suc (suc len)) bits (λ h. omega arith)
    ∙ sym (rw (← k) (run-concat start (suc len) (free_from (suc (start + suc len)) bits)))

AreApart-runs_from :
    (from pos start len : ℕ) (bits : List Bool)
    → (0 < len → start + len ≡ pos)
    → (0 < len → from ≤ start)
    → from ≤ pos
    → AreApart from (runs_from pos start len bits)
unfolding runs_from
AreApart-runs_from from pos start zero [] e f p = tt
AreApart-runs_from from pos start (suc len) [] e f p = (f (omega arith), omega arith, tt)
AreApart-runs_from from pos start zero (true ∷ bits) e f p =
    AreApart-runs_from from (suc pos) start 0 bits (λ h. absurd (omega arith))
      (λ h. absurd (omega arith)) (omega arith)
AreApart-runs_from from pos start (suc len) (true ∷ bits) e f p =
    let k : start + suc len ≡ pos = e (omega arith) in
    (
      f (omega arith),
      omega arith,
      AreApart-runs_from (start + suc len + 1) (suc pos) start 0 bits (λ h. absurd (omega arith))
          (λ h. absurd (omega arith)) (omega arith),
    )
AreApart-runs_from from pos start zero (false ∷ bits) e f p =
    AreApart-runs_from from (suc pos) pos 1 bits (λ h. omega arith) (λ h. p) (omega arith)
AreApart-runs_from from pos start (suc len) (false ∷ bits) e f p =
    let k : start + suc len ≡ pos = e (omega arith) in
    AreApart-runs_from from (suc pos) start (suc (suc len)) bits (λ h. omega arith)
      (λ h. f (omega arith)) (omega arith)

-- The runs hold exactly the free blocks, in ascending order, and are maximal.
pub free_runs_lem :
    (bits : List Bool)
    → (run_blocks (free_runs bits) ≡ free_from 0 bits) × AreApart 0 (free_runs bits)
unfolding free_runs run
free_runs_lem bits = (
  run_blocks-runs_from 0 0 0 bits (λ h. absurd (omega arith)),
  AreApart-runs_from 0 0 0 0 bits (λ h. absurd (omega arith)) (λ h. absurd (omega arith))
      (omega arith),
)
