-- ===== src/Extents/Cover.antt =====
-- resolveForkExtentsFromFork of extents.go where the overflow records suffice.
use libhfs.Prelude.{
  ℕ, zero, suc, ◌+◌, ◌^◌, ◌≤◌, ◌<◌, ◌≡◌, ap, inl, inr, some, List, [], ◌∷◌, ◌++◌, arith, false, ltb,
  leb, ◌==◌, Bool-cases, length, append-nil, append_assoc, length-append,
}
use libhfs.Errors.{ok}
use libhfs.Bytes.{Bytes}
use libhfs.Extents.{
  FileSystemKind, ExtentDescriptor, ForkData, compact_extents, extent_block_count,
  trim_extents_to_blocks, Overflow, no_overflow, collect_overflow, complete,
  resolve_fork_extents_from_fork,
}
use libhfs.Extents.Blocks.{blocks, blocks-append, extent_block_count-blocks}
use libhfs.Extents.Resolve.{Continues, stop, more}

ne_nil : (es : List ExtentDescriptor) → 0 < length (blocks es) → (length es == 0) ≡ false
unfolding blocks
ne_nil [] h = absurd (omega arith)
ne_nil (e ∷ es) h = ground arith

-- A nonempty piece raises the count, where the sum does not wrap.
raised :
    (out next rest : List ExtentDescriptor)
    → 0 < length (blocks next)
    → length (blocks (out ++ (next ++ rest))) < 2 ^ 32
    → extent_block_count out < extent_block_count (out ++ next)
raised out next rest h small = omega (
  arith,
  extent_block_count-blocks out,
  extent_block_count-blocks (out ++ next),
  ap length (blocks-append out next),
  length-append (blocks out) (blocks next),
  ap length (blocks-append out (next ++ rest)),
  length-append (blocks out) (blocks (next ++ rest)),
  ap length (blocks-append next rest),
  length-append (blocks next) (blocks rest),
)

module _ (total : ℕ) (m : Overflow) (cnid : ℕ) where
  -- The records that are there reach the fork's end.
  complete-Continues_ok :
      (fuel : ℕ) {out rest : List ExtentDescriptor}
      → Continues m out rest
      → total ≤ length (blocks (out ++ rest))
      → length (blocks (out ++ rest)) < 2 ^ 32
      → total ≤ extent_block_count out + fuel
      → (full : List ExtentDescriptor) × (complete
            (suc fuel)
            total
            m
            cnid
            out
            (extent_block_count out)
          ≡ some (ok full))
  unfolding complete
  complete-Continues_ok fuel {out} stop long small h = (
    out,
    ground (arith, extent_block_count-blocks out, ap (λ es. length (blocks es)) (append-nil out)),
  )
  complete-Continues_ok zero {out} (more {next} {rest} e pos c) long small h = (out, ground arith)
  complete-Continues_ok (suc fuel) {out} (more {next} {rest} e pos c) long small h =
      elim (Bool-cases (ltb (extent_block_count out) total)) [
        | inr done ↦ (out, ground arith)
        | inl short ↦
            let reach : length (blocks ((out ++ next) ++ rest))
                ≡ length (blocks (out ++ (next ++ rest))) =
              ap (λ es. length (blocks es)) (append_assoc out next rest) in
            let up = raised out next rest pos small in
            let (full, k) =
              complete-Continues_ok fuel c (omega arith) (omega arith) (omega arith) in
            (full, ground (arith, ne_nil next pos))
      ]

-- If the inline extents and the overflow pieces that continue them hold at least the fork's
-- blocks, and fewer than 2 ^ 32 blocks in all, and the walk delivers its records, the
-- resolution succeeds.
pub resolve_fork_extents_from_fork-ok :
    (kind : FileSystemKind) (records : List (ℕ × Bytes)) (cnid : ℕ) (fork : ForkData)
    {rest : List ExtentDescriptor}
    → Continues (collect_overflow kind no_overflow records) (compact_extents fork.extents) rest
    → fork.total_blocks ≤ length (blocks (compact_extents fork.extents ++ rest))
    → length (blocks (compact_extents fork.extents ++ rest)) < 2 ^ 32
    → (out : List ExtentDescriptor) × (resolve_fork_extents_from_fork kind (ok records) cnid fork
        ≡ some (ok out))
unfolding resolve_fork_extents_from_fork
resolve_fork_extents_from_fork-ok kind records cnid fork {rest} c long small =
    let first = compact_extents fork.extents in
    elim (Bool-cases (fork.total_blocks == 0)) [
      | inl z ↦ (first, ground arith)
      | inr pos ↦ elim (Bool-cases (leb fork.total_blocks (extent_block_count first))) [
        | inl covers ↦ (trim_extents_to_blocks first fork.total_blocks, ground arith)
        | inr short ↦
            let (full, k) =
              complete-Continues_ok fork.total_blocks (collect_overflow kind no_overflow records)
                cnid fork.total_blocks c long small (omega arith) in
            (trim_extents_to_blocks full fork.total_blocks, ground arith)
      ]
    ]
