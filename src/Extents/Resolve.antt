-- ===== src/Extents/Resolve.antt =====
-- The loop of resolveForkExtentsFromFork of extents.go and the list that it leaves.
use libhfs.Prelude.{
  ℕ, zero, suc, ◌+◌, ◌^◌, ◌≤◌, ◌<◌, ◌≡◌, refl, ap, ◌∙◌, ◌≢◌, inl, inr, false, Option, none, some,
  List, [], ◌++◌, arith, ltb, leb, Bool-cases, Option-cases, leb→le, length, take, length-take,
  append-nil, append_assoc, length-append,
}
use libhfs.Errors.{Result-cases, Result, ok, err, panic}
use libhfs.Bytes.{Bytes}
use libhfs.Extents.{
  FileSystemKind, ExtentDescriptor, ForkData, compact_extents, extent_block_count,
  trim_extents_to_blocks, Overflow, no_overflow, collect_overflow, next_extents, complete,
  resolve_fork_extents_from_fork,
}
use libhfs.Extents.Blocks.{
  blocks, blocks-append, extent_block_count-blocks, trim_extents_to_blocks-blocks,
}

-- `more` continues `out` through the overflow map: each piece is the record whose key is the
-- number of blocks before it, and holds at least one block.
pub data Continues (m : Overflow) : List ExtentDescriptor → List ExtentDescriptor → Type 0 where
  stop : {out : List ExtentDescriptor} → Continues m out []
  more :
      {out next rest : List ExtentDescriptor}
      → next ≡ next_extents m (extent_block_count out)
      → 0 < length (blocks next)
      → Continues m (out ++ next) rest
      → Continues m out (next ++ rest)

-- A longer list in blocks, modulo 2 ^ 32, has a last piece with a block.
grown :
    (out next : List ExtentDescriptor)
    → extent_block_count out < extent_block_count (out ++ next)
    → 0 < length (blocks next)
grown out next h = omega (
  arith,
  extent_block_count-blocks out,
  extent_block_count-blocks (out ++ next),
  ap length (blocks-append out next),
  length-append (blocks out) (blocks next),
)

module _ (total : ℕ) (m : Overflow) (cnid : ℕ) where
  -- Each round covers at least one block more.
  complete-ne-none :
      (fuel : ℕ) (out : List ExtentDescriptor)
      → total ≤ extent_block_count out + fuel
      → complete (suc fuel) total m cnid out (extent_block_count out) ≢ none
  unfolding complete
  complete-ne-none zero out h = ground arith
  complete-ne-none (suc fuel) out h =
      ground (arith, complete-ne-none fuel (out ++ next_extents m (extent_block_count out)))

  complete-Continues :
      (fuel : ℕ) (out : List ExtentDescriptor) {full : List ExtentDescriptor}
      → complete fuel total m cnid out (extent_block_count out) ≡ some (ok full)
      → (rest : List ExtentDescriptor) × (full ≡ out ++ rest)
        × Continues m out rest
        × (total ≤ extent_block_count full)
  unfolding complete
  complete-Continues zero out h = cc
  complete-Continues (suc fuel) out {full} h =
      let next = next_extents m (extent_block_count out) in
      elim (Bool-cases (ltb (extent_block_count out) total)) [
        | inr done ↦ ([], ground (arith, append-nil out), stop, ground arith)
        | inl open_ ↦
            elim (Bool-cases (leb (extent_block_count (out ++ next)) (extent_block_count out))) [
              | inl stuck ↦ absurd (ground arith)
              | inr grew ↦
                  let again : complete fuel total m cnid (out ++ next)
                        (extent_block_count (out ++ next))
                      ≡ some (ok full) =
                    ground arith in
                  let (rest, e, c, t) = complete-Continues fuel (out ++ next) again in
                  (
                    next ++ rest,
                    e ∙ append_assoc out next rest,
                    more refl (grown out next (ground arith)) c,
                    t,
                  )
            ]
      ]

-- The overflow records of a fork that a walk delivered.
unfoldable pub overflow_of : FileSystemKind → Result (List (ℕ × Bytes)) → Overflow
overflow_of kind (ok records) = collect_overflow kind no_overflow records
overflow_of kind _ = no_overflow

-- For any overflow records and any fork the resolution ends, in a list or an error: the fuel
-- suffices.
pub resolve_fork_extents_from_fork-ne-none :
    (kind : FileSystemKind) (walk : Result (List (ℕ × Bytes))) (cnid : ℕ) (fork : ForkData)
    → resolve_fork_extents_from_fork kind walk cnid fork ≢ none
unfolding resolve_fork_extents_from_fork
resolve_fork_extents_from_fork-ne-none kind (ok records) cnid fork =
    let out = compact_extents fork.extents in
    let m = collect_overflow kind no_overflow records in
    ground (arith, complete-ne-none fork.total_blocks m cnid fork.total_blocks out)
resolve_fork_extents_from_fork-ne-none kind _ cnid fork = ground arith

-- What a list that covers the fork is trimmed to.
trimmed :
    (exts : List ExtentDescriptor) (n : ℕ)
    → n < 2 ^ 32
    → n ≤ extent_block_count exts
    → (blocks (trim_extents_to_blocks exts n) ≡ take n (blocks exts))
      × (length (blocks (trim_extents_to_blocks exts n)) ≡ n)
trimmed exts n h le =
    let e = trim_extents_to_blocks-blocks exts n h in
    (e, ap length e ∙ omega (arith, length-take n (blocks exts), extent_block_count-blocks exts))

module _ (kind : FileSystemKind) (records : List (ℕ × Bytes)) (cnid : ℕ) (fork : ForkData) where
  abbrev inline : List ExtentDescriptor
  inline = compact_extents fork.extents

  abbrev completed : Option (Result (List ExtentDescriptor))
  completed =
      complete (suc fork.total_blocks) fork.total_blocks (collect_overflow kind no_overflow records)
        cnid inline (extent_block_count inline)

  -- A result that needed the overflow records is the trimmed outcome of the loop.
  uncovered :
      {out : List ExtentDescriptor}
      → 0 < fork.total_blocks
      → leb fork.total_blocks (extent_block_count inline) ≡ false
      → resolve_fork_extents_from_fork kind (ok records) cnid fork ≡ some (ok out)
      → (full : List ExtentDescriptor) × (completed ≡ some (ok full))
        × (trim_extents_to_blocks full fork.total_blocks ≡ out)
  unfolding resolve_fork_extents_from_fork
  uncovered pos short h = elim (Option-cases completed) [
    | inl out_of_fuel ↦ absurd (ground arith)
    | inr (r, e) ↦ elim (Result-cases r) [
      | inl (full, k) ↦ (full, ground arith, ground arith)
      | inr (inl (x, k)) ↦ absurd (ground arith)
      | inr (inr k) ↦ absurd (ground arith)
    ]
  ]

-- For a fork of a positive uint32 number of blocks: if it resolves to a list of extents, these
-- hold exactly so many blocks, which are the first ones of the fork's inline extents followed
-- by pieces of the overflow map, each keyed by the number of blocks before it.
pub resolve_fork_extents_from_fork-Continues :
    (kind : FileSystemKind) (walk : Result (List (ℕ × Bytes))) (cnid : ℕ) (fork : ForkData)
    {out : List ExtentDescriptor}
    → 0 < fork.total_blocks
    → fork.total_blocks < 2 ^ 32
    → resolve_fork_extents_from_fork kind walk cnid fork ≡ some (ok out)
    → (rest : List ExtentDescriptor) × Continues
        (overflow_of kind walk)
        (compact_extents fork.extents)
        rest
      × (blocks out ≡ take fork.total_blocks (blocks (compact_extents fork.extents ++ rest)))
      × (length (blocks out) ≡ fork.total_blocks)
unfolding resolve_fork_extents_from_fork overflow_of
resolve_fork_extents_from_fork-Continues kind walk cnid fork {out} pos small h =
    let first = compact_extents fork.extents in
    elim (Bool-cases (leb fork.total_blocks (extent_block_count first))) [
      | inl covers ↦
          let e : trim_extents_to_blocks first fork.total_blocks ≡ out = ground arith in
          let t = trimmed first fork.total_blocks small (leb→le _ _ covers) in
          ([], stop, rw (append-nil first, ← e) t.0, rw (← e) t.1)
      | inr short ↦ beyond walk short h
    ]
  where
    beyond :
        (w : Result (List (ℕ × Bytes)))
        → leb fork.total_blocks (extent_block_count (compact_extents fork.extents)) ≡ false
        → resolve_fork_extents_from_fork kind w cnid fork ≡ some (ok out)
        → (rest : List ExtentDescriptor) × Continues
            (overflow_of kind w)
            (compact_extents fork.extents)
            rest
          × (blocks out ≡ take fork.total_blocks (blocks (compact_extents fork.extents ++ rest)))
          × (length (blocks out) ≡ fork.total_blocks)
    beyond (ok records) short h' =
        let (full, done, e) = uncovered kind records cnid fork pos short h' in
        let (rest, f, c, le) =
          complete-Continues fork.total_blocks (collect_overflow kind no_overflow records) cnid
            (suc fork.total_blocks) (compact_extents fork.extents) done in
        let t = trimmed full fork.total_blocks small le in
        (rest, c, rw (← f, ← e) t.0, rw (← e) t.1)
    beyond (err x) short h' = absurd (ground arith)
    beyond panic short h' = absurd (ground arith)
