-- ===== src/Bitmap.antt =====
-- alloc.go: the allocation bitmap, one bit for a block, the most significant bit of a byte first.
pub mod Runs
pub mod Scan
pub mod Delivery
use Prim.Native.Nat.{bit_and}
use libhfs.Prelude.{
  ℕ, zero, suc, ◌+◌, ◌-◌, ◌*◌, ◌/◌, ◌%◌, ◌^◌, ◌≡◌, refl, Bool, true, false, not, Option, none, some,
  List, [], ◌∷◌, ltb, leb, ◌==◌, if◌then◌else◌, add32, slt64,
}
use libhfs.Errors.{
  Error, Result, ok, err, panic, ◌>>=◌, fail, corrupt, invalid_offset, end_walk, missing_extent,
}
use libhfs.Bytes.{Bytes, index}

-- `b & (1 << (bitmapMSBFirst - bit)) != 0`
unfoldable pub is_set : ℕ → ℕ → Bool
is_set b bit = not (bit_and b (2 ^ (7 - bit)) == 0)

-- readBitmapAt(off, dst) for a `dst` of so many bytes.
abbrev pub ReadBitmap : Type 0
ReadBitmap = ℕ → ℕ → Result Bytes

-- BlockAllocated, on a volume that is there.
unfoldable pub block_allocated : ReadBitmap → ℕ → ℕ → Result Bool
block_allocated read total block =
    if leb total block
    then fail "block_allocated" block invalid_offset
    else (do b ← read (block / 8) 1; first ← index b 0; ok (is_set first (block % 8)))

-- The variables of walkFreeRuns, and the state `user` that the callback keeps.
pub record Walk (S : Type 0) : Type 0 where
  pub run_start : ℕ
  pub run_len : ℕ
  pub user : S

-- A callback gets its state, the start and the length of a run.
abbrev pub Callback : Type 0 → Type 0
Callback S = S → ℕ → ℕ → S × Option Error

abbrev pub Outcome : Type 0 → Type 0
Outcome S = Walk S × Result (Unit {0})

-- Go on unless an error ends the walk.
abbrev pub and_then : {S : Type 0} → Outcome S → (Walk S → Outcome S) → Outcome S
and_then (w, ok _) k = k w
and_then (w, err e) k = (w, err e)
and_then (w, panic) k = (w, panic)

abbrev pub go_on : {S : Type 0} → Outcome S → (Walk S → Option (Outcome S)) → Option (Outcome S)
go_on (w, ok _) k = k w
go_on (w, err e) k = some (w, err e)
go_on (w, panic) k = some (w, panic)

abbrev pub to_result : Option Error → Result (Unit {0})
to_result none = ok tt
to_result (some e) = err e

abbrev pub chunk_bytes : ℕ
chunk_bytes = 65536

-- `n`, the bytes of the next chunk.
abbrev pub chunk_size : ℕ → ℕ → ℕ
chunk_size off bitmap_bytes =
    if ltb bitmap_bytes (off + chunk_bytes) then bitmap_bytes - off else chunk_bytes

module _ {S : Type 0} (cb : Callback S) where
  unfoldable pub flush : Walk S → Outcome S
  flush w =
      if w.run_len == 0
      then (w, ok tt)
      else (let (u, e) = cb w.user w.run_start w.run_len in
          (record w { user = u; run_len = 0 }, to_result e))

  -- A free block begins a run or lengthens it.
  unfoldable pub extend : ℕ → Walk S → Walk S
  extend block w =
      let started = if w.run_len == 0 then record w { run_start = block } else w in
      record started { run_len = add32 w.run_len 1 }

  -- The loop over the `n` bits of a byte from `bit` on.
  unfoldable pub walk_bits : ℕ → ℕ → ℕ → ℕ → ℕ → Walk S → Outcome S
  walk_bits total base bt bit zero w = (w, ok tt)
  walk_bits total base bt bit (suc n) w =
      let block = add32 base bit in
      let allocated = and_then (flush w) (walk_bits total base bt (bit + 1) n) in
      let free = walk_bits total base bt (bit + 1) n (extend block w) in
      if leb total block then (w, ok tt) else if is_set bt bit then allocated else free

  -- The loop over the bytes of a chunk that was read at `off`, from byte `i` of it.
  unfoldable pub walk_bytes : ℕ → ℕ → ℕ → Bytes → Walk S → Outcome S
  walk_bytes total off i [] w = (w, ok tt)
  walk_bytes total off i (bt ∷ bts) w =
      let base = ((off + i) % 2 ^ 32 * 8) % 2 ^ 32 in
      let here = if bt == 255 then flush w else walk_bits total base bt 0 8 w in
      and_then here (walk_bytes total off (i + 1) bts)

  -- The loop over the chunks and the last flush, on fuel: `none` means that the fuel ran out.
  unfoldable pub walk_chunks : ReadBitmap → ℕ → ℕ → ℕ → ℕ → Walk S → Option (Outcome S)
  walk_chunks read total bitmap_bytes zero off w = none
  walk_chunks read total bitmap_bytes (suc fuel) off w =
      if ltb off bitmap_bytes
      then elim (read off (chunk_size off bitmap_bytes)) [
        | err e ↦ some (w, err e)
        | panic ↦ some (w, panic)
        | ok chunk ↦
            go_on (walk_bytes total off 0 chunk w)
              (walk_chunks read total bitmap_bytes fuel (off + chunk_bytes))
      ]
      else some (flush w)

  unfoldable pub walk_free_runs : ReadBitmap → ℕ → S → Option (Outcome S)
  walk_free_runs read total s =
      let start : Walk S = record { run_start = 0; run_len = 0; user = s } in
      let bitmap_bytes = (total + 7) / 8 in
      if total == 0
      then some (start, ok tt)
      else walk_chunks read total bitmap_bytes (bitmap_bytes + 1) 0 start

  -- WalkUnallocated, on a volume and with a callback that are there: the callback's last state,
  -- and the error.
  unfoldable pub walk_unallocated : ReadBitmap → ℕ → S → Option (S × Result (Unit {0}))
  walk_unallocated read total s = elim (walk_free_runs read total s) [
    | none ↦ none
    | some (w, ok _) ↦ some (w.user, ok tt)
    | some (w, err e) ↦ some (w.user, to_result (end_walk (some e)))
    | some (w, panic) ↦ some (w.user, panic)
  ]

-- The callback of FreeBlockCount.
abbrev pub count_free : Callback ℕ
count_free free start count = (add32 free count, none)

unfoldable pub free_block_count : ReadBitmap → ℕ → Option (Result ℕ)
free_block_count read total = elim (walk_unallocated count_free read total 0) [
  | none ↦ none
  | some (free, ok _) ↦ some (ok free)
  | some (free, err e) ↦ some (err e)
  | some (free, panic) ↦ some panic
]
