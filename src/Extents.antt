-- ===== src/Extents.antt =====
-- extents.go, with the extent and fork descriptors of types.go: parsing extent records, cleaning,
-- counting and trimming extent lists, and completing a fork's list from the extents-overflow tree.

pub mod Blocks
pub mod Parse
pub mod Resolve
pub mod Cover
use libhfs.Prelude.{
  ℕ, zero, suc, ◌+◌, ◌*◌, Bool, true, false, ◌&&◌, Option, none, some, List, [], ◌∷◌, ◌++◌, ltb,
  leb, ◌==◌, if◌then◌else◌, length, add32, sub32,
}
use libhfs.Errors.{
  Error, corrupt, missing_extent, Result, ok, err, panic, ◌>>=◌, ◌>>◌, fail, reject_if,
}
use libhfs.Bytes.{Bytes, field16, field32}

pub record ExtentDescriptor : Type 0 where
  pub start_block : ℕ
  pub block_count : ℕ

pub record ForkData : Type 0 where
  pub logical_size : ℕ
  pub clump_size : ℕ
  pub total_blocks : ℕ
  pub extents : List ExtentDescriptor

pub data FileSystemKind : Type 0 where
  hfs hfs_plus hfsx : FileSystemKind

-- `e.StartBlock == 0 && e.BlockCount == 0`
abbrev pub is_end : ExtentDescriptor → Bool
is_end e = e.start_block == 0 && e.block_count == 0

-- The loop of parseExtentsRecord, from entry `i`, with `n` entries left.
unfoldable pub extents_from : Bytes → ℕ → ℕ → Result (List ExtentDescriptor)
extents_from payload i zero = ok []
extents_from payload i (suc n) = do
  s ← field32 payload (i * 8)
  c ← field32 payload (i * 8 + 4)
  let e : ExtentDescriptor = record { start_block = s; block_count = c }
  let rest = extents_from payload (i + 1) n
  if is_end e then ok [] else (do es ← rest; ok (e ∷ es))

unfoldable pub parse_extents_record : Bytes → Result (List ExtentDescriptor)
parse_extents_record payload = do
  reject_if (ltb (length payload) 64) "parse_extents_record" 0 corrupt
  extents_from payload 0 8

-- The same for classic HFS: three entries of two 16-bit words.
unfoldable pub extents_from_hfs : Bytes → ℕ → ℕ → Result (List ExtentDescriptor)
extents_from_hfs payload i zero = ok []
extents_from_hfs payload i (suc n) = do
  s ← field16 payload (i * 4)
  c ← field16 payload (i * 4 + 2)
  let e : ExtentDescriptor = record { start_block = s; block_count = c }
  let rest = extents_from_hfs payload (i + 1) n
  if is_end e then ok [] else (do es ← rest; ok (e ∷ es))

unfoldable pub parse_extents_record_hfs : Bytes → Result (List ExtentDescriptor)
parse_extents_record_hfs payload = do
  reject_if (ltb (length payload) 12) "parse_extents_record_hfs" 0 corrupt
  extents_from_hfs payload 0 3

-- On a volume that is there.
unfoldable pub parse_extents_record_by_kind :
    FileSystemKind → Bytes → Result (List ExtentDescriptor)
parse_extents_record_by_kind hfs payload = parse_extents_record_hfs payload
parse_extents_record_by_kind hfs_plus payload = parse_extents_record payload
parse_extents_record_by_kind hfsx payload = parse_extents_record payload

unfoldable pub compact_extents : List ExtentDescriptor → List ExtentDescriptor
compact_extents [] = []
compact_extents (e ∷ es) =
    let rest = compact_extents es in
    if is_end e then [] else if e.block_count == 0 then rest else e ∷ rest

-- The loop of extentBlockCount; the sum wraps.
unfoldable pub block_count_from : ℕ → List ExtentDescriptor → ℕ
block_count_from total [] = total
block_count_from total (e ∷ es) = block_count_from (add32 total e.block_count) es

unfoldable pub extent_block_count : List ExtentDescriptor → ℕ
extent_block_count = block_count_from 0

-- The loop of trimExtentsToBlocks; `seen` is the number of blocks kept.
unfoldable pub trim_from : ℕ → ℕ → List ExtentDescriptor → List ExtentDescriptor
trim_from blocks seen [] = []
trim_from blocks seen (e ∷ es) =
    let need = sub32 blocks seen in
    let rest = trim_from blocks (add32 seen e.block_count) es in
    if leb blocks seen
    then []
    else if leb e.block_count need
    then e ∷ rest
    else record { start_block = e.start_block; block_count = need } ∷ []

unfoldable pub trim_extents_to_blocks : List ExtentDescriptor → ℕ → List ExtentDescriptor
trim_extents_to_blocks exts blocks = if blocks == 0 then [] else trim_from blocks 0 exts

-- `map[uint32][]ExtentDescriptor`
abbrev pub Overflow : Type 0
Overflow = ℕ → Option (List ExtentDescriptor)

abbrev pub no_overflow : Overflow
no_overflow k = none

-- The callback of resolveForkExtentsFromFork: a record that does not parse is
-- passed over (the parsers never panic, see Extents.Parse).
unfoldable pub note_overflow : FileSystemKind → Overflow → ℕ × Bytes → Overflow
note_overflow kind m (start, payload) = elim (parse_extents_record_by_kind kind payload) [
  | ok exts ↦ λ k. if k == start then some (compact_extents exts) else m k
  | err e ↦ m
  | panic ↦ m
]

unfoldable pub collect_overflow : FileSystemKind → Overflow → List (ℕ × Bytes) → Overflow
collect_overflow kind m [] = m
collect_overflow kind m (r ∷ rs) = collect_overflow kind (note_overflow kind m r) rs

-- `next, ok := overflow[covered]`, where a missing key and an empty list are one case.
unfoldable pub next_extents : Overflow → ℕ → List ExtentDescriptor
next_extents m covered = elim (m covered) [ some next ↦ next | none ↦ [] ]

-- The loop that completes `out`, on fuel: `none` means that the fuel ran out.
unfoldable pub complete :
    ℕ → ℕ → Overflow → ℕ → List ExtentDescriptor → ℕ → Option (Result (List ExtentDescriptor))
complete zero total m cnid out covered = none
complete (suc fuel) total m cnid out covered =
    let next = next_extents m covered in
    let out' = out ++ next in
    let covered' = extent_block_count out' in
    let again = complete fuel total m cnid out' covered' in
    if ltb covered total
    then (if length next == 0
        then some (fail "resolve_fork_extents" cnid missing_extent)
        else if leb covered' covered
        then some (fail "resolve_fork_extents" cnid corrupt)
        else again)
    else some (ok out)

-- resolveForkExtentsFromFork. `walk` is what walkExtentsForFork(cnid, forkType) delivers: its
-- records (the start block of the key, and the payload) in order, or the error that ended it.
unfoldable pub resolve_fork_extents_from_fork :
    FileSystemKind
    → Result (List (ℕ × Bytes))
    → ℕ
    → ForkData
    → Option (Result (List ExtentDescriptor))
resolve_fork_extents_from_fork kind walk cnid fork =
    let out = compact_extents fork.extents in
    let covered = extent_block_count out in
    if fork.total_blocks == 0
    then some (ok out)
    else if leb fork.total_blocks covered
    then some (ok (trim_extents_to_blocks out fork.total_blocks))
    else elim walk [
      | err e ↦ some (err e)
      | panic ↦ some panic
      | ok records ↦
          elim (complete (suc fork.total_blocks) fork.total_blocks
            (collect_overflow kind no_overflow records) cnid out covered) [
              | none ↦ none
              | some r ↦ some (r >>= λ full. ok (trim_extents_to_blocks full fork.total_blocks))
            ]
    ]
