-- ===== src/Extents/Parse.antt =====
-- The entries of the extent records of extents.go, for every payload.
use libhfs.Prelude.{
  ℕ, zero, suc, ◌+◌, ◌*◌, ◌≤◌, ◌≡◌, refl, List, [], ◌∷◌, arith, ltb, if◌then◌else◌, length,
}
use libhfs.Errors.{corrupt, Result, ok, fail}
use libhfs.Bytes.{Bytes, u16, u32, field16-ok, field32-ok}
use libhfs.Extents.{
  FileSystemKind, hfs, ExtentDescriptor, extents_from, extents_from_hfs, parse_extents_record,
  parse_extents_record_hfs, parse_extents_record_by_kind,
}
use libhfs.Extents.Blocks.{before_end}

-- The `n` entries of a record from entry `i` on: two 32-bit words each, or two 16-bit words.
pub entries : Bytes → ℕ → ℕ → List ExtentDescriptor
entries payload i zero = []
entries payload i (suc n) =
    record { start_block = u32 payload (i * 8); block_count = u32 payload (i * 8 + 4) }
    ∷ entries payload (i + 1) n

pub entries_hfs : Bytes → ℕ → ℕ → List ExtentDescriptor
entries_hfs payload i zero = []
entries_hfs payload i (suc n) =
    record { start_block = u16 payload (i * 4); block_count = u16 payload (i * 4 + 2) }
    ∷ entries_hfs payload (i + 1) n

extents_from-entries :
    (payload : Bytes) (i n : ℕ)
    → (i + n) * 8 ≤ length payload
    → extents_from payload i n ≡ ok (before_end (entries payload i n))
unfolding extents_from entries before_end
extents_from-entries payload i zero h = refl
extents_from-entries payload i (suc n) h = ground (
  arith,
  field32-ok payload (i * 8),
  field32-ok payload (i * 8 + 4),
  extents_from-entries payload (i + 1) n,
)

extents_from_hfs-entries_hfs :
    (payload : Bytes) (i n : ℕ)
    → (i + n) * 4 ≤ length payload
    → extents_from_hfs payload i n ≡ ok (before_end (entries_hfs payload i n))
unfolding extents_from_hfs entries_hfs before_end
extents_from_hfs-entries_hfs payload i zero h = refl
extents_from_hfs-entries_hfs payload i (suc n) h = ground (
  arith,
  field16-ok payload (i * 4),
  field16-ok payload (i * 4 + 2),
  extents_from_hfs-entries_hfs payload (i + 1) n,
)

-- What the record of a kind holds: its entries up to the terminator, or the refusal.
unfoldable pub extents_of : FileSystemKind → Bytes → Result (List ExtentDescriptor)
extents_of hfs payload =
    if ltb (length payload) 12
    then fail "parse_extents_record_hfs" 0 corrupt
    else ok (before_end (entries_hfs payload 0 3))
extents_of _ payload =
    if ltb (length payload) 64
    then fail "parse_extents_record" 0 corrupt
    else ok (before_end (entries payload 0 8))

-- A payload shorter than a record of its kind (12 bytes on classic HFS, 64 otherwise) is refused
-- as corrupt, and any other gives its entries up to the terminator: no payload makes the parser
-- read outside it.
pub parse_extents_record_by_kind-extents_of :
    (kind : FileSystemKind) (payload : Bytes)
    → parse_extents_record_by_kind kind payload ≡ extents_of kind payload
unfolding parse_extents_record_by_kind parse_extents_record parse_extents_record_hfs extents_of
parse_extents_record_by_kind-extents_of hfs payload =
    ground (arith, extents_from_hfs-entries_hfs payload 0 3)
parse_extents_record_by_kind-extents_of _ payload = ground (arith, extents_from-entries payload 0 8)
