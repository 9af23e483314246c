-- ===== src/Bytes.antt =====
-- binary.go's be16, be32 and be64, and Go's slicing and indexing with their run-time checks. Go
-- checks a slice expression against the capacity; here it panics beyond the length already, so
-- that a parser without panics reads nothing that lies outside its argument.
use libhfs.Prelude.{
  ℕ, zero, suc, ◌+◌, ◌-◌, ◌*◌, ◌^◌, ◌≤◌, ◌<◌, ◌≡◌, refl, ap, ◌&&◌, List, [], ◌∷◌, arith, leb, ltb,
  if◌then◌else◌, length, take, drop, get_or, length-take, length-drop, le→leb, lt→ltb,
}
use libhfs.Errors.{Result, ok, panic, ◌>>=◌}

abbrev pub Bytes : Type 0
Bytes = List ℕ

-- Every entry is a byte.
abbrev pub IsBytes : Bytes → Type 0
IsBytes [] = Unit
IsBytes (b ∷ bs) = (b < 256) × IsBytes bs

-- `raw[lo:hi]`
unfoldable pub slice : Bytes → ℕ → ℕ → Result Bytes
slice raw lo hi =
    if leb lo hi && leb hi (length raw) then ok (take (hi - lo) (drop lo raw)) else panic

-- `raw[i]`
unfoldable pub index : Bytes → ℕ → Result ℕ
index raw i = if ltb i (length raw) then ok (get_or raw i 0) else panic

unfoldable pub be16 : Bytes → Result ℕ
be16 (a ∷ b ∷ _) = ok (a * 2 ^ 8 + b)
be16 _ = panic

unfoldable pub be32 : Bytes → Result ℕ
be32 (a ∷ b ∷ c ∷ d ∷ _) = ok (a * 2 ^ 24 + b * 2 ^ 16 + c * 2 ^ 8 + d)
be32 _ = panic

unfoldable pub be64 : Bytes → Result ℕ
be64 (a ∷ b ∷ c ∷ d ∷ e ∷ f ∷ g ∷ h ∷ _) =
    ok (a * 2 ^ 56 + b * 2 ^ 48 + c * 2 ^ 40 + d * 2 ^ 32 + e * 2 ^ 24 + f * 2 ^ 16 + g * 2 ^ 8 + h)
be64 _ = panic

-- `be16(raw[off : off+2])` and the like.
unfoldable pub field16 : Bytes → ℕ → Result ℕ
unfolding slice be16
field16 raw off = do b ← slice raw off (off + 2); be16 b

unfoldable pub field32 : Bytes → ℕ → Result ℕ
unfolding slice be32
field32 raw off = do b ← slice raw off (off + 4); be32 b

unfoldable pub field64 : Bytes → ℕ → Result ℕ
unfolding slice be64
field64 raw off = do b ← slice raw off (off + 8); be64 b

-- What the fields hold, with no check.
unfoldable pub u8 : Bytes → ℕ → ℕ
u8 raw i = get_or raw i 0

unfoldable pub u16 : Bytes → ℕ → ℕ
unfolding u8
u16 raw i = u8 raw i * 2 ^ 8 + u8 raw (i + 1)

unfoldable pub u32 : Bytes → ℕ → ℕ
unfolding u8
u32 raw i = u8 raw i * 2 ^ 24 + u8 raw (i + 1) * 2 ^ 16 + u8 raw (i + 2) * 2 ^ 8 + u8 raw (i + 3)

unfoldable pub u64 : Bytes → ℕ → ℕ
unfolding u8
u64 raw i =
    u8 raw i * 2 ^ 56
    + u8 raw (i + 1) * 2 ^ 48
    + u8 raw (i + 2) * 2 ^ 40
    + u8 raw (i + 3) * 2 ^ 32
    + u8 raw (i + 4) * 2 ^ 24
    + u8 raw (i + 5) * 2 ^ 16
    + u8 raw (i + 6) * 2 ^ 8
    + u8 raw (i + 7)

drop-get_or :
    (raw : Bytes) (i j : ℕ) → i < length raw → j ≡ suc i → drop i raw ≡ get_or raw i 0 ∷ drop j raw
drop-get_or [] i j h e = elim h [ ]
drop-get_or (x ∷ raw) i zero h e = absurd (omega arith)
drop-get_or (x ∷ raw) zero (suc j) h e = let e' : 0 ≡ j = omega arith in ap (λ k. x ∷ drop k raw) e'
drop-get_or (x ∷ raw) (suc i) (suc j) h e = drop-get_or raw i j (omega arith) (omega arith)

pub slice-ok :
    (raw : Bytes) (lo hi : ℕ)
    → lo ≤ hi
    → hi ≤ length raw
    → slice raw lo hi ≡ ok (take (hi - lo) (drop lo raw))
unfolding slice
slice-ok raw lo hi h k = rw (le→leb lo hi h, le→leb hi (length raw) k) refl

pub index-ok : (raw : Bytes) (i : ℕ) → i < length raw → index raw i ≡ ok (u8 raw i)
unfolding index u8
index-ok raw i h = rw (lt→ltb i (length raw) h) refl

pub length-slice :
    (raw : Bytes) (lo hi : ℕ) {part : Bytes}
    → slice raw lo hi ≡ ok part
    → (length part + lo ≡ hi) × (hi ≤ length raw)
unfolding slice
length-slice raw lo hi h = ground (arith, length-take (hi - lo) (drop lo raw), length-drop lo raw)

pub field16-ok : (raw : Bytes) (i : ℕ) → i + 2 ≤ length raw → field16 raw i ≡ ok (u16 raw i)
unfolding field16 u16 u8
field16-ok raw i h =
    let n : i + 2 - i ≡ 2 = omega arith in
    rw
      (
        slice-ok raw i (i + 2) (omega arith) h,
        n,
        drop-get_or raw i (i + 1) (omega arith) (omega arith),
        drop-get_or raw (i + 1) (i + 2) (omega arith) (omega arith),
      )
      refl

pub field32-ok : (raw : Bytes) (i : ℕ) → i + 4 ≤ length raw → field32 raw i ≡ ok (u32 raw i)
unfolding field32 u32 u8
field32-ok raw i h =
    let n : i + 4 - i ≡ 4 = omega arith in
    rw
      (
        slice-ok raw i (i + 4) (omega arith) h,
        n,
        drop-get_or raw i (i + 1) (omega arith) (omega arith),
        drop-get_or raw (i + 1) (i + 2) (omega arith) (omega arith),
        drop-get_or raw (i + 2) (i + 3) (omega arith) (omega arith),
        drop-get_or raw (i + 3) (i + 4) (omega arith) (omega arith),
      )
      refl

pub field64-ok : (raw : Bytes) (i : ℕ) → i + 8 ≤ length raw → field64 raw i ≡ ok (u64 raw i)
unfolding field64 u64 u8
field64-ok raw i h =
    let n : i + 8 - i ≡ 8 = omega arith in
    rw
      (
        slice-ok raw i (i + 8) (omega arith) h,
        n,
        drop-get_or raw i (i + 1) (omega arith) (omega arith),
        drop-get_or raw (i + 1) (i + 2) (omega arith) (omega arith),
        drop-get_or raw (i + 2) (i + 3) (omega arith) (omega arith),
        drop-get_or raw (i + 3) (i + 4) (omega arith) (omega arith),
        drop-get_or raw (i + 4) (i + 5) (omega arith) (omega arith),
        drop-get_or raw (i + 5) (i + 6) (omega arith) (omega arith),
        drop-get_or raw (i + 6) (i + 7) (omega arith) (omega arith),
        drop-get_or raw (i + 7) (i + 8) (omega arith) (omega arith),
      )
      refl
