-- ===== src/Btree/Keys/Bounds.antt =====
-- The extent of a key in its record, for the key parsers of btree.go and attributes.go.
use libhfs.Prelude.{
  ℕ, zero, suc, ◌+◌, ◌-◌, ◌*◌, ◌≤◌, ◌≡◌, refl, List, [], ◌∷◌, arith, length, take, drop,
  length-take, length-drop,
}
use libhfs.Errors.{Result, ok, err, panic}
use libhfs.Bytes.{Bytes, u8, u16, slice-ok, index-ok, field16-ok, field32-ok}
use libhfs.Extents.{FileSystemKind, hfs}
use libhfs.Btree.Keys.{
  units_from, parse_catalog_key, parse_catalog_key_hfs, parse_extents_key, parse_extents_key_hfs,
  parse_attributes_key, parse_catalog_key_for_kind, parse_extents_key_for_kind,
}

-- The code units that stand there.
unfoldable pub units : Bytes → ℕ → ℕ → List ℕ
units body base zero = []
units body base (suc n) = u16 body base ∷ units body (base + 2) n

pub units_from-ok :
    (body : Bytes) (base n : ℕ)
    → base + n * 2 ≤ length body
    → units_from body base n ≡ ok (units body base n)
unfolding units_from units
units_from-ok body base zero h = refl
units_from-ok body base (suc n) h =
    ground (arith, field16-ok body base, units_from-ok body (base + 2) n)

-- A parse is no panic, and the key takes between `low` and all of the bytes.
abbrev pub IsWithin : {K : Type 0} → ℕ → Bytes → Result (K × ℕ) → Type 0
IsWithin low raw (ok (k, consumed)) = (low ≤ consumed) × (consumed ≤ length raw)
IsWithin low raw (err e) = Unit
IsWithin low raw panic = ⊥

module _ (raw : Bytes) where
  abbrev body_of : ℕ → ℕ → Bytes
  body_of lo hi = take (hi - lo) (drop lo raw)

  length-body_of : (lo hi : ℕ) → lo ≤ hi → hi ≤ length raw → length (body_of lo hi) ≡ hi - lo
  length-body_of lo hi h k = omega (arith, length-take (hi - lo) (drop lo raw), length-drop lo raw)

  parse_catalog_key-IsWithin : IsWithin 8 raw (parse_catalog_key raw)
  unfolding parse_catalog_key
  parse_catalog_key-IsWithin =
      let hi = u16 raw 0 + 2 in
      let body = body_of 2 hi in
      ground (
        arith,
        field16-ok raw 0,
        slice-ok raw 2 hi,
        length-body_of 2 hi,
        field16-ok body 4,
        units_from-ok body 6 (u16 body 4),
        field32-ok body 0,
      )

  parse_catalog_key_hfs-IsWithin : IsWithin 7 raw (parse_catalog_key_hfs raw)
  unfolding parse_catalog_key_hfs
  parse_catalog_key_hfs-IsWithin =
      let hi = u8 raw 0 + 1 in
      let body = body_of 1 hi in
      ground (
        arith,
        index-ok raw 0,
        slice-ok raw 1 hi,
        length-body_of 1 hi,
        field32-ok body 1,
        index-ok body 5,
        slice-ok body 6 (6 + u8 body 5),
      )

  parse_extents_key-IsWithin : IsWithin 12 raw (parse_extents_key raw)
  unfolding parse_extents_key
  parse_extents_key-IsWithin =
      ground (arith, field16-ok raw 0, index-ok raw 2, field32-ok raw 4, field32-ok raw 8)

  parse_extents_key_hfs-IsWithin : IsWithin 8 raw (parse_extents_key_hfs raw)
  unfolding parse_extents_key_hfs
  parse_extents_key_hfs-IsWithin =
      let hi = u8 raw 0 + 1 in
      let body = body_of 1 hi in
      ground (
        arith,
        index-ok raw 0,
        slice-ok raw 1 hi,
        length-body_of 1 hi,
        index-ok body 0,
        field32-ok body 1,
        field16-ok body 5,
      )

  parse_attributes_key-IsWithin :
      (decode : List ℕ → Bytes) → IsWithin 14 raw (parse_attributes_key decode raw)
  unfolding parse_attributes_key
  parse_attributes_key-IsWithin decode =
      let hi = u16 raw 0 + 2 in
      let body = body_of 2 hi in
      ground (
        arith,
        field16-ok raw 0,
        slice-ok raw 2 hi,
        length-body_of 2 hi,
        field16-ok body 10,
        units_from-ok body 12 (u16 body 10),
        field32-ok body 2,
        field32-ok body 6,
      )

-- The least size of a key of each tree.
abbrev pub catalog_key_min : FileSystemKind → ℕ
catalog_key_min hfs = 7
catalog_key_min _ = 8

abbrev pub extents_key_min : FileSystemKind → ℕ
extents_key_min hfs = 8
extents_key_min _ = 12

-- On bytes of any length and content no key parser reads outside them, and a key that is returned
-- occupies at least the least size of its kind and at most all the bytes.
pub parse_keys-IsWithin :
    (kind : FileSystemKind) (decode : List ℕ → Bytes) (raw : Bytes)
    → IsWithin (catalog_key_min kind) raw (parse_catalog_key_for_kind kind raw)
      × IsWithin (extents_key_min kind) raw (parse_extents_key_for_kind kind raw)
      × IsWithin 14 raw (parse_attributes_key decode raw)
unfolding parse_catalog_key_for_kind parse_extents_key_for_kind
parse_keys-IsWithin hfs decode raw = (
  parse_catalog_key_hfs-IsWithin raw,
  parse_extents_key_hfs-IsWithin raw,
  parse_attributes_key-IsWithin raw decode,
)
parse_keys-IsWithin _ decode raw = (
  parse_catalog_key-IsWithin raw,
  parse_extents_key-IsWithin raw,
  parse_attributes_key-IsWithin raw decode,
)
