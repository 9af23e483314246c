-- ===== src/Btree/Keys/RoundTrip.antt =====
-- The layout of HFS+ keys, against the parsers of btree.go.
use libhfs.Prelude.{
  ℕ, ◌+◌, ◌-◌, ◌*◌, ◌/◌, ◌%◌, ◌^◌, ◌<◌, ◌≡◌, ◌⊎◌, refl, ap, ◌∙◌, List, [], ◌∷◌, ◌++◌, arith, length,
  take, drop, take-append_le, take_of_length-le, drop-append_ge, sym, length-append, append_assoc,
}
use libhfs.Errors.{ok}
use libhfs.Bytes.{Bytes, slice, index, field16, field32, slice-ok}
use libhfs.Btree.Keys.{units_from, parse_catalog_key, parse_extents_key}

-- Big-endian words.
abbrev pub put16 : ℕ → Bytes
put16 n = n / 2 ^ 8 ∷ n % 2 ^ 8 ∷ []

abbrev pub put32 : ℕ → Bytes
put32 n = n / 2 ^ 24 ∷ n / 2 ^ 16 % 2 ^ 8 ∷ n / 2 ^ 8 % 2 ^ 8 ∷ n % 2 ^ 8 ∷ []

unfoldable pub put_units : List ℕ → Bytes
put_units [] = []
put_units (u ∷ us) = put16 u ++ put_units us

-- The catalog key of HFS+: its length, the parent, the length of the name, the name.
abbrev pub catalog_key_bytes : ℕ → List ℕ → Bytes
catalog_key_bytes parent name =
    put16 (6 + length name * 2) ++ (put32 parent ++ (put16 (length name) ++ put_units name))

abbrev pub extents_key_bytes : ℕ → ℕ → ℕ → Bytes
extents_key_bytes fork_type file_id start =
    put16 10 ++ (fork_type ∷ 0 ∷ (put32 file_id ++ put32 start))

-- An HFS+ extents-overflow key of a data or resource fork, a file and a start block that are uint32
-- numbers is read back from its bytes, whatever follows them.
pub parse_extents_key_bytes :
    (fork_type file_id start : ℕ) (rest : Bytes)
    → (fork_type ≡ 0) ⊎ (fork_type ≡ 255)
    → file_id < 2 ^ 32
    → start < 2 ^ 32
    → parse_extents_key (extents_key_bytes fork_type file_id start ++ rest)
      ≡ ok (
        record { key_length = 10; fork_type = fork_type; file_id = file_id; start_block = start },
        12,
      )
unfolding parse_extents_key field16 field32 index
parse_extents_key_bytes t f s rest h p q = ground arith

length-put_units : (us : List ℕ) → length (put_units us) ≡ length us * 2
unfolding put_units
length-put_units [] = refl
length-put_units (u ∷ us) = omega (arith, length-put_units us)

-- Every code unit is a uint16.
abbrev pub AreUnits : List ℕ → Type 0
AreUnits [] = Unit
AreUnits (u ∷ us) = (u < 2 ^ 16) × AreUnits us

drop_of_length : (pre rest : Bytes) (n : ℕ) → length pre ≡ n → drop n (pre ++ rest) ≡ rest
drop_of_length pre rest n e = drop-append_ge n 0 pre rest (omega arith)

field16-put16 :
    (pre : Bytes) (u base : ℕ) (rest : Bytes)
    → length pre ≡ base
    → u < 2 ^ 16
    → field16 (pre ++ (put16 u ++ rest)) base ≡ ok u
unfolding field16
field16-put16 pre u base rest e h =
    let n : base + 2 - base ≡ 2 = omega arith in
    let l = length-append pre (put16 u ++ rest) in
    rw
      (
        slice-ok (pre ++ (put16 u ++ rest)) base (base + 2) (omega arith) (omega arith),
        n,
        drop_of_length pre (put16 u ++ rest) base e,
      )
      (ap ok (omega arith))

units_from-put_units :
    (pre : Bytes) (base : ℕ) (us : List ℕ)
    → length pre ≡ base
    → AreUnits us
    → units_from (pre ++ put_units us) base (length us) ≡ ok us
unfolding units_from put_units
units_from-put_units pre base [] e h = refl
units_from-put_units pre base (u ∷ us) e h =
    let later : units_from (pre ++ (put16 u ++ put_units us)) (base + 2) (length us) ≡ ok us =
      ap (λ bs. units_from bs (base + 2) (length us))
        (sym (append_assoc pre (put16 u) (put_units us)))
      ∙ units_from-put_units (pre ++ put16 u) (base + 2) us
          (omega (arith, length-append pre (put16 u))) h.1 in
    rw (field16-put16 pre u base (put_units us) e h.0, later) refl

-- The body of a catalog key, behind its length.
abbrev key_body : ℕ → List ℕ → Bytes
key_body parent name = put32 parent ++ (put16 (length name) ++ put_units name)

slice_body :
    (a b : ℕ) (body rest : Bytes) (hi : ℕ)
    → hi ≡ length body + 2
    → slice (a ∷ b ∷ (body ++ rest)) 2 hi ≡ ok body
slice_body a b body rest hi e =
    let l = length-append body rest in
    let n : hi - 2 ≡ length body = omega arith in
    slice-ok (a ∷ b ∷ (body ++ rest)) 2 hi (omega arith) (omega arith)
    ∙ ap ok (
        ap (λ k. take k (body ++ rest)) n
        ∙ take-append_le (length body) body rest (omega arith)
        ∙ take_of_length-le (length body) body (omega arith))

-- An HFS+ catalog key of a uint32 parent and a name of uint16 units that fits the key's 16-bit
-- length is read back from its bytes, whatever follows them.
pub parse_catalog_key-catalog_key_bytes :
    (parent : ℕ) (name : List ℕ) (rest : Bytes)
    → parent < 2 ^ 32
    → AreUnits name
    → 6 + length name * 2 < 2 ^ 16
    → parse_catalog_key (catalog_key_bytes parent name ++ rest)
      ≡ ok (
        record {
          key_length = 6 + length name * 2;
          parent_cnid = parent;
          name_utf16 = name;
          name_bytes = [];
        },
        8 + length name * 2,
      )
unfolding parse_catalog_key field32
parse_catalog_key-catalog_key_bytes parent name rest hp hn hl =
    let raw = catalog_key_bytes parent name ++ rest in
    let body = key_body parent name in
    let len = 6 + length name * 2 in
    let lu = length-put_units name in
    let lr : length raw ≡ 8 + length name * 2 + length rest =
      omega (arith, length-append body rest, length-put_units name) in
    let key_len : field16 raw 0 ≡ ok len = field16-put16 [] len 0 (body ++ rest) refl hl in
    let chars : field16 body 4 ≡ ok (length name) =
      field16-put16 (put32 parent) (length name) 4 (put_units name) refl (omega arith) in
    let us : units_from body 6 (length name) ≡ ok name =
      units_from-put_units (put32 parent ++ put16 (length name)) 6 name refl hn in
    ground (arith, slice_body (len / 2 ^ 8) (len % 2 ^ 8) body rest (len + 2))
