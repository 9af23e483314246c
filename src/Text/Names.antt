-- ===== src/Text/Names.antt =====
-- The two ways in which HFS+ names become Go strings: NameString of btree.go for keys, and
-- utf16.Decode for thread records.
use libhfs.Prelude.{
  ℕ, ◌+◌, ◌*◌, ◌≡◌, ◌&&◌, ◌↔◌, refl, ap, List, [], ◌∷◌, ◌++◌, arith, if◌then◌else◌, length,
  length-append, true, Bool-cases, inl, inr,
}
use libhfs.Text.{
  is_high, is_low, encode_rune, go_string, joined, alone, utf16_decode, name_string, decoded_name,
}

-- The pairs of a high and a low surrogate, from left to right.
pub pairs : List ℕ → ℕ
pairs [] = 0
pairs (a ∷ []) = 0
pairs (a ∷ b ∷ us) =
    let pair = 1 + pairs us in
    let single = pairs (b ∷ us) in if is_high a && is_low b then pair else single

encode_rune-alone : (a : ℕ) → encode_rune (alone a) ≡ encode_rune a
unfolding encode_rune
encode_rune-alone a = ground arith

length-encode_rune-joined :
    (a b : ℕ)
    → (is_high a && is_low b) ≡ true
    → length (encode_rune a) + length (encode_rune b) ≡ length (encode_rune (joined a b)) + 2
unfolding encode_rune
length-encode_rune-joined a b h = ground arith

-- Each pair costs two bytes more in a key's name than in the decoded one.
pub length-name_string :
    (us : List ℕ) → length (name_string us) ≡ length (decoded_name us) + 2 * pairs us
unfolding name_string decoded_name go_string utf16_decode pairs
length-name_string [] = refl
length-name_string (a ∷ []) = rw (encode_rune-alone a) (omega arith)
length-name_string (a ∷ b ∷ us) = elim (Bool-cases (is_high a && is_low b)) [
  | inl p ↦ rw (p) (
      omega (
        arith,
        length-encode_rune-joined a b p,
        length-append (encode_rune a) (encode_rune b ++ go_string us),
        length-append (encode_rune b) (go_string us),
        length-append (encode_rune (joined a b)) (go_string (utf16_decode us)),
        length-name_string us,
      ))
  | inr p ↦
      rw (p, encode_rune-alone a)
        (omega (
          arith,
          length-append (encode_rune a) (go_string (b ∷ us)),
          length-append (encode_rune a) (go_string (utf16_decode (b ∷ us))),
          length-name_string (b ∷ us),
        ))
]

name_string-decoded_name : (us : List ℕ) → pairs us ≡ 0 → name_string us ≡ decoded_name us
unfolding name_string decoded_name go_string utf16_decode pairs
name_string-decoded_name [] h = refl
name_string-decoded_name (a ∷ []) h = rw (encode_rune-alone a) refl
name_string-decoded_name (a ∷ b ∷ us) h = elim (Bool-cases (is_high a && is_low b)) [
  | inl p ↦ ground arith
  | inr p ↦
      let rest : pairs (b ∷ us) ≡ 0 = ground arith in
      rw (p, encode_rune-alone a)
        (ap (λ s. encode_rune a ++ s) (name_string-decoded_name (b ∷ us) rest))
]

-- The name of a key (NameString) and the name of the thread record with the same UTF-16 units are
-- the same string exactly when no high surrogate is followed by a low one: a character beyond the
-- basic plane turns into two U+FFFD in the one and is decoded in the other.
pub name_string-eq-decoded_name :
    (us : List ℕ) → (name_string us ≡ decoded_name us) ↔ (pairs us ≡ 0)
name_string-eq-decoded_name us =
    ((λ e. omega (arith, length-name_string us, ap length e)), name_string-decoded_name us)
