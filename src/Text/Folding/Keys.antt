-- ===== src/Text/Folding/Keys.antt =====
-- What the comparison of names in unicode.go compares.
use libhfs.Prelude.{
  ℕ, zero, suc, ◌≤◌, ◌<◌, ◌≡◌, ◌≢◌, ◌↔◌, refl, sym, ◌∙◌, ap, true, false, inl, inr, Bool-cases,
  List, [], ◌∷◌, arith, ◌==◌, ==_iff, if◌then◌else◌,
}
use libhfs.Text.Folding.{
  hfs_unicode_fold, utf16_encode, advance, equal_from, rounds_for, hfs_unicode_equal,
}

-- The folded characters that are not ignored.
pub folded : List ℕ → List ℕ
folded [] = []
folded (u ∷ us) = if hfs_unicode_fold u == 0 then folded us else hfs_unicode_fold u ∷ folded us

-- A key by what `advance` leaves of it.
abbrev key_of : ℕ × List ℕ → List ℕ
key_of (c, rest) = if c == 0 then [] else c ∷ folded rest

folded-advance : (us : List ℕ) → folded us ≡ key_of (advance us)
unfolding folded advance
folded-advance [] = refl
folded-advance (u ∷ us) = elim (Bool-cases (hfs_unicode_fold u == 0)) [
  | inl z ↦ rw (z) (folded-advance us)
  | inr z ↦ rw (z, z) refl
]

false-ne-true : false ≢ true
false-ne-true h = cc

nil-ne-cons : (c : ℕ) (cs : List ℕ) → [] ≢ (c ∷ cs)
nil-ne-cons c cs h = cc

rounds-advance : (us : List ℕ) → (advance us).0 ≢ 0 → rounds_for (advance us).1 < rounds_for us
unfolding advance
rounds-advance [] h = absurd (h refl)
rounds-advance (u ∷ us) h = elim (Bool-cases (hfs_unicode_fold u == 0)) [
  | inl z ↦ let h' : (advance us).0 ≢ 0 = rw z at h in rw (z) (omega (arith, rounds-advance us h'))
  | inr z ↦ rw (z) (omega arith)
]

-- The rounds compare the keys.
equal_from_sound : (rounds : ℕ) (a b : List ℕ) → equal_from rounds a b ≡ true → folded a ≡ folded b
unfolding equal_from
equal_from_sound zero a b h = cc
equal_from_sound (suc rounds) a b h = elim (Bool-cases ((advance a).0 == (advance b).0)) [
  | inr q ↦ absurd (false-ne-true (sym (rw (equal_from, q) refl) ∙ h))
  | inl q ↦
      let e : (advance a).0 ≡ (advance b).0 = (==_iff (advance a).0 (advance b).0).0 q in
      elim (Bool-cases ((advance a).0 == 0)) [
        | inl z ↦
            let z' : ((advance b).0 == 0) ≡ true = rw (sym e) z in
            rw (folded-advance a, folded-advance b, z, z') refl
        | inr z ↦
            let z' : ((advance b).0 == 0) ≡ false = rw (sym e) z in
            let later : equal_from rounds (advance a).1 (advance b).1 ≡ true =
              sym (rw (equal_from, q, z) refl) ∙ h in
            rw (folded-advance a, folded-advance b, z, z', e)
              (ap (λ k. (advance b).0 ∷ k)
                (equal_from_sound rounds (advance a).1 (advance b).1 later))
      ]
]

equal_from_complete :
    (rounds : ℕ) (a b : List ℕ)
    → rounds_for a ≤ rounds
    → folded a ≡ folded b
    → equal_from rounds a b ≡ true
unfolding equal_from
equal_from_complete zero [] b r h = absurd (omega (arith, r))
equal_from_complete zero (u ∷ a) b r h = absurd (omega (arith, r))
equal_from_complete (suc rounds) a b r h =
    let k : key_of (advance a) ≡ key_of (advance b) =
      sym (folded-advance a) ∙ h ∙ folded-advance b in
    elim (Bool-cases ((advance a).0 == 0)) [
      | inl z ↦ elim (Bool-cases ((advance b).0 == 0)) [
        | inl z' ↦
            let q : ((advance a).0 == (advance b).0) ≡ true = ground (arith, z, z') in
            rw (equal_from, q, z) refl
        | inr z' ↦ absurd (nil-ne-cons (advance b).0 (folded (advance b).1) (rw (z, z') at k))
      ]
      | inr z ↦ elim (Bool-cases ((advance b).0 == 0)) [
        | inl z' ↦ absurd (nil-ne-cons (advance a).0 (folded (advance a).1) (sym (rw (z, z') at k)))
        | inr z' ↦
            let both : ((advance a).0 ∷ folded (advance a).1)
                ≡ ((advance b).0 ∷ folded (advance b).1) =
              rw (z, z') at k in
            let e : (advance a).0 ≡ (advance b).0 = cc in
            let t : folded (advance a).1 ≡ folded (advance b).1 = cc in
            let q : ((advance a).0 == (advance b).0) ≡ true =
              (==_iff (advance a).0 (advance b).0).1 e in
            rw (equal_from, q, z)
              (equal_from_complete rounds (advance a).1 (advance b).1
                (omega (arith, r, rounds-advance a (ground (arith, z)))) t)
      ]
    ]

-- hfsUnicodeEqual holds for two names exactly when their UTF-16 units, folded and without those
-- that are ignored, are the same.
pub hfs_unicode_equal-folded :
    (a b : List ℕ)
    → (hfs_unicode_equal a b ≡ true) ↔ (folded (utf16_encode a) ≡ folded (utf16_encode b))
unfolding hfs_unicode_equal
hfs_unicode_equal-folded a b = (
  equal_from_sound (rounds_for (utf16_encode a)) (utf16_encode a) (utf16_encode b),
  equal_from_complete (rounds_for (utf16_encode a)) (utf16_encode a) (utf16_encode b) (omega arith),
)
