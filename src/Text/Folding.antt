-- ===== src/Text/Folding.antt =====
-- unicode.go: the comparison of HFS+ names without regard to case. Go strings are taken as their
-- runes, and utf16.Encode of Go's library as a function of them.
pub mod Table
pub mod Keys
use libhfs.Prelude.{
  ℕ, zero, suc, ◌+◌, ◌-◌, ◌*◌, ◌/◌, ◌%◌, ◌^◌, Bool, true, false, ◌||◌, List, [], ◌∷◌, ◌++◌, ltb,
  ◌==◌, if◌then◌else◌, get_or,
}
use libhfs.Text.{is_high, is_low}
use libhfs.Text.Folding.Table.{
  page_index, page_00, page_01, page_03, page_04, page_05, page_10, page_20, page_21, page_fe,
  page_ff,
}

-- hfsLowerCaseTable
abbrev pub hfs_lower_case_table : List ℕ
hfs_lower_case_table =
    page_index
    ++ (page_00
        ++ (page_01
            ++ (page_03
                ++ (page_04
                    ++ (page_05 ++ (page_10 ++ (page_20 ++ (page_21 ++ (page_fe ++ page_ff)))))))))

-- hfsUnicodeFold of a code unit; 0 means that the character is ignored.
unfoldable pub hfs_unicode_fold : ℕ → ℕ
hfs_unicode_fold c =
    let sub = get_or hfs_lower_case_table (c / 256) 0 in
    if sub == 0 then c else get_or hfs_lower_case_table ((sub + c % 256) % 2 ^ 16) 0

-- One rune of utf16.Encode.
abbrev pub encode_unit : ℕ → List ℕ
encode_unit r =
    if is_high r || is_low r || ltb 1114111 r
    then 65533 ∷ []
    else if ltb r 65536
    then r ∷ []
    else (55296 + (r - 65536) / 1024) ∷ (56320 + (r - 65536) % 1024) ∷ []

unfoldable pub utf16_encode : List ℕ → List ℕ
utf16_encode [] = []
utf16_encode (r ∷ rs) = encode_unit r ++ utf16_encode rs

-- The loop that advances to the next character that is not ignored: its folded form and what
-- follows it, or 0 at the end.
unfoldable pub advance : List ℕ → ℕ × List ℕ
advance [] = (0, [])
advance (u ∷ us) = if hfs_unicode_fold u == 0 then advance us else (hfs_unicode_fold u, us)

-- The loop of hfsUnicodeEqual, of at most so many rounds.
unfoldable pub equal_from : ℕ → List ℕ → List ℕ → Bool
equal_from zero a b = false
equal_from (suc rounds) a b =
    let later = equal_from rounds (advance a).1 (advance b).1 in
    if (advance a).0 == (advance b).0 then (if (advance a).0 == 0 then true else later) else false

abbrev pub rounds_for : List ℕ → ℕ
rounds_for [] = 1
rounds_for (u ∷ us) = suc (rounds_for us)

unfoldable pub hfs_unicode_equal : List ℕ → List ℕ → Bool
hfs_unicode_equal a b = equal_from (rounds_for (utf16_encode a)) (utf16_encode a) (utf16_encode b)
