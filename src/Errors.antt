-- ===== src/Errors.antt =====
-- errors.go, and the sentinels of limits.go, btree_search.go and decmpfs.go: errors as values.
-- A Go function that returns (T, error) is one into `Result T`; a run-time panic is an outcome too.
use libhfs.Prelude.{
  ℕ, String, Bool, true, false, ◌||◌, ◌≡◌, refl, ◌⊎◌, inl, inr, Option, none, some,
}
use mathlib.Core.Bool.{decide}

pub data Sentinel : Type 0 where
  invalid_signature unsupported_format unsupported_hfs unsupported_ver corrupt : Sentinel
  short_read invalid_btree_node invalid_btree_key missing_extent not_found : Sentinel
  not_file not_dir invalid_offset stop_walk size_limit : Sentinel
  unsupported_compression search_degraded eof : Sentinel

pub Sentinel-discrete : Discrete Sentinel
Sentinel-discrete = hlevel

-- `parse_error` is *ParseError, with its Op, Offset and Err; `callback_error` is the wrapper of
-- btree_search.go; `wrapped` is any other error of a caller that unwraps to one of these, and
-- `foreign` one that does not.
pub data Error : Type 0 where
  sentinel : Sentinel → Error
  parse_error : String → ℕ → Error → Error
  callback_error : Error → Error
  wrapped : ℕ → Error → Error
  foreign : ℕ → Error

-- `errors.Is(err, target)`, for a sentinel as the target.
unfoldable pub is : Error → Sentinel → Bool
unfolding Sentinel-discrete
is (sentinel s) t = decide (Sentinel-discrete s t)
is (parse_error op off e) t = is e t
is (callback_error e) t = is e t
is (wrapped n e) t = is e t
is (foreign n) t = false

pub data Result {ℓ} (A : Type ℓ) : Type ℓ where
  ok : A → Result A
  err : Error → Result A
  panic : Result A

infixl 5 ◌>>=◌ ◌>>◌
abbrev pub ◌>>=◌ {ℓ κ} : {A : Type ℓ} {B : Type κ} → Result A → (A → Result B) → Result B
ok a >>= f = f a
err e >>= f = err e
panic >>= f = panic

abbrev pub ◌>>◌ {ℓ} : {B : Type ℓ} → Result (Unit {0}) → Result B → Result B
m >> k = m >>= λ _. k

-- A result that is not a panic and whose value has a property.
abbrev pub Holds {ℓ} : {A : Type ℓ} → (A → Type 0) → Result A → Type 0
Holds P (ok a) = P a
Holds P (err e) = Unit
Holds P panic = ⊥

-- `return &ParseError{Op: op, Offset: off, Err: s}`
abbrev pub fail {ℓ} : {A : Type ℓ} → String → ℕ → Sentinel → Result A
fail op off s = err (parse_error op off (sentinel s))

-- An early return: `if bad { return fail }`.
abbrev pub reject_if : Bool → String → ℕ → Sentinel → Result (Unit {0})
reject_if true op off s = fail op off s
reject_if false op off s = ok tt

pub Result-cases {ℓ} :
    {A : Type ℓ} (r : Result A) → ((a : A) × (r ≡ ok a)) ⊎ ((e : Error) × (r ≡ err e)) ⊎ (r ≡ panic)
Result-cases (ok a) = inl (a, refl)
Result-cases (err e) = inr (inl (e, refl))
Result-cases panic = inr (inr refl)

-- `err == nil || errors.Is(err, ErrStopWalk)` decides what a Walk method returns.
unfoldable pub end_walk : Option Error → Option Error
end_walk none = none
end_walk (some e) = elim (is e stop_walk) [ true ↦ none | false ↦ some e ]

unfoldable pub is_corrupt : Error → Bool
is_corrupt e =
    is e corrupt
    || is e invalid_signature
    || is e unsupported_ver
    || is e invalid_btree_node
    || is e invalid_btree_key
    || is e missing_extent
