-- ===== src/Anomalies/Distinct.antt =====
-- What the list of anomalies of cache.go looks like after any sequence of notes.
use Prim.Native.String.{String}
use text.Mathlib.TextEquality.{eq_iff}
use text.Mathlib.TextPositions.{eq_refl}
use libhfs.Prelude.{
  ℕ, ◌+◌, ◌≤◌, ◌<◌, ◌≡◌, ◌^◌, true, false, List, [], ◌∷◌, ◌++◌, arith, leb, length, length-append,
  ◌⊎◌, ◌%◌, refl, take, take_of_length-le, take-append_le, Bool-cases, inl, inr,
}
use libhfs.Anomalies.{Anomaly, Log, is_noted, note_anomaly, max_tracked_anomalies}

-- No anomaly is listed behind another one with its operation and its detail.
abbrev pub AreDistinct : List Anomaly → Type 0
AreDistinct [] = Unit
AreDistinct (a ∷ rest) = (is_noted a.op a.detail rest ≡ false) × AreDistinct rest

pub record IsLog (log : Log) : Type 0 where
  pub bounded : length log.kept ≤ max_tracked_anomalies
  pub distinct : AreDistinct log.kept

is_noted-append :
    (op op' detail detail' : String) (offset : ℕ) (kept : List Anomaly)
    → is_noted op detail kept ≡ false
    → is_noted op' detail' kept ≡ false
    → is_noted op detail (kept ++ (record { op = op'; offset = offset; detail = detail' } ∷ []))
      ≡ is_noted op detail (record { op = op'; offset = offset; detail = detail' } ∷ [])
unfolding is_noted
is_noted-append op op' detail detail' offset [] h k = ground arith
is_noted-append op op' detail detail' offset (a ∷ kept) h k =
    ground (arith, is_noted-append op op' detail detail' offset kept)

append-AreDistinct :
    (op detail : String) (offset : ℕ) (kept : List Anomaly)
    → AreDistinct kept
    → is_noted op detail kept ≡ false
    → AreDistinct (kept ++ (record { op = op; offset = offset; detail = detail } ∷ []))
unfolding is_noted
append-AreDistinct op detail offset [] d h = ground arith
append-AreDistinct op detail offset (a ∷ kept) d h = ground (
  arith,
  is_noted-append a.op op a.detail detail offset kept,
  append-AreDistinct op detail offset kept,
  eq_iff a.op op,
  eq_iff a.detail detail,
  eq_iff op a.op,
  eq_iff detail a.detail,
)

is_noted_self :
    (op detail : String) (offset : ℕ) (kept : List Anomaly)
    → is_noted op detail (kept ++ (record { op = op; offset = offset; detail = detail } ∷ []))
      ≡ true
unfolding is_noted
is_noted_self op detail offset [] = rw (eq_refl op, eq_refl detail) refl
is_noted_self op detail offset (a ∷ kept) = ground (arith, is_noted_self op detail offset kept)

note_anomaly_keeps :
    (op detail : String) (offset : ℕ) (log : Log)
    → IsLog log
    → IsLog (note_anomaly op offset detail log)
unfolding note_anomaly
note_anomaly_keeps op detail offset log v = ground (
  arith,
  length-append log.kept (record { op = op; offset = offset; detail = detail } ∷ []),
  append-AreDistinct op detail offset log.kept,
)

take-note_anomaly :
    (op detail : String) (offset : ℕ) (log : Log)
    → take (length log.kept) (note_anomaly op offset detail log).kept ≡ log.kept
unfolding note_anomaly
take-note_anomaly op detail offset log = ground (
  arith,
  take_of_length-le (length log.kept) log.kept,
  take-append_le (length log.kept) log.kept
      (record { op = op; offset = offset; detail = detail } ∷ []),
)

total-note_anomaly :
    (op detail : String) (offset : ℕ) (log : Log)
    → (note_anomaly op offset detail log).total ≡ (log.total + 1) % 2 ^ 64
unfolding note_anomaly
total-note_anomaly op detail offset log = ground arith

note_anomaly-is_noted :
    (op detail : String) (offset : ℕ) (log : Log)
    → length log.kept < max_tracked_anomalies
    → is_noted op detail (note_anomaly op offset detail log).kept ≡ true
unfolding note_anomaly
note_anomaly-is_noted op detail offset log h =
    let l : leb max_tracked_anomalies (length log.kept) ≡ false = ground arith in
    elim (Bool-cases (is_noted op detail log.kept)) [
      | inl q ↦ rw (l, q) q
      | inr q ↦ rw (l, q) (is_noted_self op detail offset log.kept)
    ]

-- Noting an anomaly keeps the list free of repeated pairs of operation and detail and at most 1000
-- entries long, keeps what it holds at its place, lists the pair if there was room, and counts it
-- (as an int of 64 bits) in any case.
pub note_anomaly-IsLog :
    (op detail : String) (offset : ℕ) (log : Log)
    → IsLog log
    → IsLog (note_anomaly op offset detail log)
      × (take (length log.kept) (note_anomaly op offset detail log).kept ≡ log.kept)
      × ((length log.kept ≡ max_tracked_anomalies)
          ⊎ (is_noted op detail (note_anomaly op offset detail log).kept ≡ true))
      × ((note_anomaly op offset detail log).total ≡ (log.total + 1) % 2 ^ 64)
note_anomaly-IsLog op detail offset log v = (
  note_anomaly_keeps op detail offset log v,
  take-note_anomaly op detail offset log,
  elim (Bool-cases (leb max_tracked_anomalies (length log.kept))) [
    | inl q ↦ inl (ground (arith, v.bounded))
    | inr q ↦ inr (note_anomaly-is_noted op detail offset log (ground arith))
  ],
  total-note_anomaly op detail offset log,
)
