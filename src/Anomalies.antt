-- ===== src/Anomalies.antt =====
-- The anomalies of cache.go: what parsing found wrong and went on from.
pub mod Distinct
use Prim.Native.String.{String}
use text.Mathlib.Text.{◌==◌}
use libhfs.Prelude.{
  ℕ, Bool, false, ◌&&◌, ◌||◌, List, [], ◌∷◌, ◌++◌, leb, if◌then◌else◌, length, add64,
}

pub record Anomaly : Type 0 where
  pub op : String
  pub offset : ℕ
  pub detail : String

-- The fields `anomalies` and `anomalyTotal` of a volume.
pub record Log : Type 0 where
  pub kept : List Anomaly
  pub total : ℕ

abbrev pub empty_log : Log
empty_log = record { kept = []; total = 0 }

abbrev pub max_tracked_anomalies : ℕ
max_tracked_anomalies = 1000

-- The loop that looks for the same operation and detail.
unfoldable pub is_noted : String → String → List Anomaly → Bool
is_noted op detail [] = false
is_noted op detail (a ∷ as') = (a.op == op && a.detail == detail) || is_noted op detail as'

unfoldable pub note_anomaly : String → ℕ → String → Log → Log
note_anomaly op offset detail log =
    if leb max_tracked_anomalies (length log.kept) || is_noted op detail log.kept
    then record { kept = log.kept; total = add64 log.total 1 }
    else record {
      kept = log.kept ++ (record { op = op; offset = offset; detail = detail } ∷ []);
      total = add64 log.total 1;
    }

unfoldable pub note_decode_failure : String → ℕ → Log → Log
note_decode_failure op parent_cnid =
    note_anomaly op parent_cnid "catalog record failed to decode and was skipped"
