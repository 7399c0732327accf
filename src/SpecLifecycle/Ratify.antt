-- ===== src/SpecLifecycle/Ratify.antt =====
-- src/otaman_core/spec_lifecycle.py: the ratification of work done before its approval.
use otaman_core.Prelude.{
  ℕ, suc, zero, ◌-◌, String, Bool, true, not, ◌||◌, List, Result, ok, ◌>>=◌, require, ◌+++◌,
  is_empty, strip, starts_with, text_length, length, keep, if◌then◌else◌,
}
use otaman_core.Yaml.{Value, Entries, bool, str, get, put}
use otaman_core.Yaml.Text.{decimal}
use otaman_core.SpecLifecycle.{SpecError, no_identity, no_reason, at_least}

pub record Ratification : Type 0 where
  pub change : String
  pub by : String
  pub reason : String
  pub at : String
  pub ratified : Bool

-- `not (s and s.strip())`
abbrev pub is_blank : String → Bool
is_blank s = is_empty s || is_empty (strip s)

unfoldable pub ratify : (change : String) → (by reason at : String) → Result SpecError Ratification
ratify change by reason at = do
  u ← require (not (is_blank by)) no_identity
  w ← require (not (is_blank reason)) no_reason
  ok (record { change = change; by = strip by; reason = strip reason; at = at; ratified = true })

-- `f"ratified: {by} — {reason}"`
unfoldable pub ratified_marker : Ratification → String
ratified_marker r = "ratified: " +++ r.by +++ " — " +++ r.reason

-- the stage, or the floor when the stage is before it or unknown
abbrev pub raised_to : String → Value → Value
raised_to floor current = if at_least floor current then current else str floor

unfoldable pub apply_ratification : Entries → Ratification → Entries
unfolding ratified_marker
apply_ratification change r = put "approved_by" (str (ratified_marker r)) (
    put "ratified_at" (str r.at) (
      put "ratified_by" (str r.by) (
        put "ratified" (bool true)
          (put "stage" (raised_to "approved" (get "stage" change)) change))))

-- `f"{n:0{width}d}"`
abbrev zeros : ℕ → String
zeros zero = ""
zeros (suc n) = "0" +++ zeros n

abbrev pub padded : ℕ → ℕ → String
padded width n = zeros (width - text_length (decimal n)) +++ decimal n

unfoldable pub ratifications_in_month : List Ratification → (year month : ℕ) → ℕ
ratifications_in_month rs year month =
    length (keep (λ r. starts_with r.at (padded 4 year +++ "-" +++ padded 2 month)) rs)
