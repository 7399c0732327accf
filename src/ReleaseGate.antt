-- ===== src/ReleaseGate.antt =====
-- src/otaman_core/release_gate.py: whether a change may be cut. The filings of the
-- change are those that the caller passes, or else are read from the bus.
pub mod Eligible
mod Tests
use otaman_core.Prelude.{
  ℕ, suc, zero, ◌-◌, String, Bool, true, false, not, Option, none, some, List, [], ◌∷◌, keep,
  if◌then◌else◌,
}
use otaman_core.TaskComplete.Filed.{Clock, Times, filed_complete_at}
use otaman_core.TaskComplete.Effective.{History, is_effectively_complete}

pub data Status : Type 0 where
  eligible tasks_outstanding gate_unpassed : Status

pub record CutVerdict : Type 0 where
  pub change : String
  pub status : Status
  pub total_tasks : ℕ
  pub complete_tasks : ℕ
  pub outstanding : List String
  pub gate_passed : Bool

unfoldable pub length : List String → ℕ
length [] = zero
length (x ∷ xs) = suc (length xs)

abbrev pub status_of : List String → Bool → Status
status_of [] gate_passed = if gate_passed then eligible else gate_unpassed
status_of (tid ∷ ids) gate_passed = tasks_outstanding

-- `if filed is None: filed = filed_complete_at(…)`
abbrev pub or_read : Option Times → Times → Times
or_read none times = times
or_read (some filed) times = filed

unfoldable pub cut_eligibility :
    (is_word : ℕ → Bool)
    → Clock
    → History
    → (bus : List String) → (change : String) → (task_ids : List String) → (gate_passed : Bool)
    → (filed : Option Times) → CutVerdict
unfolding length
cut_eligibility is_word clock git bus change task_ids gate_passed given =
    let filed = or_read given (filed_complete_at is_word clock bus change) in
    let outstanding =
      keep (λ t. not (is_effectively_complete is_word clock git false t filed)) task_ids in
    record {
      change = change;
      status = status_of outstanding gate_passed;
      total_tasks = length task_ids;
      complete_tasks = length task_ids - length outstanding;
      outstanding = outstanding;
      gate_passed = gate_passed;
    }
