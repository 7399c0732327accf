-- ===== src/Message.antt =====
-- src/otaman_core/validate_message.py: the rules that a bus message is checked by before it is
-- written. An error is a value of `Problem`; the texts of the errors are not modelled.
pub mod Fields
pub mod Rules
pub mod Gate
pub mod Silent
pub mod Accepted
pub mod Total
mod Tests
use otaman_core.Prelude.{
  String, Bool, true, false, not, ◌||◌, ◌&&◌, Option, none, some, List, [], ◌∷◌, ◌++◌, Result, ok,
  err, elem, all, keep, is_empty, strip, split_on, map, if◌then◌else◌, str_eq, ◌==◌,
}
use otaman_core.Yaml.{
  Value, Values, Entries, null, bool, str, list, dict, nil, cons, items, is_null, is_str,
  is_hashable, truthy, is_text, is_one_of, has, get, get_or,
}

abbrev pub valid_types : List String
valid_types =
    "info" ∷ "question" ∷ "contract-change" ∷ "spec-change" ∷ "spec-change-request"
    ∷ "spec-change-approved" ∷ "spec-change-rejected" ∷ "review-request" ∷ "task-assignment"
    ∷ "task-complete" ∷ "proposal" ∷ "post-commit-review" ∷ "emergency-halt"
    ∷ "agent-registry-change" ∷ "request-human-review" ∷ "human-decision"
    ∷ "outcome-estimate-requested" ∷ "outcome-estimates-ready" ∷ "outcome-cost-accepted"
    ∷ "outcome-cost-rejected" ∷ "outcome-status-changed" ∷ "solution-status-changed"
    ∷ "solution-recommendation" ∷ "outcome-proposal" ∷ "spec-approval-pending" ∷ "announce"
    ∷ "lifecycle-change" ∷ "decision-required" ∷ "security-gate-report" ∷ []

abbrev pub privileged_types : List String
privileged_types =
    "human-decision" ∷ "spec-change-approved" ∷ "spec-change-rejected" ∷ "emergency-halt" ∷ []

abbrev pub path_eligible_types : List String
path_eligible_types =
    "task-assignment" ∷ "task-complete" ∷ "spec-change-request" ∷ "contract-change" ∷ []

abbrev pub broadcast_types : List String
broadcast_types =
    "contract-change" ∷ "emergency-halt" ∷ "agent-registry-change" ∷ "lifecycle-change"
    ∷ "spec-change-approved" ∷ "announce" ∷ []

-- Python's set has no order: the errors for missing fields come in any.
abbrev pub required_fields : List String
required_fields = "id" ∷ "from" ∷ "to" ∷ "type" ∷ "timestamp" ∷ []

abbrev pub decision_required_fields : List String
decision_required_fields = "decision" ∷ "blocks" ∷ "unblock-condition" ∷ []

pub data Problem : Type 0 where
  no_frontmatter bad_yaml not_a_mapping : Problem
  missing_field undecided : String → Problem
  bad_timestamp unknown_type not_from_human unknown_priority unknown_status : Problem
  bad_reply_to bad_gate_waived bad_expects_response reply_is_implied bad_effort bad_deadline :
      Problem
  type_takes_no_path blank_path no_paths blank_path_entry path_not_text path_without_repo : Problem
  unknown_recipients : List String → Problem
  not_a_broadcast no_subject : Problem

pub data Warning : Type 0 where
  best_effort : Warning

-- The exceptions that nothing catches: a set is asked for a list or a dict, and `split` of what is
-- not a text.
pub data Crash : Type 0 where
  unhashable no_split : Crash

abbrev pub Problems : Type 0
Problems = Result Crash (List Problem)

abbrev pub report : Bool → Problem → List Problem
report b p = if b then p ∷ [] else []

-- `v in s` for a set of texts
abbrev pub in_set : List String → Value → Result Crash Bool
in_set s v = if is_hashable v then ok (is_one_of s v) else err unhashable

abbrev pub on_ok : Result Crash Bool → (Bool → List Problem) → Problems
on_ok (ok b) f = ok (f b)
on_ok (err e) f = err e
