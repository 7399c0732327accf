-- ===== src/SpecLifecycle/Gates.antt =====
-- src/otaman_core/spec_lifecycle.py: the merge, dispatch and archive gates.
use otaman_core.Prelude.{
  String, Bool, true, false, not, ◌||◌, Option, none, some, List, [], ◌∷◌, ◌++◌, map, Result, ok,
  ◌>>=◌, ◌+++◌, str_eq, if◌then◌else◌,
}
use otaman_core.Yaml.{Value, Entries, bool, File, absent, get, truthy}
use otaman_core.Yaml.Text.{repr, to_str}
use otaman_core.SpecLifecycle.{
  SpecError, is_research, spec_approved_reached, is_signed, has_approval, has_scr_approval,
}
use otaman_core.SpecLifecycle.OpenSpec.{read_openspec, openspec_is_unreadable}
use otaman_core.SpecLifecycle.SpecPolicy.{Policy}
use otaman_core.SpecLifecycle.Marker.{ratifier_from_marker}

pub record GateDecision : Type 0 where
  pub gate : String
  pub allowed : Bool
  pub mode : String
  pub waived : Bool
  pub violations : List String
  pub notices : List String

-- `GateDecision(gate=…, allowed=True, mode=…)`, and a refusal that no mode turns into a pass
abbrev pub pass : String → Policy → GateDecision
pass gate policy = record {
  gate = gate;
  allowed = true;
  mode = policy.enforcement;
  waived = false;
  violations = [];
  notices = [];
}

abbrev pub refuse : String → Policy → List String → GateDecision
refuse gate policy violations = record {
  gate = gate;
  allowed = false;
  mode = policy.enforcement;
  waived = false;
  violations = violations;
  notices = [];
}

abbrev pub waive : String → Policy → List String → GateDecision
waive gate policy violations =
    let prefix =
      if str_eq policy.enforcement "self-waive" then "self-waive" else "proceeding despite" in
    record {
      gate = gate;
      allowed = true;
      mode = policy.enforcement;
      waived = true;
      violations = violations;
      notices = map (λ v. prefix +++ ": " +++ v) violations;
    }

unfoldable pub decide : String → Policy → List String → GateDecision
decide gate policy [] = pass gate policy
decide gate policy (v ∷ vs) =
    if str_eq policy.enforcement "block"
    then refuse gate policy (v ∷ vs)
    else waive gate policy (v ∷ vs)

-- `outcome_ok is False`: it is None when the outcome was not looked up.
abbrev pub is_refused : Option Bool → Bool
is_refused (some false) = true
is_refused _ = false

unfoldable pub outcome_violation :
    Entries → (jtbd_enabled : Bool) → (outcome_ok : Option Bool) → List String
outcome_violation change jtbd_enabled outcome_ok =
    if not jtbd_enabled
    then []
    else if not (is_signed (get "outcome" change))
    then "missing outcome link (outcome: <id> required when JTBD support is enabled)" ∷ []
    else if is_refused outcome_ok
    then ("outcome " +++ repr (get "outcome" change) +++ " is not Approved with a chosen solution")
      ∷ []
    else []

missing_attestation : Entries → String
missing_attestation change =
    "merge signals disagree — stage="
    +++ repr (get "stage" change)
    +++ " is at/after spec-approved but approved_by is MISSING (stage advanced without "
    +++ "attestation); the spec-approve act must stamp approved_by"

unfoldable pub mislabeled_field : Entries → String
mislabeled_field change =
    "merge signals disagree — approved_by="
    +++ repr (get "approved_by" change)
    +++ " is set but stage="
    +++ repr (get "stage" change)
    +++ " is before spec-approved; approved_by is written only by the spec-approve act"

abbrev pub unauthorized : Entries → List String
unauthorized change =
    if has_scr_approval change
    then []
    else "not authorized to merge (authoring needs scr_approved_by; spec-approved needs approved_by)"
      ∷ []

-- the gate of a delta-bearing change that is not research
unfoldable pub merge_checks : Entries → Policy → Bool → Option Bool → GateDecision
unfolding missing_attestation mislabeled_field
merge_checks change policy jtbd_enabled outcome_ok =
    let outcome = outcome_violation change jtbd_enabled outcome_ok in
    if spec_approved_reached change
    then (if not (has_approval change)
        then refuse "merge" policy (missing_attestation change ∷ [])
        else decide "merge" policy outcome)
    else if has_approval change
    then refuse "merge" policy (mislabeled_field change ∷ [])
    else decide "merge" policy (unauthorized change ++ outcome)

unfoldable pub check_merge_gate :
    Entries
    → Policy
    → (has_capability_delta jtbd_enabled : Bool) → (outcome_ok : Option Bool)
    → Result SpecError GateDecision
unfolding merge_checks
check_merge_gate change policy has_capability_delta jtbd_enabled outcome_ok = do
  research ← is_research change
  ok (
      if research || not has_capability_delta
      then pass "merge" policy
      else merge_checks change policy jtbd_enabled outcome_ok)

-- `a or b`, as a text
abbrev or_text : Value → String → String
or_text v s = if truthy v then to_str v else s

abbrev ratifier : Entries → String
ratifier change =
    or_text (get "ratified_by" change) (elim (ratifier_from_marker (get "approved_by" change)) [
      | none ↦ "the ratifier"
      | some who ↦ who
    ])

not_advanced : Entries → String
not_advanced change =
    "ratified by "
    +++ ratifier change
    +++ " at "
    +++ or_text (get "ratified_at" change) "an earlier time"
    +++ " but never advanced to spec-approved — run `otaman spec approve "
    +++ or_text (get "change" change) (or_text (get "name" change) "<change>")
    +++ "`"

abbrev is_true : Value → Bool
is_true (bool b) = b
is_true v = false

unfoldable pub dispatch_violations : Entries → List String
unfolding not_advanced
dispatch_violations change =
    if spec_approved_reached change
    then []
    else if is_true (get "ratified" change)
    then not_advanced change ∷ []
    else "not spec-approved (authored artifacts lack a HITL approval)" ∷ []

unfoldable pub check_dispatch_gate : Entries → Policy → Result SpecError GateDecision
unfolding dispatch_violations
check_dispatch_gate change policy = do
  research ← is_research change
  ok (
      if research
      then pass "dispatch" policy
      else decide "dispatch" policy (dispatch_violations change))

abbrev pub unverifiable : Policy → GateDecision
unverifiable policy = refuse "dispatch" policy (
    ("cannot verify stage — .openspec.yaml is present but does not parse; "
      +++ "refusing dispatch (fail closed)")
    ∷ [])

unfoldable pub check_dispatch_gate_at : File → Policy → Result SpecError GateDecision
unfolding check_dispatch_gate openspec_is_unreadable
check_dispatch_gate_at absent policy = ok (pass "dispatch" policy)
check_dispatch_gate_at file policy =
    let parsed = check_dispatch_gate (read_openspec file) policy in
    if openspec_is_unreadable file then ok (unverifiable policy) else parsed

unfoldable pub check_archive_gate :
    Entries → Policy → (has_capability_delta : Bool) → Result SpecError GateDecision
check_archive_gate change policy has_capability_delta = do
  research ← is_research change
  ok (
      if research || not has_capability_delta
      then pass "archive" policy
      else decide "archive" policy (
          if has_approval change
          then []
          else "archiving an unapproved change (approved_by missing)" ∷ []))
