-- ===== src/SpecLifecycle/Tests.antt =====
-- src/otaman_core/spec_lifecycle.py: changes at several stages, and the acts on them.
use otaman_core.Prelude.{
  ◌<◌, true, false, not, ◌||◌, ◌&&◌, none, some, [], ◌∷◌, ok, str_eq, ◌≡◌, ◌≢◌, ap, refl,
  if◌then◌else◌,
}
use otaman_core.Yaml.{Entries, File, unreadable, content, str, dict, end, entry, get, is_text}
use otaman_core.Roster.{Human}
use otaman_core.SpecLifecycle.{
  stages, position, nth, stage_index, next_stage, is_research, at_least, spec_approved_reached,
  has_approval, has_scr_approval,
}
use otaman_core.SpecLifecycle.OpenSpec.{read_openspec, openspec_is_unreadable}
use otaman_core.SpecLifecycle.SpecPolicy.{Policy, default_policy}
use otaman_core.SpecLifecycle.Gates.{
  GateDecision, pass, decide, dispatch_violations, check_merge_gate, check_dispatch_gate,
  check_dispatch_gate_at,
}
use otaman_core.SpecLifecycle.Ratify.{Ratification}
use otaman_core.SpecLifecycle.SpecApproved.{
  is_absent, TransitionValidation, validate_spec_approved_transition,
}
use otaman_core.SpecLifecycle.Stages.{stage_index-nth, Walk, next_stage-Walk}
use otaman_core.SpecLifecycle.Modes.{
  outcome_accepted, check_merge_gate-block, check_merge_gate-disagreement,
}
use otaman_core.SpecLifecycle.Verdicts.{validate_spec_approved_transition-valid}
use otaman_core.SpecLifecycle.Dispatching.{
  Cleared, check_dispatch_gate_at-Cleared, check_dispatch_gate_at-fails_closed,
}

abbrev pub authored : Entries
authored = entry (str "stage") (str "authored") (entry (str "scr_approved_by") (str "ann") end)

abbrev pub blocking : Policy
blocking = record {
  mandatory_proposal = true;
  approvers = "approver" ∷ [];
  ratifiers = "approver" ∷ [];
  unapproved_stages = "pre-proposal" ∷ [];
  enforcement = "block";
  process_level = "spec-first";
  delivery_default = "auto";
}

abbrev pub ann : Human
ann = record { name = "ann"; email = some "ann@x.io"; roles = "cto" ∷ []; pm_user_id = none }

abbrev pub ratification : Ratification
ratification = record {
  change = "c1";
  by = "ann";
  reason = "hotfix";
  at = "2026-10-01";
  ratified = true;
}

authored_not_research : is_research authored ≡ ok false
unfolding is_research
authored_not_research = refl

stage_index-nth_example : (3 < 9) × (nth 3 stages ≡ some "authored")
unfolding stage_index position
stage_index-nth_example = stage_index-nth "authored" 3 refl

next_stage-Walk_example : Walk 5 "authored" "archived" × (next_stage "archived" ≡ ok none)
unfolding stage_index position
next_stage-Walk_example = next_stage-Walk "authored" 3 refl

check_merge_gate-block_example :
    (d : GateDecision) × (check_merge_gate authored blocking true false none ≡ ok d)
    × (d.allowed ≡ (
        false
        || not true
        || (outcome_accepted authored false none
            && ((not (spec_approved_reached authored)
                  && has_scr_approval authored
                  && not (has_approval authored))
                || (spec_approved_reached authored && has_approval authored)))))
check_merge_gate-block_example =
    check_merge_gate-block authored blocking true false none false authored_not_research refl

check_merge_gate-disagreement_example :
    (d : GateDecision) × (check_merge_gate authored default_policy true false none ≡ ok d)
    × (d.allowed ≡ (
        false
        || not true
        || (if spec_approved_reached authored
            then has_approval authored
            else not (has_approval authored))))
check_merge_gate-disagreement_example =
    check_merge_gate-disagreement authored default_policy true false none false
      authored_not_research (λ e. cc (ap (λ s. str_eq s "block") e))

validate_spec_approved_transition-valid_example :
    (v : TransitionValidation) × (validate_spec_approved_transition authored (some ann) ≡ ok v)
    × (v.valid
        ≡ (not false && is_text "authored" (get "stage" authored) && not (is_absent (some ann))))
validate_spec_approved_transition-valid_example =
    validate_spec_approved_transition-valid authored (some ann) false authored_not_research

abbrev pub verified : Entries
verified = entry (str "stage") (str "verified") (entry (str "approved_by") (str "ann") end)

abbrev pub approved_file : File
approved_file = content (dict verified)

dispatched : check_dispatch_gate_at approved_file blocking ≡ ok (pass "dispatch" blocking)
unfolding check_dispatch_gate_at openspec_is_unreadable check_dispatch_gate is_research
    spec_approved_reached at_least stage_index position dispatch_violations decide read_openspec
dispatched = refl

check_dispatch_gate_at-Cleared_example : Cleared approved_file
check_dispatch_gate_at-Cleared_example =
    check_dispatch_gate_at-Cleared approved_file blocking (pass "dispatch" blocking) dispatched refl
      refl

check_dispatch_gate_at-fails_closed_example :
    ((d : GateDecision) × (check_dispatch_gate_at unreadable blocking ≡ ok d)
      × (d.allowed ≡ false)
      × (d.waived ≡ false))
    × (blocking.enforcement ≢ "block"
        → (d : GateDecision) × (check_dispatch_gate (read_openspec unreadable) blocking ≡ ok d)
          × (d.allowed ≡ true)
          × (d.waived ≡ true))
unfolding openspec_is_unreadable
check_dispatch_gate_at-fails_closed_example =
    check_dispatch_gate_at-fails_closed unreadable blocking refl
