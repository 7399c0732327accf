-- ===== src/SpecLifecycle/ActTests.antt =====
-- src/otaman_core/spec_lifecycle.py: acts on changes, and a policy of two blocks.
use otaman_core.Prelude.{String, true, false, ◌||◌, none, some, [], ◌∷◌, ok, ◌≡◌, ◌≢◌, refl, arith}
use otaman_core.Yaml.{
  Value, Entries, content, null, str, dict, end, entry, get, put, is_null, truthy,
}
use otaman_core.SpecLifecycle.{position, stage_index, is_research, at_least, spec_approved_reached}
use otaman_core.SpecLifecycle.OpenSpec.{read_openspec, read_stage, rewrite_yaml_key, set_stage}
use otaman_core.SpecLifecycle.SpecPolicy.{
  default_policy, enforcement_modes, process_levels, delivery_modes, as_str_tuple, one_of, level_in,
  process_in, resolve_spec_policy,
}
use otaman_core.SpecLifecycle.Gates.{
  GateDecision, pass, check_merge_gate, check_dispatch_gate, check_archive_gate,
}
use otaman_core.SpecLifecycle.Ratify.{apply_ratification}
use otaman_core.SpecLifecycle.SpecApproved.{
  TransitionValidation, validate_spec_approved_transition, apply_spec_approved, transition_reasons,
}
use otaman_core.SpecLifecycle.History.{
  Act, ratified, spec_approved, Acts, unchanged, then_act, Reached, at, Acts-Reached,
}
use otaman_core.SpecLifecycle.Machine.{view, Moves, Act-Moves, IsAttested, Acts-IsAttested}
use otaman_core.SpecLifecycle.Openings.{apply_spec_approved-passes, apply_ratification-refused}
use otaman_core.SpecLifecycle.Cascade.Overlay.{HasKeysOnce, pick}
use otaman_core.SpecLifecycle.Cascade.{setting, resolve_spec_policy-cascade}
use otaman_core.SpecLifecycle.Writes.{set_stage-reads_back}
use otaman_core.SpecLifecycle.Tests.{authored, blocking, ann, ratification, verified, approved_file}

abbrev approval_verdict : TransitionValidation
approval_verdict = record { valid = true; reasons = [] }

approval_valid : validate_spec_approved_transition authored (some ann) ≡ ok approval_verdict
unfolding validate_spec_approved_transition transition_reasons is_research
approval_valid = refl

abbrev approved : Entries
approved = apply_spec_approved authored ann none

approval : Act authored approved
approval = spec_approved ann none approval_verdict approval_valid refl

acts : Acts authored (apply_ratification approved ratification)
acts = then_act (then_act unchanged approval) (ratified ratification)

authored-Reached : Reached 3 authored
unfolding stage_index position
authored-Reached = at "authored" 3 refl refl (omega arith)

Acts-Reached_example : Reached 3 (apply_ratification approved ratification)
Acts-Reached_example =
    Acts-Reached 3 authored (apply_ratification approved ratification) acts authored-Reached

Act-Moves_example : Moves (view authored) (view approved)
Act-Moves_example = Act-Moves authored approved approval

authored-IsAttested : IsAttested authored
unfolding IsAttested spec_approved_reached at_least stage_index position
authored-IsAttested h = ground (arith, h)

Acts-IsAttested_example : IsAttested (apply_ratification approved ratification)
Acts-IsAttested_example =
    Acts-IsAttested authored (apply_ratification approved ratification) acts authored-IsAttested

apply_spec_approved-passes_example :
    (check_merge_gate approved blocking true false none ≡ ok (pass "merge" blocking))
    × (check_dispatch_gate approved blocking ≡ ok (pass "dispatch" blocking))
    × (check_archive_gate approved blocking true ≡ ok (pass "archive" blocking))
apply_spec_approved-passes_example =
    apply_spec_approved-passes authored ann none approval_verdict blocking true none approval_valid
      refl

authored_early : spec_approved_reached authored ≡ false
unfolding spec_approved_reached at_least stage_index position
authored_early = refl

apply_ratification-refused_example :
    (d : GateDecision) × (check_merge_gate
        (apply_ratification authored ratification)
        default_policy
        true
        false
        none
      ≡ ok d)
    × (d.allowed ≡ false)
    × (d.waived ≡ false)
apply_ratification-refused_example =
    apply_ratification-refused authored ratification default_policy false none authored_early refl
      refl

abbrev org_block : Value
org_block = dict (entry (str "enforcement") (str "block") end)

abbrev program_block : Value
program_block = dict (entry (str "enforcement") null end)

org_once : HasKeysOnce org_block
unfolding HasKeysOnce
org_once k = ground arith

program_once : HasKeysOnce program_block
unfolding HasKeysOnce
program_once k = ground arith

null_once : HasKeysOnce null
unfolding HasKeysOnce
null_once k = refl

resolve_spec_policy-cascade_example :
    let set = setting org_block program_block in
    let p = resolve_spec_policy org_block program_block in
    (p.mandatory_proposal
      ≡ (is_null (set "mandatory_proposal") || truthy (set "mandatory_proposal")))
    × (p.approvers ≡ as_str_tuple (set "approvers") ("approver" ∷ []))
    × (p.ratifiers ≡ as_str_tuple (set "ratifiers") ("approver" ∷ []))
    × (p.unapproved_stages ≡ as_str_tuple (set "unapproved_stages") ("pre-proposal" ∷ []))
    × (p.enforcement ≡ one_of enforcement_modes (set "enforcement") "warn")
    × (p.process_level
        ≡ one_of process_levels
            (pick (level_in (process_in program_block)) (level_in (process_in org_block)))
            "spec-first")
    × (p.delivery_default ≡ one_of delivery_modes (set "delivery_default") "hitl")
resolve_spec_policy-cascade_example =
    resolve_spec_policy-cascade org_block program_block org_once program_once null_once null_once

moved :
    set_stage content approved_file "archived"
    ≡ ok (content (dict (put "stage" (str "archived") verified)))
unfolding set_stage rewrite_yaml_key read_openspec
moved = refl

set_stage-reads_back_example :
    (read_stage (content (dict (put "stage" (str "archived") verified))) ≡ some "archived")
    × ((k : String)
        → k ≢ "stage"
        → get k (read_openspec (content (dict (put "stage" (str "archived") verified))))
          ≡ get k (read_openspec approved_file))
set_stage-reads_back_example =
    set_stage-reads_back content (λ v. refl) approved_file "archived"
      (content (dict (put "stage" (str "archived") verified))) moved
