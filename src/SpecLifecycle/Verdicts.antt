-- ===== src/SpecLifecycle/Verdicts.antt =====
-- What the two verdicts of src/otaman_core/spec_lifecycle.py come to: that on the transition to
-- spec-approved, and that on the automatic archive.
use otaman_core.Prelude.{
  String, Bool, true, false, not, ◌&&◌, Option, List, ◌++◌, ok, str_eq, ◌≡◌, refl, ◌∙◌, arith,
}
use otaman_core.Yaml.{Value, Entries, get, is_text}
use otaman_core.Roster.{Human}
use otaman_core.SpecLifecycle.{is_research}
use otaman_core.SpecLifecycle.SpecPolicy.{Policy}
use otaman_core.SpecLifecycle.Gates.{GateDecision}
use otaman_core.SpecLifecycle.SpecApproved.{
  TransitionValidation, reason_if, has_none, is_absent, transition_reasons,
  validate_spec_approved_transition,
}
use otaman_core.SpecLifecycle.AutoArchive.{
  resolve_delivery, AutoArchiveDecision, gate_reasons, archive_reasons, auto_archive_decision,
}

has_none-reasons :
    (a b : Bool) (r t : String) (rest : List String)
    → has_none (reason_if a r ++ reason_if b t ++ rest) ≡ (not a && not b && has_none rest)
has_none-reasons true b r t rest = refl
has_none-reasons false true r t rest = refl
has_none-reasons false false r t rest = refl

has_none-reason_if : (test : Bool) (reason : String) → has_none (reason_if test reason) ≡ not test
has_none-reason_if true reason = refl
has_none-reason_if false reason = refl

verdict : Bool → Value → Option Human → TransitionValidation
verdict research stage approver =
    let reasons = transition_reasons research stage approver in
    record { valid = has_none reasons; reasons = reasons }

verdict-valid :
    (research : Bool) (stage : Value) (approver : Option Human)
    → TransitionValidation.valid (verdict research stage approver)
      ≡ (not research && is_text "authored" stage && not (is_absent approver))
unfolding verdict transition_reasons
verdict-valid research stage approver =
    has_none-reasons research (not (is_text "authored" stage)) _ _ _
    ∙ rw
        (has_none-reason_if (is_absent approver)
          "no eligible spec-approver (cto hat or the default human approver required)")
        (ground arith)

gate_reasons-none :
    (gate : GateDecision) → has_none (gate_reasons gate) ≡ (gate.allowed && not gate.waived)
gate_reasons-none gate = ground arith

-- Where it is known whether the change is research: the transition to spec-approved is valid
-- exactly when the change is not research, its stage is authored, and an approver was resolved.
pub validate_spec_approved_transition-valid :
    (change : Entries) (approver : Option Human) (research : Bool)
    → is_research change ≡ ok research
    → (v : TransitionValidation) × (validate_spec_approved_transition change approver ≡ ok v)
      × (v.valid
          ≡ (not research && is_text "authored" (get "stage" change) && not (is_absent approver)))
unfolding validate_spec_approved_transition verdict
validate_spec_approved_transition-valid change approver research known = (
  verdict research (get "stage" change) approver,
  rw known refl,
  verdict-valid research (get "stage" change) approver,
)

-- A change is archived automatically exactly when its delivery resolves to auto, its stage is
-- verified, and the archive gate's decision allows it without a waiver.
pub auto_archive_decision-archive :
    (change : Entries) (policy : Policy) (gate : GateDecision)
    → AutoArchiveDecision.archive (auto_archive_decision change policy gate) ≡ (
        str_eq (resolve_delivery change policy) "auto"
        && is_text "verified" (get "stage" change)
        && gate.allowed
        && not gate.waived)
unfolding auto_archive_decision archive_reasons
auto_archive_decision-archive change policy gate =
    has_none-reasons (not (str_eq (resolve_delivery change policy) "auto"))
      (not (is_text "verified" (get "stage" change))) _ _ (gate_reasons gate)
    ∙ rw (gate_reasons-none gate) (ground arith)
