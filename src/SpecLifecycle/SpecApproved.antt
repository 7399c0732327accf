-- ===== src/SpecLifecycle/SpecApproved.antt =====
-- src/otaman_core/spec_lifecycle.py: who may approve a specification, and the act of approving it.
use otaman_core.Prelude.{
  String, Bool, true, false, not, ◌||◌, Option, none, some, List, [], ◌∷◌, ◌++◌, Result, ok, ◌>>=◌,
  ◌+++◌, is_empty, elem, any, if◌then◌else◌,
}
use otaman_core.Yaml.{Value, Entries, str, get, put, is_text}
use otaman_core.Yaml.Text.{repr}
use otaman_core.Roster.{Human, approver_role}
use otaman_core.Roster.Resolve.{resolve_roster_human, only_if}
use otaman_core.SpecLifecycle.{SpecError, is_research, cto_role, spec_approved_stage}

abbrev pub may_approve : Human → Bool
may_approve h = elem cto_role h.roles || elem approver_role h.roles

-- `lower` is `str.lower`
unfoldable pub resolve_spec_approver :
    (lower : String → String) → List Human → Option String → Option Human
resolve_spec_approver lower roster identity =
    only_if may_approve (resolve_roster_human lower roster identity)

unfoldable pub has_cto : List Human → Bool
has_cto roster = any (λ h. elem cto_role h.roles) roster

pub record TransitionValidation : Type 0 where
  pub valid : Bool
  pub reasons : List String

-- `reasons.append(…)` under a test
abbrev pub reason_if : Bool → String → List String
reason_if test reason = if test then reason ∷ [] else []

abbrev pub is_absent : Option Human → Bool
is_absent none = true
is_absent (some h) = false

abbrev pub has_none : List String → Bool
has_none [] = true
has_none (r ∷ rs) = false

unfoldable pub transition_reasons : Bool → Value → Option Human → List String
transition_reasons research stage approver =
    reason_if research "research change never enters spec-approved (it dispatches nothing)"
    ++ reason_if (not (is_text "authored" stage))
        ("spec-approved requires the current stage to be 'authored'; got " +++ repr stage)
    ++ reason_if (is_absent approver)
        "no eligible spec-approver (cto hat or the default human approver required)"

unfoldable pub validate_spec_approved_transition :
    Entries → (approver : Option Human) → Result SpecError TransitionValidation
unfolding transition_reasons
validate_spec_approved_transition change approver = do
  research ← is_research change
  let reasons = transition_reasons research (get "stage" change) approver
  ok (record { valid = has_none reasons; reasons = reasons })

-- `f" {attested_at}" if attested_at else ""`
abbrev pub when_text : Option String → String
when_text none = ""
when_text (some at) = if is_empty at then "" else " " +++ at

unfoldable pub attestation : Human → Option String → String
attestation approver attested_at =
    approver.name +++ " (spec-approved" +++ when_text attested_at +++ ", via otaman -i)"

unfoldable pub apply_spec_approved : Entries → Human → (attested_at : Option String) → Entries
unfolding attestation
apply_spec_approved change approver attested_at =
    put "approved_by" (str (attestation approver attested_at))
      (put "spec_approved_by" (str approver.name) (put "stage" (str spec_approved_stage) change))
