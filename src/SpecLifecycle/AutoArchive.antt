-- ===== src/SpecLifecycle/AutoArchive.antt =====
-- src/otaman_core/spec_lifecycle.py: the delivery mode, and the automatic archive.
use otaman_core.Prelude.{
  String, Bool, not, Option, none, some, List, [], ◌∷◌, ◌++◌, ◌+++◌, str_eq, if◌then◌else◌,
}
use otaman_core.Yaml.{Value, Entries, str, get, put, is_text, is_one_of}
use otaman_core.Yaml.Text.{repr}
use otaman_core.SpecLifecycle.SpecPolicy.{Policy, delivery_modes}
use otaman_core.SpecLifecycle.Gates.{GateDecision}
use otaman_core.SpecLifecycle.SpecApproved.{reason_if, has_none}

-- `v if v in DELIVERY_MODES else None`
abbrev delivery_of : Value → Option String
delivery_of (str s) = if is_one_of delivery_modes (str s) then some s else none
delivery_of v = none

unfoldable pub read_delivery : Entries → Option String
read_delivery change = delivery_of (get "delivery" change)

unfoldable pub resolve_delivery : Entries → Policy → String
unfolding read_delivery
resolve_delivery change policy = elim (read_delivery change) [
  | none ↦ policy.delivery_default
  | some explicit ↦ explicit
]

pub record AutoArchiveDecision : Type 0 where
  pub archive : Bool
  pub reasons : List String

abbrev pub gate_reasons : GateDecision → List String
gate_reasons gate =
    if not gate.allowed
    then "archive gate refuses" ∷ []
    else reason_if gate.waived "archive gate only passes under a waiver, not cleanly"

unfoldable pub archive_reasons : Entries → Policy → GateDecision → List String
archive_reasons change policy gate =
    reason_if (not (str_eq (resolve_delivery change policy) "auto"))
      "delivery is not 'auto' (human acceptance required)"
    ++ reason_if (not (is_text "verified" (get "stage" change)))
        ("auto-archive only from 'verified'; current stage " +++ repr (get "stage" change))
    ++ gate_reasons gate

unfoldable pub auto_archive_decision :
    Entries → Policy → (archive_gate : GateDecision) → AutoArchiveDecision
unfolding archive_reasons
auto_archive_decision change policy archive_gate =
    let reasons = archive_reasons change policy archive_gate in
    record { archive = has_none reasons; reasons = reasons }

unfoldable pub apply_auto_archive : Entries → Entries
apply_auto_archive change =
    put "archived_by" (str "auto (delivery: auto, gate-passing)")
      (put "stage" (str "archived") change)
