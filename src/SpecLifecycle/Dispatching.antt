-- ===== src/SpecLifecycle/Dispatching.antt =====
-- The dispatch gate that reads the file itself (src/otaman_core/spec_lifecycle.py:
-- check_dispatch_gate_at).
use otaman_core.Prelude.{
  true, false, not, ◌||◌, ◌&&◌, ok, >>=-eq-ok, str_eq, str_eq_ne, Bool-cases, inl, inr, ◌⊎◌, ◌≡◌,
  ◌≢◌, refl, sym, ap, ◌∙◌, arith,
}
use otaman_core.Yaml.{Entries, end, null, dict, File, absent, unreadable, content}
use otaman_core.SpecLifecycle.{at_least, is_research, spec_approved_reached}
use otaman_core.SpecLifecycle.OpenSpec.{read_openspec, openspec_is_unreadable}
use otaman_core.SpecLifecycle.SpecPolicy.{Policy}
use otaman_core.SpecLifecycle.Gates.{
  GateDecision, decide, unverifiable, dispatch_violations, check_dispatch_gate,
  check_dispatch_gate_at,
}
use otaman_core.SpecLifecycle.Modes.{is_clear, decide-allowed, decide-waived}

-- Why the dispatch of the change in a file may go on without a waiver.
pub data Cleared (file : File) : Type 0 where
  undeclared : file ≡ absent → Cleared file
  exempt : is_research (read_openspec file) ≡ ok true → Cleared file
  approved : spec_approved_reached (read_openspec file) ≡ true → Cleared file

dispatch_violations-clear :
    (change : Entries) → is_clear (dispatch_violations change) ≡ spec_approved_reached change
unfolding dispatch_violations
dispatch_violations-clear change = elim (Bool-cases (spec_approved_reached change)) [
  | inl y ↦ rw y refl
  | inr n ↦ rw n (ground arith)
]

check_dispatch_gate-Cleared :
    (change : Entries) (policy : Policy) (d : GateDecision)
    → check_dispatch_gate change policy ≡ ok d
    → d.allowed ≡ true
    → d.waived ≡ false
    → (is_research change ≡ ok true) ⊎ (spec_approved_reached change ≡ true)
unfolding check_dispatch_gate
check_dispatch_gate-Cleared change policy d h allowed clean =
    let (r, known, rest) = >>=-eq-ok (is_research change) _ h in
    elim (Bool-cases r) [
      | inl y ↦ inl (known ∙ ap ok y)
      | inr n ↦
          let v = decide "dispatch" policy (dispatch_violations change) in
          let same : v ≡ d = ground (arith, n, rest) in
          let no_waiver : (not (is_clear (dispatch_violations change))
                && not (str_eq policy.enforcement "block"))
              ≡ false =
            sym (decide-waived "dispatch" policy (dispatch_violations change))
            ∙ ap GateDecision.waived same
            ∙ clean in
          let passes : (is_clear (dispatch_violations change)
                || not (str_eq policy.enforcement "block"))
              ≡ true =
            sym (decide-allowed "dispatch" policy (dispatch_violations change))
            ∙ ap GateDecision.allowed same
            ∙ allowed in
          inr (sym (dispatch_violations-clear change) ∙ ground arith)
    ]

-- A dispatch that the gate on the file allows without a waiver is of a change without a file, or of
-- a research change, or of one that has reached spec-approved.
pub check_dispatch_gate_at-Cleared :
    (file : File) (policy : Policy) (d : GateDecision)
    → check_dispatch_gate_at file policy ≡ ok d
    → d.allowed ≡ true
    → d.waived ≡ false
    → Cleared file
unfolding check_dispatch_gate_at openspec_is_unreadable
check_dispatch_gate_at-Cleared absent policy d h allowed clean = undeclared refl
check_dispatch_gate_at-Cleared unreadable policy d h allowed clean = ground arith
check_dispatch_gate_at-Cleared (content v) policy d h allowed clean =
    elim (Bool-cases (openspec_is_unreadable (content v))) [
      | inl y ↦ ground (arith, y)
      | inr n ↦
          let parsed : check_dispatch_gate (read_openspec (content v)) policy ≡ ok d =
            ground (arith, n, h) in
          elim (check_dispatch_gate-Cleared (read_openspec (content v)) policy d parsed allowed
            clean) [ inl r ↦ exempt r | inr a ↦ approved a ]
    ]

unreadable-empty : (file : File) → openspec_is_unreadable file ≡ true → read_openspec file ≡ end
unfolding openspec_is_unreadable read_openspec
unreadable-empty absent h = cc
unreadable-empty unreadable h = refl
unreadable-empty (content null) h = cc
unreadable-empty (content (dict es)) h = cc
unreadable-empty (content v) h = ground arith

at-refuses :
    (file : File) (policy : Policy)
    → openspec_is_unreadable file ≡ true
    → (d : GateDecision) × (check_dispatch_gate_at file policy ≡ ok d)
      × (d.allowed ≡ false)
      × (d.waived ≡ false)
unfolding check_dispatch_gate_at
at-refuses absent policy h = unfold openspec_is_unreadable in cc
at-refuses unreadable policy h = (unverifiable policy, refl, refl, refl)
at-refuses (content v) policy h = (unverifiable policy, rw h refl, refl, refl)

-- A file that is there and does not parse to a mapping is refused in every enforcement mode, with
-- no waiver, though the gate on the mapping read from it would let it pass with a waiver wherever
-- the mode is not block.
pub check_dispatch_gate_at-fails_closed :
    (file : File) (policy : Policy)
    → openspec_is_unreadable file ≡ true
    → ((d : GateDecision) × (check_dispatch_gate_at file policy ≡ ok d)
        × (d.allowed ≡ false)
        × (d.waived ≡ false))
      × (policy.enforcement ≢ "block"
          → (d : GateDecision) × (check_dispatch_gate (read_openspec file) policy ≡ ok d)
            × (d.allowed ≡ true)
            × (d.waived ≡ true))
unfolding check_dispatch_gate is_research spec_approved_reached at_least
check_dispatch_gate_at-fails_closed file policy h = (
  at-refuses file policy h,
  λ other.
      let v = decide "dispatch" policy (dispatch_violations end) in
      let mode : str_eq policy.enforcement "block" ≡ false =
        str_eq_ne policy.enforcement "block" other in
      (
        v,
        rw (unreadable-empty file h) refl,
        decide-allowed "dispatch" policy (dispatch_violations end) ∙ rw mode (ground arith),
        decide-waived "dispatch" policy (dispatch_violations end) ∙ rw mode refl,
      ),
)
