-- ===== src/SpecLifecycle/Openings.antt =====
-- What the gates say of a record after an act on it (src/otaman_core/spec_lifecycle.py).
use otaman_core.Prelude.{
  String, Bool, true, false, Option, some, [], ◌∷◌, ok, Bool-cases, inl, inr, require, str_eq, ◌≡◌,
  refl, sym, ap, ◌∙◌, >>=-eq-ok, arith, eq_iff,
}
use otaman_core.Yaml.{Value, Entries, str, get, truthy, is_text, is_hashable}
use otaman_core.Yaml.Laws.{get-put}
use otaman_core.Roster.{Human}
use otaman_core.SpecLifecycle.{
  unhashable_stage, position, stage_index, at_least, is_research, spec_approved_reached,
  has_approval,
}
use otaman_core.SpecLifecycle.SpecPolicy.{Policy}
use otaman_core.SpecLifecycle.Gates.{
  GateDecision, pass, refuse, mislabeled_field, decide, outcome_violation, merge_checks,
  check_merge_gate, dispatch_violations, check_dispatch_gate, check_archive_gate,
}
use otaman_core.SpecLifecycle.Ratify.{Ratification, raised_to, apply_ratification}
use otaman_core.SpecLifecycle.SpecApproved.{
  TransitionValidation, validate_spec_approved_transition, apply_spec_approved,
}
use otaman_core.SpecLifecycle.Verdicts.{validate_spec_approved_transition-valid}
use otaman_core.SpecLifecycle.History.{apply_ratification-stage, apply_spec_approved-stage}
use otaman_core.SpecLifecycle.Machine.{apply_ratification-attested, apply_spec_approved-attested}

-- A record with a stage past pre-proposal and without the flags is not research.
not_research :
    (change : Entries)
    → is_hashable (get "stage" change) ≡ true
    → is_text "pre-proposal" (get "stage" change) ≡ false
    → truthy (get "skip_specs" change) ≡ false
    → truthy (get "research" change) ≡ false
    → is_research change ≡ ok false
unfolding is_research
not_research change hashable other specs flag = rw (hashable, other, specs, flag) refl

flags_of :
    (change : Entries)
    → is_research change ≡ ok false
    → (truthy (get "skip_specs" change) ≡ false) × (truthy (get "research" change) ≡ false)
unfolding is_research
flags_of change h =
    let (u, e, rest) =
      >>=-eq-ok (require (is_hashable (get "stage" change)) unhashable_stage) _ h in
    (ground arith, ground arith)

known_flags :
    (change : Entries) (approver : Human) (v : TransitionValidation)
    → validate_spec_approved_transition change (some approver) ≡ ok v
    → v.valid ≡ true
    → (truthy (get "skip_specs" change) ≡ false) × (truthy (get "research" change) ≡ false)
unfolding validate_spec_approved_transition
known_flags change approver v h valid =
    let (research, known, rest) = >>=-eq-ok (is_research change) _ h in
    let (w, decided, form) =
      validate_spec_approved_transition-valid change (some approver) research known in
    let same : w ≡ v = ground (arith, sym decided ∙ h) in
    let not_so : research ≡ false =
      ground (arith, sym form ∙ ap TransitionValidation.valid same ∙ valid) in
    flags_of change (known ∙ ap ok not_so)

module _ (change : Entries) (policy : Policy) (known : is_research change ≡ ok false) where
  -- Without JTBD support the gates pass a record that is attested at or after spec-approved.
  attested-passes :
      (delta : Bool) (outcome_ok : Option Bool)
      → spec_approved_reached change ≡ true
      → has_approval change ≡ true
      → (check_merge_gate change policy delta false outcome_ok ≡ ok (pass "merge" policy))
        × (check_dispatch_gate change policy ≡ ok (pass "dispatch" policy))
        × (check_archive_gate change policy delta ≡ ok (pass "archive" policy))
  unfolding check_merge_gate merge_checks outcome_violation decide check_dispatch_gate
      dispatch_violations check_archive_gate
  attested-passes true outcome_ok reached signed =
      (rw (known, reached, signed) refl, rw (known, reached) refl, rw (known, signed) refl)
  attested-passes false outcome_ok reached signed =
      (rw known refl, rw (known, reached) refl, rw known refl)

  mislabeled-refused :
      (jtbd_enabled : Bool) (outcome_ok : Option Bool)
      → spec_approved_reached change ≡ false
      → has_approval change ≡ true
      → (d : GateDecision) × (check_merge_gate change policy true jtbd_enabled outcome_ok ≡ ok d)
        × (d.allowed ≡ false)
        × (d.waived ≡ false)
  unfolding check_merge_gate merge_checks
  mislabeled-refused jtbd_enabled outcome_ok early signed = (
    refuse "merge" policy (mislabeled_field change ∷ []),
    rw (known, early, signed) refl,
    refl,
    refl,
  )

-- A key that an act does not write keeps its value.
module _ (change : Entries) (j : String) (off_stage : str_eq "stage" j ≡ false)
    (off_approval : str_eq "approved_by" j ≡ false) where
  kept_by_approval :
      (h : Human) (when : Option String)
      → str_eq "spec_approved_by" j ≡ false
      → get j (apply_spec_approved change h when) ≡ get j change
  unfolding apply_spec_approved
  kept_by_approval h when off =
      get-put "approved_by" j _ _
      ∙ rw off_approval
          (get-put "spec_approved_by" j _ _ ∙ rw off (get-put "stage" j _ _ ∙ rw off_stage refl))

  kept_by_ratification :
      (r : Ratification)
      → str_eq "ratified_at" j ≡ false
      → str_eq "ratified_by" j ≡ false
      → str_eq "ratified" j ≡ false
      → get j (apply_ratification change r) ≡ get j change
  unfolding apply_ratification
  kept_by_ratification r off_at off_by off =
      get-put "approved_by" j _ _
      ∙ rw off_approval (
          get-put "ratified_at" j _ _
          ∙ rw off_at (
              get-put "ratified_by" j _ _
              ∙ rw off_by
                  (get-put "ratified" j _ _ ∙ rw off (get-put "stage" j _ _ ∙ rw off_stage refl))))

late_plain :
    (v : Value)
    → at_least "approved" v ≡ true
    → (is_hashable v ≡ true) × (is_text "pre-proposal" v ≡ false)
unfolding at_least stage_index position
late_plain (str s) h = (
  refl,
  elim (Bool-cases (str_eq s "pre-proposal")) [
    | inl y ↦
        let same : s ≡ "pre-proposal" = ground (arith, eq_iff s "pre-proposal") in
        let early : false ≡ true = sym (ap (λ t. at_least "approved" (str t)) same) ∙ h in cc
    | inr n ↦ n
  ],
)
late_plain v h = ground arith

raised_plain :
    (v : Value)
    → (is_hashable (raised_to "approved" v) ≡ true)
      × (is_text "pre-proposal" (raised_to "approved" v) ≡ false)
unfolding at_least stage_index position
raised_plain v = elim (Bool-cases (at_least "approved" v)) [
  | inl y ↦ rw y (late_plain v y)
  | inr n ↦ rw n (refl, refl)
]

raised-early :
    (v : Value)
    → at_least "spec-approved" v ≡ false
    → at_least "spec-approved" (raised_to "approved" v) ≡ false
raised-early v h = elim (Bool-cases (at_least "approved" v)) [
  | inl y ↦ rw y h
  | inr n ↦ rw n (unfold at_least in unfold stage_index in unfold position in refl)
]

-- When the transition to spec-approved was found valid, and the approval is applied: without JTBD
-- support, every one of the three gates passes the new record, with no waiver, under any policy.
pub apply_spec_approved-passes :
    (change : Entries) (approver : Human) (when : Option String) (v : TransitionValidation)
    (policy : Policy) (has_capability_delta : Bool) (outcome_ok : Option Bool)
    → validate_spec_approved_transition change (some approver) ≡ ok v
    → v.valid ≡ true
    → (check_merge_gate
          (apply_spec_approved change approver when)
          policy
          has_capability_delta
          false
          outcome_ok
        ≡ ok (pass "merge" policy))
      × (check_dispatch_gate (apply_spec_approved change approver when) policy
          ≡ ok (pass "dispatch" policy))
      × (check_archive_gate (apply_spec_approved change approver when) policy has_capability_delta
          ≡ ok (pass "archive" policy))
apply_spec_approved-passes change approver when v policy delta outcome_ok h valid =
    let next = apply_spec_approved change approver when in
    let stage : get "stage" next ≡ str "spec-approved" =
      apply_spec_approved-stage change approver when in
    let (specs, flag) = known_flags change approver v h valid in
    attested-passes next policy
      (not_research next (ap is_hashable stage) (ap (is_text "pre-proposal") stage)
        (ap truthy (kept_by_approval change "skip_specs" refl refl approver when refl) ∙ specs)
        (ap truthy (kept_by_approval change "research" refl refl approver when refl) ∙ flag))
      delta outcome_ok
      (unfold spec_approved_reached in ap (at_least "spec-approved") stage ∙ reached)
      (apply_spec_approved-attested change approver when)
  where
    reached : at_least "spec-approved" (str "spec-approved") ≡ true
    reached = unfold at_least in unfold stage_index in unfold position in refl

-- After the ratification of a change that had not reached spec-approved and has no flag that makes
-- it research, the merge gate refuses it when it touches a capability delta, in every enforcement
-- mode and with no waiver: the ratification has signed approved_by and left the stage before
-- spec-approved.
pub apply_ratification-refused :
    (change : Entries) (r : Ratification) (policy : Policy) (jtbd_enabled : Bool)
    (outcome_ok : Option Bool)
    → spec_approved_reached change ≡ false
    → truthy (get "skip_specs" change) ≡ false
    → truthy (get "research" change) ≡ false
    → (d : GateDecision) × (check_merge_gate
          (apply_ratification change r)
          policy
          true
          jtbd_enabled
          outcome_ok
        ≡ ok d)
      × (d.allowed ≡ false)
      × (d.waived ≡ false)
apply_ratification-refused change r policy jtbd_enabled outcome_ok early specs flag =
    let next = apply_ratification change r in
    let stage = apply_ratification-stage change r in
    let (hashable, other) = raised_plain (get "stage" change) in
    mislabeled-refused next policy
      (not_research next (ap is_hashable stage ∙ hashable)
        (ap (is_text "pre-proposal") stage ∙ other)
        (ap truthy (kept_by_ratification change "skip_specs" refl refl r refl refl refl) ∙ specs)
        (ap truthy (kept_by_ratification change "research" refl refl r refl refl refl) ∙ flag))
      jtbd_enabled outcome_ok
      (unfold spec_approved_reached in
        ap (at_least "spec-approved") stage ∙ raised-early (get "stage" change) early)
      (apply_ratification-attested change r)
