-- ===== src/SpecLifecycle/Modes.antt =====
-- The merge gate over the enforcement modes (src/otaman_core/spec_lifecycle.py: _decide,
-- check_merge_gate).
use otaman_core.Prelude.{
  String, Bool, true, false, not, ◌||◌, ◌&&◌, Option, List, [], ◌∷◌, ◌++◌, ok, str_eq, str_eq_ne,
  Bool-cases, inl, inr, ◌≡◌, ◌≢◌, refl, ap, ◌∙◌, arith, if◌then◌else◌,
}
use otaman_core.Yaml.{Entries, get}
use otaman_core.SpecLifecycle.{
  is_research, spec_approved_reached, is_signed, has_approval, has_scr_approval,
}
use otaman_core.SpecLifecycle.SpecPolicy.{Policy}
use otaman_core.SpecLifecycle.Gates.{
  GateDecision, decide, is_refused, outcome_violation, merge_checks, check_merge_gate, unauthorized,
  pass,
}

abbrev pub is_clear : List String → Bool
is_clear [] = true
is_clear (v ∷ vs) = false

pub decide-allowed :
    (gate : String) (policy : Policy) (vs : List String)
    → GateDecision.allowed (decide gate policy vs)
      ≡ (is_clear vs || not (str_eq policy.enforcement "block"))
unfolding decide
decide-allowed gate policy [] = refl
decide-allowed gate policy (v ∷ vs) = elim (Bool-cases (str_eq policy.enforcement "block")) [
  | inl y ↦ rw y refl
  | inr n ↦ rw n refl
]

pub decide-waived :
    (gate : String) (policy : Policy) (vs : List String)
    → GateDecision.waived (decide gate policy vs)
      ≡ (not (is_clear vs) && not (str_eq policy.enforcement "block"))
unfolding decide
decide-waived gate policy [] = refl
decide-waived gate policy (v ∷ vs) = elim (Bool-cases (str_eq policy.enforcement "block")) [
  | inl y ↦ rw y refl
  | inr n ↦ rw n refl
]

-- The outcome that a program with JTBD support asks for: linked, and not found unapproved.
abbrev pub outcome_accepted : Entries → Bool → Option Bool → Bool
outcome_accepted change jtbd_enabled outcome_ok =
    not jtbd_enabled || (is_signed (get "outcome" change) && not (is_refused outcome_ok))

outcome_violation-clear :
    (change : Entries) (jtbd_enabled : Bool) (outcome_ok : Option Bool)
    → is_clear (outcome_violation change jtbd_enabled outcome_ok)
      ≡ outcome_accepted change jtbd_enabled outcome_ok
unfolding outcome_violation
outcome_violation-clear change jtbd_enabled outcome_ok = ground arith

merge_checks-allowed :
    (change : Entries) (policy : Policy) (jtbd_enabled : Bool) (outcome_ok : Option Bool)
    → GateDecision.allowed (merge_checks change policy jtbd_enabled outcome_ok) ≡ (
        if spec_approved_reached change
        then has_approval change
          && (outcome_accepted change jtbd_enabled outcome_ok
              || not (str_eq policy.enforcement "block"))
        else not (has_approval change)
          && ((has_scr_approval change && outcome_accepted change jtbd_enabled outcome_ok)
              || not (str_eq policy.enforcement "block")))
unfolding merge_checks
merge_checks-allowed change policy jtbd_enabled outcome_ok =
    elim (Bool-cases (spec_approved_reached change)) [
      | inl y ↦ rw y (elim (Bool-cases (has_approval change)) [
        | inl a ↦ rw a (
            decide-allowed "merge" policy (outcome_violation change jtbd_enabled outcome_ok)
            ∙ rw (outcome_violation-clear change jtbd_enabled outcome_ok) refl)
        | inr n ↦ rw n refl
      ])
      | inr before ↦ rw before (elim (Bool-cases (has_approval change)) [
        | inl a ↦ rw a refl
        | inr n ↦ rw n (
            decide-allowed "merge" policy
              (unauthorized change ++ outcome_violation change jtbd_enabled outcome_ok)
            ∙ ap (λ b. b || not (str_eq policy.enforcement "block"))
                (clear_unauthorized change (outcome_violation change jtbd_enabled outcome_ok)
                  ∙ rw (outcome_violation-clear change jtbd_enabled outcome_ok) refl))
      ])
    ]
  where
    clear_unauthorized :
        (change : Entries) (vs : List String)
        → is_clear (unauthorized change ++ vs) ≡ (has_scr_approval change && is_clear vs)
    clear_unauthorized change vs = elim (Bool-cases (has_scr_approval change)) [
      | inl y ↦ rw y refl
      | inr n ↦ rw n refl
    ]

-- What a gate that knows whether the change is research decides.
module _ (change : Entries) (policy : Policy) (has_capability_delta jtbd_enabled : Bool)
    (outcome_ok : Option Bool) (research : Bool) (known : is_research change ≡ ok research) where
  merged : GateDecision
  merged =
      if research || not has_capability_delta
      then pass "merge" policy
      else merge_checks change policy jtbd_enabled outcome_ok

  merge_decision :
      check_merge_gate change policy has_capability_delta jtbd_enabled outcome_ok ≡ ok merged
  unfolding check_merge_gate merged
  merge_decision = rw known refl

  merged-allowed : GateDecision.allowed merged ≡ (
      research
      || not has_capability_delta
      || GateDecision.allowed (merge_checks change policy jtbd_enabled outcome_ok))
  unfolding merged
  merged-allowed = elim (Bool-cases research) [
    | inl y ↦ rw y refl
    | inr n ↦
        rw n (elim (Bool-cases has_capability_delta) [ inl y ↦ rw y refl | inr m ↦ rw m refl ])
  ]

  -- Where it is known whether the change is research (so its stage is hashable), under the
  -- enforcement mode block: the merge gate decides, and it allows exactly a change that is research
  -- or touches no capability delta, or one that both has the field of its phase — scr_approved_by
  -- without approved_by before spec-approved, approved_by from spec-approved on — and, with JTBD
  -- support enabled, links an outcome that was not found unapproved.
  pub check_merge_gate-block :
      policy.enforcement ≡ "block"
      → (d : GateDecision) × (check_merge_gate change policy has_capability_delta jtbd_enabled
            outcome_ok
          ≡ ok d)
        × (d.allowed ≡ (
            research
            || not has_capability_delta
            || (outcome_accepted change jtbd_enabled outcome_ok
                && ((not (spec_approved_reached change)
                      && has_scr_approval change
                      && not (has_approval change))
                    || (spec_approved_reached change && has_approval change)))))
  check_merge_gate-block block = (
    merged,
    merge_decision,
    merged-allowed
        ∙ rw (merge_checks-allowed change policy jtbd_enabled outcome_ok) (rw block (ground arith)),
  )

  -- Where it is known whether the change is research, under a mode other than block: the merge gate
  -- decides, and it still refuses every delta-bearing change that is not research and whose stage
  -- and approved_by disagree; it allows all others.
  pub check_merge_gate-disagreement :
      policy.enforcement ≢ "block"
      → (d : GateDecision) × (check_merge_gate change policy has_capability_delta jtbd_enabled
            outcome_ok
          ≡ ok d)
        × (d.allowed ≡ (
            research
            || not has_capability_delta
            || (if spec_approved_reached change
                then has_approval change
                else not (has_approval change))))
  check_merge_gate-disagreement other = (
    merged,
    merge_decision,
    merged-allowed
        ∙ rw (merge_checks-allowed change policy jtbd_enabled outcome_ok)
            (rw (str_eq_ne policy.enforcement "block" other) (ground arith)),
  )
