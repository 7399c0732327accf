-- ===== src/SpecLifecycle/History.antt =====
-- The writers of a change's record as steps, and what their sequences keep
-- (src/otaman_core/spec_lifecycle.py: apply_ratification, apply_spec_approved, apply_auto_archive).
use otaman_core.Prelude.{
  ℕ, ◌≤◌, String, Bool, true, false, Option, some, ok, >>=-eq-ok, leb, Bool-cases, inl, inr, ◌≡◌,
  refl, sym, ap, ◌∙◌, arith,
}
use otaman_core.Yaml.{Entries, str, get, is_text}
use otaman_core.Yaml.Laws.{get-put, is_text-eq}
use otaman_core.Roster.{Human}
use otaman_core.SpecLifecycle.{is_research, position, stage_index, at_least, same_or_later}
use otaman_core.SpecLifecycle.SpecPolicy.{Policy}
use otaman_core.SpecLifecycle.Gates.{GateDecision, check_archive_gate}
use otaman_core.SpecLifecycle.Ratify.{Ratification, raised_to, apply_ratification}
use otaman_core.SpecLifecycle.SpecApproved.{
  TransitionValidation, validate_spec_approved_transition, apply_spec_approved,
}
use otaman_core.SpecLifecycle.AutoArchive.{
  AutoArchiveDecision, auto_archive_decision, apply_auto_archive,
}
use otaman_core.SpecLifecycle.Verdicts.{
  validate_spec_approved_transition-valid, auto_archive_decision-archive,
}

-- One act on a change's record, under the guard that its caller applies.
pub data Act (change : Entries) : Entries → Type 0 where
  ratified : (r : Ratification) → Act change (apply_ratification change r)
  spec_approved :
      (approver : Human) (attested_at : Option String) (v : TransitionValidation)
      → validate_spec_approved_transition change (some approver) ≡ ok v
      → v.valid ≡ true
      → Act change (apply_spec_approved change approver attested_at)
  auto_archived :
      (policy : Policy) (has_capability_delta : Bool) (gate : GateDecision)
      → check_archive_gate change policy has_capability_delta ≡ ok gate
      → AutoArchiveDecision.archive (auto_archive_decision change policy gate) ≡ true
      → Act change (apply_auto_archive change)

pub data Acts (change : Entries) : Entries → Type 0 where
  unchanged : Acts change change
  then_act : {now next : Entries} → Acts change now → Act now next → Acts change next

-- The index of the recorded stage is at least `floor`.
pub data Reached (floor : ℕ) (change : Entries) : Type 0 where
  at :
      (s : String) (i : ℕ)
      → get "stage" change ≡ str s
      → stage_index s ≡ ok i
      → floor ≤ i
      → Reached floor change

module _ (change : Entries) where
  -- What each writer leaves under `stage`.
  pub apply_ratification-stage :
      (r : Ratification)
      → get "stage" (apply_ratification change r) ≡ raised_to "approved" (get "stage" change)
  unfolding apply_ratification
  apply_ratification-stage r =
      get-put "approved_by" "stage" _ _
      ∙ get-put "ratified_at" "stage" _ _
      ∙ get-put "ratified_by" "stage" _ _
      ∙ get-put "ratified" "stage" _ _
      ∙ get-put "stage" "stage" _ _

  pub apply_spec_approved-stage :
      (h : Human) (when : Option String)
      → get "stage" (apply_spec_approved change h when) ≡ str "spec-approved"
  unfolding apply_spec_approved
  apply_spec_approved-stage h when =
      get-put "approved_by" "stage" _ _
      ∙ get-put "spec_approved_by" "stage" _ _
      ∙ get-put "stage" "stage" _ _

  pub apply_auto_archive-stage : get "stage" (apply_auto_archive change) ≡ str "archived"
  unfolding apply_auto_archive
  apply_auto_archive-stage = get-put "archived_by" "stage" _ _ ∙ get-put "stage" "stage" _ _

-- Raising a stage to a floor keeps it, or the stage was before the floor and is now the floor.
raised_to-Reached :
    (floor : ℕ) (change next : Entries)
    → get "stage" next ≡ raised_to "approved" (get "stage" change)
    → Reached floor change
    → Reached floor next
unfolding at_least stage_index position
raised_to-Reached floor change next e (at s i recorded index below) =
    elim (Bool-cases (at_least "approved" (get "stage" change))) [
      | inl y ↦ at s i (e ∙ rw y recorded) index below
      | inr n ↦
          let early : at_least "approved" (str s) ≡ false =
            ap (at_least "approved") (sym recorded) ∙ n in
          let before : leb 2 i ≡ false = ap (same_or_later (ok 2)) (sym index) ∙ early in
          at "approved" 2 (e ∙ rw n refl) refl (ground (arith, below, before))
    ]

advanced :
    (floor : ℕ) (change next : Entries) (s t : String) (i j : ℕ)
    → stage_index s ≡ ok i
    → stage_index t ≡ ok j
    → i ≤ j
    → is_text s (get "stage" change) ≡ true
    → get "stage" next ≡ str t
    → Reached floor change
    → Reached floor next
advanced floor change next s t i j from to later here e (at u k recorded index below) =
    let name : str u ≡ str s = sym recorded ∙ is_text-eq s (get "stage" change) here in
    let named : u ≡ s = ground arith in
    let same : k ≡ i = ground (arith, sym index ∙ ap stage_index named ∙ from) in
    at t j e to (omega (arith, below, same, later))

pub valid-authored :
    (change : Entries) (approver : Human) (v : TransitionValidation)
    → validate_spec_approved_transition change (some approver) ≡ ok v
    → v.valid ≡ true
    → is_text "authored" (get "stage" change) ≡ true
unfolding validate_spec_approved_transition
valid-authored change approver v h valid =
    let (research, known, rest) = >>=-eq-ok (is_research change) _ h in
    let (w, decided, form) =
      validate_spec_approved_transition-valid change (some approver) research known in
    let same : w ≡ v = ground (arith, sym decided ∙ h) in
    ground (arith, sym form ∙ ap TransitionValidation.valid same ∙ valid)

Act-Reached :
    (floor : ℕ) (change next : Entries)
    → Act change next
    → Reached floor change
    → Reached floor next
unfolding stage_index position
Act-Reached floor change next (ratified r) h =
    raised_to-Reached floor change next (apply_ratification-stage change r) h
Act-Reached floor change next (spec_approved approver when v verdict valid) h =
    advanced floor change next "authored" "spec-approved" 3 4 refl refl (omega arith)
      (valid-authored change approver v verdict valid)
      (apply_spec_approved-stage change approver when) h
Act-Reached floor change next (auto_archived policy delta gate checked archive) h =
    advanced floor change next "verified" "archived" 7 8 refl refl (omega arith)
      (ground (arith, sym (auto_archive_decision-archive change policy gate) ∙ archive))
      (apply_auto_archive-stage change) h

-- Along any sequence of ratifications, approvals of the specification that were found valid, and
-- automatic archives that were decided: a change whose recorded stage has reached an index never
-- goes back before it.
pub Acts-Reached :
    (floor : ℕ) (change next : Entries)
    → Acts change next
    → Reached floor change
    → Reached floor next
Acts-Reached floor change next unchanged h = h
Acts-Reached floor change next (then_act {now} before act) h =
    Act-Reached floor now next act (Acts-Reached floor change now before h)
