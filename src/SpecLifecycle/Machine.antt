-- ===== src/SpecLifecycle/Machine.antt =====
-- The stage machine that the writers implement (src/otaman_core/spec_lifecycle.py:
-- apply_ratification, apply_spec_approved, apply_auto_archive).
use otaman_core.Prelude.{
  ℕ, String, Bool, true, not, ◌||◌, Option, none, some, Result, ok, err, leb, ◌+++◌, any_char,
  any_char-append, is_space, strip-filled, Bool-cases, inl, inr, ◌≡◌, refl, sym, ap, ◌∙◌, subst,
  arith, if◌then◌else◌,
}
use otaman_core.Yaml.{Value, Entries, str, get, is_text}
use otaman_core.Yaml.Laws.{get-put, is_text-eq}
use otaman_core.Roster.{Human}
use otaman_core.SpecLifecycle.{
  SpecError, position, stage_index, at_least, is_signed, spec_approved_reached, has_approval,
}
use otaman_core.SpecLifecycle.Ratify.{Ratification, ratified_marker, raised_to, apply_ratification}
use otaman_core.SpecLifecycle.SpecApproved.{when_text, attestation, apply_spec_approved}
use otaman_core.SpecLifecycle.AutoArchive.{apply_auto_archive}
use otaman_core.SpecLifecycle.Verdicts.{auto_archive_decision-archive}
use otaman_core.SpecLifecycle.History.{
  Act, ratified, spec_approved, auto_archived, Acts, unchanged, then_act, apply_ratification-stage,
  apply_spec_approved-stage, apply_auto_archive-stage, valid-authored,
}

-- What the gates see of a change: the index of its stage, if it has a known one, and whether
-- approved_by is signed.
pub record View : Type 0 where
  pub stage : Option ℕ
  pub attested : Bool

abbrev pub found_index : Result SpecError ℕ → Option ℕ
found_index (ok i) = some i
found_index (err e) = none

abbrev pub index_of : Value → Option ℕ
index_of (str s) = found_index (stage_index s)
index_of v = none

abbrev pub view : Entries → View
view change = record { stage = index_of (get "stage" change); attested = has_approval change }

abbrev pub max_approved : Option ℕ → ℕ
max_approved none = 2
max_approved (some i) = if leb 2 i then i else 2

-- The machine: a ratification raises the stage to approved (2), an approval of the specification
-- goes from authored (3) to spec-approved (4), an archive from verified (7) to archived (8).
pub data Moves (v : View) : View → Type 0 where
  ratify : Moves v (record { stage = some (max_approved v.stage); attested = true })
  approve : v.stage ≡ some 3 → Moves v (record { stage = some 4; attested = true })
  archive : v.stage ≡ some 7 → Moves v (record { stage = some 8; attested = v.attested })

is_signed-filled :
    (s : String) → any_char (λ n. not (is_space n)) s ≡ true → is_signed (str s) ≡ true
is_signed-filled s h = rw (strip-filled s h) refl

pub apply_ratification-attested :
    (change : Entries) (r : Ratification) → has_approval (apply_ratification change r) ≡ true
unfolding has_approval apply_ratification ratified_marker
apply_ratification-attested change r =
    ap is_signed (get-put "approved_by" "approved_by" _ _)
    ∙ is_signed-filled (ratified_marker r)
        (any_char-append (λ n. not (is_space n)) "ratified: " (r.by +++ " — " +++ r.reason))

pub apply_spec_approved-attested :
    (change : Entries) (h : Human) (when : Option String)
    → has_approval (apply_spec_approved change h when) ≡ true
unfolding has_approval apply_spec_approved attestation
apply_spec_approved-attested change h when =
    ap is_signed (get-put "approved_by" "approved_by" _ _)
    ∙ is_signed-filled (attestation h when) signed
  where
    tail : String
    tail = " (spec-approved" +++ when_text when +++ ", via otaman -i)"

    signed : any_char (λ n. not (is_space n)) (h.name +++ tail) ≡ true
    signed =
        any_char-append (λ n. not (is_space n)) h.name tail
        ∙ ap (λ b. any_char (λ n. not (is_space n)) h.name || b)
            (any_char-append (λ n. not (is_space n)) " (spec-approved"
              (when_text when +++ ", via otaman -i)"))
        ∙ ground arith

apply_auto_archive-attested :
    (change : Entries) → has_approval (apply_auto_archive change) ≡ has_approval change
unfolding has_approval apply_auto_archive
apply_auto_archive-attested change =
    ap is_signed (get-put "archived_by" "approved_by" _ _ ∙ get-put "stage" "approved_by" _ _)

raised_at :
    (s : String) (o : Result SpecError ℕ)
    → stage_index s ≡ o
    → index_of (raised_to "approved" (str s)) ≡ some (max_approved (found_index o))
unfolding at_least stage_index position
raised_at s (err e) h = rw h refl
raised_at s (ok i) h =
    rw h (elim (Bool-cases (leb 2 i)) [ inl y ↦ rw (y, h) refl | inr n ↦ rw n refl ])

index_of-raised_to :
    (v : Value) → index_of (raised_to "approved" v) ≡ some (max_approved (index_of v))
unfolding at_least stage_index position
index_of-raised_to (str s) = raised_at s (stage_index s) refl
index_of-raised_to v = refl

index_of-text : (s : String) (v : Value) → is_text s v ≡ true → index_of v ≡ index_of (str s)
index_of-text s v h = ap index_of (is_text-eq s v h)

view_eq :
    (next : Entries) (o : Option ℕ) (b : Bool)
    → index_of (get "stage" next) ≡ o
    → has_approval next ≡ b
    → record { stage = o; attested = b } ≡ view next
view_eq next o b e f = rw (e, f) refl

-- Every act of the code on a record — a ratification, an approval found valid, an automatic archive
-- that was decided — is a move of the stage machine on what the gates see of it.
pub Act-Moves : (change next : Entries) → Act change next → Moves (view change) (view next)
unfolding stage_index position
Act-Moves change next (ratified r) =
    subst (λ w. Moves (view change) w)
      (view_eq _ _ _
        (ap index_of (apply_ratification-stage change r) ∙ index_of-raised_to (get "stage" change))
        (apply_ratification-attested change r))
      ratify
Act-Moves change next (spec_approved approver when v verdict valid) =
    subst (λ w. Moves (view change) w)
      (view_eq _ _ _ (ap index_of (apply_spec_approved-stage change approver when))
        (apply_spec_approved-attested change approver when))
      (approve (
        index_of-text "authored" (get "stage" change)
          (valid-authored change approver v verdict valid)))
Act-Moves change next (auto_archived policy delta gate checked archive_it) =
    subst (λ w. Moves (view change) w)
      (view_eq _ _ _ (ap index_of (apply_auto_archive-stage change))
        (apply_auto_archive-attested change))
      (archive (
        index_of-text "verified" (get "stage" change)
          (ground (arith, sym (auto_archive_decision-archive change policy gate) ∙ archive_it))))

-- A stage at or after spec-approved has been attested.
unfoldable pub IsAttested : Entries → Type 0
IsAttested change = spec_approved_reached change ≡ true → has_approval change ≡ true

Act-IsAttested : (change next : Entries) → Act change next → IsAttested change → IsAttested next
unfolding IsAttested spec_approved_reached at_least stage_index position
Act-IsAttested change next (ratified r) h reached = apply_ratification-attested change r
Act-IsAttested change next (spec_approved approver when v verdict valid) h reached =
    apply_spec_approved-attested change approver when
Act-IsAttested change next (auto_archived policy delta gate checked archive_it) h reached =
    let at : get "stage" change ≡ str "verified" =
      is_text-eq "verified" (get "stage" change)
        (ground (arith, sym (auto_archive_decision-archive change policy gate) ∙ archive_it)) in
    apply_auto_archive-attested change ∙ h (ap (at_least "spec-approved") at)

-- Along any sequence of acts: a record whose stage, if at or after spec-approved, is attested by a
-- signed approved_by stays so; the merge gate never finds its stage advanced without attestation.
pub Acts-IsAttested :
    (change next : Entries) → Acts change next → IsAttested change → IsAttested next
Acts-IsAttested change next unchanged h = h
Acts-IsAttested change next (then_act {now} before act) h =
    Act-IsAttested now next act (Acts-IsAttested change now before h)
