-- ===== src/Policy/Conforms.antt =====
-- What the silence of policy.py's check_policy_drift says of the rules in force.
use otaman_core.Prelude.{
  String, Bool, true, false, Option, none, some, List, [], ◌∷◌, ◌++◌, ok, str_eq, str_eq_comm, elem,
  sorted_set, elem-sorted_set, All, All-elem, ◌↔◌, ◌≡◌, refl, ◌∙◌, arith, Bool-cases, inl, inr,
}
use otaman_core.Yaml.{Value, Entries, bool, absent, is_null}
use otaman_core.Yaml.Equal.{same}
use otaman_core.Policy.{Rules, rule_value, LooseningViolation, EffectivePolicy}
use otaman_core.Policy.Select.{default_name, git_pack_narrow_only, Folder, effective_policy}
use otaman_core.Policy.Shipped.{SelectsStandard, effective_policy-shipped}
use otaman_core.Policy.Drift.{rule_names, live_value, drift_of, drifts, check_policy_drift}

elem-rule_names :
    (r : String) (want : Value) (m : Rules)
    → rule_value r m ≡ some want
    → elem r (rule_names m) ≡ true
unfolding rule_value rule_names
elem-rule_names r want [] h = ground arith
elem-rule_names r want ((k, v) ∷ m) h = elim (Bool-cases (str_eq k r)) [
  | inl here ↦ rw (str_eq_comm r k, here) refl
  | inr there ↦
      let later : rule_value r m ≡ some want = rw there at h in
      ground (arith, elem-rule_names r want m later)
]

append-empty : {A : Type 0} → (xs ys : List A) → (xs ++ ys ≡ []) ↔ ((xs ≡ []) × (ys ≡ []))
append-empty [] ys = ((λ h. (refl, h)), λ (e, h). h)
append-empty (x ∷ xs) ys = ((λ h. absurd (ground arith)), λ (e, h). absurd (ground arith))

module _ (same_float : Value → Value → Bool) (effective : EffectivePolicy)
    (live_rules : Rules) where
  -- A rule conforms: it is unset in the policy, or what is enforced is what it requires.
  abbrev Conforms : String → Type 0
  Conforms r =
      (want : Value)
      → rule_value r effective.rules ≡ some want
      → is_null want ≡ false
      → same same_float (live_value r live_rules) want ≡ true

  module _ (mode repo : String) where
    drift_of-silent :
        (r : String) (o : Option Value)
        → (drift_of same_float effective live_rules mode repo r o ≡ []) ↔ (
            (want : Value)
            → o ≡ some want
            → is_null want ≡ false
            → same same_float (live_value r live_rules) want ≡ true)
    drift_of-silent r none = ((λ h want e. ground arith), λ h. refl)
    drift_of-silent r (some v) = elim (Bool-cases (is_null v)) [
      | inl unset ↦ ((λ h want e w. ground (arith, unset)), λ h. rw unset refl)
      | inr set ↦ elim (Bool-cases (same same_float (live_value r live_rules) v)) [
        | inl fits ↦ ((λ h want e w. ground (arith, fits)), λ h. rw (set, fits) refl)
        | inr apart ↦ (
          (λ h want e w. absurd (ground (arith, rw (set, apart) at h))),
          λ h. ground (arith, h v refl set, apart),
        )
      ]
    ]

    drifts-cons :
        (r : String) (rules : List String)
        → (drifts same_float effective live_rules mode repo (r ∷ rules) ≡ []) ↔ (
            (drift_of same_float effective live_rules mode repo r (rule_value r effective.rules)
              ≡ [])
            × (drifts same_float effective live_rules mode repo rules ≡ []))
    unfolding drifts
    drifts-cons r rules = append-empty _ _

    drifts-silent :
        (rules : List String)
        → (drifts same_float effective live_rules mode repo rules ≡ []) ↔ All Conforms rules
    drifts-silent [] = ((λ h. tt), λ h. unfold drifts in refl)
    drifts-silent (r ∷ rules) = (
      (λ h.
          let (here, rest) = (drifts-cons r rules).0 h in
          (
            (drift_of-silent r (rule_value r effective.rules)).0 here,
            (drifts-silent rules).0 rest,
          )),
      λ (now, later).
          (drifts-cons r rules).1 (
            (drift_of-silent r (rule_value r effective.rules)).1 now,
            (drifts-silent rules).1 later,
          ),
    )

    -- The check is silent exactly when every rule that the policy sets has the value that it requires.
    check_policy_drift-silent :
        (check_policy_drift same_float effective live_rules mode repo ≡ [])
        ↔ ((r : String) → Conforms r)
    unfolding check_policy_drift
    check_policy_drift-silent =
        let rules : List String = sorted_set (rule_names effective.rules) in
        let listed : (r : String) (want : Value)
            → rule_value r effective.rules ≡ some want
            → elem r rules ≡ true =
          λ r want e.
            elem-sorted_set r (rule_names effective.rules)
            ∙ elem-rule_names r want effective.rules e in
        (
          (λ h r want e set.
              (All-elem Conforms rules).0 ((drifts-silent rules).0 h) r (listed r want e) want e
                set),
          λ h. (drifts-silent rules).1 ((All-elem Conforms rules).1 (λ r listed. h r)),
        )

-- In a program that selects the standard git policy, by name or by saying nothing of the pack, and
-- that has no file of its own for it, a repo of which the check of its effective policy reports no
-- drift has every shipped narrow-only rule in force: the live value of the rule equals `True`.
pub check_policy_drift-shipped :
    (same_float : Value → Value → Bool) (live_rules : Rules) (mode : String) (folder : Folder)
    (platform_config : Entries) (repo : String) (agent : Option String)
    (effective : EffectivePolicy) (violations : List LooseningViolation)
    → SelectsStandard platform_config
    → folder.policy "git" default_name ≡ absent
    → effective_policy folder platform_config "git" (some repo) agent ≡ ok (effective, violations)
    → check_policy_drift same_float effective live_rules mode repo ≡ []
    → (r : String) → elem r git_pack_narrow_only ≡ true
    → same same_float (live_value r live_rules) (bool true) ≡ true
check_policy_drift-shipped same_float live_rules mode folder config repo agent effective violations
      chosen missing e silent r listed =
    (check_policy_drift-silent same_float effective live_rules mode repo).0 silent r (bool true)
      (effective_policy-shipped folder config (some repo) agent r effective violations chosen
        missing listed e)
      refl
