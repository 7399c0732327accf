-- ===== src/Policy/Refusals.antt =====
-- Refused loosenings, errors, and the rules that are not narrow-only.
use otaman_core.Prelude.{
  String, true, not, ◌&&◌, Option, some, List, [], ◌∷◌, ◌++◌, Result, ok, >>=-eq-ok, elem, ◌≡◌, sym,
  ◌⊎◌, inl, inr, arith, Bool-cases, if◌then◌else◌, All, All-append, ap,
}
use otaman_core.Yaml.{Value, bool}
use otaman_core.Policy.{
  PolicyError, Rules, rule_value, set_rule, Policy, LooseningViolation, EffectivePolicy, Composed,
  is_true, narrow_rule, narrow_value, compose_rules, compose_layers, pack_of, compose,
}
use otaman_core.Policy.Algebra.{step_eq}

-- One round of the inner loop.
abbrev step :
    String → List String → String → String → Value → Composed → Result PolicyError Composed
step pack narrow layer rule v c =
    if elem rule narrow
    then narrow_value pack layer rule v c
    else ok (record c { rules = set_rule rule v c.rules })

abbrev pub KeepsTrue : List String → Rules → LooseningViolation → Type 0
KeepsTrue narrow rules v =
    (elem v.rule narrow ≡ true) × (rule_value v.rule rules ≡ some (bool true))

module _ (pack : String) (narrow : List String) where
  step_keeps :
      (layer rule : String) (v : Value) (c c' : Composed) (r : String)
      → elem r narrow ≡ true
      → rule_value r c.rules ≡ some (bool true)
      → step pack narrow layer rule v c ≡ ok c'
      → rule_value r c'.rules ≡ some (bool true)
  step_keeps layer rule v c c' r tight now e =
      ground (arith, step_eq pack narrow r tight layer rule v c c' (inr (true, now)) e)

  All-keep :
      (layer rule : String) (v : Value) (c c' : Composed) (vs : List LooseningViolation)
      → step pack narrow layer rule v c ≡ ok c'
      → All (KeepsTrue narrow c.rules) vs
      → All (KeepsTrue narrow c'.rules) vs
  All-keep layer rule v c c' [] e h = tt
  All-keep layer rule v c c' (w ∷ vs) e ((tight, now), h) =
      ((tight, step_keeps layer rule v c c' w.rule tight now e), All-keep layer rule v c c' vs e h)

  -- The violations after a round: those before, and one more exactly when a `True` is set to `False`.
  step_violations :
      (layer rule : String) (v : Value) (c c' : Composed)
      → step pack narrow layer rule v c ≡ ok c'
      → (c'.violations ≡ c.violations)
        ⊎ ((elem rule narrow ≡ true)
            × (rule_value rule c.rules ≡ some (bool true))
            × (c' ≡ record c {
              violations = c.violations ++ record { pack = pack; rule = rule; layer = layer } ∷ [];
            }))
  unfolding narrow_value narrow_rule
  step_violations layer rule (bool b) c c' e = elim (Bool-cases (elem rule narrow)) [
    | inl listed ↦ elim (Bool-cases (is_true (rule_value rule c.rules) && not b)) [
      | inl loosens ↦ inr (
        listed,
        true_value (rule_value rule c.rules) (ground arith),
        sym (ok_eq (rw (listed, loosens) at e)),
      )
      | inr fine ↦ inl (ap (λ (d : Composed). d.violations) (sym (ok_eq (rw (listed, fine) at e))))
    ]
    | inr free ↦ inl (ap (λ (d : Composed). d.violations) (sym (ok_eq (rw free at e))))
  ]
    where
      ok_eq : {x y : Composed} → ◌≡◌ {A = Result PolicyError Composed} (ok x) (ok y) → x ≡ y
      ok_eq h = ground arith

      true_value : (o : Option Value) → is_true o ≡ true → o ≡ some (bool true)
      true_value (some (bool b)) h = ground arith
      true_value o h = absurd (ground arith)
  step_violations layer rule v c c' e = elim (Bool-cases (elem rule narrow)) [
    | inl listed ↦ absurd (ground arith)
    | inr free ↦ inl (ground arith)
  ]

  step_kept :
      (layer rule : String) (v : Value) (c c' : Composed)
      → step pack narrow layer rule v c ≡ ok c'
      → All (KeepsTrue narrow c.rules) c.violations
      → All (KeepsTrue narrow c'.rules) c'.violations
  step_kept layer rule v c c' e h = elim (step_violations layer rule v c c' e) [
    | inl same ↦ rw same (All-keep layer rule v c c' c.violations e h)
    | inr (tight, now, grown) ↦
        rw grown (All-append (KeepsTrue narrow c.rules) c.violations _ h ((tight, now), tt))
  ]

  rules_kept :
      (layer : String) (rules : Rules) (c c' : Composed)
      → compose_rules pack narrow layer rules c ≡ ok c'
      → All (KeepsTrue narrow c.rules) c.violations
      → All (KeepsTrue narrow c'.rules) c'.violations
  unfolding compose_rules
  rules_kept layer [] c c' e h = let same : c ≡ c' = ground arith in rw (← same) h
  rules_kept layer ((rule, v) ∷ rules) c c' e h =
      let (d, e₁, e₂) = >>=-eq-ok (step pack narrow layer rule v c) _ e in
      rules_kept layer rules d c' e₂ (step_kept layer rule v c d e₁ h)

  layers_kept :
      (layers : List (String × Policy)) (c c' : Composed)
      → compose_layers pack narrow layers c ≡ ok c'
      → All (KeepsTrue narrow c.rules) c.violations
      → All (KeepsTrue narrow c'.rules) c'.violations
  unfolding compose_layers
  layers_kept [] c c' e h = let same : c ≡ c' = ground arith in rw (← same) h
  layers_kept ((l, p) ∷ layers) c c' e h =
      let (d, e₁, e₂) = >>=-eq-ok (compose_rules pack narrow l p.rules c) _ e in
      layers_kept layers d c' e₂ (rules_kept l p.rules c d e₁ h)

-- When the composition succeeds, every violation that it reports names a narrow-only rule that
-- stays `True` in the effective policy: the loosening was refused.
pub compose-refusals_kept :
    (layers : List (String × Policy)) (narrow_only : List String) (effective : EffectivePolicy)
    (violations : List LooseningViolation)
    → compose layers narrow_only ≡ ok (effective, violations)
    → All (KeepsTrue narrow_only effective.rules) violations
unfolding compose
compose-refusals_kept layers narrow effective violations e =
    let (c, e₁, e₂) =
      >>=-eq-ok
        (compose_layers (pack_of layers) narrow layers (record { rules = []; violations = [] })) _
        e in
    let rules_same : c.rules ≡ effective.rules = ground arith in
    let same : c.violations ≡ violations = ground arith in
    rw (← rules_same, ← same)
      (layers_kept (pack_of layers) narrow layers (record { rules = []; violations = [] }) c e₁ tt)
