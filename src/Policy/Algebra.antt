-- ===== src/Policy/Algebra.antt =====
-- The composition algebra: the tightest value of a narrow-only rule, the nearest of any other.
use otaman_core.Prelude.{
  String, Bool, true, false, ◌&&◌, ◌||◌, Option, none, some, List, [], ◌∷◌, ok, >>=-eq-ok, str_eq,
  elem, any, ◌≡◌, refl, ◌∙◌, ◌⊎◌, inl, inr, arith, eq_iff, Bool-cases, if◌then◌else◌,
}
use otaman_core.Yaml.{Value, bool}
use otaman_core.Policy.{
  Rules, rule_value, set_rule, Policy, LooseningViolation, EffectivePolicy, Composed, is_true,
  is_set, narrow_rule, narrow_value, compose_rules, compose_layers, pack_of, compose,
}

pub rule_value-set_rule :
    (k j : String) (v : Value) (m : Rules)
    → rule_value j (set_rule k v m) ≡ (if str_eq k j then some v else rule_value j m)
unfolding rule_value set_rule
rule_value-set_rule k j v [] = refl
rule_value-set_rule k j v ((i, w) ∷ m) =
    ground (arith, eq_iff k j, eq_iff i k, eq_iff i j, rule_value-set_rule k j v m)

-- A rule that no layer has set, or set to a boolean.
abbrev pub IsFlag : Option Value → Type 0
IsFlag o = (o ≡ none) ⊎ ((b : Bool) × (o ≡ some (bool b)))

-- Some layer sets the rule; some layer sets it to `True`.
abbrev pub mentions : String → Rules → Bool
mentions r rules = any (λ e. str_eq e.0 r) rules

abbrev pub sets_true : String → Rules → Bool
sets_true r rules = any (λ e. str_eq e.0 r && is_true (some e.1)) rules

-- What a flag becomes when the rules of a policy are met.
abbrev pub tightened : Option Value → Bool → Bool → Option Value
tightened o mentioned set = if mentioned then some (bool (is_set o || set)) else o

module _ (pack : String) (narrow : List String) (r : String) (tight : elem r narrow ≡ true) where
  narrow_rule_value :
      (layer rule : String) (b : Bool) (c : Composed)
      → IsFlag (rule_value r c.rules)
      → rule_value r (narrow_rule pack layer rule b c).rules
        ≡ tightened (rule_value r c.rules) (str_eq rule r) (str_eq rule r && b)
  unfolding narrow_rule
  narrow_rule_value layer rule b c flag = ground (
    arith,
    eq_iff rule r,
    rule_value-set_rule rule r (bool (is_set (rule_value rule c.rules) || b)) c.rules,
  )

  pub narrow_value_eq :
      (layer rule : String) (v : Value) (c c' : Composed)
      → IsFlag (rule_value r c.rules)
      → narrow_value pack layer rule v c ≡ ok c'
      → rule_value r c'.rules
        ≡ tightened (rule_value r c.rules) (str_eq rule r) (str_eq rule r && is_true (some v))
  unfolding narrow_value
  narrow_value_eq layer rule (bool b) c c' flag e =
      let same : narrow_rule pack layer rule b c ≡ c' = ground arith in
      rw (← same) (narrow_rule_value layer rule b c flag)
  narrow_value_eq layer rule v c c' flag e = absurd (ground arith)

  pub other_rule : (rule : String) → elem rule narrow ≡ false → str_eq rule r ≡ false
  other_rule rule h = ground (arith, eq_iff rule r)

  pub step_eq :
      (layer rule : String) (v : Value) (c c' : Composed)
      → IsFlag (rule_value r c.rules)
      → (if elem rule narrow
          then narrow_value pack layer rule v c
          else ok (record c { rules = set_rule rule v c.rules }))
        ≡ ok c'
      → rule_value r c'.rules
        ≡ tightened (rule_value r c.rules) (str_eq rule r) (str_eq rule r && is_true (some v))
  step_eq layer rule v c c' flag e = elim (Bool-cases (elem rule narrow)) [
    | inl listed ↦ narrow_value_eq layer rule v c c' flag (rw listed at e)
    | inr free ↦
        let same : record c { rules = set_rule rule v c.rules } ≡ c' = ground arith in
        rw (← same) (ground (arith, other_rule rule free, rule_value-set_rule rule r v c.rules))
  ]

  pub tightened-IsFlag : (o : Option Value) (m s : Bool) → IsFlag o → IsFlag (tightened o m s)
  tightened-IsFlag o true s h = inr (is_set o || s, refl)
  tightened-IsFlag o false s h = h

  tightened_twice :
      (o : Option Value) (m s n t : Bool)
      → (m ≡ false → s ≡ false)
      → (n ≡ false → t ≡ false)
      → tightened (tightened o m s) n t ≡ tightened o (m || n) (s || t)
  tightened_twice o m s n t h k = ground arith

  sets_true-mentions : (rules : Rules) → mentions r rules ≡ false → sets_true r rules ≡ false
  sets_true-mentions [] h = refl
  sets_true-mentions ((j, v) ∷ rules) h = ground (arith, sets_true-mentions rules)

  pub compose_rules_eq :
      (layer : String) (rules : Rules) (c c' : Composed)
      → IsFlag (rule_value r c.rules)
      → compose_rules pack narrow layer rules c ≡ ok c'
      → rule_value r c'.rules
        ≡ tightened (rule_value r c.rules) (mentions r rules) (sets_true r rules)
  unfolding compose_rules
  compose_rules_eq layer [] c c' flag e = let same : c ≡ c' = ground arith in rw (← same) refl
  compose_rules_eq layer ((rule, v) ∷ rules) c c' flag e =
      let (d, e₁, e₂) = >>=-eq-ok _ _ e in
      let now = step_eq layer rule v c d flag e₁ in
      compose_rules_eq layer rules d c'
        (rw now (tightened-IsFlag _ (str_eq rule r) (str_eq rule r && is_true (some v)) flag)) e₂
      ∙ rw now (
          tightened_twice (rule_value r c.rules) (str_eq rule r) (str_eq rule r && is_true (some v))
            (mentions r rules) (sets_true r rules) (λ h. rw h refl) (sets_true-mentions rules))

abbrev pub layers_mention : String → List (String × Policy) → Bool
layers_mention r layers = any (λ l. mentions r l.1.rules) layers

abbrev pub layers_set_true : String → List (String × Policy) → Bool
layers_set_true r layers = any (λ l. sets_true r l.1.rules) layers

module _ (pack : String) (narrow : List String) (r : String) (tight : elem r narrow ≡ true) where
  layers_set-mention :
      (layers : List (String × Policy))
      → layers_mention r layers ≡ false
      → layers_set_true r layers ≡ false
  layers_set-mention [] h = refl
  layers_set-mention ((l, p) ∷ layers) h =
      ground (arith, layers_set-mention layers, sets_true-mentions pack narrow r tight p.rules)

  pub compose_layers_eq :
      (layers : List (String × Policy)) (c c' : Composed)
      → IsFlag (rule_value r c.rules)
      → compose_layers pack narrow layers c ≡ ok c'
      → rule_value r c'.rules
        ≡ tightened (rule_value r c.rules) (layers_mention r layers) (layers_set_true r layers)
  unfolding compose_layers
  compose_layers_eq [] c c' flag e = let same : c ≡ c' = ground arith in rw (← same) refl
  compose_layers_eq ((l, p) ∷ layers) c c' flag e =
      let (d, e₁, e₂) = >>=-eq-ok (compose_rules pack narrow l p.rules c) _ e in
      let now = compose_rules_eq pack narrow r tight l p.rules c d flag e₁ in
      compose_layers_eq layers d c'
        (rw now
          (tightened-IsFlag pack narrow r tight _ (mentions r p.rules) (sets_true r p.rules) flag))
        e₂
      ∙ rw now (
          tightened_twice pack narrow r tight (rule_value r c.rules) (mentions r p.rules)
            (sets_true r p.rules) (layers_mention r layers) (layers_set_true r layers)
            (sets_true-mentions pack narrow r tight p.rules) (layers_set-mention layers))

-- The tightest setting wins: when the composition succeeds, a narrow-only rule is `True` in the
-- effective policy if some layer sets it to `True`, `False` if layers set it and none to `True`,
-- and absent otherwise.
pub compose-tightest :
    (layers : List (String × Policy)) (narrow_only : List String) (r : String)
    (effective : EffectivePolicy) (violations : List LooseningViolation)
    → elem r narrow_only ≡ true
    → compose layers narrow_only ≡ ok (effective, violations)
    → rule_value r effective.rules
      ≡ (if layers_mention r layers then some (bool (layers_set_true r layers)) else none)
unfolding compose rule_value
compose-tightest layers narrow r effective violations tight e =
    let (c, e₁, e₂) =
      >>=-eq-ok
        (compose_layers (pack_of layers) narrow layers (record { rules = []; violations = [] })) _
        e in
    let same : c.rules ≡ effective.rules = ground arith in
    rw (← same) (
      compose_layers_eq (pack_of layers) narrow r tight layers
        (record { rules = []; violations = [] }) c (inl refl) e₁)
