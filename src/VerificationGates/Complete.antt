-- ===== src/VerificationGates/Complete.antt =====
-- A configuration that parses is complete (src/otaman_core/verification_gates.py:
-- parse_verification_gates, select_critics).
use otaman_core.Prelude.{
  String, Bool, true, false, not, Option, none, some, List, [], ◌∷◌, ok, ◌>>◌, >>=-eq-ok, require,
  require-eq-ok, str_eq, Bool-cases, Option-cases, is_empty, inl, inr, ◌≡◌, refl, sym, ap, ◌∙◌,
  subst, arith, if◌then◌else◌,
}
use otaman_core.Yaml.{Value, Entries, null, dict, end, get_or}
use otaman_core.VerificationGates.{
  CriticPolicy, sensitivity_scoped, stakeholder_affected, consumer_chain, role_based, CriticConfig,
  HookPolicy, SelectionContext, SelectionResult, lookup, no_independent_critic, no_roles,
  no_target_role, unknown_key,
}
use otaman_core.VerificationGates.Parse.{
  has_items, has_role, pairs_role_based, check_hooks, parse_block, parse_verification_gates,
  as_mapping, read_items, str_tuple, parse_hooks, stray,
}
use otaman_core.VerificationGates.Select.{
  effective_roles, absent_inputs, run_policy, or_role, falls_back, first_run, conclude, select_for,
  select_critics, first_policy,
}

-- What a hook needs, so that one of its policies can be evaluated from the configuration alone.
pub record IsResolvable (config : CriticConfig) (hp : HookPolicy) : Type 0 where
  pub independent : pairs_role_based hp ≡ true
  pub declared : has_items config.roles ≡ true
  pub targeted : has_role hp.target_role ≡ true

check_hooks-lookup :
    (roles : Bool) (hooks : List (String × HookPolicy)) {u : Unit {0}} (hook : String)
    (hp : HookPolicy)
    → check_hooks roles hooks ≡ ok u
    → lookup hook hooks ≡ some hp
    → (pairs_role_based hp ≡ true) × (roles ≡ true) × (has_role hp.target_role ≡ true)
unfolding check_hooks lookup
check_hooks-lookup roles [] hook hp h e = ground arith
check_hooks-lookup roles ((j, g) ∷ hooks) hook hp h e =
    let independent = require (pairs_role_based g) (no_independent_critic j) in
    let declared = require roles (no_roles j) in
    let targeted = require (has_role g.target_role) (no_target_role j) in
    let (u₁, e₁, h₁) = >>=-eq-ok (independent >> declared >> targeted) _ h in
    let (u₂, e₂, h₂) = >>=-eq-ok (independent >> declared) _ e₁ in
    let (u₃, e₃, h₃) = >>=-eq-ok independent _ e₂ in
    elim (Bool-cases (str_eq j hook)) [
      | inl y ↦
          let same : g ≡ hp = ground (arith, y) in
          subst
            (λ k. (pairs_role_based k ≡ true) × (roles ≡ true) × (has_role k.target_role ≡ true))
            same (require-eq-ok _ _ e₃, require-eq-ok _ _ h₃, require-eq-ok _ _ h₂)
      | inr n ↦ check_hooks-lookup roles hooks hook hp h₁ (ground (arith, n))
    ]

parse_block-IsResolvable :
    (es : Entries) (config : CriticConfig) (hook : String) (hp : HookPolicy)
    → parse_block es ≡ ok config
    → lookup hook config.hooks ≡ some hp
    → IsResolvable config hp
unfolding parse_block
parse_block-IsResolvable es config hook hp h e =
    let (u₁, e₁, h₁) =
      >>=-eq-ok (require (not (stray ("clearances" ∷ "hooks" ∷ "roles" ∷ []) es)) unknown_key) _
        h in
    let (raw_clear, e₂, h₂) = >>=-eq-ok (as_mapping (get_or "clearances" (dict end) es)) _ h₁ in
    let (clearances, e₃, h₃) = >>=-eq-ok (read_items str_tuple raw_clear) _ h₂ in
    let (raw_roles, e₄, h₄) = >>=-eq-ok (as_mapping (get_or "roles" (dict end) es)) _ h₃ in
    let (roles, e₅, h₅) = >>=-eq-ok (read_items str_tuple raw_roles) _ h₄ in
    let (raw_hooks, e₆, h₆) = >>=-eq-ok (as_mapping (get_or "hooks" (dict end) es)) _ h₅ in
    let (hooks, e₇, h₇) = >>=-eq-ok (parse_hooks raw_hooks) _ h₆ in
    let (u₈, e₈, h₈) = >>=-eq-ok (check_hooks (has_items roles) hooks) _ h₇ in
    let same : record { clearances = clearances; hooks = hooks; roles = roles } ≡ config =
      ground arith in
    let here : lookup hook hooks ≡ some hp =
      ap (λ c. lookup hook (CriticConfig.hooks c)) same ∙ e in
    let (a, b, c) = check_hooks-lookup (has_items roles) hooks hook hp e₈ here in
    record {
      independent = a;
      declared = sym (ap (λ d. has_items (CriticConfig.roles d)) same) ∙ b;
      targeted = c;
    }

-- Every hook of a configuration that parses has role-based as its primary or fallback policy and a
-- target role, and the configuration has a roles table.
pub parse_verification_gates-IsResolvable :
    (v : Value) (config : CriticConfig) (hook : String) (hp : HookPolicy)
    → parse_verification_gates v ≡ ok config
    → lookup hook config.hooks ≡ some hp
    → IsResolvable config hp
unfolding parse_verification_gates lookup
parse_verification_gates-IsResolvable null config hook hp h e =
    let same : record { clearances = []; hooks = []; roles = [] } ≡ config = ground arith in
    let gone : none ≡ some hp = ap (λ c. lookup hook (CriticConfig.hooks c)) same ∙ e in
    ground (arith, gone)
parse_verification_gates-IsResolvable (dict es) config hook hp h e =
    parse_block-IsResolvable es config hook hp h e
parse_verification_gates-IsResolvable v config hook hp h e = ground arith

run-missing :
    (p : CriticPolicy) (ctx : SelectionContext) (config : CriticConfig) (role : Option String)
    → has_items config.roles ≡ true
    → has_role role ≡ true
    → (run_policy p ctx config role).1 ≡ []
unfolding run_policy
run-missing sensitivity_scoped ctx config role a b = refl
run-missing stakeholder_affected ctx config role a b = refl
run-missing consumer_chain ctx config role a b = refl
run-missing role_based ctx config role a b = rw (nothing_absent) refl
  where
    effective : has_items (effective_roles ctx config) ≡ true
    effective = elim (Bool-cases (has_items ctx.agent_roles)) [ inl y ↦ rw y y | inr n ↦ rw n a ]

    nothing_absent : absent_inputs (effective_roles ctx config) role ≡ []
    nothing_absent = rw (effective, b) refl

or_role-has_role : (a b : Option String) → has_role b ≡ true → has_role (or_role a b) ≡ true
or_role-has_role none b h = h
or_role-has_role (some s) b h = elim (Bool-cases (is_empty s)) [
  | inl y ↦ rw y h
  | inr n ↦ rw n refl
]

either_empty : (b : Bool) → ◌≡◌ {A = List String} (if b then [] else []) []
either_empty true = refl
either_empty false = refl

module _ (config : CriticConfig) (ctx : SelectionContext) (hook : String) (hp : HookPolicy)
    (resolvable : IsResolvable config hp) where
  evaluated :
      (p : CriticPolicy) → (run_policy p ctx config (or_role ctx.target_role hp.target_role)).1 ≡ []
  evaluated p =
      run-missing p ctx config (or_role ctx.target_role hp.target_role) resolvable.declared
        (or_role-has_role ctx.target_role hp.target_role resolvable.targeted)

  concluded-evaluated :
      (o : Option CriticPolicy)
      → SelectionResult.could_not_evaluate (conclude config hp hook ctx o) ≡ []
  concluded-evaluated none = rw (evaluated (first_policy ctx hp)) (either_empty _)
  concluded-evaluated (some p) = rw (evaluated p) (either_empty _)

-- With a configuration that parses, every selection that is made has been evaluated: it never
-- reports that an input was not declared, whatever the caller supplies.
pub select_critics-evaluated :
    (v : Value) (config : CriticConfig) (hook : String) (ctx : SelectionContext)
    (r : SelectionResult)
    → parse_verification_gates v ≡ ok config
    → select_critics config hook ctx ≡ ok r
    → r.could_not_evaluate ≡ []
unfolding select_critics select_for
select_critics-evaluated v config hook ctx r parsed h =
    elim (Option-cases (lookup hook config.hooks)) [
      | inl missing ↦ ground (arith, missing)
      | inr (hp, configured) ↦
          let same : select_for config hp hook ctx ≡ r = ground (arith, configured) in
          sym (ap SelectionResult.could_not_evaluate same)
          ∙ concluded-evaluated config ctx hook hp
              (parse_verification_gates-IsResolvable v config hook hp parsed configured)
              (falls_back hp (first_run config hp ctx))
    ]
