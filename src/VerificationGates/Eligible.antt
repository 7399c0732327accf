-- ===== src/VerificationGates/Eligible.antt =====
-- Who is a critic (src/otaman_core/verification_gates.py: select_critics).
use otaman_core.Prelude.{
  String, Bool, true, false, not, ◌&&◌, Option, none, some, List, [], ◌∷◌, ok, elem, elem-keep,
  keep, Bool-cases, Option-cases, inl, inr, ◌⊎◌, ◌≡◌, refl, ◌∙◌, subst, arith,
}
use otaman_core.VerificationGates.{
  CriticPolicy, CriticConfig, HookPolicy, SelectionContext, SelectionResult, lookup,
}
use otaman_core.VerificationGates.Parse.{has_items}
use otaman_core.VerificationGates.Select.{
  run_policy, is_other, or_role, Run, run, falls_back, is_cleared, finish, first_policy, first_run,
  conclude, has_override, override_of, select_for, select_critics,
}

elem_none : (a : String) (xs : List String) → has_items xs ≡ false → elem a xs ≡ false
elem_none a [] h = refl
elem_none a (x ∷ xs) h = cc

empty-keep :
    (p : String → Bool) (xs : List String)
    → has_items (keep p xs) ≡ false
    → (a : String) → elem a xs ≡ true
    → p a ≡ false
empty-keep p xs h a found = ground (arith, found, elem-keep p a xs, elem_none a (keep p xs) h)

falls_back-some :
    (hp : HookPolicy) (first : Run) (p : CriticPolicy)
    → falls_back hp first ≡ some p
    → (has_items first.critics ≡ false) × (hp.fallback ≡ some p)
falls_back-some hp first p e = elim (Bool-cases (has_items first.critics)) [
  | inl y ↦ ground (arith, y)
  | inr n ↦ (n, ground (arith, n))
]

-- What the result says, for one agent, of the picks of the policy that it names.
pub record Accounts (config : CriticConfig) (hook : String) (ctx : SelectionContext)
    (r : SelectionResult) : Type 0 where
  pub hp : HookPolicy
  pub configured : lookup hook config.hooks ≡ some hp
  pub role : Option String
  pub role_from : role ≡ or_role ctx.target_role hp.target_role
  pub critic :
      (a : String)
      → elem a r.critics ≡ (
          elem a (run_policy r.policy ctx config role).0
          && is_other ctx.proposer a
          && is_cleared config ctx.sensitivity a)
  pub dropped :
      (a : String)
      → elem a r.dropped_uncleared ≡ (
          elem a (run_policy r.policy ctx config role).0
          && is_other ctx.proposer a
          && not (is_cleared config ctx.sensitivity a))
  pub chosen :
      (r.policy ≡ first_policy ctx hp)
      ⊎ ((hp.fallback ≡ some r.policy)
          × ((a : String)
              → elem a (run_policy (first_policy ctx hp) ctx config role).0 ≡ true
              → is_other ctx.proposer a ≡ false))

module _ (config : CriticConfig) (ctx : SelectionContext) (hook : String) (hp : HookPolicy)
    (configured : lookup hook config.hooks ≡ some hp) where
  finished :
      (fell_back before : Bool) (p : CriticPolicy)
      → (p ≡ first_policy ctx hp)
        ⊎ ((hp.fallback ≡ some p)
            × ((a : String)
                → elem a
                    (run_policy
                      (first_policy ctx hp)
                      ctx
                      config
                      (or_role ctx.target_role hp.target_role)).0
                  ≡ true
                → is_other ctx.proposer a ≡ false))
      → Accounts config hook ctx (
          finish config ctx hook
            (has_override (override_of ctx.sensitivity hp))
            fell_back
            before
            (run ctx config (or_role ctx.target_role hp.target_role) p))
  finished fell_back before p chosen =
      let role = or_role ctx.target_role hp.target_role in
      let picked = (run_policy p ctx config role).0 in
      let critics = keep (is_other ctx.proposer) picked in
      record {
        hp = hp;
        configured = configured;
        role = role;
        role_from = refl;
        critic = λ a.
            elem-keep (is_cleared config ctx.sensitivity) a critics
            ∙ rw (elem-keep (is_other ctx.proposer) a picked) (ground arith);
        dropped = λ a.
            elem-keep (λ b. not (is_cleared config ctx.sensitivity b)) a critics
            ∙ rw (elem-keep (is_other ctx.proposer) a picked) (ground arith);
        chosen = chosen;
      }

  concluded :
      (o : Option CriticPolicy)
      → falls_back hp (first_run config hp ctx) ≡ o
      → Accounts config hook ctx (conclude config hp hook ctx o)
  concluded none e = finished false false (first_policy ctx hp) (inl refl)
  concluded (some p) e =
      let (nobody, with_one) = falls_back-some hp (first_run config hp ctx) p e in
      finished true (Run.excluded (first_run config hp ctx)) p (
        inr (
          with_one,
          empty-keep (is_other ctx.proposer)
              (run_policy (first_policy ctx hp) ctx config
                (or_role ctx.target_role hp.target_role)).0
              nobody,
        ))

  select_for-Accounts : Accounts config hook ctx (select_for config hp hook ctx)
  unfolding select_for
  select_for-Accounts = concluded (falls_back hp (first_run config hp ctx)) refl

-- A selection that is made is for a hook that is configured, and accounts for every agent: a critic
-- is exactly a pick of the policy it names that is not the proposer and is cleared for the content's
-- class, and a dropped agent exactly such a pick that is not cleared. The policy is the first one,
-- the override or the primary; or it is the fallback, and the first one picked nobody but the
-- proposer.
pub select_critics-Accounts :
    (config : CriticConfig) (hook : String) (ctx : SelectionContext) (r : SelectionResult)
    → select_critics config hook ctx ≡ ok r
    → Accounts config hook ctx r
unfolding select_critics
select_critics-Accounts config hook ctx r h = elim (Option-cases (lookup hook config.hooks)) [
  | inl missing ↦ ground (arith, missing)
  | inr (hp, configured) ↦
      let same : select_for config hp hook ctx ≡ r = ground (arith, configured) in
      subst (Accounts config hook ctx) same (select_for-Accounts config ctx hook hp configured)
]
