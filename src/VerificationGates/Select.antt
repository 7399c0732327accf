-- ===== src/VerificationGates/Select.antt =====
-- src/otaman_core/verification_gates.py: select_critics.
use otaman_core.Prelude.{
  String, Bool, true, false, not, ◌||◌, Option, none, some, List, [], ◌∷◌, ◌++◌, Result, ok, err,
  elem, keep, is_empty, str_eq, if◌then◌else◌,
}
use otaman_core.VerificationGates.{
  CriticPolicy, sensitivity_scoped, stakeholder_affected, consumer_chain, role_based, CriticError,
  unknown_hook, HookPolicy, CriticConfig, SelectionContext, SelectionResult, lookup, keys_where,
  cleared_for,
}
use otaman_core.VerificationGates.Parse.{has_items, has_role}

-- `[owners[r] for r in repos if r in owners]`
unfoldable pub owners_of : List (String × String) → List String → List String
owners_of owners [] = []
owners_of owners (r ∷ rs) =
    let rest = owners_of owners rs in
    elim (lookup r owners) [ none ↦ rest | some owner ↦ owner ∷ rest ]

-- `if a not in out: out.append(a)`
unfoldable pub distinct_onto : List String → List String → List String
distinct_onto out [] = out
distinct_onto out (a ∷ rest) =
    let known = distinct_onto out rest in
    let added = distinct_onto (out ++ a ∷ []) rest in if elem a out then known else added

abbrev pub effective_roles : SelectionContext → CriticConfig → List (String × List String)
effective_roles ctx config = if has_items ctx.agent_roles then ctx.agent_roles else config.roles

-- the required inputs that nobody declared
abbrev pub absent_inputs : List (String × List String) → Option String → List String
absent_inputs roles target_role =
    (if has_items roles then [] else "roles" ∷ [])
    ++ (if has_role target_role then [] else "target_role" ∷ [])

abbrev with_role : List (String × List String) → Option String → List String
with_role roles none = []
with_role roles (some role) = keys_where (λ held. elem role held) roles

abbrev scoped : SelectionContext → CriticConfig → Option String → List String
scoped ctx config none = []
scoped ctx config (some s) = keep (λ a. elem a (cleared_for config s)) ctx.candidates

-- the agents picked, and the inputs that were missing
unfoldable pub run_policy :
    CriticPolicy → SelectionContext → CriticConfig → Option String → (List String) × (List String)
unfolding owners_of distinct_onto
run_policy sensitivity_scoped ctx config target_role =
    (distinct_onto [] (scoped ctx config ctx.sensitivity), [])
run_policy stakeholder_affected ctx config target_role =
    (distinct_onto [] (owners_of ctx.repo_owners ctx.affected_repos), [])
run_policy consumer_chain ctx config target_role = (distinct_onto [] ctx.consumers, [])
run_policy role_based ctx config target_role =
    let roles = effective_roles ctx config in
    if has_items (absent_inputs roles target_role)
    then ([], absent_inputs roles target_role)
    else (distinct_onto [] (with_role roles target_role), [])

-- `c != ctx.proposer`
abbrev pub is_other : Option String → String → Bool
is_other none a = true
is_other (some proposer) a = not (str_eq a proposer)

abbrev pub proposes : Option String → List String → Bool
proposes none picked = false
proposes (some proposer) picked = elem proposer picked

-- `ctx.target_role or hp.target_role`
abbrev pub or_role : Option String → Option String → Option String
or_role none other = other
or_role (some role) other = if is_empty role then other else some role

-- what one run of a policy leaves, the proposer excluded
pub record Run : Type 0 where
  pub policy : CriticPolicy
  pub critics : List String
  pub missing : List String
  pub excluded : Bool

abbrev pub run : SelectionContext → CriticConfig → Option String → CriticPolicy → Run
run ctx config target_role policy = record {
  policy = policy;
  critics = keep (is_other ctx.proposer) (run_policy policy ctx config target_role).0;
  missing = (run_policy policy ctx config target_role).1;
  excluded = proposes ctx.proposer (run_policy policy ctx config target_role).0;
}

-- the policy that replaces the primary one for a class of content
abbrev pub override_of : Option String → HookPolicy → Option CriticPolicy
override_of none hp = none
override_of (some s) hp = lookup s hp.sensitivity_overrides

-- `if not critics and hp.fallback is not None`
abbrev pub falls_back : HookPolicy → Run → Option CriticPolicy
falls_back hp first = if has_items first.critics then none else hp.fallback

abbrev pub is_cleared : CriticConfig → Option String → String → Bool
is_cleared config none a = true
is_cleared config (some s) a = elem a (cleared_for config s)

abbrev pub finish :
    CriticConfig
    → SelectionContext
    → String
    → (override fell_back before : Bool) → Run
    → SelectionResult
finish config ctx hook override fell_back before last =
    let critics = keep (is_cleared config ctx.sensitivity) last.critics in
    record {
      hook = hook;
      policy = last.policy;
      critics = critics;
      fell_back = fell_back;
      sensitivity_override = override;
      dropped_uncleared = keep (λ a. not (is_cleared config ctx.sensitivity a)) last.critics;
      excluded_proposer = before || last.excluded;
      could_not_evaluate = if has_items critics then [] else last.missing;
    }

abbrev pub first_policy : SelectionContext → HookPolicy → CriticPolicy
first_policy ctx hp = elim (override_of ctx.sensitivity hp) [ none ↦ hp.primary | some p ↦ p ]

abbrev pub has_override : Option CriticPolicy → Bool
has_override none = false
has_override (some p) = true

abbrev pub first_run : CriticConfig → HookPolicy → SelectionContext → Run
first_run config hp ctx =
    run ctx config (or_role ctx.target_role hp.target_role) (first_policy ctx hp)

-- the first run, or the run of the fallback
abbrev pub conclude :
    CriticConfig → HookPolicy → String → SelectionContext → Option CriticPolicy → SelectionResult
conclude config hp hook ctx none =
    finish config ctx hook (has_override (override_of ctx.sensitivity hp)) false false
      (first_run config hp ctx)
conclude config hp hook ctx (some p) =
    finish config ctx hook (has_override (override_of ctx.sensitivity hp)) true
      (Run.excluded (first_run config hp ctx))
      (run ctx config (or_role ctx.target_role hp.target_role) p)

unfoldable pub select_for : CriticConfig → HookPolicy → String → SelectionContext → SelectionResult
select_for config hp hook ctx =
    conclude config hp hook ctx (falls_back hp (first_run config hp ctx))

unfoldable pub select_critics :
    CriticConfig → String → SelectionContext → Result CriticError SelectionResult
unfolding select_for
select_critics config hook ctx = elim (lookup hook config.hooks) [
  | none ↦ err (unknown_hook hook)
  | some hp ↦ ok (select_for config hp hook ctx)
]
