-- ===== src/VerificationGates/Tests.antt =====
-- src/otaman_core/verification_gates.py: one hook, whose fallback is role-based.
use otaman_core.Prelude.{
  true, false, none, some, [], ◌∷◌, ok, strip, strip_by, lstrip, rstrip, ◌≡◌, refl,
}
use otaman_core.Yaml.{Value, str, list, dict, nil, cons, end, entry}
use otaman_core.VerificationGates.{
  stakeholder_affected, role_based, policy_of, HookPolicy, CriticConfig, SelectionContext,
  SelectionResult, lookup, keys_where,
}
use otaman_core.VerificationGates.Parse.{
  stray, str_tuple, check_policy, read_items, fallback_of, target_role_of, parse_hook, parse_hooks,
  check_hooks, parse_block, parse_verification_gates,
}
use otaman_core.VerificationGates.Select.{
  owners_of, distinct_onto, run_policy, select_for, select_critics,
}
use otaman_core.VerificationGates.Eligible.{Accounts, select_critics-Accounts}
use otaman_core.VerificationGates.Complete.{select_critics-evaluated}

abbrev file : Value
file = dict (
    entry (str "roles") (dict (entry (str "spec-agent") (list (cons (str "critic") nil)) end)) (
      entry (str "hooks")
        (dict (
          entry (str "proposal")
            (dict (
              entry (str "primary") (str "stakeholder-affected") (
                entry (str "fallback") (str "role-based")
                  (entry (str "target-role") (str "critic") end))))
            end))
        end))

abbrev proposal : HookPolicy
proposal = record {
  hook = "proposal";
  primary = stakeholder_affected;
  fallback = some role_based;
  sensitivity_overrides = [];
  target_role = some "critic";
}

abbrev config : CriticConfig
config = record {
  clearances = [];
  hooks = ("proposal", proposal) ∷ [];
  roles = ("spec-agent", "critic" ∷ []) ∷ [];
}

-- The owner of the one affected repo proposes.
abbrev own_repo : SelectionContext
own_repo = record {
  candidates = [];
  sensitivity = none;
  affected_repos = "core" ∷ [];
  repo_owners = ("core", "core-agent") ∷ [];
  consumers = [];
  agent_roles = [];
  target_role = none;
  proposer = some "core-agent";
}

abbrev selected : SelectionResult
selected = record {
  hook = "proposal";
  policy = role_based;
  critics = "spec-agent" ∷ [];
  fell_back = true;
  sensitivity_override = false;
  dropped_uncleared = [];
  excluded_proposer = true;
  could_not_evaluate = [];
}

parsed : parse_verification_gates file ≡ ok config
unfolding parse_verification_gates parse_block parse_hooks parse_hook read_items str_tuple
    check_policy fallback_of target_role_of check_hooks policy_of stray strip strip_by lstrip rstrip
parsed = refl

chosen : select_critics config "proposal" own_repo ≡ ok selected
unfolding select_critics select_for run_policy owners_of distinct_onto lookup keys_where
chosen = refl

select_critics-Accounts_example : Accounts config "proposal" own_repo selected
select_critics-Accounts_example = select_critics-Accounts config "proposal" own_repo selected chosen

select_critics-evaluated_example : selected.could_not_evaluate ≡ []
select_critics-evaluated_example =
    select_critics-evaluated file config "proposal" own_repo selected parsed chosen
