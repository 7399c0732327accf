-- ===== src/Policy/Drift.antt =====
-- The other checks of policy.py's doctor: check_policy_drift and check_deprecated_standards.
-- `same_float` answers Python's `==` where a float is compared.
use otaman_core.Prelude.{
  String, Bool, not, ◌&&◌, Option, none, some, List, [], ◌∷◌, ◌++◌, str_eq, sorted_set, keep,
  if◌then◌else◌,
}
use otaman_core.Yaml.{Value, Entries, null, dict, is_null, has, get, or_default}
use otaman_core.Yaml.Equal.{same}
use otaman_core.Policy.{Rules, rule_value, EffectivePolicy}

-- `_finding`: an error under `block`, else a warning
pub data Level : Type 0 where
  error warn : Level

abbrev pub level_of : String → Level
level_of mode = if str_eq mode "block" then error else warn

-- What the finding names: the repo, the rule, what is enforced, the pack and what it requires.
pub record Drift : Type 0 where
  pub level : Level
  pub repo : String
  pub rule : String
  pub have : Value
  pub pack : String
  pub want : Value

unfoldable pub rule_names : Rules → List String
rule_names [] = []
rule_names ((k, v) ∷ m) = k ∷ rule_names m

abbrev pub live_value : String → Rules → Value
live_value rule live_rules = or_default null (rule_value rule live_rules)

module _ (same_float : Value → Value → Bool) where
  -- A rule that is set, and is not what is enforced
  abbrev pub differs : Value → Value → Bool
  differs have want = not (is_null want) && not (same same_float have want)

  -- one turn of the loop, for a rule of that value
  abbrev pub drift_of :
      EffectivePolicy → Rules → String → String → String → Option Value → List Drift
  drift_of effective live_rules mode repo rule none = []
  drift_of effective live_rules mode repo rule (some want) =
      if differs (live_value rule live_rules) want
      then record {
        level = level_of mode;
        repo = repo;
        rule = rule;
        have = live_value rule live_rules;
        pack = effective.pack;
        want = want;
      }
        ∷ []
      else []

  unfoldable pub drifts : EffectivePolicy → Rules → String → String → List String → List Drift
  drifts effective live_rules mode repo [] = []
  drifts effective live_rules mode repo (rule ∷ rules) =
      drift_of effective live_rules mode repo rule (rule_value rule effective.rules)
      ++ drifts effective live_rules mode repo rules

  -- The rules in the order of their names.
  unfoldable pub check_policy_drift : EffectivePolicy → Rules → String → String → List Drift
  unfolding drifts rule_names
  check_policy_drift effective live_rules mode repo =
      drifts effective live_rules mode repo (sorted_set (rule_names effective.rules))

abbrev pub deprecated_standards_keys : List String
deprecated_standards_keys = "branching" ∷ "environments" ∷ "merge_policy" ∷ []

abbrev pub git_of : Value → Value
git_of (dict standards) = get "git" standards
git_of v = null

abbrev pub present : Value → List String
present (dict git) = keep (λ k. has k git) deprecated_standards_keys
present v = []

-- The keys that the warning names; none is no warning.
unfoldable pub check_deprecated_standards : Entries → Option (List String)
check_deprecated_standards platform_config =
    elim (present (git_of (get "standards" platform_config))) [ [] ↦ none | k ∷ ks ↦ some (k ∷ ks) ]
