-- ===== src/Policy/Tests.antt =====
-- src/otaman_core/policy.py: a program that loosens a rule in a repo, and a branch.
use otaman_core.Prelude.{
  String, Bool, true, false, none, some, List, [], ◌∷◌, ok, ◌≡◌, refl, inl, inr, sorted_set,
  if◌then◌else◌,
}
use otaman_core.Yaml.{Value, Entries, null, bool, int, str, dict, absent, end, entry}
use otaman_core.Policy.{
  Policy, EffectivePolicy, LooseningViolation, rule_value, set_rule, compose, compose_layers,
  compose_rules,
}
use otaman_core.Policy.Algebra.{layers_mention, layers_set_true, compose-tightest}
use otaman_core.Policy.Load.{narrow_only, load_policy_index, load_policy}
use otaman_core.Policy.Select.{
  selection_for_layer, git_standard_rules, Folder, effective_policy, effective_narrow_only,
  shipped_index, select_policy_names, load_layers, shipped_standard,
}
use otaman_core.Yaml.Equal.{same, same_scalar, at_key}
use otaman_core.Policy.Drift.{
  error, rule_names, live_value, drifts, check_policy_drift, check_deprecated_standards,
}
use otaman_core.Policy.Conforms.{check_policy_drift-shipped}
use otaman_core.Policy.Shipped.{effective_policy-shipped}

abbrev strict : Policy
strict = record {
  pack = "git";
  name = "standard";
  rules = ("force_push_forbidden", bool true) ∷ [];
}

abbrev loose : Policy
loose = record { pack = "git"; name = "loose"; rules = ("force_push_forbidden", bool false) ∷ [] }

abbrev layers : List (String × Policy)
layers = ("program", strict) ∷ ("repo", loose) ∷ []

abbrev narrow : List String
narrow = "force_push_forbidden" ∷ []

abbrev kept : EffectivePolicy
kept = record { pack = "git"; rules = ("force_push_forbidden", bool true) ∷ [] }

abbrev refused : List LooseningViolation
refused = record { pack = "git"; rule = "force_push_forbidden"; layer = "repo" } ∷ []

composed : compose layers narrow ≡ ok (kept, refused)
unfolding compose compose_layers compose_rules rule_value set_rule
composed = refl

compose-tightest_example : rule_value "force_push_forbidden" kept.rules ≡ (
    if layers_mention "force_push_forbidden" layers
    then some (bool (layers_set_true "force_push_forbidden" layers))
    else none)
compose-tightest_example =
    compose-tightest layers narrow "force_push_forbidden" kept refused refl composed

-- A program that has no policy file, and says nothing of policies
abbrev bare_folder : Folder
bare_folder = record { index = absent; policy = λ pack name. absent }

abbrev shipped_result : EffectivePolicy
shipped_result = record { pack = "git"; rules = git_standard_rules }

shipped_composed : effective_policy bare_folder end "git" none none ≡ ok (shipped_result, [])
unfolding effective_policy effective_narrow_only load_policy_index narrow_only shipped_index
    select_policy_names selection_for_layer load_layers load_policy shipped_standard compose
    compose_layers compose_rules rule_value set_rule
shipped_composed = refl

nothing_selected : selection_for_layer (dict end) "git" ≡ none
unfolding selection_for_layer
nothing_selected = refl

-- A program that names the standard policy
abbrev named : Entries
named = entry (str "policies") (dict (entry (str "git") (str "standard") end)) end

standard_selected : selection_for_layer (dict named) "git" ≡ some "standard"
unfolding selection_for_layer
standard_selected = refl

named_composed : effective_policy bare_folder named "git" none none ≡ ok (shipped_result, [])
unfolding effective_policy effective_narrow_only load_policy_index narrow_only shipped_index
    select_policy_names selection_for_layer load_layers load_policy shipped_standard compose
    compose_layers compose_rules rule_value set_rule
named_composed = refl

effective_policy-shipped_example :
    rule_value "require_status_checks" shipped_result.rules ≡ some (bool true)
effective_policy-shipped_example =
    effective_policy-shipped bare_folder named none none "require_status_checks" shipped_result []
      (inr standard_selected) refl refl named_composed

core_composed : effective_policy bare_folder end "git" (some "core") none ≡ ok (shipped_result, [])
unfolding effective_policy effective_narrow_only load_policy_index narrow_only shipped_index
    select_policy_names selection_for_layer load_layers load_policy shipped_standard compose
    compose_layers compose_rules rule_value set_rule
core_composed = refl

-- A repo of which the enforcement is as shipped; a list of floats is never compared.
abbrev no_floats : Value → Value → Bool
no_floats v w = false

no_drift : check_policy_drift no_floats shipped_result git_standard_rules "warn" "core" ≡ []
unfolding check_policy_drift drifts rule_names rule_value sorted_set same same_scalar at_key
no_drift = refl

check_policy_drift-shipped_example :
    same no_floats (live_value "force_push_forbidden" git_standard_rules) (bool true) ≡ true
check_policy_drift-shipped_example =
    check_policy_drift-shipped no_floats git_standard_rules "warn" bare_folder end "core" none
      shipped_result [] (inl nothing_selected) refl core_composed no_drift "force_push_forbidden"
      refl

one_drift :
    check_policy_drift no_floats kept (("force_push_forbidden", bool false) ∷ []) "block" "core" ≡ (
      record {
        level = error;
        repo = "core";
        rule = "force_push_forbidden";
        have = bool false;
        pack = "git";
        want = bool true;
      }
      ∷ [])
unfolding check_policy_drift drifts rule_names rule_value sorted_set same same_scalar
one_drift = refl

-- `1` is `True` to Python, a dict's order does not matter.
ones : same no_floats (bool true) (int 1) ≡ true
unfolding same same_scalar
ones = refl

order_free :
    same no_floats
      (dict (entry (str "a") null (entry (str "b") (bool true) end)))
      (dict (entry (str "b") (bool true) (entry (str "a") null end)))
    ≡ true
unfolding same same_scalar at_key
order_free = refl

legacy :
    check_deprecated_standards (
      entry
        (str "standards")
        (dict (entry (str "git") (dict (entry (str "branching") null end)) end))
        end)
    ≡ some ("branching" ∷ [])
unfolding check_deprecated_standards
legacy = refl
