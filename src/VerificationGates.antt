-- ===== src/VerificationGates.antt =====
-- src/otaman_core/verification_gates.py: the policies that choose the critics of a proposal. The keys
-- of the configuration's dicts are texts, as their annotations say.
pub mod Parse
pub mod Select
pub mod Eligible
pub mod Complete
mod Tests
use otaman_core.Prelude.{
  String, Bool, true, false, Option, none, some, List, [], ◌∷◌, elem, str_eq, if◌then◌else◌,
}
use otaman_core.Yaml.{Value, str, is_text}

-- `POLICIES`
pub data CriticPolicy : Type 0 where
  sensitivity_scoped stakeholder_affected consumer_chain role_based : CriticPolicy

-- `v in POLICIES`
unfoldable pub policy_of : Value → Option CriticPolicy
policy_of v =
    if is_text "sensitivity-scoped" v
    then some sensitivity_scoped
    else if is_text "stakeholder-affected" v
    then some stakeholder_affected
    else if is_text "consumer-chain" v
    then some consumer_chain
    else if is_text "role-based" v
    then some role_based
    else none

abbrev pub is_role_based : CriticPolicy → Bool
is_role_based role_based = true
is_role_based _ = false

-- `VerificationGatesError`, by what is malformed
pub data CriticError : Type 0 where
  not_a_mapping unknown_key key_not_text not_texts unknown_policy no_primary bad_target_role :
      CriticError
  no_independent_critic no_roles no_target_role : String → CriticError
  unknown_hook : String → CriticError

pub record HookPolicy : Type 0 where
  pub hook : String
  pub primary : CriticPolicy
  pub fallback : Option CriticPolicy
  pub sensitivity_overrides : List (String × CriticPolicy)
  pub target_role : Option String

pub record CriticConfig : Type 0 where
  pub clearances : List (String × List String)
  pub hooks : List (String × HookPolicy)
  pub roles : List (String × List String)

pub record SelectionContext : Type 0 where
  pub candidates : List String
  pub sensitivity : Option String
  pub affected_repos : List String
  pub repo_owners : List (String × String)
  pub consumers : List String
  pub agent_roles : List (String × List String)
  pub target_role : Option String
  pub proposer : Option String

pub record SelectionResult : Type 0 where
  pub hook : String
  pub policy : CriticPolicy
  pub critics : List String
  pub fell_back : Bool
  pub sensitivity_override : Bool
  pub dropped_uncleared : List String
  pub excluded_proposer : Bool
  pub could_not_evaluate : List String

-- `d.get(k)`
unfoldable pub lookup {ℓ} : {A : Type ℓ} → String → List (String × A) → Option A
lookup k [] = none
lookup k ((j, v) ∷ m) = let rest = lookup k m in if str_eq j k then some v else rest

-- the keys of the items that pass the test
unfoldable pub keys_where {ℓ} : {A : Type ℓ} → (A → Bool) → List (String × A) → List String
keys_where p [] = []
keys_where p ((k, v) ∷ m) = let rest = keys_where p m in if p v then k ∷ rest else rest

unfoldable pub cleared_for : CriticConfig → String → List String
unfolding keys_where
cleared_for config sensitivity = keys_where (λ classes. elem sensitivity classes) config.clearances
