-- ===== src/ReviewPolicy.antt =====
-- src/otaman_core/review_policy.py: which messages a human must see. A frozenset is the list that it
-- was made of. An error that the message of another would raise is the same error.
pub mod Classified
mod Tests
use otaman_core.Prelude.{
  String, Bool, true, false, not, ◌||◌, ◌&&◌, Option, none, some, List, [], ◌∷◌, Result, ok, err,
  ◌>>=◌, require, all, any, elem, str_eq, if◌then◌else◌,
}
use otaman_core.Yaml.{
  Value, Entries, null, str, list, dict, nil, end, entry, items, is_str, is_one_of, has, get,
  get_or,
}

pub data Class : Type 0 where
  mandatory opt_in auto_triage : Class

-- `ReviewPolicyError`, by what is malformed
pub data ReviewError : Type 0 where
  not_a_mapping unknown_key not_types conflict : ReviewError

pub data Source : Type 0 where
  shipped_default program : Source

pub record ReviewPolicy : Type 0 where
  pub must_see : List String
  pub collapsed : List String
  pub source : Source

abbrev pub default_mandatory : List String
default_mandatory =
    "decision-required" ∷ "spec-change-request" ∷ "spec-approval-pending" ∷ "request-human-review"
    ∷ "outcome-proposal" ∷ []

abbrev pub default_auto_triage : List String
default_auto_triage =
    "task-complete" ∷ "info" ∷ "announce" ∷ "outcome-status-changed" ∷ "solution-status-changed"
    ∷ "lifecycle-change" ∷ "agent-registry-change" ∷ "post-commit-review" ∷ []

abbrev pub default_policy : ReviewPolicy
default_policy = record {
  must_see = default_mandatory;
  collapsed = default_auto_triage;
  source = shipped_default;
}

abbrev texts : List Value → List String
texts [] = []
texts (str s ∷ vs) = s ∷ texts vs
texts (v ∷ vs) = texts vs

abbrev pub str_set : Value → Result ReviewError (List String)
str_set (list vs) = if all is_str (items vs) then ok (texts (items vs)) else err not_types
str_set v = err not_types

-- `set(d) - allowed`
unfoldable pub stray : List String → Entries → Bool
stray allowed end = false
stray allowed (entry k v es) = not (is_one_of allowed k) || stray allowed es

-- `if OPT_IN in block`
abbrev pub opt_in_of : Entries → Result ReviewError (List String)
opt_in_of block = if has "opt-in" block then str_set (get "opt-in" block) else ok []

-- `mandatory & auto_triage`
abbrev pub meets : List String → List String → Bool
meets must_see collapsed = any (λ t. elem t collapsed) must_see

unfoldable pub parse_block : Entries → Result ReviewError ReviewPolicy
unfolding stray
parse_block block = do
  u ← require (not (stray ("mandatory" ∷ "auto-triage" ∷ "opt-in" ∷ []) block)) unknown_key
  must_see ← str_set (get_or "mandatory" (list nil) block)
  collapsed ← str_set (get_or "auto-triage" (list nil) block)
  opted ← opt_in_of block
  w ← require (not (meets must_see collapsed)) conflict
  ok (record { must_see = must_see; collapsed = collapsed; source = program })

unfoldable pub parse_review_policy : Value → Result ReviewError ReviewPolicy
unfolding parse_block
parse_review_policy null = ok default_policy
parse_review_policy (dict block) = parse_block block
parse_review_policy v = err not_a_mapping

abbrev pub is_urgent : Option String → Bool
is_urgent none = false
is_urgent (some p) = str_eq p "urgent"

unfoldable pub classify : ReviewPolicy → String → Option String → Class
classify policy message_type priority =
    if is_urgent priority
    then mandatory
    else if elem message_type policy.must_see
    then mandatory
    else if elem message_type policy.collapsed
    then auto_triage
    else opt_in
