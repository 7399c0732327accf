-- ===== src/VerificationGates/Parse.antt =====
-- src/otaman_core/verification_gates.py: parse_verification_gates. Where the message of an error
-- could raise in its turn, at keys that do not sort together, it is the same error.
use otaman_core.Prelude.{
  String, Bool, true, false, not, ◌||◌, Option, none, some, List, [], ◌∷◌, Result, ok, err, ◌>>=◌,
  ◌>>◌, require, all, is_empty, strip, if◌then◌else◌,
}
use otaman_core.Yaml.{
  Value, Entries, null, str, list, dict, end, entry, items, is_str, is_null, is_one_of, has, get,
  get_or,
}
use otaman_core.VerificationGates.{
  CriticPolicy, policy_of, is_role_based, CriticError, not_a_mapping, unknown_key, key_not_text,
  not_texts, unknown_policy, no_primary, bad_target_role, no_independent_critic, no_roles,
  no_target_role, HookPolicy, CriticConfig,
}

abbrev pub as_mapping : Value → Result CriticError Entries
as_mapping (dict es) = ok es
as_mapping v = err not_a_mapping

-- `set(d) - allowed`
unfoldable pub stray : List String → Entries → Bool
stray allowed end = false
stray allowed (entry k v es) = not (is_one_of allowed k) || stray allowed es

abbrev texts : List Value → List String
texts [] = []
texts (str s ∷ vs) = s ∷ texts vs
texts (v ∷ vs) = texts vs

unfoldable pub str_tuple : Value → Result CriticError (List String)
str_tuple (list vs) = if all is_str (items vs) then ok (texts (items vs)) else err not_texts
str_tuple v = err not_texts

abbrev text_key : Value → Result CriticError String
text_key (str s) = ok s
text_key v = err key_not_text

unfoldable pub check_policy : Value → Result CriticError CriticPolicy
check_policy v = elim (policy_of v) [ none ↦ err unknown_policy | some p ↦ ok p ]

-- a dict whose values are read by `read`
unfoldable pub read_items :
    {A : Type 0} → (Value → Result CriticError A) → Entries → Result CriticError (List (String × A))
read_items read end = ok []
read_items read (entry k v es) = do
  key ← text_key k
  value ← read v
  rest ← read_items read es
  ok ((key, value) ∷ rest)

unfoldable pub fallback_of : Value → Result CriticError (Option CriticPolicy)
fallback_of v = if is_null v then ok none else (check_policy v >>= λ p. ok (some p))

unfoldable pub target_role_of : Value → Result CriticError (Option String)
target_role_of null = ok none
target_role_of (str s) = if is_empty (strip s) then err bad_target_role else ok (some s)
target_role_of v = err bad_target_role

abbrev hook_keys : List String
hook_keys = "primary" ∷ "fallback" ∷ "sensitivity-overrides" ∷ "target-role" ∷ []

unfoldable pub parse_hook : String → Value → Result CriticError HookPolicy
unfolding stray check_policy read_items fallback_of target_role_of
parse_hook hook v = do
  raw ← as_mapping v
  u ← require (not (stray hook_keys raw)) unknown_key
  w ← require (has "primary" raw) no_primary
  primary ← check_policy (get "primary" raw)
  fallback ← fallback_of (get "fallback" raw)
  raw_over ← as_mapping (get_or "sensitivity-overrides" (dict end) raw)
  overrides ← read_items check_policy raw_over
  target_role ← target_role_of (get "target-role" raw)
  ok (record {
    hook = hook;
    primary = primary;
    fallback = fallback;
    sensitivity_overrides = overrides;
    target_role = target_role;
  })

unfoldable pub parse_hooks : Entries → Result CriticError (List (String × HookPolicy))
unfolding parse_hook
parse_hooks end = ok []
parse_hooks (entry k v es) = do
  hook ← text_key k
  policy ← parse_hook hook v
  rest ← parse_hooks es
  ok ((hook, policy) ∷ rest)

-- `"role-based" in pairing`
abbrev pub pairs_role_based : HookPolicy → Bool
pairs_role_based hp =
    is_role_based hp.primary || elim hp.fallback [ none ↦ false | some p ↦ is_role_based p ]

abbrev pub has_role : Option String → Bool
has_role none = false
has_role (some s) = true

abbrev pub has_items {ℓ} : {A : Type ℓ} → List A → Bool
has_items [] = false
has_items (x ∷ xs) = true

unfoldable pub check_hooks :
    (has_roles : Bool) → List (String × HookPolicy) → Result CriticError (Unit {0})
check_hooks has_roles [] = ok tt
check_hooks has_roles ((hook, hp) ∷ hooks) =
    require (pairs_role_based hp) (no_independent_critic hook)
    >> require has_roles (no_roles hook)
    >> require (has_role hp.target_role) (no_target_role hook)
    >> check_hooks has_roles hooks

unfoldable pub parse_block : Entries → Result CriticError CriticConfig
unfolding stray read_items parse_hooks check_hooks
parse_block es = do
  u ← require (not (stray ("clearances" ∷ "hooks" ∷ "roles" ∷ []) es)) unknown_key
  raw_clear ← as_mapping (get_or "clearances" (dict end) es)
  clearances ← read_items str_tuple raw_clear
  raw_roles ← as_mapping (get_or "roles" (dict end) es)
  roles ← read_items str_tuple raw_roles
  raw_hooks ← as_mapping (get_or "hooks" (dict end) es)
  hooks ← parse_hooks raw_hooks
  checked ← check_hooks (has_items roles) hooks
  ok (record { clearances = clearances; hooks = hooks; roles = roles })

unfoldable pub parse_verification_gates : Value → Result CriticError CriticConfig
unfolding parse_block
parse_verification_gates null = ok (record { clearances = []; hooks = []; roles = [] })
parse_verification_gates (dict es) = parse_block es
parse_verification_gates v = err not_a_mapping
