-- ===== src/SecurityGates/Parse.antt =====
-- src/otaman_core/security_gates.py: the parser of the `security-gates` block. `nonnegative` is
-- Python's `v >= 0` on a number, and `float_of` its `float(v)`. A key of `languages` or `repos` that is
-- not a text is checked and dropped: no lookup asks for it.
use otaman_core.Prelude.{
  ℕ, String, Bool, true, false, not, ◌&&◌, ◌||◌, Option, none, some, List, [], ◌∷◌, Result, ok, err,
  ◌>>=◌, ◌>>◌, require, str_eq, elem, all, if◌then◌else◌,
}
use otaman_core.Yaml.{
  Value, Entries, null, bool, int, negative, float, str, list, dict, nil, end, entry, items, is_str,
  truthy, is_one_of, has, get, get_or,
}
use otaman_core.SecurityGates.{
  layer_names, default_blocking, LayerGate, RepoEntry, SecurityGatesConfig,
}

abbrev pub scanners : List String
scanners = "trivy" ∷ "grype" ∷ "osv-scanner" ∷ []

abbrev pub layer_fields : List String
layer_fields = "tools" ∷ "blocking" ∷ "timeout" ∷ "scanner-pair" ∷ "opt-in" ∷ "cost-cap" ∷ []

abbrev pub relocation_note : String
relocation_note =
    "security-gates lives in platform.yaml today; its anticipated home is verification-gates.yaml under JTBD-59. One home at a time — do not declare both."

-- `SecurityGatesError`, by what is malformed
pub data GateError : Type 0 where
  not_a_mapping unknown_layer unknown_key bad_tools bad_timeout bad_cost_cap : GateError
  pair_elsewhere pair_not_texts not_a_pair unknown_scanner opt_in_elsewhere opt_in_default :
      GateError
  bad_languages bad_note : GateError

unfoldable pub as_mapping : Value → Result GateError Entries
as_mapping (dict es) = ok es
as_mapping v = err not_a_mapping

-- `set(d) - allowed` is not empty
pub stray : List String → Entries → Bool
stray allowed end = false
stray allowed (entry k v es) = not (is_one_of allowed k) || stray allowed es

texts : List Value → List String
texts [] = []
texts (str s ∷ vs) = s ∷ texts vs
texts (v ∷ vs) = texts vs

-- a list of texts
unfoldable pub text_list : Value → GateError → Result GateError (List String)
unfolding texts
text_list (list vs) e = if all is_str (items vs) then ok (texts (items vs)) else err e
text_list v e = err e

unfoldable pub distinct_pair : List String → Result GateError (List String)
distinct_pair (a ∷ b ∷ []) =
    if str_eq a b
    then err not_a_pair
    else if elem a scanners && elem b scanners
    then ok (a ∷ b ∷ [])
    else err unknown_scanner
distinct_pair names = err not_a_pair

unfoldable pub parse_scanner_pair : Value → Result GateError (List String)
unfolding text_list distinct_pair
parse_scanner_pair raw = do names ← text_list raw pair_not_texts; distinct_pair names

unfoldable pub parse_timeout : Value → Result GateError (Option ℕ)
parse_timeout null = ok none
parse_timeout (int n) = ok (some n)
parse_timeout (bool b) = ok (some (if b then 1 else 0))
parse_timeout v = err bad_timeout

-- `if "scanner-pair" in body`
unfoldable pub pair_of : String → Entries → Result GateError (List String)
pair_of name body =
    if has "scanner-pair" body
    then (if str_eq name "ci-medium"
        then parse_scanner_pair (get "scanner-pair" body)
        else err pair_elsewhere)
    else ok []

-- `if "opt-in" in body`
unfoldable pub check_opt_in : String → Bool → Entries → Result GateError (Unit {0})
check_opt_in name allow_opt_in body =
    if has "opt-in" body
    then (if not (str_eq name "ci-slow")
        then err opt_in_elsewhere
        else if not allow_opt_in
        then err opt_in_default
        else ok tt)
    else ok tt

-- `d[k] = a`, in front of the items that follow
unfoldable pub keyed {ℓ} : {A : Type ℓ} → Value → A → List (String × A) → List (String × A)
keyed (str s) a rest = (s, a) ∷ rest
keyed k a rest = rest

-- `{k: v for k, v in rbody.items() if k in LAYERS}`
unfoldable pub layer_items : Entries → Entries
layer_items end = end
layer_items (entry k v es) =
    let rest = layer_items es in if is_one_of layer_names k then entry k v rest else rest

-- `if "languages" in rbody`
unfoldable pub repo_languages : Entries → Result GateError (List String)
unfolding text_list
repo_languages rbody =
    if has "languages" rbody then text_list (get "languages" rbody) bad_languages else ok []

module _ {Cost : Type 0} (nonnegative : Value → Bool) (float_of : Value → Cost) where
  capped : Value → Result GateError (Option Cost)
  capped v = if nonnegative v then ok (some (float_of v)) else err bad_cost_cap

  pub parse_cap : Value → Result GateError (Option Cost)
  unfolding capped
  parse_cap null = ok none
  parse_cap (int n) = capped (int n)
  parse_cap (negative n) = capped (negative n)
  parse_cap (bool b) = capped (bool b)
  parse_cap (float z s) = capped (float z s)
  parse_cap v = err bad_cost_cap

  unfoldable pub parse_body : Bool → String → Entries → Result GateError (LayerGate Cost)
  unfolding parse_cap parse_timeout pair_of check_opt_in text_list stray
  parse_body allow_opt_in name body = do
    require (not (stray layer_fields body)) unknown_key
    tools ← text_list (get_or "tools" (list nil) body) bad_tools
    timeout ← parse_timeout (get "timeout" body)
    cost_cap ← parse_cap (get "cost-cap" body)
    pair ← pair_of name body
    check_opt_in name allow_opt_in body
    ok (record {
      layer = name;
      tools = tools;
      blocking = truthy (get_or "blocking" (bool (default_blocking name)) body);
      timeout = timeout;
      scanner_pair = pair;
      opt_in = truthy (get_or "opt-in" (bool false) body);
      cost_cap = cost_cap;
    })

  unfoldable pub parse_layer : Bool → String → Value → Result GateError (LayerGate Cost)
  unfolding parse_body as_mapping
  parse_layer allow_opt_in name raw =
      if elem name layer_names
      then (as_mapping raw >>= parse_body allow_opt_in name)
      else err unknown_layer

  unfoldable pub parse_layer_set :
      Bool → Entries → Result GateError (List (String × LayerGate Cost))
  parse_layer_set allow_opt_in end = ok []
  parse_layer_set allow_opt_in (entry (str name) raw es) = do
    g ← parse_layer allow_opt_in name raw
    rest ← parse_layer_set allow_opt_in es
    ok ((name, g) ∷ rest)
  parse_layer_set allow_opt_in (entry k raw es) = err unknown_layer

  unfoldable pub parse_languages :
      Entries → Result GateError (List (String × List (String × LayerGate Cost)))
  unfolding as_mapping
  parse_languages end = ok []
  parse_languages (entry k raw es) = do
    body ← as_mapping raw
    layers ← parse_layer_set false body
    rest ← parse_languages es
    ok (keyed k layers rest)

  unfoldable pub parse_repo : Entries → Result GateError (RepoEntry Cost)
  unfolding repo_languages layer_items stray
  parse_repo rbody = do
    languages ← repo_languages rbody
    layers ← parse_layer_set true (layer_items rbody)
    require (not (stray ("opt-out" ∷ "languages" ∷ layer_names) rbody)) unknown_key
    ok (record {
      opt_out = truthy (get_or "opt-out" (bool false) rbody);
      languages = languages;
      layers = layers;
    })

  unfoldable pub parse_repos : Entries → Result GateError (List (String × RepoEntry Cost))
  unfolding as_mapping
  parse_repos end = ok []
  parse_repos (entry k raw es) = do
    rbody ← as_mapping raw
    e ← parse_repo rbody
    rest ← parse_repos es
    ok (keyed k e rest)

  unfoldable pub note_of : Value → Result GateError String
  note_of (str s) = ok s
  note_of v = err bad_note

  unfoldable pub parse_block : Entries → Result GateError (SecurityGatesConfig Cost)
  unfolding as_mapping note_of
  parse_block body = do
    langs ← as_mapping (get_or "languages" (dict end) body)
    languages ← parse_languages langs
    entries ← as_mapping (get_or "repos" (dict end) body)
    repos ← parse_repos entries
    note ← note_of (get_or "relocation-note" (str relocation_note) body)
    ok (record { languages = languages; repos = repos; relocation_note = note })

  unfoldable pub parse_security_gates : Value → Result GateError (SecurityGatesConfig Cost)
  unfolding parse_block
  parse_security_gates null =
      ok (record { languages = []; repos = []; relocation_note = relocation_note })
  parse_security_gates (dict body) = parse_block body
  parse_security_gates v = err not_a_mapping

  -- The new home of the block first: `verification-gates.yaml`, if it is given and has the key.
  unfoldable pub resolve_security_gates :
      Entries → Option Entries → Result GateError (SecurityGatesConfig Cost)
  resolve_security_gates platform_config none =
      parse_security_gates (get "security-gates" platform_config)
  resolve_security_gates platform_config (some moved) =
      if has "security-gates" moved
      then parse_security_gates (get "security-gates" moved)
      else parse_security_gates (get "security-gates" platform_config)
