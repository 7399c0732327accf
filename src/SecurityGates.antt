-- ===== src/SecurityGates.antt =====
-- src/otaman_core/security_gates.py: the resolution of a repo's gates from a parsed configuration.
-- A cost cap is a value of any type with a test `less`, for Python's floats and `<`.
pub mod Merge
pub mod Ladder
pub mod Parse
pub mod Layer
pub mod Accepted
mod Tests
use otaman_core.Prelude.{
  ℕ, String, Bool, true, false, not, ◌&&◌, ◌||◌, Option, none, some, List, [], ◌∷◌, ◌++◌, str_eq,
  elem, any, ltb, if◌then◌else◌,
}

-- `LAYERS`, in cost order
abbrev pub layer_names : List String
layer_names = "pre-commit" ∷ "ci-fast" ∷ "ci-medium" ∷ "ci-slow" ∷ "llm-observer" ∷ []

-- `_DEFAULT_BLOCKING[name]`, for the names of `LAYERS`
abbrev pub default_blocking : String → Bool
default_blocking name = str_eq name "pre-commit" || str_eq name "ci-fast" || str_eq name "ci-medium"

pub record LayerGate (Cost : Type 0) : Type 0 where
  pub layer : String
  pub tools : List String
  pub blocking : Bool
  pub timeout : Option ℕ
  pub scanner_pair : List String
  pub opt_in : Bool
  pub cost_cap : Option Cost

-- A repo's entry; a key that is not there is false, or empty.
pub record RepoEntry (Cost : Type 0) : Type 0 where
  pub opt_out : Bool
  pub languages : List String
  pub layers : List (String × LayerGate Cost)

pub record SecurityGatesConfig (Cost : Type 0) : Type 0 where
  pub languages : List (String × List (String × LayerGate Cost))
  pub repos : List (String × RepoEntry Cost)
  pub relocation_note : String

pub record RepoSecurityGates (Cost : Type 0) : Type 0 where
  pub repo : String
  pub opt_out : Bool
  pub languages : List String
  pub layers : List (LayerGate Cost)

-- `d.get(k)`
unfoldable pub lookup {ℓ} : {A : Type ℓ} → String → List (String × A) → Option A
lookup k [] = none
lookup k ((j, v) ∷ m) = if str_eq j k then some v else lookup k m

-- `tools.extend(t for t in p.tools if t not in tools)`: the generator sees what is already added.
unfoldable pub extend : List String → List String → List String
extend tools [] = tools
extend tools (t ∷ ts) =
    let known = extend tools ts in
    let added = extend (tools ++ t ∷ []) ts in if elem t tools then known else added

-- `max(timeouts)` and `min(caps)` of the values that are set
unfoldable pub latest : Option ℕ → Option ℕ → Option ℕ
latest none o = o
latest (some a) none = some a
latest (some a) (some b) = if ltb a b then some b else some a

module _ {Cost : Type 0} (less : Cost → Cost → Bool) where
  tightest : Option Cost → Option Cost → Option Cost
  tightest none o = o
  tightest (some a) none = some a
  tightest (some a) (some b) = if less b a then some b else some a

  unfoldable pub all_tools : List String → List (LayerGate Cost) → List String
  all_tools tools [] = tools
  all_tools tools (p ∷ ps) = all_tools (extend tools p.tools) ps

  unfoldable pub all_timeouts : Option ℕ → List (LayerGate Cost) → Option ℕ
  all_timeouts out [] = out
  all_timeouts out (p ∷ ps) = all_timeouts (latest out p.timeout) ps

  all_caps : Option Cost → List (LayerGate Cost) → Option Cost
  unfolding tightest
  all_caps out [] = out
  all_caps out (p ∷ ps) = all_caps (tightest out p.cost_cap) ps

  abbrev pub or_else : {A : Type 0} → List A → List A → List A
  or_else [] ys = ys
  or_else (x ∷ xs) ys = x ∷ xs

  abbrev pub or_value : {A : Type 0} → Option A → Option A → Option A
  or_value none o = o
  or_value (some a) o = some a

  -- the first pair that is set
  first_pair : List (LayerGate Cost) → List String
  first_pair [] = []
  first_pair (p ∷ ps) = or_else p.scanner_pair (first_pair ps)

  abbrev pub any_blocking : String → List (LayerGate Cost) → Bool
  any_blocking name [] = default_blocking name
  any_blocking name (p ∷ ps) = any (λ g. g.blocking) (p ∷ ps)

  -- The union over the languages, before the override
  unfoldable pub union_layer : String → List (LayerGate Cost) → LayerGate Cost
  unfolding all_caps first_pair
  union_layer name parts = record {
    layer = name;
    tools = all_tools [] parts;
    blocking = any_blocking name parts;
    timeout = all_timeouts none parts;
    scanner_pair = first_pair parts;
    opt_in = false;
    cost_cap = all_caps none parts;
  }

  overridden : LayerGate Cost → Option (LayerGate Cost) → LayerGate Cost
  overridden g none = g
  overridden g (some o) = record {
    layer = g.layer;
    tools = or_else o.tools g.tools;
    blocking = o.blocking;
    timeout = or_value o.timeout g.timeout;
    scanner_pair = or_else o.scanner_pair g.scanner_pair;
    opt_in = o.opt_in;
    cost_cap = or_value o.cost_cap g.cost_cap;
  }

  unfoldable pub merge_layer :
      String → List (LayerGate Cost) → Option (LayerGate Cost) → LayerGate Cost
  unfolding overridden
  merge_layer name parts override = overridden (union_layer name parts) override

  abbrev layer_of : String → Option (List (String × LayerGate Cost)) → Option (LayerGate Cost)
  layer_of name none = none
  layer_of name (some m) = lookup name m

  abbrev add_part : Option (LayerGate Cost) → List (LayerGate Cost) → List (LayerGate Cost)
  add_part none ps = ps
  add_part (some p) ps = p ∷ ps

  -- the list `parts` of one layer
  unfoldable pub parts_of : SecurityGatesConfig Cost → String → List String → List (LayerGate Cost)
  parts_of config name [] = []
  parts_of config name (la ∷ langs) =
      add_part (layer_of name (lookup la config.languages)) (parts_of config name langs)

  add_layer :
      String
      → List (LayerGate Cost)
      → Option (LayerGate Cost)
      → List (LayerGate Cost)
      → List (LayerGate Cost)
  add_layer name [] none rest = rest
  add_layer name parts override rest = merge_layer name parts override ∷ rest

  unfoldable pub resolve_layers :
      SecurityGatesConfig Cost
      → List (String × LayerGate Cost)
      → List String
      → List String
      → List (LayerGate Cost)
  unfolding add_layer
  resolve_layers config overrides langs [] = []
  resolve_layers config overrides langs (name ∷ names) =
      add_layer name (parts_of config name langs) (lookup name overrides)
        (resolve_layers config overrides langs names)

  entry_of : Option (RepoEntry Cost) → RepoEntry Cost
  entry_of none = record { opt_out = false; languages = []; layers = [] }
  entry_of (some e) = e

  resolved :
      SecurityGatesConfig Cost → String → List String → RepoEntry Cost → RepoSecurityGates Cost
  resolved config repo languages e =
      if e.opt_out
      then record { repo = repo; opt_out = true; languages = []; layers = [] }
      else record {
        repo = repo;
        opt_out = false;
        languages = or_else e.languages languages;
        layers = resolve_layers config e.layers (or_else e.languages languages) layer_names;
      }

  -- `languages` is empty where the caller gives none.
  unfoldable pub resolve_repo_gates :
      SecurityGatesConfig Cost → String → List String → RepoSecurityGates Cost
  unfolding resolved entry_of
  resolve_repo_gates config repo languages =
      resolved config repo languages (entry_of (lookup repo config.repos))
