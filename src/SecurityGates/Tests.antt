-- ===== src/SecurityGates/Tests.antt =====
-- src/otaman_core/security_gates.py: a repo of two languages, and a block; a cap is a number.
use otaman_core.Prelude.{
  ℕ, String, true, false, none, some, List, [], ◌∷◌, elem, any, ltb, map, keep, NoRepeats, All, ok,
  Bool, ◌≡◌, refl,
}
use otaman_core.SecurityGates.{
  LayerGate, RepoEntry, SecurityGatesConfig, layer_names, lookup, merge_layer, resolve_repo_gates,
  or_else,
}
use otaman_core.Yaml.{Value, int, str, list, dict, nil, cons, end, entry}
use otaman_core.SecurityGates.Parse.{
  relocation_note, parse_security_gates, parse_languages, parse_layer_set, parse_layer, parse_body,
  parse_repos, pair_of, check_opt_in, text_list, as_mapping, keyed, distinct_pair,
  parse_scanner_pair, parse_timeout, parse_block, note_of,
}
use otaman_core.SecurityGates.Accepted.{IsSound, parse_security_gates-IsSound}
use otaman_core.SecurityGates.Merge.{Within, merge_layer_union}
use otaman_core.SecurityGates.Ladder.{configured, resolve_repo_gates-layers}

abbrev python_fast : LayerGate ℕ
python_fast = record {
  layer = "ci-fast";
  tools = "bandit" ∷ "gitleaks" ∷ [];
  blocking = true;
  timeout = some 30;
  scanner_pair = [];
  opt_in = false;
  cost_cap = none;
}

abbrev go_fast : LayerGate ℕ
go_fast = record {
  layer = "ci-fast";
  tools = "gosec" ∷ "gitleaks" ∷ [];
  blocking = false;
  timeout = some 20;
  scanner_pair = [];
  opt_in = false;
  cost_cap = some 5;
}

abbrev both : List (LayerGate ℕ)
both = python_fast ∷ go_fast ∷ []

merge_layer_union_example :
    ((t : String)
      → elem t (merge_layer ltb "ci-fast" both none).tools ≡ any (λ g. elem t g.tools) both)
    × NoRepeats (merge_layer ltb "ci-fast" both none).tools
    × ((merge_layer ltb "ci-fast" both none).blocking ≡ any (λ g. g.blocking) both)
    × All (λ g. Within g.timeout (merge_layer ltb "ci-fast" both none).timeout) both
    × ((merge_layer ltb "ci-fast" both none).opt_in ≡ false)
merge_layer_union_example = merge_layer_union ltb "ci-fast" python_fast (go_fast ∷ [])

abbrev core_entry : RepoEntry ℕ
core_entry = record {
  opt_out = false;
  languages = "python" ∷ [];
  layers = ("ci-slow", go_fast) ∷ [];
}

abbrev config : SecurityGatesConfig ℕ
config = record {
  languages = ("python", ("ci-fast", python_fast) ∷ []) ∷ [];
  repos = ("core", core_entry) ∷ [];
  relocation_note = "";
}

core_listed : lookup "core" config.repos ≡ some core_entry
unfolding lookup
core_listed = refl

resolve_repo_gates-layers_example :
    map (λ g. g.layer) (resolve_repo_gates ltb config "core" ("go" ∷ [])).layers
    ≡ keep
        (configured ltb config core_entry.layers (or_else ltb core_entry.languages ("go" ∷ [])))
        layer_names
resolve_repo_gates-layers_example =
    resolve_repo_gates-layers ltb config "core" ("go" ∷ []) core_entry core_listed refl

abbrev medium : Value
medium = dict (
    entry (str "ci-medium")
      (dict (entry (str "scanner-pair") (list (cons (str "trivy") (cons (str "grype") nil))) end))
      end)

abbrev block : Value
block = dict (entry (str "languages") (dict (entry (str "python") medium end)) end)

abbrev medium_gate : LayerGate ℕ
medium_gate = record {
  layer = "ci-medium";
  tools = [];
  blocking = true;
  timeout = none;
  scanner_pair = "trivy" ∷ "grype" ∷ [];
  opt_in = false;
  cost_cap = none;
}

abbrev parsed : SecurityGatesConfig ℕ
parsed = record {
  languages = ("python", ("ci-medium", medium_gate) ∷ []) ∷ [];
  repos = [];
  relocation_note = relocation_note;
}

abbrev nonnegative : Value → Bool
nonnegative (int n) = true
nonnegative v = false

abbrev float_of : Value → ℕ
float_of (int n) = n
float_of v = 0

block_parses : parse_security_gates nonnegative float_of block ≡ ok parsed
unfolding parse_security_gates parse_block as_mapping parse_languages keyed parse_layer_set
    parse_layer parse_body pair_of check_opt_in text_list distinct_pair parse_scanner_pair
    parse_timeout parse_repos note_of
block_parses = refl

parse_security_gates-IsSound_example : IsSound nonnegative float_of parsed
parse_security_gates-IsSound_example =
    parse_security_gates-IsSound nonnegative float_of block parsed block_parses
