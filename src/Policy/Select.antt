-- ===== src/Policy/Select.antt =====
-- The selection of policy.py, and `effective_policy`, its single read point. The policy folder is
-- the parameter `Folder`: the index, and the file of each policy.
use otaman_core.Prelude.{
  String, Bool, true, false, Option, none, some, List, [], ◌∷◌, ◌++◌, Result, ok, err, ◌>>=◌,
  is_empty, str_eq, if◌then◌else◌,
}
use otaman_core.Yaml.{
  Value, Entries, File, null, bool, str, list, dict, nil, cons, end, entry, items, is_text, truthy,
  get,
}
use otaman_core.Policy.{
  PolicyError, not_found, no_shipped, not_iterable, Rules, Policy, LooseningViolation,
  EffectivePolicy, compose,
}
use otaman_core.Policy.Load.{
  PolicyIndex, schema_version, narrow_only, load_policy_index, load_policy,
}

abbrev pub default_name : String
default_name = "standard"

nonempty_name : Value → Option String
nonempty_name (str s) = if is_empty s then none else some s
nonempty_name v = none

selection_in : String → Value → Option String
unfolding nonempty_name
selection_in pack (dict policies) = nonempty_name (get pack policies)
selection_in pack v = none

-- `_selection_for_layer`
unfoldable pub selection_for_layer : Value → String → Option String
unfolding selection_in
selection_for_layer (dict block) pack = selection_in pack (get "policies" block)
selection_for_layer v pack = none

abbrev keys : Entries → List Value
keys end = []
keys (entry k v es) = k ∷ keys es

-- What `for entry in platform_config.get("repos", []) or []` goes through. The characters of a text
-- are no mappings, and so are passed over.
iterated : Value → Result PolicyError (List Value)
iterated (list vs) = ok (items vs)
iterated (dict es) = ok (keys es)
iterated (str s) = ok []
iterated v = if truthy v then err not_iterable else ok []

abbrev is_named : String → Value → Bool
is_named name (dict es) = is_text name (get "name" es)
is_named name v = false

-- the loop, which breaks at the first entry of that name
layer_of : String → String → List Value → String → List (String × String)
layer_of layer pack [] name = []
layer_of layer pack (v ∷ vs) name =
    let later = layer_of layer pack vs name in
    if is_named name v
    then (elim (selection_for_layer v pack) [ none ↦ [] | some chosen ↦ (layer, chosen) ∷ [] ])
    else later

pub repo_layer : Entries → String → Option String → Result PolicyError (List (String × String))
unfolding iterated layer_of
repo_layer platform_config pack none = ok []
repo_layer platform_config pack (some repo) = do
  entries ← iterated (get "repos" platform_config)
  ok (layer_of "repo" pack entries repo)

agent_entries : Value → List Value
agent_entries (list vs) = items vs
agent_entries v = []

pub agent_layer : Entries → String → Option String → List (String × String)
unfolding agent_entries layer_of
agent_layer platform_config pack none = []
agent_layer platform_config pack (some agent) =
    layer_of "agent" pack (agent_entries (get "agents" platform_config)) agent

abbrev pub or_standard : Option String → String
or_standard none = default_name
or_standard (some name) = name

unfoldable pub select_policy_names :
    Entries → String → Option String → Option String → Result PolicyError (List (String × String))
unfolding repo_layer agent_layer
select_policy_names platform_config pack repo agent = do
  nearer ← repo_layer platform_config pack repo
  ok (
      ("program", or_standard (selection_for_layer (dict platform_config) pack))
      ∷ (nearer ++ agent_layer platform_config pack agent))

abbrev pub git_pack_narrow_only : List String
git_pack_narrow_only =
    "force_push_forbidden" ∷ "owner_admission_required"
    ∷ "agents_merge_human_owned_branch_forbidden" ∷ "require_status_checks"
    ∷ "require_changelog_fragment" ∷ []

abbrev pub git_standard_rules : Rules
git_standard_rules =
    ("force_push_forbidden", bool true)
    ∷ ("owner_admission_required", bool true)
    ∷ ("agents_merge_human_owned_branch_forbidden", bool true)
    ∷ ("require_status_checks", bool true)
    ∷ ("require_changelog_fragment", bool true)
    ∷ ("agent_self_merge_on_owned_repo", bool true)
    ∷ ("branch_owner_convention", str "<type>/<owner>/<topic>")
    ∷ (
      "changelog_fragment",
      dict (
          entry (str "dir") (str "changelog.d") (
            entry (str "filename") (str "<pr>.<category>.md") (
              entry (str "categories")
                (list (
                  cons (str "feature") (
                    cons (str "fix")
                      (cons (str "doc") (cons (str "removal") (cons (str "misc") nil))))))
                (entry (str "exemption_marker") (str "changelog: exempt") end)))),
    )
    ∷ ("branching", null)
    ∷ ("environments", null)
    ∷ ("merge_policy", null)
    ∷ []

unfoldable pub shipped_standard : String → Result PolicyError Policy
shipped_standard pack =
    if str_eq pack "git"
    then ok (record { pack = "git"; name = default_name; rules = git_standard_rules })
    else err (no_shipped pack)

unfoldable pub shipped_index : PolicyIndex
shipped_index = record {
  schema_version = schema_version;
  packs = record { name = str "git"; narrow_only = git_pack_narrow_only } ∷ [];
}

pub record Folder : Type 0 where
  pub index : File
  pub policy : String → String → File

-- `on_disk | shipped`
unfoldable pub effective_narrow_only : Folder → String → Result PolicyError (List String)
effective_narrow_only folder pack = do
  index ← load_policy_index folder.index
  ok (narrow_only index pack ++ narrow_only shipped_index pack)

-- A missing `standard` is the shipped one; any other missing policy is an error.
pub or_shipped : String → String → Option Policy → Result PolicyError Policy
or_shipped pack name (some policy) = ok policy
or_shipped pack name none =
    if str_eq name default_name then shipped_standard pack else err (not_found name)

unfoldable pub load_layers :
    Folder → String → List (String × String) → Result PolicyError (List (String × Policy))
unfolding or_shipped
load_layers folder pack [] = ok []
load_layers folder pack ((layer, name) ∷ rest) = do
  found ← load_policy (folder.policy pack name) pack name
  policy ← or_shipped pack name found
  more ← load_layers folder pack rest
  ok ((layer, policy) ∷ more)

unfoldable pub effective_policy :
    Folder
    → Entries
    → String
    → Option String
    → Option String
    → Result PolicyError (EffectivePolicy × List LooseningViolation)
effective_policy folder platform_config pack repo agent = do
  narrow ← effective_narrow_only folder pack
  names ← select_policy_names platform_config pack repo agent
  layers ← load_layers folder pack names
  compose layers narrow
