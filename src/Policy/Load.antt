-- ===== src/Policy/Load.antt =====
-- The loaders of policy.py: the index of the packs, and the policy files. What stands on disk is a
-- parameter; a rule under a key that is not a text is left out of the dict from texts.
use otaman_core.Prelude.{
  String, Option, none, some, List, [], ◌∷◌, Result, ok, err, ◌>>=◌, ◌>>◌, require, all,
  if◌then◌else◌,
}
use otaman_core.Yaml.{
  Value, Entries, File, absent, unreadable, content, null, int, str, list, dict, nil, end, entry,
  items, is_str, is_int, is_text, truthy, get_or,
}
use otaman_core.Policy.{
  PolicyError, index_not_mapping, version_not_integer, packs_not_mapping, policy_not_mapping,
  pack_differs, name_differs, rules_not_mapping, bad_pack, bad_narrow_only, Rules, Policy,
}
use otaman_core.Yaml.Text.{to_str}

pub record PackSpec : Type 0 where
  pub name : Value
  pub narrow_only : List String

pub record PolicyIndex : Type 0 where
  pub schema_version : Value
  pub packs : List PackSpec

abbrev pub schema_version : Value
schema_version = int 1

narrow_in : List PackSpec → String → List String
narrow_in [] pack = []
narrow_in (spec ∷ specs) pack =
    if is_text pack spec.name then spec.narrow_only else narrow_in specs pack

-- `PolicyIndex.narrow_only`
unfoldable pub narrow_only : PolicyIndex → String → List String
unfolding narrow_in
narrow_only index pack = narrow_in index.packs pack

abbrev texts : List Value → List String
texts [] = []
texts (str s ∷ vs) = s ∷ texts vs
texts (v ∷ vs) = texts vs

-- a list whose members are all texts
narrow_list : Value → String → Result PolicyError (List String)
narrow_list (list vs) name =
    if all is_str (items vs) then ok (texts (items vs)) else err (bad_narrow_only name)
narrow_list v name = err (bad_narrow_only name)

-- `spec or {}`, which has to be a mapping
pack_spec : Value → Value → Result PolicyError PackSpec
unfolding narrow_list
pack_spec name (dict es) = do
  keys ← narrow_list (get_or "narrow_only" (get_or "narrow-only" (list nil) es) es) (to_str name)
  ok (record { name = name; narrow_only = keys })
pack_spec name v =
    if truthy v then err (bad_pack (to_str name)) else ok (record { name = name; narrow_only = [] })

pack_specs : Entries → Result PolicyError (List PackSpec)
unfolding pack_spec
pack_specs end = ok []
pack_specs (entry k v es) = do spec ← pack_spec k v; rest ← pack_specs es; ok (spec ∷ rest)

packs_of : Value → Result PolicyError (List PackSpec)
unfolding pack_specs
packs_of (dict es) = pack_specs es
packs_of v = err packs_not_mapping

unfoldable pub parse_policy_index : Value → Result PolicyError PolicyIndex
unfolding packs_of
parse_policy_index null = ok (record { schema_version = schema_version; packs = [] })
parse_policy_index (dict es) = do
  require (is_int (get_or "schema_version" schema_version es)) version_not_integer
  packs ← packs_of (get_or "packs" (dict end) es)
  ok (record { schema_version = get_or "schema_version" schema_version es; packs = packs })
parse_policy_index v = err index_not_mapping

unfoldable pub load_policy_index : File → Result PolicyError PolicyIndex
load_policy_index absent = ok (record { schema_version = schema_version; packs = [] })
load_policy_index unreadable = err PolicyError.unreadable
load_policy_index (content v) = parse_policy_index v

text_rules : Entries → Rules
text_rules end = []
text_rules (entry (str k) v es) = (k, v) ∷ text_rules es
text_rules (entry k v es) = text_rules es

rules_of : Value → Result PolicyError Rules
unfolding text_rules
rules_of (dict es) = ok (text_rules es)
rules_of v = err rules_not_mapping

unfoldable pub parse_policy : String → String → Value → Result PolicyError Policy
unfolding rules_of
parse_policy pack name null = ok (record { pack = pack; name = name; rules = [] })
parse_policy pack name (dict es) = do
  require (is_text pack (get_or "pack" (str pack) es)) pack_differs
  require (is_text name (get_or "name" (str name) es)) name_differs
  rules ← rules_of (get_or "rules" (dict end) es)
  ok (record { pack = pack; name = name; rules = rules })
parse_policy pack name v = err policy_not_mapping

unfoldable pub load_policy : File → String → String → Result PolicyError (Option Policy)
load_policy absent pack name = ok none
load_policy unreadable pack name = err PolicyError.unreadable
load_policy (content v) pack name = do policy ← parse_policy pack name v; ok (some policy)
