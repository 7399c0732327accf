-- ===== src/Bus/CcFanout.antt =====
-- src/otaman_core/bus/cc_fanout.py: the effective CC list of an outgoing message.
pub mod Effective
pub mod Copies
mod Tests
use otaman_core.Prelude.{
  String, Bool, true, false, not, ◌&&◌, ◌||◌, Option, none, some, List, [], ◌∷◌, ◌++◌, str_eq, elem,
  any, keep, is_empty, sorted_set, if◌then◌else◌,
}
use otaman_core.Yaml.{
  Value, Entries, null, str, list, dict, end, entry, items, truthy, is_text, is_one_of, find, get,
}

-- `rule.get("when") or {}`, if it is a mapping
abbrev when_of : Value → Option Entries
when_of (dict es) = some es
when_of v = if truthy v then none else some end

-- `set(when.keys()).issubset({"to", "priority", "type"})`
abbrev supported : Entries → Bool
supported end = true
supported (entry k v es) = is_one_of ("to" ∷ "priority" ∷ "type" ∷ []) k && supported es

-- Equal to the single value, or in the list.
abbrev pub allows : Value → String → Bool
allows (list vs) s = any (is_text s) (items vs)
allows v s = is_text s v

abbrev to_allows : Option Value → String → Bool
to_allows none to = true
to_allows (some v) to = is_text to v

abbrev priority_allows : Option Value → String → Bool
priority_allows none priority = true
priority_allows (some v) priority = allows v priority

-- A rule on the type never matches a caller that gives none.
abbrev type_allows : Option Value → Option String → Bool
type_allows none msg_type = true
type_allows (some v) none = false
type_allows (some v) (some t) = allows v t

abbrev when_matches : Option Entries → String → String → Option String → Bool
when_matches none to priority msg_type = false
when_matches (some when) to priority msg_type =
    supported when
    && to_allows (find "to" when) to
    && priority_allows (find "priority" when) priority
    && type_allows (find "type" when) msg_type

unfoldable pub rule_matches : Entries → String → String → Option String → Bool
rule_matches rule to priority msg_type =
    when_matches (when_of (get "when" rule)) to priority msg_type

abbrev names : List Value → List String
names [] = []
names (str s ∷ vs) = if is_empty s then names vs else s ∷ names vs
names (v ∷ vs) = names vs

abbrev cc_names : Value → List String
cc_names (list vs) = names (items vs)
cc_names v = []

unfoldable pub rule_cc : Entries → List String
rule_cc rule = cc_names (get "cc" rule)

-- The union, as a list of its members.
unfoldable pub evaluate_routing_rules : List Entries → String → String → Option String → List String
evaluate_routing_rules [] to priority msg_type = []
evaluate_routing_rules (rule ∷ rules) to priority msg_type =
    let rest = evaluate_routing_rules rules to priority msg_type in
    if rule_matches rule to priority msg_type then rule_cc rule ++ rest else rest

-- the loop, `seen` being the names that are already in the result
collect : String → List String → List String → List String
collect to seen [] = []
collect to seen (name ∷ names) =
    let skipped = collect to seen names in
    let taken = name ∷ collect to (name ∷ seen) names in
    if str_eq name to || elem name seen then skipped else taken

abbrev pub explicit_names : List String → List String
explicit_names cc = keep (λ s. not (is_empty s)) cc

unfoldable pub compute_effective_cc :
    String → String → List String → List Entries → Option String → List String
unfolding collect
compute_effective_cc to priority explicit_cc routing_rules msg_type = collect to [] (
    explicit_names explicit_cc
    ++ sorted_set (evaluate_routing_rules routing_rules to priority msg_type))
