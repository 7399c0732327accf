-- ===== src/DeliveryEnvelope.antt =====
-- src/otaman_core/delivery_envelope.py: the action classes that a change authorizes. An error that the
-- message of another would raise, at keys that do not sort together, is the same error.
pub mod Covers
pub mod Validated
mod Tests
use otaman_core.Prelude.{
  String, Bool, true, false, not, ◌||◌, ◌&&◌, Option, none, some, List, [], ◌∷◌, ◌++◌, Result, ok,
  err, ◌>>=◌, ◌>>◌, require, all, keep, elem, str_eq, if◌then◌else◌,
}
use otaman_core.Yaml.{Value, Values, null, str, list, dict, nil, cons, end, entry, items, is_str}

-- the `runtime-honored` marker
pub data Honored : Type 0 where
  yes limited : Honored

abbrev pub Registry : Type 0
Registry = List (String × Honored)

abbrev pub class_registry : Registry
class_registry =
    ("hooks-wiring", limited)
    ∷ ("release-publish", limited)
    ∷ ("branch-protection", limited)
    ∷ ("tenant-ssh-write", limited)
    ∷ ("schema-migration", limited)
    ∷ ("service-restart", limited)
    ∷ ("org-secret-write", limited)
    ∷ []

-- the identifiers of `FLOOR`; their descriptions stand in a message only
abbrev pub floor : List String
floor =
    "history-rewrite" ∷ "tenant-or-human-data-delete" ∷ "working-tree-destroy"
    ∷ "credential-write-outside-connections" ∷ "publish-outside-release" ∷ "act-as-human" ∷ []

-- `EnvelopeError`, by what is malformed
pub data EnvelopeError : Type 0 where
  not_a_list not_an_entry not_single class_not_text bad_scope : EnvelopeError
  floor_action unknown_class : String → EnvelopeError

-- A scope is none where the class covers every target.
abbrev pub Scope : Type 0
Scope = Option (List String)

abbrev pub Envelope : Type 0
Envelope = List (String × Scope)

unfoldable pub lookup {ℓ} : {A : Type ℓ} → String → List (String × A) → Option A
lookup k [] = none
lookup k ((j, v) ∷ m) = let rest = lookup k m in if str_eq j k then some v else rest

abbrev texts : List Value → List String
texts [] = []
texts (str s ∷ vs) = s ∷ texts vs
texts (v ∷ vs) = texts vs

abbrev scope_of : Value → Result EnvelopeError Scope
scope_of (list vs) = if all is_str (items vs) then ok (some (texts (items vs))) else err bad_scope
scope_of v = err bad_scope

-- a class with its scope, from one entry of the list
unfoldable pub mention_of : Value → Result EnvelopeError (String × Scope)
mention_of (str name) = ok (name, none)
mention_of (dict (entry (str name) raw_scope end)) =
    scope_of raw_scope >>= λ scope. ok (name, scope)
mention_of (dict (entry key raw_scope end)) = err class_not_text
mention_of (dict es) = err not_single
mention_of v = err not_an_entry

-- what two mentions of a class come to
unfoldable pub widen : Scope → Scope → Scope
widen none scope = none
widen (some prev) none = none
widen (some prev) (some scope) = some (prev ++ keep (λ t. not (elem t prev)) scope)

unfoldable pub mention : String → Scope → Envelope → Envelope
unfolding widen
mention name scope [] = (name, scope) ∷ []
mention name scope ((j, prev) ∷ m) =
    let rest = mention name scope m in
    if str_eq j name then (j, widen prev scope) ∷ m else (j, prev) ∷ rest

unfoldable pub parse_items : Values → Envelope → Result EnvelopeError Envelope
unfolding mention_of mention
parse_items nil out = ok out
parse_items (cons v vs) out = do m ← mention_of v; parse_items vs (mention m.0 m.1 out)

unfoldable pub parse_envelope : Value → Result EnvelopeError Envelope
unfolding parse_items
parse_envelope null = ok []
parse_envelope (list vs) = parse_items vs []
parse_envelope v = err not_a_list

unfoldable pub is_floor : String → Bool
is_floor action_class = elem action_class floor

unfoldable pub runtime_honored : String → Option Honored
runtime_honored action_class = lookup action_class class_registry

abbrev pub is_listed : Option Honored → Bool
is_listed none = false
is_listed (some h) = true

unfoldable pub refuse_floor : Envelope → Result EnvelopeError (Unit {0})
unfolding is_floor
refuse_floor [] = ok tt
refuse_floor ((name, scope) ∷ m) =
    require (not (is_floor name)) (floor_action name) >> refuse_floor m

unfoldable pub refuse_unknown : Envelope → Result EnvelopeError (Unit {0})
unfolding runtime_honored
refuse_unknown [] = ok tt
refuse_unknown ((name, scope) ∷ m) =
    require (is_listed (runtime_honored name)) (unknown_class name) >> refuse_unknown m

unfoldable pub validate_envelope : Value → Result EnvelopeError Envelope
unfolding parse_envelope refuse_floor refuse_unknown
validate_envelope raw = do
  envelope ← parse_envelope raw
  u ← refuse_floor envelope
  w ← refuse_unknown envelope
  ok envelope

abbrev pub is_yes : Option Honored → Bool
is_yes (some yes) = true
is_yes _ = false

-- whether a declared scope covers a target, given or omitted
abbrev pub covers : Option Scope → Option String → Bool
covers none target = false
covers (some none) target = true
covers (some (some targets)) none = false
covers (some (some targets)) (some target) = elem target targets

-- `proceeds_without_prompt`, for any content of the registry
unfoldable pub proceeds_in : Registry → Envelope → String → Option String → Bool
unfolding is_floor
proceeds_in registry envelope action_class target =
    if is_floor action_class
    then false
    else if not (is_yes (lookup action_class registry))
    then false
    else covers (lookup action_class envelope) target

unfoldable pub proceeds_without_prompt : Envelope → String → Option String → Bool
unfolding proceeds_in
proceeds_without_prompt envelope action_class target =
    proceeds_in class_registry envelope action_class target
