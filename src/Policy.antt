-- ===== src/Policy.antt =====
-- src/otaman_core/policy.py: the composition algebra and the effective policy of a pack. The rules
-- of a policy are a dict from texts, as its annotation says.
pub mod Load
pub mod Select
pub mod Branches
pub mod Algebra
pub mod Shipped
pub mod Refusals
pub mod Drift
pub mod Conforms
mod Tests
use otaman_core.Prelude.{
  String, Bool, true, false, not, ◌&&◌, ◌||◌, Option, none, some, List, [], ◌∷◌, ◌++◌, Result, ok,
  err, ◌>>=◌, str_eq, elem, if◌then◌else◌,
}
use otaman_core.Yaml.{Value, bool, truthy}

-- `PolicyError`
pub data PolicyError : Type 0 where
  index_not_mapping version_not_integer packs_not_mapping unreadable : PolicyError
  policy_not_mapping pack_differs name_differs rules_not_mapping not_iterable : PolicyError
  bad_pack bad_narrow_only not_boolean not_found no_shipped : String → PolicyError

-- A dict from texts, in its order.
abbrev pub Rules : Type 0
Rules = List (String × Value)

unfoldable pub rule_value : String → Rules → Option Value
rule_value k [] = none
rule_value k ((j, v) ∷ m) = if str_eq j k then some v else rule_value k m

unfoldable pub set_rule : String → Value → Rules → Rules
set_rule k v [] = (k, v) ∷ []
set_rule k v ((j, w) ∷ m) = if str_eq j k then (k, v) ∷ m else (j, w) ∷ set_rule k v m

pub record Policy : Type 0 where
  pub pack : String
  pub name : String
  pub rules : Rules

-- `LooseningViolation`: what is attempted is always `False`, and `True` is kept.
pub record LooseningViolation : Type 0 where
  pub pack : String
  pub rule : String
  pub layer : String

pub record EffectivePolicy : Type 0 where
  pub pack : String
  pub rules : Rules

pub record Composed : Type 0 where
  pub rules : Rules
  pub violations : List LooseningViolation

abbrev pub is_true : Option Value → Bool
is_true (some (bool b)) = b
is_true _ = false

-- `bool(current)`
abbrev pub is_set : Option Value → Bool
is_set none = false
is_set (some v) = truthy v

-- A boolean setting of a narrow-only rule.
pub narrow_rule : String → String → String → Bool → Composed → Composed
narrow_rule pack layer rule value c =
    if is_true (rule_value rule c.rules) && not value
    then record c {
      violations = c.violations ++ record { pack = pack; rule = rule; layer = layer } ∷ [];
    }
    else record c {
      rules = set_rule rule (bool (is_set (rule_value rule c.rules) || value)) c.rules;
    }

pub narrow_value : String → String → String → Value → Composed → Result PolicyError Composed
unfolding narrow_rule
narrow_value pack layer rule (bool b) c = ok (narrow_rule pack layer rule b c)
narrow_value pack layer rule v c = err (not_boolean rule)

-- the inner loop, over `policy.rules.items()`
unfoldable pub compose_rules :
    String → List String → String → Rules → Composed → Result PolicyError Composed
unfolding narrow_value
compose_rules pack narrow layer [] c = ok c
compose_rules pack narrow layer ((rule, value) ∷ rest) c = do
  c' ←
      if elem rule narrow
      then narrow_value pack layer rule value c
      else ok (record c { rules = set_rule rule value c.rules })
  compose_rules pack narrow layer rest c'

-- the outer loop, over the layers
unfoldable pub compose_layers :
    String → List String → List (String × Policy) → Composed → Result PolicyError Composed
compose_layers pack narrow [] c = ok c
compose_layers pack narrow ((layer, policy) ∷ rest) c = do
  c' ← compose_rules pack narrow layer policy.rules c
  compose_layers pack narrow rest c'

abbrev pub pack_of : List (String × Policy) → String
pack_of [] = ""
pack_of ((layer, policy) ∷ rest) = policy.pack

unfoldable pub compose :
    List (String × Policy)
    → List String
    → Result PolicyError (EffectivePolicy × List LooseningViolation)
compose layers narrow_only = do
  c ← compose_layers (pack_of layers) narrow_only layers (record { rules = []; violations = [] })
  ok (record { pack = pack_of layers; rules = c.rules }, c.violations)
