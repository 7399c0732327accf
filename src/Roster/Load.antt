-- ===== src/Roster/Load.antt =====
-- src/otaman_core/human_roster.py: reading the `human-roster:` block.
use otaman_core.Prelude.{
  ℕ, suc, String, Bool, false, not, Option, none, some, List, [], ◌∷◌, Result, ok, err, ◌>>=◌,
  require, is_empty, all, if◌then◌else◌,
}
use otaman_core.Yaml.{
  Value, Values, null, int, negative, str, list, dict, nil, cons, end, File, absent, unreadable,
  content, get, items, is_null, truthy,
}
use otaman_core.Yaml.Text.{repr}
use otaman_core.Roster.{
  UserId, user, negative as below_zero, Human, Label, named, at_index, ConfigError, not_entries,
  not_a_mapping, no_name, bad_email, roles_not_list, no_roles, bad_role, bad_user_id, no_get,
}

-- `isinstance(r, str) and r`
abbrev pub is_filled : Value → Bool
is_filled (str s) = not (is_empty s)
is_filled v = false

abbrev pub label_of : Value → ℕ → Label
label_of name i = if truthy name then named (repr name) else at_index i

unfoldable pub name_of : ℕ → Value → Result ConfigError String
name_of i (str s) = require (not (is_empty s)) (no_name i) >>= λ u. ok s
name_of i v = err (no_name i)

unfoldable pub email_of : Label → Value → Result ConfigError (Option String)
email_of l null = ok none
email_of l (str s) = require (not (is_empty s)) (bad_email l) >>= λ u. ok (some s)
email_of l v = err (bad_email l)

unfoldable pub texts : List Value → List String
texts [] = []
texts (str s ∷ vs) = s ∷ texts vs
texts (v ∷ vs) = texts vs

unfoldable pub roles_of : Label → Value → Result ConfigError (List String)
unfolding texts
roles_of l (list nil) = err (no_roles l)
roles_of l (list (cons v vs)) =
    require (all is_filled (v ∷ items vs)) (bad_role l) >>= λ u. ok (texts (v ∷ items vs))
roles_of l v = err (roles_not_list l)

unfoldable pub user_of : Label → Value → Result ConfigError (Option UserId)
user_of l null = ok none
user_of l (int n) = ok (some (user n))
user_of l (negative n) = ok (some (below_zero n))
user_of l v = err (bad_user_id l)

unfoldable pub coerce_entry : ℕ → Value → Result ConfigError Human
unfolding name_of email_of roles_of user_of
coerce_entry i (dict raw) =
    let label = label_of (get "name" raw) i in
    let user_id =
      if is_null (get "pm-user-id" raw) then get "pm_user_id" raw else get "pm-user-id" raw in
    name_of i (get "name" raw) >>= λ name. email_of label (get "email" raw) >>= λ email.
    roles_of label (get "roles" raw) >>= λ roles. user_of label user_id >>= λ id.
    ok (record { name = name; email = email; roles = roles; pm_user_id = id })
coerce_entry i v = err (not_a_mapping i)

unfoldable pub coerce_entries : ℕ → Values → Result ConfigError (List Human)
coerce_entries i nil = ok []
coerce_entries i (cons v vs) = do h ← coerce_entry i v; hs ← coerce_entries (suc i) vs; ok (h ∷ hs)

unfoldable pub parse_human_roster : Value → Result ConfigError (List Human)
unfolding coerce_entries
parse_human_roster null = ok []
parse_human_roster (list vs) = coerce_entries 0 vs
parse_human_roster v = err not_entries

unfoldable pub block_of : Value → Result ConfigError Value
block_of (dict es) = ok (get "human-roster" es)
block_of v = err no_get

unfoldable pub load_human_roster : File → Result ConfigError (List Human)
unfolding block_of
load_human_roster absent = ok []
load_human_roster unreadable = ok []
load_human_roster (content v) = do
  block ← block_of (if truthy v then v else dict end)
  parse_human_roster block
