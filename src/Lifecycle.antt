-- ===== src/Lifecycle.antt =====
-- src/otaman_core/lifecycle.py: the registry of program states and its transitions. A registry is a
-- dict from program names, as its annotation says.
pub mod Registry
pub mod RoundTrip
pub mod Transition
pub mod Doctor
mod Tests
use otaman_core.Prelude.{
  String, Bool, true, false, Option, none, some, List, [], ◌∷◌, ◌++◌, Result, ok, err, ◌>>=◌,
  str_eq, if◌then◌else◌,
}
use otaman_core.Yaml.{
  Value, Values, Entries, null, str, list, dict, nil, cons, end, entry, truthy, get, get_or,
  is_text,
}
use otaman_core.Yaml.Text.{to_str}

pub data State : Type 0 where
  active limited suspended archived : State

abbrev pub state_text : State → String
state_text active = "active"
state_text limited = "limited"
state_text suspended = "suspended"
state_text archived = "archived"

-- `state in LIFECYCLE_STATES`
unfoldable pub state_of : Value → Option State
state_of v =
    if is_text "active" v
    then some active
    else if is_text "limited" v
    then some limited
    else if is_text "suspended" v
    then some suspended
    else if is_text "archived" v
    then some archived
    else none

-- `LifecycleError`
pub data LifecycleError : Type 0 where
  not_mapping programs_not_mapping name_not_text no_author : LifecycleError
  entry_not_mapping bad_state history_not_list history_not_mapping bad_history_state :
      String → LifecycleError
  unknown_state : Value → LifecycleError

pub record LifecycleRecord : Type 0 where
  pub state : State
  pub since : String
  pub by : String
  pub reason : Option String

pub record LifecycleEntry : Type 0 where
  pub program : String
  pub state : State
  pub since : String
  pub by : String
  pub reason : Option String
  pub history : List LifecycleRecord

abbrev pub Registry : Type 0
Registry = List (String × LifecycleEntry)

-- `str(reason) if reason is not None else None`
abbrev pub reason_of : Value → Option String
reason_of null = none
reason_of v = some (to_str v)

abbrev pub checked_state : Value → LifecycleError → Result LifecycleError State
checked_state v e = elim (state_of v) [ none ↦ err e | some s ↦ ok s ]

unfoldable pub coerce_record : String → Value → Result LifecycleError LifecycleRecord
coerce_record program (dict raw) = do
  state ← checked_state (get "state" raw) (bad_history_state program)
  ok (record {
    state = state;
    since = to_str (get_or "since" (str "") raw);
    by = to_str (get_or "by" (str "") raw);
    reason = reason_of (get "reason" raw);
  })
coerce_record program v = err (history_not_mapping program)

unfoldable pub coerce_history : String → Values → Result LifecycleError (List LifecycleRecord)
coerce_history program nil = ok []
coerce_history program (cons v vs) = do
  r ← coerce_record program v
  rs ← coerce_history program vs
  ok (r ∷ rs)

unfoldable pub history_of : String → Value → Result LifecycleError (List LifecycleRecord)
history_of program (list vs) = coerce_history program vs
history_of program v = err (history_not_list program)

unfoldable pub coerce_entry : String → Value → Result LifecycleError LifecycleEntry
coerce_entry program (dict raw) = do
  state ← checked_state (get "state" raw) (bad_state program)
  history ← history_of program (get_or "history" (list nil) raw)
  ok (record {
    program = program;
    state = state;
    since = to_str (get_or "since" (str "") raw);
    by = to_str (get_or "by" (str "") raw);
    reason = reason_of (get "reason" raw);
    history = history;
  })
coerce_entry program v = err (entry_not_mapping program)

unfoldable pub coerce_programs : Entries → Result LifecycleError Registry
coerce_programs end = ok []
coerce_programs (entry (str name) v es) = do
  e ← coerce_entry name v
  rest ← coerce_programs es
  ok ((name, e) ∷ rest)
coerce_programs (entry k v es) = err name_not_text

unfoldable pub programs_of : Value → Result LifecycleError Registry
programs_of null = ok []
programs_of (dict es) = coerce_programs es
programs_of v = err programs_not_mapping

unfoldable pub parse_lifecycle : Value → Result LifecycleError Registry
parse_lifecycle null = ok []
parse_lifecycle (dict es) = programs_of (get "programs" es)
parse_lifecycle v = err not_mapping
