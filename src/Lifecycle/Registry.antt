-- ===== src/Lifecycle/Registry.antt =====
-- Reading and writing the registry of lifecycle.py. The file system is what `File` says of the one
-- file; `store v` is the file that `yaml.safe_dump(v)` writes, a parameter.
use Prim.Native.Nat.{Ordering}
use Prim.Native.String.{compare}
use otaman_core.Prelude.{
  String, Bool, true, false, not, ◌||◌, Option, none, some, List, [], ◌∷◌, ◌++◌, Result, ok, ◌>>=◌,
  ◌>>◌, require, is_empty, strip, str_eq, if◌then◌else◌,
}
use otaman_core.Yaml.{
  Value, Values, Entries, File, absent, unreadable, content, str, list, dict, nil, cons, end, entry,
  truthy,
}
use otaman_core.Lifecycle.{
  State, active, state_text, LifecycleError, no_author, unknown_state, LifecycleRecord,
  LifecycleEntry, Registry, checked_state, parse_lifecycle,
}

-- An absent file, and one that cannot be read or parsed, give the empty registry.
unfoldable pub load_lifecycle : File → Result LifecycleError Registry
load_lifecycle absent = ok []
load_lifecycle unreadable = ok []
load_lifecycle (content v) = parse_lifecycle (if truthy v then v else dict end)

unfoldable pub entry_at : String → Registry → Option LifecycleEntry
entry_at k [] = none
entry_at k ((j, e) ∷ m) = if str_eq j k then some e else entry_at k m

unfoldable pub set_entry : String → LifecycleEntry → Registry → Registry
set_entry k e [] = (k, e) ∷ []
set_entry k e ((j, d) ∷ m) = if str_eq j k then (k, e) ∷ m else (j, d) ∷ set_entry k e m

abbrev pub state_or_default : Option LifecycleEntry → State
state_or_default none = active
state_or_default (some e) = e.state

unfoldable pub get_state : Registry → String → State
get_state registry program = state_or_default (entry_at program registry)

unfoldable pub read_program_state : File → String → Result LifecycleError State
read_program_state file program = do registry ← load_lifecycle file; ok (get_state registry program)

abbrev pub with_reason : Option String → Entries → Entries
with_reason none es = es
with_reason (some r) es = entry (str "reason") (str r) es

abbrev pub record_to_yaml : LifecycleRecord → Value
record_to_yaml r = dict (
    entry (str "state") (str (state_text r.state))
      (entry (str "since") (str r.since) (entry (str "by") (str r.by) (with_reason r.reason end))))

abbrev pub history_to_yaml : List LifecycleRecord → Values
history_to_yaml [] = nil
history_to_yaml (r ∷ rs) = cons (record_to_yaml r) (history_to_yaml rs)

-- `_entry_to_yaml`
abbrev pub entry_to_yaml : LifecycleEntry → Value
entry_to_yaml e = dict (
    entry (str "state") (str (state_text e.state)) (
      entry (str "since") (str e.since) (
        entry (str "by") (str e.by)
          (with_reason e.reason (entry (str "history") (list (history_to_yaml e.history)) end)))))

abbrev pub before : String → String → Bool
before s t = elim (compare s t) [ Ordering.gt ↦ false | _ ↦ true ]

unfoldable pub insert_entry : String → LifecycleEntry → Registry → Registry
insert_entry k e [] = (k, e) ∷ []
insert_entry k e ((j, d) ∷ m) =
    if before k j then (k, e) ∷ (j, d) ∷ m else (j, d) ∷ insert_entry k e m

-- `sorted(registry.items())`: the names differ, so they alone decide.
unfoldable pub sorted_items : Registry → Registry
sorted_items [] = []
sorted_items ((k, e) ∷ m) = insert_entry k e (sorted_items m)

abbrev pub programs_to_yaml : Registry → Entries
programs_to_yaml [] = end
programs_to_yaml ((k, e) ∷ m) = entry (str k) (entry_to_yaml e) (programs_to_yaml m)

unfoldable pub payload : Registry → Value
payload registry =
    dict (entry (str "programs") (dict (programs_to_yaml (sorted_items registry))) end)

abbrev pub prior_history : Option LifecycleEntry → List LifecycleRecord
prior_history none = []
prior_history (some e) = e.history

-- The entry that a transition makes from the registry that it read.
unfoldable pub next_entry :
    Registry → String → State → String → Option String → String → LifecycleEntry
next_entry registry program state by reason now = record {
  program = program;
  state = state;
  since = now;
  by = strip by;
  reason = reason;
  history =
      prior_history (entry_at program registry)
      ++ record { state = state; since = now; by = strip by; reason = reason } ∷ [];
}

-- `record_transition`, with the time that its clock reads: the new entry and the new file.
module _ (store : Value → File) where
  unfoldable pub record_transition :
      File
      → String
      → Value
      → String
      → Option String
      → String
      → Result LifecycleError (LifecycleEntry × File)
  record_transition file program state by reason now = do
    s ← checked_state state (unknown_state state)
    require (not (is_empty by || is_empty (strip by))) no_author
    registry ← load_lifecycle file
    ok (
      next_entry registry program s by reason now,
      store (payload (set_entry program (next_entry registry program s by reason now) registry)),
    )
