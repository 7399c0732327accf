-- ===== src/Lifecycle/RoundTrip.antt =====
-- What is written reads back: the registry survives its own file.
use otaman_core.Prelude.{
  String, Option, none, some, List, [], ◌∷◌, ok, ◌≡◌, refl, arith, All, Bool-cases, inl, inr,
  >>=-eq-ok,
}
use otaman_core.Yaml.{Value, Entries, null, str, list, dict, nil, end, entry, get, get_or}
use otaman_core.Yaml.Text.{to_str}
use otaman_core.Lifecycle.{
  State, active, state_of, LifecycleRecord, LifecycleEntry, Registry, coerce_record, coerce_history,
  history_of, coerce_entry, coerce_programs, programs_of, parse_lifecycle, checked_state, bad_state,
}
use otaman_core.Lifecycle.Registry.{
  before, record_to_yaml, history_to_yaml, entry_to_yaml, insert_entry, sorted_items,
  programs_to_yaml, payload,
}

record_fields :
    (program : String) (s : State) (since author : String) (reason : Option String)
    → coerce_record program
        (record_to_yaml (record { state = s; since = since; by = author; reason = reason }))
      ≡ ok (record { state = s; since = since; by = author; reason = reason })
unfolding coerce_record to_str state_of
record_fields program active since author none = refl
record_fields program active since author (some r) = refl
record_fields program _ since author none = refl
record_fields program _ since author (some r) = refl

coerce_record_round :
    (program : String) (r : LifecycleRecord) → coerce_record program (record_to_yaml r) ≡ ok r
coerce_record_round program r = record_fields program r.state r.since r.by r.reason

coerce_history_round :
    (program : String) (rs : List LifecycleRecord)
    → coerce_history program (history_to_yaml rs) ≡ ok rs
unfolding coerce_history
coerce_history_round program [] = refl
coerce_history_round program (r ∷ rs) =
    rw (coerce_record_round program r) (rw (coerce_history_round program rs) refl)

entry_fields :
    (program : String) (s : State) (since author : String) (reason : Option String)
    (history : List LifecycleRecord)
    → coerce_entry program (
        entry_to_yaml (record {
          program = program;
          state = s;
          since = since;
          by = author;
          reason = reason;
          history = history;
        }))
      ≡ ok (record {
        program = program;
        state = s;
        since = since;
        by = author;
        reason = reason;
        history = history;
      })
unfolding coerce_entry history_of to_str state_of
entry_fields program active since author none history =
    rw (coerce_history_round program history) refl
entry_fields program active since author (some r) history =
    rw (coerce_history_round program history) refl
entry_fields program _ since author none history = rw (coerce_history_round program history) refl
entry_fields program _ since author (some r) history =
    rw (coerce_history_round program history) refl

-- Every entry stands under its own program's name.
abbrev pub IsKeyed : Registry → Type 0
IsKeyed = All (λ e. e.1.program ≡ e.0)

coerce_entry_round :
    (k : String) (e : LifecycleEntry) → e.program ≡ k → coerce_entry k (entry_to_yaml e) ≡ ok e
coerce_entry_round k e h = rw (← h) (entry_fields e.program e.state e.since e.by e.reason e.history)

pub coerce_programs_round : (m : Registry) → IsKeyed m → coerce_programs (programs_to_yaml m) ≡ ok m
unfolding coerce_programs
coerce_programs_round [] h = refl
coerce_programs_round ((k, e) ∷ m) (now, h) =
    rw (coerce_entry_round k e now) (rw (coerce_programs_round m h) refl)

insert_entry-IsKeyed :
    (k : String) (e : LifecycleEntry) (m : Registry)
    → e.program ≡ k
    → IsKeyed m
    → IsKeyed (insert_entry k e m)
unfolding insert_entry
insert_entry-IsKeyed k e [] now h = (now, tt)
insert_entry-IsKeyed k e ((j, d) ∷ m) now (x, h) = elim (Bool-cases (before k j)) [
  | inl first ↦ rw first (now, (x, h))
  | inr later ↦ rw later (x, insert_entry-IsKeyed k e m now h)
]

pub sorted_items-IsKeyed : (m : Registry) → IsKeyed m → IsKeyed (sorted_items m)
unfolding sorted_items
sorted_items-IsKeyed [] h = tt
sorted_items-IsKeyed ((k, e) ∷ m) (now, h) =
    insert_entry-IsKeyed k e (sorted_items m) now (sorted_items-IsKeyed m h)

-- A registry whose entries stand under their programs' names is written so that parsing gives the
-- same entries back, sorted by name: state, time, author, reason and the whole history.
pub parse_lifecycle-payload :
    (m : Registry) → IsKeyed m → parse_lifecycle (payload m) ≡ ok (sorted_items m)
unfolding parse_lifecycle payload programs_of
parse_lifecycle-payload m h = coerce_programs_round (sorted_items m) (sorted_items-IsKeyed m h)

coerce_entry-keyed :
    (k : String) (v : Value) (e : LifecycleEntry) → coerce_entry k v ≡ ok e → e.program ≡ k
unfolding coerce_entry
coerce_entry-keyed k (dict raw) e h =
    let (s, e₁, h₁) = >>=-eq-ok (checked_state (get "state" raw) (bad_state k)) _ h in
    let (hist, e₂, h₂) = >>=-eq-ok (history_of k (get_or "history" (list nil) raw)) _ h₁ in
    ground arith
coerce_entry-keyed k v e h = absurd (ground arith)

-- Whatever the loader accepts stands under its program's name.
pub coerce_programs-IsKeyed : (es : Entries) (m : Registry) → coerce_programs es ≡ ok m → IsKeyed m
unfolding coerce_programs
coerce_programs-IsKeyed end m h = let same : [] ≡ m = ground arith in rw (← same) tt
coerce_programs-IsKeyed (entry (str name) v es) m h =
    let (e, e₁, h₁) = >>=-eq-ok (coerce_entry name v) _ h in
    let (rest, e₂, h₂) = >>=-eq-ok (coerce_programs es) _ h₁ in
    let same : (name, e) ∷ rest ≡ m = ground arith in
    rw (← same) (coerce_entry-keyed name v e e₁, coerce_programs-IsKeyed es rest e₂)
coerce_programs-IsKeyed (entry k v es) m h = absurd (ground arith)

programs_of-IsKeyed : (v : Value) (m : Registry) → programs_of v ≡ ok m → IsKeyed m
unfolding programs_of
programs_of-IsKeyed null m h = let same : [] ≡ m = ground arith in rw (← same) tt
programs_of-IsKeyed (dict es) m h = coerce_programs-IsKeyed es m h
programs_of-IsKeyed v m h = absurd (ground arith)

pub parse_lifecycle-IsKeyed : (v : Value) (m : Registry) → parse_lifecycle v ≡ ok m → IsKeyed m
unfolding parse_lifecycle
parse_lifecycle-IsKeyed null m h = let same : [] ≡ m = ground arith in rw (← same) tt
parse_lifecycle-IsKeyed (dict es) m h = programs_of-IsKeyed (get "programs" es) m h
parse_lifecycle-IsKeyed v m h = absurd (ground arith)
