-- ===== src/TaskComplete/Filed.antt =====
-- src/otaman_core/task_complete.py: the filings of the bus, the un-ticks in git's history, and whether
-- a task is complete. The bus is the list of the texts of its files, in the order in which they are
-- read. `fromisoformat` gives the instant that a text names; a time without a zone, whose comparison
-- with another raises, is left aside.
use otaman_core.Prelude.{
  ℕ, code, String, Bool, true, false, ◌||◌, Option, none, some, List, [], ◌∷◌, ◌++◌, ltb, str_eq,
  is_empty, is_space, lstrip, rstrip, starts_with, drop_prefix, split_on, if◌then◌else◌,
}
use otaman_core.TaskComplete.{parse_completed_spec, and_then}

-- `\s*` and the first text after it, which may stand on a later line
unfoldable pub first_filled : List String → Option String
first_filled [] = none
first_filled (l ∷ ls) =
    let rest = first_filled ls in
    if is_empty (lstrip is_space l) then rest else some (lstrip is_space l)

abbrev value_at : String → String → List String → Option String
value_at key l ls = if starts_with l key then first_filled (drop_prefix l key ∷ ls) else none

-- `^type:\s*task-complete\s*$`
unfoldable pub is_task_complete : List String → Bool
unfolding first_filled
is_task_complete [] = false
is_task_complete (l ∷ ls) =
    elim (value_at "type:" l ls) [
      | none ↦ false
      | some v ↦ str_eq (rstrip is_space v) "task-complete"
    ]
    || is_task_complete ls

last_char : String → Option String
last_char String.[] = none
last_char (String.◌∷◌ c s) =
    let later = last_char s in elim later [ none ↦ some (String.◌∷◌ c "") | some t ↦ some t ]

-- Where only blanks follow the key, the last of them is taken, but a line break.
unfoldable pub last_blank : List String → Option String
unfolding last_char
last_blank [] = none
last_blank (l ∷ ls) =
    let later = last_blank ls in elim later [ none ↦ last_char l | some t ↦ some t ]

-- `^change:\s*(.+?)\s*$`
unfoldable pub change_of : List String → Option String
unfolding first_filled last_blank
change_of [] = none
change_of (l ∷ ls) =
    let later = change_of ls in
    if starts_with l "change:"
    then elim (first_filled (drop_prefix l "change:" ∷ ls)) [
      | some v ↦ some (rstrip is_space v)
      | none ↦ elim (last_blank (drop_prefix l "change:" ∷ ls)) [ none ↦ later | some t ↦ some t ]
    ]
    else later

-- `(\S+)`
unfoldable pub first_word : String → String
first_word String.[] = ""
first_word (String.◌∷◌ c s) =
    let rest = first_word s in if is_space (code c) then "" else String.◌∷◌ c rest

-- `^timestamp:\s*(\S+)`
unfoldable pub timestamp_of : List String → Option String
unfolding first_filled first_word
timestamp_of [] = none
timestamp_of (l ∷ ls) =
    let later = timestamp_of ls in
    elim (value_at "timestamp:" l ls) [ none ↦ later | some v ↦ some (first_word v) ]

-- `^\*\*Completed\*\*:\s*(.+)$`, one match after the other. A match whose line is blank after the key
-- takes the next line that is not.
unfoldable pub completed_lines : (pending : Bool) → List String → List String
completed_lines pending [] = []
completed_lines true (l ∷ ls) =
    let skipped = completed_lines true ls in
    let taken = completed_lines false ls in
    if is_empty (lstrip is_space l) then skipped else lstrip is_space l ∷ taken
completed_lines false (l ∷ ls) =
    let rest = lstrip is_space (drop_prefix l "**Completed**:") in
    let next = completed_lines false ls in
    let below = completed_lines true ls in
    if starts_with l "**Completed**:" then (if is_empty rest then below else rest ∷ next) else next

-- `str.replace("Z", "+00:00")` and `fromisoformat` are one parameter, from a text to an instant.
abbrev pub Clock : Type 0
Clock = String → Option ℕ

-- Task id to the newest time, if any is known; change to that.
abbrev pub Times : Type 0
Times = List (String × Option ℕ)

unfoldable pub time_of : String → Times → Option (Option ℕ)
time_of tid [] = none
time_of tid ((j, t) ∷ m) = if str_eq j tid then some t else time_of tid m

abbrev pub newest : Option ℕ → Option ℕ → Option ℕ
newest prev none = prev
newest none (some t) = some t
newest (some p) (some t) = if ltb p t then some t else some p

-- `_merge_newest`
unfoldable pub merge_newest : Times → String → Option ℕ → Times
merge_newest [] tid t = (tid, t) ∷ []
merge_newest ((j, p) ∷ m) tid t =
    let rest = merge_newest m tid t in if str_eq j tid then (j, newest p t) ∷ m else (j, p) ∷ rest

unfoldable pub merge_ids : Times → List String → Option ℕ → Times
merge_ids dst [] t = dst
merge_ids dst (tid ∷ ids) t = merge_ids (merge_newest dst tid t) ids t

abbrev pub Filings : Type 0
Filings = List (String × Times)

-- `out.get(change, {})`
unfoldable pub bucket : String → Filings → Times
bucket change [] = []
bucket change ((j, m) ∷ out) = if str_eq j change then m else bucket change out

unfoldable pub set_bucket : String → Times → Filings → Filings
set_bucket change m [] = (change, m) ∷ []
set_bucket change m ((j, n) ∷ out) =
    let rest = set_bucket change m out in if str_eq j change then (j, m) ∷ out else (j, n) ∷ rest

abbrev pub ids_in : Times → List String
ids_in [] = []
ids_in ((tid, t) ∷ m) = tid ∷ ids_in m

abbrev pub add_to : Filings → Option (String × List String) → Option ℕ → Filings
add_to out none t = out
add_to out (some f) t = set_bucket f.0 (merge_ids (bucket f.0 out) f.1 t) out

module _ (is_word : ℕ → Bool) (fromisoformat : Clock) where
  unfoldable pub filing_time : List String → Option ℕ
  unfolding timestamp_of
  filing_time ls = and_then (timestamp_of ls) fromisoformat

  unfoldable pub named_ids : List String → List String
  named_ids [] = []
  named_ids (spec ∷ specs) = parse_completed_spec is_word spec ++ named_ids specs

  -- What one message files: the change and the ids.
  unfoldable pub filing_of : String → Option (String × List String)
  unfolding is_task_complete change_of completed_lines named_ids
  filing_of text =
      let ls = split_on b'\n' text in
      if is_task_complete ls
      then elim (change_of ls) [
        | none ↦ none
        | some change ↦ some (change, named_ids (completed_lines false ls))
      ]
      else none

  abbrev pub add_filing : Filings → String → Filings
  add_filing out text = add_to out (filing_of text) (filing_time (split_on b'\n' text))

  unfoldable pub read_bus : Filings → List String → Filings
  unfolding filing_of
  read_bus out [] = out
  read_bus out (text ∷ texts) = read_bus (add_filing out text) texts

  unfoldable pub filed_complete_by_change : List String → Filings
  unfolding read_bus
  filed_complete_by_change texts = read_bus [] texts

  unfoldable pub filed_complete_at : List String → String → Times
  unfolding filed_complete_by_change
  filed_complete_at texts change = bucket change (filed_complete_by_change texts)

  unfoldable pub filed_complete_ids : List String → String → List String
  unfolding filed_complete_at
  filed_complete_ids texts change = ids_in (filed_complete_at texts change)
