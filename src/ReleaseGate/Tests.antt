-- ===== src/ReleaseGate/Tests.antt =====
-- src/otaman_core/task_complete.py and release_gate.py: two filings of a change, and an un-tick.
use mathlib.Core.List.Perm
use otaman_core.Prelude.{
  ℕ, String, Bool, true, ◌||◌, ◌&&◌, none, some, List, [], ◌∷◌, leb, str_eq, All, ◌↔◌, ◌≡◌, refl,
  if◌then◌else◌, strip, lstrip, rstrip, split_on, starts_with, drop_prefix, ◌==◌,
}
use otaman_core.Yaml.Text.{decimal}
use otaman_core.TaskComplete.{
  task_id_of, parse_completed_spec, completed_all, names_task, drop_folded, drop_tasks, pieces,
  range_of, numbered, range_ids, ids_of_piece, all_ids,
}
use otaman_core.TaskComplete.Filed.{
  Clock, filing_of, filed_complete_at, is_task_complete, change_of, completed_lines, named_ids,
  first_filled, first_word, timestamp_of, filing_time, read_bus, filed_complete_by_change, bucket,
  set_bucket, merge_ids, merge_newest, time_of,
}
use otaman_core.TaskComplete.Effective.{
  History, is_removed, is_readded, scan, is_effectively_complete,
}
use otaman_core.TaskComplete.Evidence.{filed_complete_at-perm}
use otaman_core.ReleaseGate.{eligible, cut_eligibility}
use otaman_core.ReleaseGate.Eligible.{IsDone, cut_eligibility-eligible}

abbrev is_word : ℕ → Bool
is_word n =
    (leb b'0' n && leb n b'9')
    || (leb b'A' n && leb n b'Z')
    || (leb b'a' n && leb n b'z')
    || n == b'_'

abbrev clock : Clock
clock s = if str_eq s "t1" then some 1 else if str_eq s "t2" then some 2 else none

abbrev bus : List String
bus =
    "---\ntype: task-complete\nchange: c\ntimestamp: t1\n---\n**Completed**: 1.1\n"
    ∷ "---\ntype: note\nchange: c\n---\n**Completed**: 1.2\n"
    ∷ "---\ntype: task-complete\nchange: c\ntimestamp: t2\n---\n**Completed**:\nall of them\n" ∷ []

-- A history that un-ticked the first task at the second instant.
abbrev git : History
git = record {
  log = some (("abc", "t2") ∷ []);
  show = λ sha. some ("-- [x] 1.1 Do it" ∷ "+- [ ] 1.1 Do it" ∷ []);
}

abbrev no_git : History
no_git = record { log = none; show = λ sha. none }

suffix_kept : task_id_of is_word " 1.7-bis Do it" ≡ some "1.7-bis"
unfolding task_id_of strip
suffix_kept = refl

-- Two letters end no segment: what is before them is taken.
letter_cut : task_id_of is_word "2.4ab" ≡ some "2"
unfolding task_id_of strip
letter_cut = refl

read_all : parse_completed_spec is_word "ALL" ≡ completed_all ∷ []
unfolding parse_completed_spec drop_folded strip
read_all = refl

-- The range's bounds are numbers; a piece that names no task is passed over.
read_some : parse_completed_spec is_word "Tasks 1.1b, 02.9-2.10 done" ≡ "1.1b" ∷ "2.9" ∷ "2.10" ∷ []
unfolding parse_completed_spec drop_folded strip drop_tasks lstrip pieces all_ids ids_of_piece
    range_of range_ids numbered names_task decimal starts_with drop_prefix
read_some = refl

filed : filed_complete_at is_word clock bus "c" ≡ ("1.1", some 1) ∷ (completed_all, some 2) ∷ []
unfolding filed_complete_at filed_complete_by_change read_bus filing_of filing_time is_task_complete
    change_of completed_lines named_ids first_filled first_word timestamp_of bucket set_bucket
    merge_ids merge_newest split_on starts_with drop_prefix lstrip rstrip parse_completed_spec
    drop_folded strip drop_tasks pieces all_ids ids_of_piece range_of range_ids numbered names_task
    decimal
filed = refl

abbrev earlier : String
earlier = "---\ntype: task-complete\nchange: c\ntimestamp: t1\n---\n**Completed**: 1.1\n"

abbrev later : String
later = "---\ntype: task-complete\nchange: c\ntimestamp: t2\n---\n**Completed**: 1.1\n"

filed_complete_at-perm_example :
    time_of "1.1" (filed_complete_at is_word clock (later ∷ earlier ∷ []) "c")
    ≡ time_of "1.1" (filed_complete_at is_word clock (earlier ∷ later ∷ []) "c")
filed_complete_at-perm_example =
    filed_complete_at-perm is_word clock "c" "1.1" (later ∷ earlier ∷ []) (earlier ∷ later ∷ [])
      (Perm.swap earlier later [])

cut_eligibility-eligible_example :
    ((cut_eligibility is_word clock no_git bus "c" ("1.1" ∷ []) true none).status ≡ eligible)
    ↔ ((true ≡ true) × All (IsDone is_word clock no_git bus "c") ("1.1" ∷ []))
cut_eligibility-eligible_example =
    cut_eligibility-eligible is_word clock no_git bus "c" ("1.1" ∷ []) true

-- An un-tick after the filing takes it back; `--all` does not count.
taken_back :
    (cut_eligibility is_word clock git bus "c" ("1.1" ∷ "1.2" ∷ []) true none).outstanding
    ≡ "1.1" ∷ "1.2" ∷ []
unfolding cut_eligibility is_effectively_complete scan is_removed is_readded filed_complete_at
    filed_complete_by_change read_bus filing_of filing_time is_task_complete change_of
    completed_lines named_ids first_filled first_word timestamp_of bucket set_bucket merge_ids
    merge_newest split_on starts_with drop_prefix lstrip rstrip parse_completed_spec drop_folded
    strip drop_tasks pieces all_ids ids_of_piece range_of range_ids numbered names_task decimal
    time_of
taken_back = refl
