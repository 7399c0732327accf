-- ===== src/Lifecycle/Tests.antt =====
-- src/otaman_core/lifecycle.py: a registry of two programs, and a transition of one.
use otaman_core.Prelude.{String, ◌≢◌, false, none, some, [], ◌∷◌, ok, ◌≡◌, ◌↔◌, refl, All, strip}
use otaman_core.Yaml.{File, unreadable, content, str}
use otaman_core.Yaml.Text.{to_str}
use otaman_core.Lifecycle.{
  active, archived, suspended, LifecycleEntry, Registry, state_of, parse_lifecycle, programs_of,
  coerce_programs, coerce_entry, history_of, coerce_history, coerce_record,
}
use otaman_core.Lifecycle.Registry.{
  load_lifecycle, entry_at, set_entry, insert_entry, get_state, sorted_items, payload, next_entry,
  record_transition, read_program_state,
}
use otaman_core.Lifecycle.Transition.{
  Recorded, record_transition-Recorded, record_transition-forgets,
}
use otaman_core.Lifecycle.Doctor.{FolderAgrees, check_lifecycle, check_lifecycle-silent}

abbrev archived_once : LifecycleEntry
archived_once = record {
  program = "pay";
  state = archived;
  since = "2026-01-02";
  by = "ann";
  reason = some "done";
  history =
      record { state = archived; since = "2026-01-02"; by = "ann"; reason = some "done" } ∷ [];
}

abbrev registry : Registry
registry = ("pay", archived_once) ∷ []

check_lifecycle-silent_example :
    (check_lifecycle registry ("core" ∷ []) (some (("pay", false) ∷ [])) ≡ []) ↔ (
      All (λ p. get_state registry p ≡ active) ("core" ∷ [])
      × All (FolderAgrees (("pay", false) ∷ [])) (sorted_items registry))
check_lifecycle-silent_example = check_lifecycle-silent registry ("core" ∷ []) (("pay", false) ∷ [])

abbrev written : LifecycleEntry
written = record {
  program = "core";
  state = suspended;
  since = "now";
  by = "bob";
  reason = none;
  history = record { state = suspended; since = "now"; by = "bob"; reason = none } ∷ [];
}

abbrev kept_file : File
kept_file = content (payload (("pay", archived_once) ∷ ("core", written) ∷ []))

transition :
    record_transition content
      (content (payload registry))
      "core"
      (str "suspended")
      " bob "
      none
      "now"
    ≡ ok (written, kept_file)
unfolding record_transition load_lifecycle state_of parse_lifecycle payload sorted_items set_entry
    entry_at next_entry insert_entry strip programs_of coerce_programs coerce_entry history_of
    coerce_history coerce_record to_str
transition = refl

record_transition-Recorded_example :
    (before : Registry) × (load_lifecycle (content (payload registry)) ≡ ok before)
    × Recorded before "core" written kept_file
record_transition-Recorded_example =
    record_transition-Recorded content (λ v. refl) (content (payload registry)) "core"
      (str "suspended") " bob " none "now" written kept_file transition

abbrev lost_file : File
lost_file = content (payload (("core", written) ∷ []))

lossy_transition :
    record_transition content unreadable "core" (str "suspended") " bob " none "now"
    ≡ ok (written, lost_file)
unfolding record_transition load_lifecycle state_of parse_lifecycle payload sorted_items set_entry
    entry_at next_entry insert_entry strip
lossy_transition = refl

record_transition-forgets_example :
    (after : Registry) × ((load_lifecycle lost_file ≡ ok after)
      × ((entry_at "core" after ≡ some written)
          × ((written.history
                ≡ record {
                  state = written.state;
                  since = written.since;
                  by = written.by;
                  reason = written.reason;
                }
                  ∷ [])
              × ((q : String)
                  → q ≢ "core"
                  → (entry_at q after ≡ none) × (read_program_state lost_file q ≡ ok active)))))
record_transition-forgets_example =
    record_transition-forgets content (λ v. refl) "core" (str "suspended") " bob " none "now"
      written lost_file lossy_transition
