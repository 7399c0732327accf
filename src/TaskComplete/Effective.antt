-- ===== src/TaskComplete/Effective.antt =====
-- src/otaman_core/task_complete.py: last_untick_at and is_effectively_complete. What git says is the parameter `History`: the log's
-- commits, newest first, each with its date, and the lines of a commit's diff, if git shows it.
use otaman_core.Prelude.{
  ℕ, code, String, Bool, true, false, not, ◌||◌, ◌&&◌, Option, none, some, List, [], ◌∷◌, ltb,
  is_space, lstrip, starts_with, drop_prefix, any, if◌then◌else◌,
}
use otaman_core.TaskComplete.{completed_all}
use otaman_core.TaskComplete.Filed.{Clock, Times, time_of}

pub record History : Type 0 where
  pub log : Option (List (String × String))
  pub show : String → Option (List String)

abbrev after : Option String → String → Option String
after none p = none
after (some s) p = if starts_with s p then some (drop_prefix s p) else none

abbrev spaces : Option String → Option String
spaces none = none
spaces (some s) = some (lstrip is_space s)

-- `\s+`
abbrev one_space : Option String → Option String
one_space none = none
one_space (some String.[]) = none
one_space (some (String.◌∷◌ c s)) = if is_space (code c) then some (lstrip is_space s) else none

-- `\b` after a task id, which ends in a word character
abbrev at_boundary : (ℕ → Bool) → Option String → Bool
at_boundary is_word none = false
at_boundary is_word (some String.[]) = true
at_boundary is_word (some (String.◌∷◌ c s)) = not (is_word (code c))

-- The filing is older than the un-tick: one of unknown age is.
abbrev pub is_stale : Option ℕ → Option ℕ → Bool
is_stale filed_at none = false
is_stale none (some u) = true
is_stale (some f) (some u) = ltb f u

module _ (is_word : ℕ → Bool) where
  -- `^-\s*-\s*\[[xX]\]\s+ID\b`, for an id that does not start with a blank
  unfoldable pub is_removed : String → String → Bool
  unfolding lstrip
  is_removed task_id line =
      let box = spaces (after (spaces (after (some line) "-")) "-") in
      at_boundary is_word (after (one_space (after box "[x]")) task_id)
      || at_boundary is_word (after (one_space (after box "[X]")) task_id)

  -- `^\+\s*-\s*\[ \]\s+ID\b`
  unfoldable pub is_readded : String → String → Bool
  unfolding lstrip
  is_readded task_id line =
      let box = spaces (after (spaces (after (some line) "+")) "-") in
      at_boundary is_word (after (one_space (after box "[ ]")) task_id)

  abbrev unticks : String → Option (List String) → Bool
  unticks task_id none = false
  unticks task_id (some diff) = any (is_removed task_id) diff && any (is_readded task_id) diff

  module _ (fromisoformat : Clock) (git : History) where
    -- The newest commit that un-ticks the task decides, even if its date cannot be read.
    unfoldable pub scan : String → List (String × String) → Option ℕ
    unfolding is_removed is_readded
    scan task_id [] = none
    scan task_id (commit ∷ older) =
        let rest = scan task_id older in
        if unticks task_id (git.show commit.0) then fromisoformat commit.1 else rest

    abbrev pub last_untick_at : String → Option ℕ
    last_untick_at task_id = elim git.log [ none ↦ none | some log ↦ scan task_id log ]

    abbrev pub weighed : String → Option (Option ℕ) → Bool
    weighed task_id none = false
    weighed task_id (some filed_at) = not (is_stale filed_at (last_untick_at task_id))

    unfoldable pub is_effectively_complete : (honor_all : Bool) → String → Times → Bool
    unfolding scan
    is_effectively_complete honor_all task_id filed = elim (time_of task_id filed) [
      | some filed_at ↦ weighed task_id (some filed_at)
      | none ↦ if honor_all then weighed task_id (time_of completed_all filed) else false
    ]
