-- ===== src/SpecLifecycle.antt =====
-- src/otaman_core/spec_lifecycle.py: the stages of a change, and the tests on a change's
-- .openspec.yaml that the gates and the writers share.
pub mod OpenSpec
pub mod SpecPolicy
pub mod Marker
pub mod Gates
pub mod Ratify
pub mod SpecApproved
pub mod AutoArchive
pub mod Stages
pub mod Modes
pub mod Verdicts
pub mod Dispatching
pub mod History
pub mod Machine
pub mod Openings
pub mod Cascade
pub mod Approvers
pub mod Writes
mod Tests
mod ActTests
use otaman_core.Prelude.{
  ℕ, zero, suc, ◌+◌, String, Bool, true, false, not, ◌||◌, ◌&&◌, Option, none, some, List, [], ◌∷◌,
  Result, ok, err, ◌>>=◌, require, ltb, leb, is_empty, strip, str_eq, length, if◌then◌else◌,
}
use otaman_core.Yaml.{Value, Entries, str, get, is_text, is_hashable, truthy}

abbrev pub stages : List String
stages =
    "pre-proposal" ∷ "proposed" ∷ "approved" ∷ "authored" ∷ "spec-approved" ∷ "dispatched"
    ∷ "implemented" ∷ "verified" ∷ "archived" ∷ []

abbrev pub spec_approved_stage : String
spec_approved_stage = "spec-approved"

abbrev pub cto_role : String
cto_role = "cto"

-- `SpecLifecycleError`; and the TypeError of `in` on a set, at a stage that is a list or a dict.
pub data SpecError : Type 0 where
  unknown_stage : String → SpecError
  no_identity no_reason unhashable_stage : SpecError

-- `stages.index(s)`, with none for the ValueError
unfoldable pub position : String → List String → Option ℕ
position s [] = none
position s (t ∷ ts) =
    let rest = position s ts in
    if str_eq t s then some 0 else elim rest [ none ↦ none | some i ↦ some (suc i) ]

unfoldable pub nth : ℕ → List String → Option String
nth n [] = none
nth zero (t ∷ ts) = some t
nth (suc n) (t ∷ ts) = nth n ts

unfoldable pub stage_index : String → Result SpecError ℕ
unfolding position
stage_index s = elim (position s stages) [ none ↦ err (unknown_stage s) | some i ↦ ok i ]

unfoldable pub is_forward_transition : String → String → Result SpecError Bool
unfolding stage_index
is_forward_transition from to = do
  later ← stage_index to
  earlier ← stage_index from
  ok (ltb earlier later)

unfoldable pub next_stage : String → Result SpecError (Option String)
unfolding stage_index nth
next_stage s = do
  i ← stage_index s
  ok (if ltb (i + 1) (length stages) then nth (i + 1) stages else none)

unfoldable pub is_research : Entries → Result SpecError Bool
is_research change = do
  u ← require (is_hashable (get "stage" change)) unhashable_stage
  ok (
      is_text "pre-proposal" (get "stage" change)
      || truthy (get "skip_specs" change)
      || truthy (get "research" change))

-- `isinstance(s, str) and s in STAGES and stage_index(s) >= stage_index(floor)`: a stage is in
-- STAGES when `stage_index` does not raise.
abbrev pub same_or_later : Result SpecError ℕ → Result SpecError ℕ → Bool
same_or_later (ok floor) (ok i) = leb floor i
same_or_later _ _ = false

unfoldable pub at_least : String → Value → Bool
unfolding stage_index
at_least floor (str s) = same_or_later (stage_index floor) (stage_index s)
at_least floor v = false

unfoldable pub spec_approved_reached : Entries → Bool
unfolding at_least
spec_approved_reached change = at_least spec_approved_stage (get "stage" change)

-- `isinstance(v, str) and bool(v.strip())`
abbrev pub is_signed : Value → Bool
is_signed (str s) = not (is_empty (strip s))
is_signed v = false

unfoldable pub has_approval : Entries → Bool
has_approval change = is_signed (get "approved_by" change)

unfoldable pub has_scr_approval : Entries → Bool
has_scr_approval change = is_signed (get "scr_approved_by" change)

unfoldable pub amendment_reenters_review :
    (touches_capability_delta is_research_change : Bool) → Bool
amendment_reenters_review touches_capability_delta is_research_change =
    if is_research_change then false else touches_capability_delta
