-- ===== src/Lifecycle/Doctor.antt =====
-- `check_lifecycle` of lifecycle.py: the advisory checks of the doctor.
use otaman_core.Prelude.{
  String, Bool, true, false, not, ◌&&◌, Option, none, some, List, [], ◌∷◌, ◌++◌, str_eq, eq_iff,
  elem, sorted_set, elem-sorted_set, All-elem, if◌then◌else◌, ◌≡◌, refl, ◌↔◌, ◌⊎◌, inl, inr, arith,
  All, Bool-cases, eq_refl, sym, ◌∙◌,
}
use otaman_core.Lifecycle.{State, active, archived, LifecycleEntry, Registry}
use otaman_core.Lifecycle.Registry.{get_state, sorted_items}

-- The warnings, by what they name.
pub data Finding : Type 0 where
  live_session folder_missing : String → State → Finding
  folder_present : String → Finding

abbrev pub is_active : State → Bool
is_active active = true
is_active s = false

abbrev pub is_archived : State → Bool
is_archived archived = true
is_archived s = false

-- the first loop, over `sorted(set(live_programs))`
live_findings : Registry → List String → List Finding
live_findings registry [] = []
live_findings registry (program ∷ programs) =
    let rest = live_findings registry programs in
    if is_active (get_state registry program)
    then rest
    else live_session program (get_state registry program) ∷ rest

-- `folder_present.get(program)`
unfoldable pub presence : String → List (String × Bool) → Option Bool
presence k [] = none
presence k ((j, b) ∷ m) = if str_eq j k then some b else presence k m

folder_finding : String → State → Option Bool → List Finding
folder_finding program state none = []
folder_finding program state (some present) =
    if is_archived state && present
    then folder_present program ∷ []
    else if not (is_archived state) && not present
    then folder_missing program state ∷ []
    else []

-- the second loop, over `sorted(registry)`
folder_findings : Registry → List (String × Bool) → List Finding
unfolding folder_finding
folder_findings [] present = []
folder_findings ((k, e) ∷ m) present =
    folder_finding k e.state (presence k present) ++ folder_findings m present

given_folders : Registry → Option (List (String × Bool)) → List Finding
given_folders registry none = []
given_folders registry (some present) = folder_findings (sorted_items registry) present

unfoldable pub check_lifecycle :
    Registry → List String → Option (List (String × Bool)) → List Finding
unfolding live_findings given_folders folder_findings
check_lifecycle registry live_programs folders =
    live_findings registry (sorted_set live_programs) ++ given_folders registry folders

append_nil_iff : (xs ys : List Finding) → (xs ++ ys ≡ []) ↔ ((xs ≡ []) × (ys ≡ []))
append_nil_iff [] ys = ((λ h. (refl, h)), λ h. h.1)
append_nil_iff (x ∷ xs) ys = ((λ h. absurd (ground arith)), λ h. absurd (ground arith))

live_findings_iff :
    (registry : Registry) (ps : List String)
    → (live_findings registry ps ≡ [])
      ↔ ((p : String) → elem p ps ≡ true → get_state registry p ≡ active)
unfolding live_findings
live_findings_iff registry [] = ((λ h p e. absurd (cc)), λ h. refl)
live_findings_iff registry (q ∷ ps) = elim (Bool-cases (is_active (get_state registry q))) [
  | inl fine ↦ rw fine (
    (λ h p e. elim (Bool-cases (str_eq p q)) [
      | inl same ↦ rw ((eq_iff p q).0 same) (active_of (get_state registry q) fine)
      | inr other ↦ (live_findings_iff registry ps).0 h p (rw other at e)
    ]),
    λ h. (live_findings_iff registry ps).1 (λ p e. h p (ground arith)),
  )
  | inr bad ↦ rw bad ((λ h. absurd (ground arith)), λ h. absurd (ground (arith, eq_refl q, h q)))
]
  where
    active_of : (s : State) → is_active s ≡ true → s ≡ active
    active_of active h = refl
    active_of s h = ground arith

-- A program's folder is where its state says: gone if it is archived, and there otherwise.
abbrev pub FolderAgrees : List (String × Bool) → String × LifecycleEntry → Type 0
FolderAgrees present e =
    (presence e.0 present ≡ none) ⊎ (presence e.0 present ≡ some (not (is_archived e.1.state)))

folder_findings_iff :
    (m : Registry) (present : List (String × Bool))
    → (folder_findings m present ≡ []) ↔ All (FolderAgrees present) m
unfolding folder_findings
folder_findings_iff [] present = ((λ h. tt), λ h. refl)
folder_findings_iff ((k, e) ∷ m) present =
    let (split, join) =
      append_nil_iff (folder_finding k e.state (presence k present)) (folder_findings m present) in
    (
      λ h. (
        agrees e.state (presence k present) (split h).0,
        (folder_findings_iff m present).0 (split h).1,
      ),
      λ h. join (silent e.state (presence k present) h.0, (folder_findings_iff m present).1 h.1),
    )
  where
    agrees :
        (s : State) (o : Option Bool)
        → folder_finding k s o ≡ []
        → (o ≡ none) ⊎ (o ≡ some (not (is_archived s)))
    agrees s none h = inl refl
    agrees s (some b) h = inr (ground arith)

    silent :
        (s : State) (o : Option Bool)
        → (o ≡ none) ⊎ (o ≡ some (not (is_archived s)))
        → folder_finding k s o ≡ []
    silent s none h = refl
    silent s (some b) h = ground arith

-- The doctor is silent exactly when every live program is active and, where the layout is given,
-- every registered program's folder is where its state says.
pub check_lifecycle-silent :
    (registry : Registry) (live_programs : List String) (present : List (String × Bool))
    → (check_lifecycle registry live_programs (some present) ≡ []) ↔ (
        All (λ p. get_state registry p ≡ active) live_programs
        × All (FolderAgrees present) (sorted_items registry))
unfolding check_lifecycle
check_lifecycle-silent registry live_programs present =
    let (split, join) =
      append_nil_iff (live_findings registry (sorted_set live_programs))
        (folder_findings (sorted_items registry) present) in
    let (live_to, live_from) = live_findings_iff registry (sorted_set live_programs) in
    let (folder_to, folder_from) = folder_findings_iff (sorted_items registry) present in
    let (all_to, all_from) = All-elem (λ p. get_state registry p ≡ active) live_programs in
    (
      λ h. (
        all_from (λ p e. live_to (split h).0 p (elem-sorted_set p live_programs ∙ e)),
        folder_to (split h).1,
      ),
      λ h. join (
        live_from (λ p e. all_to h.0 p (sym (elem-sorted_set p live_programs) ∙ e)),
        folder_from h.1,
      ),
    )
