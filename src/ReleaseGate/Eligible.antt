-- ===== src/ReleaseGate/Eligible.antt =====
-- What src/otaman_core/release_gate.py demands of a change that it lets into a cut.
use otaman_core.Prelude.{
  ℕ, ◌≤◌, String, Bool, true, false, not, Option, none, some, List, [], ◌∷◌, elem, any, keep, All,
  All-elem, Bool-cases, inl, inr, ◌↔◌, ◌≡◌, refl, sym, ◌∙◌, arith,
}
use otaman_core.TaskComplete.Filed.{Clock, time_of, filed_complete_at}
use otaman_core.TaskComplete.Effective.{
  History, is_stale, last_untick_at, weighed, is_effectively_complete,
}
use otaman_core.TaskComplete.Evidence.{
  files, newest_filing, newest_filing-files, time_of-filed_complete_at,
}
use otaman_core.ReleaseGate.{eligible, status_of, cut_eligibility}

status_of-eligible :
    (open_tasks : List String) (gate_passed : Bool)
    → (status_of open_tasks gate_passed ≡ eligible) ↔ ((gate_passed ≡ true) × (open_tasks ≡ []))
status_of-eligible [] true = ((λ h. (refl, refl)), λ d. refl)
status_of-eligible [] false = ((λ h. absurd (ground arith)), λ (g, e). absurd (ground arith))
status_of-eligible (t ∷ ts) gate_passed =
    ((λ h. absurd (ground arith)), λ (g, e). absurd (ground arith))

-- A filing holds against an un-tick: there is none, or the filing has a time, and not an earlier one.
abbrev pub HoldsAgainst : Option ℕ → Option ℕ → Type 0
HoldsAgainst none filed_at = Unit
HoldsAgainst (some u) none = ⊥
HoldsAgainst (some u) (some t) = u ≤ t

is_stale-HoldsAgainst :
    (u filed_at : Option ℕ) → (is_stale filed_at u ≡ false) ↔ HoldsAgainst u filed_at
is_stale-HoldsAgainst none filed_at = ((λ h. tt), λ h. refl)
is_stale-HoldsAgainst (some u) none = ((λ h. absurd (ground arith)), λ h. absurd h)
is_stale-HoldsAgainst (some u) (some t) = ground arith

module _ (is_word : ℕ → Bool) (clock : Clock) (git : History) (bus : List String)
    (change : String) where
  -- A message of the bus files the task in its own name, and the newest such filing holds against the
  -- newest un-tick of the task.
  abbrev pub IsDone : String → Type 0
  IsDone tid =
      (filed_at : Option ℕ) × ((newest_filing is_word clock change tid none bus ≡ some filed_at)
        × HoldsAgainst (last_untick_at is_word clock git tid) filed_at)

  abbrev is_done : String → Bool
  is_done tid =
      is_effectively_complete is_word clock git false tid
        (filed_complete_at is_word clock bus change)

  weighed-IsDone :
      (tid : String) (o : Option (Option ℕ))
      → newest_filing is_word clock change tid none bus ≡ o
      → (weighed is_word clock git tid o ≡ true) ↔ IsDone tid
  weighed-IsDone tid none e = ((λ h. ground arith), λ (t, (f, fresh)). ground (arith, e, f))
  weighed-IsDone tid (some t) e =
      let holds : _ = is_stale-HoldsAgainst (last_untick_at is_word clock git tid) t in
      (
        (λ h. (t, (e, holds.0 (ground (arith, h))))),
        λ (u, (f, fresh)).
            let same : t ≡ u = ground (arith, e, f) in
            let not_stale : is_stale t (last_untick_at is_word clock git tid) ≡ false =
              holds.1 (rw same fresh) in
            ground (arith, not_stale),
      )

  is_done-weighed :
      (tid : String) (o : Option (Option ℕ))
      → time_of tid (filed_complete_at is_word clock bus change) ≡ o
      → is_done tid ≡ weighed is_word clock git tid o
  unfolding is_effectively_complete
  is_done-weighed tid none e = rw (is_effectively_complete, e) refl
  is_done-weighed tid (some t) e = rw (is_effectively_complete, e) refl

  is_done-IsDone : (tid : String) → (is_done tid ≡ true) ↔ IsDone tid
  is_done-IsDone tid =
      let o : Option (Option ℕ) = newest_filing is_word clock change tid none bus in
      let same : is_done tid ≡ weighed is_word clock git tid o =
        is_done-weighed tid o (time_of-filed_complete_at is_word clock change tid bus) in
      (
        (λ h. (weighed-IsDone tid o refl).0 (sym same ∙ h)),
        λ d. same ∙ (weighed-IsDone tid o refl).1 d,
      )

  all-IsDone : (ids : List String) → (keep (λ t. not (is_done t)) ids ≡ []) ↔ All IsDone ids
  all-IsDone [] = ((λ h. tt), λ h. refl)
  all-IsDone (tid ∷ ids) = elim (Bool-cases (is_done tid)) [
    | inl done ↦ (
      (λ h. ((is_done-IsDone tid).0 done, (all-IsDone ids).0 (rw done at h))),
      λ (now, later). rw done ((all-IsDone ids).1 later),
    )
    | inr open_task ↦ (
      (λ h. absurd (ground (arith, rw open_task at h))),
      λ (now, later). absurd (ground (arith, open_task, (is_done-IsDone tid).1 now)),
    )
  ]

  -- A cut is eligible exactly when the gate has passed and each task of the change is filed complete in
  -- its own name by a message of the bus, no filing of `--all` counting, of which the newest is not
  -- older than the newest un-tick of the task. The caller passes no filings of its own.
  pub cut_eligibility-eligible :
      (ids : List String) (gate_passed : Bool)
      → ((cut_eligibility is_word clock git bus change ids gate_passed none).status ≡ eligible)
        ↔ ((gate_passed ≡ true) × All IsDone ids)
  unfolding cut_eligibility
  cut_eligibility-eligible ids gate_passed =
      let gate : _ = status_of-eligible (keep (λ t. not (is_done t)) ids) gate_passed in
      (
        (λ h. let (passed, empty) = gate.0 h in (passed, (all-IsDone ids).0 empty)),
        λ (passed, done). gate.1 (passed, (all-IsDone ids).1 done),
      )

-- A task of an eligible cut is named by a message of the bus that files it for the change.
pub cut_eligibility-files :
    (is_word : ℕ → Bool) (clock : Clock) (git : History) (bus : List String) (change : String)
    (ids : List String) (gate_passed : Bool) (tid : String)
    → (cut_eligibility is_word clock git bus change ids gate_passed none).status ≡ eligible
    → elem tid ids ≡ true
    → any (files is_word clock change tid) bus ≡ true
cut_eligibility-files is_word clock git bus change ids gate_passed tid h listed =
    let (passed, done) =
      (cut_eligibility-eligible is_word clock git bus change ids gate_passed).0 h in
    let (filed_at, (known, fresh)) =
      (All-elem (IsDone is_word clock git bus change) ids).0 done tid listed in
    newest_filing-files is_word clock change tid bus filed_at known
