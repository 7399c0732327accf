-- ===== src/SpecLifecycle/Approvers.antt =====
-- Who may approve a specification (src/otaman_core/spec_lifecycle.py: resolve_spec_approver).
use otaman_core.Prelude.{
  String, Bool, true, false, ◌||◌, Option, none, some, List, is_empty, strip, Bool-cases, inl, inr,
  ◌≡◌, refl, arith,
}
use otaman_core.Roster.{Human}
use otaman_core.Roster.Resolve.{resolve_roster_human, only_if}
use otaman_core.Roster.Laws.{IsFirst, first_match-IsFirst}
use otaman_core.SpecLifecycle.SpecApproved.{may_approve, resolve_spec_approver}

only_if-some :
    (p : Human → Bool) (o : Option Human) (h : Human)
    → only_if p o ≡ some h
    → (o ≡ some h) × (p h ≡ true)
only_if-some p none h e = ground arith
only_if-some p (some g) h e = elim (Bool-cases (p g)) [
  | inl y ↦ let same : g ≡ h = ground arith in rw (← same) (refl, y)
  | inr n ↦ ground (arith, n)
]

resolve_roster_human-IsFirst :
    (lower : String → String) (roster : List Human) (identity : Option String) (h : Human)
    → resolve_roster_human lower roster identity ≡ some h
    → (name : String) × (identity ≡ some name)
      × (is_empty (strip name) ≡ false)
      × IsFirst lower (lower (strip name)) roster h
unfolding resolve_roster_human
resolve_roster_human-IsFirst lower roster none h e = ground arith
resolve_roster_human-IsFirst lower roster (some name) h e =
    elim (Bool-cases (is_empty name || is_empty (strip name))) [
      | inl blank ↦ ground (arith, blank)
      | inr filled ↦ (
        name,
        refl,
        ground (arith, filled),
        first_match-IsFirst lower (lower (strip name)) roster h (ground (arith, filled)),
      )
    ]

-- Whoever is resolved as the approver of a specification holds the cto or the approver role, and is
-- the first person of the roster whom the stripped and lowered identity names; the identity is not
-- blank.
pub resolve_spec_approver-eligible :
    (lower : String → String) (roster : List Human) (identity : Option String) (h : Human)
    → resolve_spec_approver lower roster identity ≡ some h
    → (may_approve h ≡ true)
      × ((name : String) × (identity ≡ some name)
          × (is_empty (strip name) ≡ false)
          × IsFirst lower (lower (strip name)) roster h)
unfolding resolve_spec_approver
resolve_spec_approver-eligible lower roster identity h e =
    let (found, may) = only_if-some may_approve (resolve_roster_human lower roster identity) h e in
    (may, resolve_roster_human-IsFirst lower roster identity h found)
