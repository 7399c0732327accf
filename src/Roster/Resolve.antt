-- ===== src/Roster/Resolve.antt =====
-- src/otaman_core/human_roster.py: from the OTAMAN_HUMAN identity to an entry and its role, and the
-- doctor's checks. `lower` is `str.lower`, whose tables of the other alphabets are not written out.
use otaman_core.Prelude.{
  ℕ, code, String, Bool, true, false, not, ◌||◌, ◌&&◌, Option, none, some, List, [], ◌∷◌, ◌++◌,
  is_empty, strip, strip_by, leb, ◌==◌, elem, keep, ◌+++◌, if◌then◌else◌,
}
use otaman_core.Yaml.Text.{repr_text}
use otaman_core.Roster.{Human, approver_role}

is_kept : ℕ → Bool
is_kept n = (leb b'a' n && leb n b'z') || (leb b'0' n && leb n b'9')

-- `re.sub(r"[^a-z0-9]+", "-", s)`: `inside` while a run of other characters is being dropped.
unfoldable pub collapse : (inside : Bool) → String → String
unfolding is_kept
collapse inside String.[] = ""
collapse inside (String.◌∷◌ c s) =
    let after_kept = collapse false s in
    let after_other = collapse true s in
    if is_kept (code c)
    then String.◌∷◌ c after_kept
    else if inside
    then after_other
    else "-" +++ after_other

-- `s.split("@", 1)[0]`
abbrev pub before_at : String → String
before_at String.[] = ""
before_at (String.◌∷◌ c s) =
    let rest = before_at s in if code c == b'@' then "" else String.◌∷◌ c rest

unfoldable pub is_approver : Human → Bool
is_approver h = elem approver_role h.roles

abbrev pub only_if : (Human → Bool) → Option Human → Option Human
only_if p none = none
only_if p (some h) = if p h then some h else none

module _ (lower : String → String) where
  unfoldable pub slug : String → String
  unfolding collapse
  slug s = strip_by (λ n. n == b'-') (collapse false (lower (strip s)))

  unfoldable pub name_candidates : String → List String
  name_candidates name = if is_empty name then [] else lower (strip name) ∷ slug name ∷ []

  unfoldable pub email_candidates : Option String → List String
  email_candidates none = []
  email_candidates (some email) =
      if is_empty email then [] else lower (strip email) ∷ lower (strip (before_at email)) ∷ []

  unfoldable pub identity_candidates : Human → List String
  unfolding name_candidates email_candidates
  identity_candidates h =
      keep (λ s. not (is_empty s)) (name_candidates h.name ++ email_candidates h.email)

  unfoldable pub first_match : String → List Human → Option Human
  unfolding identity_candidates
  first_match key [] = none
  first_match key (h ∷ hs) =
      let rest = first_match key hs in if elem key (identity_candidates h) then some h else rest

  unfoldable pub resolve_roster_human : List Human → Option String → Option Human
  unfolding first_match
  resolve_roster_human roster none = none
  resolve_roster_human roster (some identity) =
      if is_empty identity || is_empty (strip identity)
      then none
      else first_match (lower (strip identity)) roster

  unfoldable pub resolve_approver : List Human → Option String → Option Human
  unfolding resolve_roster_human is_approver
  resolve_approver roster identity = only_if is_approver (resolve_roster_human roster identity)

pub data Level : Type 0 where
  error warn : Level

pub record DoctorFinding : Type 0 where
  pub level : Level
  pub message : String

-- " and ".join of the reasons that hold
why : (hitl_configured pending_proposals : Bool) → String
why true true = "HITL adapters are configured and pending proposals exist"
why true false = "HITL adapters are configured"
why false true = "pending proposals exist"
why false false = ""

no_approver : Bool → Bool → DoctorFinding
unfolding why
no_approver hitl_configured pending_proposals = record {
  level = error;
  message =
      why hitl_configured pending_proposals
      +++ " but no human-roster entry holds the 'approver' role — "
      +++ "spec-change-requests and HITL confirmations cannot be actioned; add "
      +++ "roles: [approver] to a roster entry";
}

no_email : Human → DoctorFinding
no_email h = record {
  level = warn;
  message =
      "human-roster approver entry "
      +++ repr_text h.name
      +++ " has no email — pm-sync "
      +++ "assignee resolution and approver notifications are degraded; add an email";
}

abbrev has_email : Human → Bool
has_email h = elim h.email [ none ↦ false | some s ↦ not (is_empty s) ]

abbrev pub is_nil : List Human → Bool
is_nil [] = true
is_nil (h ∷ hs) = false

email_findings : List Human → List DoctorFinding
unfolding no_email
email_findings [] = []
email_findings (h ∷ hs) =
    let rest = email_findings hs in if has_email h then rest else no_email h ∷ rest

unfoldable pub check_approver_config :
    List Human → (hitl_configured pending_proposals : Bool) → List DoctorFinding
unfolding is_approver no_approver email_findings
check_approver_config roster hitl_configured pending_proposals =
    let approvers = keep is_approver roster in
    (if (hitl_configured || pending_proposals) && is_nil approvers
      then no_approver hitl_configured pending_proposals ∷ []
      else [])
    ++ email_findings approvers
