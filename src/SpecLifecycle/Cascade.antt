-- ===== src/SpecLifecycle/Cascade.antt =====
-- The cascade of the `spec_policy:` block (src/otaman_core/spec_lifecycle.py: resolve_spec_policy).
pub mod Overlay
use otaman_core.Prelude.{
  String, Bool, true, false, not, ◌||◌, ◌&&◌, Option, none, some, List, [], ◌∷◌, str_eq, eq_iff,
  elem, str_eq_comm, eq_refl, Bool-cases, inl, inr, ◌≡◌, refl, sym, ap, ◌∙◌, subst, arith,
  if◌then◌else◌,
}
use otaman_core.Yaml.{
  Value, Entries, null, bool, str, dict, end, entry, find, has, get, get_or, or_default, put,
  is_one_of, is_text, is_null, truthy, int, negative, float, datetime, date, list,
}
use otaman_core.Yaml.Laws.{find-put, get-put, is_text-eq}
use otaman_core.SpecLifecycle.SpecPolicy.{
  Policy, enforcement_modes, process_levels, delivery_modes, as_str_tuple, one_of, level_in,
  parse_spec_policy, same_key, put_key, overlay, overlay_block, process_in, with_process,
  merged_block, resolve_spec_policy,
}
use otaman_core.SpecLifecycle.Cascade.Overlay.{
  entries_of, once, HasKeysOnce, pick, get-overlay_block, overlay_block-empty, is_null-eq,
  pick-null, is_set, overlay_block-is_set, truthy-is_set,
}

module _ (org program : Value) where
  twice :
      (k : String)
      → once k (entries_of org) ≡ true
      → once k (entries_of program) ≡ true
      → get k (overlay_block program (overlay_block org end))
        ≡ pick (get k (entries_of program)) (get k (entries_of org))
  twice k a b =
      get-overlay_block k program (overlay_block org end) b
      ∙ ap (pick (get k (entries_of program)))
          (get-overlay_block k org end a ∙ pick-null (get k (entries_of org)))

-- The value under a key that the cascade comes to, null where neither block sets it.
abbrev pub setting : (org program : Value) → String → Value
setting org program k = pick (get k (entries_of program)) (get k (entries_of org))

merged-field :
    (org program : Value) (k : String)
    → once k (entries_of org) ≡ true
    → once k (entries_of program) ≡ true
    → str_eq "process" k ≡ false
    → get k (merged_block org program) ≡ setting org program k
unfolding merged_block
merged-field org program k a b off =
    beside (overlay_block (process_in program) (overlay_block (process_in org) end))
      (overlay_block program (overlay_block org end))
    ∙ twice org program k a b
  where
    beside : (proc merged : Entries) → get k (with_process proc merged) ≡ get k merged
    beside end merged = refl
    beside (entry j v es) merged = get-put "process" k _ merged ∙ rw off refl

merged-is_set :
    (org program : Value) (k : String)
    → once k (entries_of org) ≡ true
    → once k (entries_of program) ≡ true
    → str_eq "process" k ≡ false
    → is_set (find k (merged_block org program)) ≡ true
unfolding merged_block
merged-is_set org program k a b off =
    ap is_set (
      beside (overlay_block (process_in program) (overlay_block (process_in org) end))
        (overlay_block program (overlay_block org end)))
    ∙ overlay_block-is_set k program (overlay_block org end) b
        (overlay_block-is_set k org end a refl)
  where
    beside : (proc merged : Entries) → find k (with_process proc merged) ≡ find k merged
    beside end merged = refl
    beside (entry j v es) merged = find-put "process" k _ merged ∙ rw off refl

level_in-get : (v : Value) → level_in v ≡ get "level" (entries_of v)
level_in-get (dict es) = refl
level_in-get v = refl

process_in-get : (v : Value) → process_in v ≡ get "process" (entries_of v)
process_in-get (dict es) = refl
process_in-get v = refl

either : (p o : Value) → level_in p ≡ null → level_in o ≡ null → level_in (pick p o) ≡ null
either p o e f = elim (Bool-cases (is_null p)) [ inl y ↦ rw y f | inr n ↦ rw n e ]

merged-level :
    (org program : Value)
    → once "process" (entries_of org) ≡ true
    → once "process" (entries_of program) ≡ true
    → once "level" (entries_of (process_in org)) ≡ true
    → once "level" (entries_of (process_in program)) ≡ true
    → level_in (get "process" (merged_block org program))
      ≡ pick (level_in (process_in program)) (level_in (process_in org))
unfolding merged_block
merged-level org program a b c d =
    inside (overlay_block (process_in program) (overlay_block (process_in org) end)) refl
  where
    inside :
        (proc : Entries)
        → overlay_block (process_in program) (overlay_block (process_in org) end) ≡ proc
        → level_in
            (get "process" (with_process proc (overlay_block program (overlay_block org end))))
          ≡ pick (level_in (process_in program)) (level_in (process_in org))
    inside end e =
        let (unset, before) =
          overlay_block-empty "level" (process_in program) (overlay_block (process_in org) end) d
            e in
        let from_program : level_in (process_in program) ≡ null =
          level_in-get (process_in program)
          ∙ is_null-eq (get "level" (entries_of (process_in program))) unset in
        let from_org : level_in (process_in org) ≡ null =
          level_in-get (process_in org)
          ∙ sym (pick-null (get "level" (entries_of (process_in org))))
          ∙ sym (get-overlay_block "level" (process_in org) end c)
          ∙ before in
        let picked : pick (get "process" (entries_of program)) (get "process" (entries_of org))
            ≡ pick (process_in program) (process_in org) =
          rw (process_in-get program, process_in-get org) refl in
        ap level_in (twice org program "process" a b ∙ picked)
        ∙ either (process_in program) (process_in org) from_program from_org
        ∙ rw (from_program, from_org) refl
    inside (entry j v es) e =
        ap level_in (
          get-put "process" "process" (dict (entry j v es))
            (overlay_block program (overlay_block org end)))
        ∙ ap (get "level") (sym e)
        ∙ twice (process_in org) (process_in program) "level" c d
        ∙ rw (level_in-get (process_in program), level_in-get (process_in org)) refl

-- An organisation's and a program's `spec_policy:` block in which, as in a loaded dict, no text key
-- stands twice, nor in their `process` dicts: each setting of the resolved policy is the program's
-- where it is not null, else the organisation's, else the default; `process.level` by itself, inside
-- `process`.
pub resolve_spec_policy-cascade :
    (org program : Value)
    → HasKeysOnce org
    → HasKeysOnce program
    → HasKeysOnce (process_in org)
    → HasKeysOnce (process_in program)
    → let p = resolve_spec_policy org program in
      (p.mandatory_proposal ≡ (
        is_null (setting org program "mandatory_proposal")
        || truthy (setting org program "mandatory_proposal")))
      × (p.approvers ≡ as_str_tuple (setting org program "approvers") ("approver" ∷ []))
      × (p.ratifiers ≡ as_str_tuple (setting org program "ratifiers") ("approver" ∷ []))
      × (p.unapproved_stages
          ≡ as_str_tuple (setting org program "unapproved_stages") ("pre-proposal" ∷ []))
      × (p.enforcement ≡ one_of enforcement_modes (setting org program "enforcement") "warn")
      × (p.process_level
          ≡ one_of process_levels
              (pick (level_in (process_in program)) (level_in (process_in org)))
              "spec-first")
      × (p.delivery_default ≡ one_of delivery_modes (setting org program "delivery_default") "hitl")
unfolding resolve_spec_policy parse_spec_policy HasKeysOnce
resolve_spec_policy-cascade org program a b c d = (
  truthy-is_set _ (merged-is_set org program "mandatory_proposal" (a _) (b _) refl)
      ∙ ap (λ v. is_null v || truthy v)
          (merged-field org program "mandatory_proposal" (a _) (b _) refl),
  ap (λ v. as_str_tuple v ("approver" ∷ []))
      (merged-field org program "approvers" (a _) (b _) refl),
  ap (λ v. as_str_tuple v ("approver" ∷ []))
      (merged-field org program "ratifiers" (a _) (b _) refl),
  ap (λ v. as_str_tuple v ("pre-proposal" ∷ []))
      (merged-field org program "unapproved_stages" (a _) (b _) refl),
  ap (λ v. one_of enforcement_modes v "warn")
      (merged-field org program "enforcement" (a _) (b _) refl),
  ap (λ v. one_of process_levels v "spec-first") (merged-level org program (a _) (b _) (c _) (d _)),
  ap (λ v. one_of delivery_modes v "hitl")
      (merged-field org program "delivery_default" (a _) (b _) refl),
)

is_one_of-elem :
    (options : List String) (s : String) → is_one_of options (str s) ≡ true → elem s options ≡ true
is_one_of-elem [] s h = h
is_one_of-elem (o ∷ options) s h = ground (arith, is_one_of-elem options s, str_eq_comm s o)

one_of-elem :
    (options : List String) (v : Value) (default : String)
    → elem default options ≡ true
    → elem (one_of options v default) options ≡ true
one_of-elem options (str s) default h = elim (Bool-cases (is_one_of options (str s))) [
  | inl y ↦ rw y (is_one_of-elem options s y)
  | inr n ↦ rw n h
]
one_of-elem options v default h = h

-- Whatever the two blocks hold, the resolved policy has one of the three enforcement modes, one of
-- the four process levels and one of the two delivery modes.
pub resolve_spec_policy-known :
    (org program : Value)
    → let p = resolve_spec_policy org program in
      (elem p.enforcement enforcement_modes ≡ true)
      × (elem p.process_level process_levels ≡ true)
      × (elem p.delivery_default delivery_modes ≡ true)
unfolding resolve_spec_policy parse_spec_policy
resolve_spec_policy-known org program = (
  one_of-elem enforcement_modes (get "enforcement" (merged_block org program)) "warn" refl,
  one_of-elem process_levels (level_in (get "process" (merged_block org program))) "spec-first"
      refl,
  one_of-elem delivery_modes (get "delivery_default" (merged_block org program)) "hitl" refl,
)
