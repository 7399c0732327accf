-- ===== src/Policy/Shipped.antt =====
-- The shipped git rules cannot be loosened.
use otaman_core.Prelude.{
  String, Bool, true, Option, none, some, List, [], ◌∷◌, ◌++◌, Result, ok, >>=-eq-ok, str_eq, elem,
  ◌≡◌, refl, ap, ◌∙◌, arith, eq_iff, if◌then◌else◌, ◌⊎◌, inl, inr, All, Bool-cases,
}
use otaman_core.Yaml.{Entries, absent, bool, dict}
use otaman_core.Policy.{PolicyError, rule_value, Policy, LooseningViolation, EffectivePolicy}
use otaman_core.Policy.Algebra.{
  mentions, sets_true, layers_mention, layers_set_true, compose-tightest,
}
use otaman_core.Policy.Load.{narrow_only, load_policy, load_policy_index}
use otaman_core.Policy.Select.{
  default_name, or_standard, selection_for_layer, select_policy_names, git_pack_narrow_only,
  git_standard_rules, shipped_standard, shipped_index, Folder, effective_narrow_only, load_layers,
  effective_policy, repo_layer, agent_layer,
}

elem-append-right : (a : String) (xs ys : List String) → elem a ys ≡ true → elem a (xs ++ ys) ≡ true
elem-append-right a [] ys h = h
elem-append-right a (x ∷ xs) ys h = ground (arith, elem-append-right a xs ys h)

shipped_narrow : narrow_only shipped_index "git" ≡ git_pack_narrow_only
unfolding narrow_only shipped_index
shipped_narrow = refl

elem-All :
    (p : String → Bool) (a : String) (xs : List String)
    → All (λ x. p x ≡ true) xs
    → elem a xs ≡ true
    → p a ≡ true
elem-All p a [] h e = cc
elem-All p a (x ∷ xs) (now, h) e = elim (Bool-cases (str_eq a x)) [
  | inl same ↦ rw ((eq_iff a x).0 same) now
  | inr other ↦ elem-All p a xs h (rw other at e)
]

-- Every shipped narrow-only rule is set to `True` by the shipped standard.
shipped_sets_true :
    (r : String) → elem r git_pack_narrow_only ≡ true → sets_true r git_standard_rules ≡ true
shipped_sets_true r h =
    elem-All (λ n. sets_true n git_standard_rules) r git_pack_narrow_only
      (refl, (refl, (refl, (refl, (refl, tt))))) h

shipped_mentions :
    (r : String) → elem r git_pack_narrow_only ≡ true → mentions r git_standard_rules ≡ true
shipped_mentions r h =
    elem-All (λ n. mentions n git_standard_rules) r git_pack_narrow_only
      (refl, (refl, (refl, (refl, (refl, tt))))) h

-- The shipped standard is the first layer, since the program selects it and has no file for it.
shipped_first :
    (folder : Folder) (rest : List (String × String)) (layers : List (String × Policy))
    → folder.policy "git" default_name ≡ absent
    → load_layers folder "git" (("program", default_name) ∷ rest) ≡ ok layers
    → (more : List (String × Policy)) × (layers
        ≡ ("program", record { pack = "git"; name = default_name; rules = git_standard_rules })
          ∷ more)
unfolding load_layers load_policy shipped_standard
shipped_first folder rest layers missing e =
    let (more, e₁, e₂) = >>=-eq-ok (load_layers folder "git" rest) _ (rw missing at e) in
    (more, ground arith)

first_sets :
    (r : String) (more : List (String × Policy))
    → elem r git_pack_narrow_only ≡ true
    → (if layers_mention r (
          ("program", record { pack = "git"; name = default_name; rules = git_standard_rules })
          ∷ more)
        then some (
            bool (
              layers_set_true r (
                (
                  "program",
                  record { pack = "git"; name = default_name; rules = git_standard_rules },
                )
                ∷ more)))
        else none)
      ≡ some (bool true)
first_sets r more h = rw (shipped_mentions r h) (rw (shipped_sets_true r h) refl)

-- The program selects the standard git policy: by name, or by saying nothing of the git pack.
abbrev pub SelectsStandard : Entries → Type 0
SelectsStandard platform_config =
    (selection_for_layer (dict platform_config) "git" ≡ none)
    ⊎ (selection_for_layer (dict platform_config) "git" ≡ some "standard")

SelectsStandard-name :
    (config : Entries)
    → SelectsStandard config
    → or_standard (selection_for_layer (dict config) "git") ≡ default_name
SelectsStandard-name config (inl silent) = ap or_standard silent
SelectsStandard-name config (inr named) = ap or_standard named

-- In a program that selects the standard git policy, by name or by saying nothing of the pack, and
-- that has no file of its own for it, whenever the effective policy can be computed, every shipped
-- narrow-only rule is `True` in it, whatever the index on disk says and whatever the repo and agent
-- overrides set.
pub effective_policy-shipped :
    (folder : Folder) (platform_config : Entries) (repo agent : Option String) (r : String)
    (effective : EffectivePolicy) (violations : List LooseningViolation)
    → SelectsStandard platform_config
    → folder.policy "git" default_name ≡ absent
    → elem r git_pack_narrow_only ≡ true
    → effective_policy folder platform_config "git" repo agent ≡ ok (effective, violations)
    → rule_value r effective.rules ≡ some (bool true)
unfolding effective_policy effective_narrow_only select_policy_names
effective_policy-shipped folder config repo agent r effective violations standard missing listed e =
    let (narrow, e₁, h₁) = >>=-eq-ok (effective_narrow_only folder "git") _ e in
    let (names, e₂, h₂) = >>=-eq-ok (select_policy_names config "git" repo agent) _ h₁ in
    let (layers, e₃, h₃) = >>=-eq-ok (load_layers folder "git" names) _ h₂ in
    let (index, e₄, h₄) = >>=-eq-ok (load_policy_index folder.index) _ e₁ in
    let (nearer, e₅, h₅) = >>=-eq-ok (repo_layer config "git" repo) _ e₂ in
    let narrow_same : narrow_only index "git" ++ narrow_only shipped_index "git" ≡ narrow =
      ground arith in
    let tight : elem r narrow ≡ true = rw (← narrow_same) (
      elem-append-right r (narrow_only index "git") (narrow_only shipped_index "git")
        (rw shipped_narrow listed)) in
    let names_same : ("program", default_name) ∷ (nearer ++ agent_layer config "git" agent)
        ≡ names =
      ok_eq _ _ (rw (SelectsStandard-name config standard) at h₅) in
    let (more, layers_same) =
      shipped_first folder (nearer ++ agent_layer config "git" agent) layers missing
        (rw names_same e₃) in
    compose-tightest layers narrow r effective violations tight h₃
    ∙ rw layers_same (first_sets r more listed)
  where
    ok_eq :
        (x y : List (String × String))
        → ◌≡◌ {A = Result PolicyError (List (String × String))} (ok x) (ok y)
        → x ≡ y
    ok_eq x y h = ground arith
