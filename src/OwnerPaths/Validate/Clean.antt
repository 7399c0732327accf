-- ===== src/OwnerPaths/Validate/Clean.antt =====
-- A platform with no issue: every agent is known and no two patterns are ambiguous.
use otaman_core.Prelude.{
  String, true, List, [], ◌∷◌, ◌++◌, elem, All, ◌≡◌, refl, ◌↔◌, inl, inr, arith, Bool-cases,
}
use otaman_core.OwnerPaths.{RepoConfig, PlatformConfig}
use otaman_core.OwnerPaths.Validate.Probe.{Clash, ambiguous_iff}
use otaman_core.OwnerPaths.Validate.{
  Issue, unknown_agents, ambiguous, overlaps_with, overlaps, validate_repos, validate_owner_paths,
}

-- An earlier pattern and a later one never clash.
abbrev pub Distinct : List (String × String) → Type 0
Distinct [] = Unit
Distinct ((p, a) ∷ rest) = All (λ e. Clash p e.0 → ⊥) rest × Distinct rest

abbrev pub IsClean : List String → RepoConfig → Type 0
IsClean known repo = All (λ e. elem e.1 known ≡ true) repo.owner_paths × Distinct repo.owner_paths

append_nil_iff : (xs ys : List Issue) → (xs ++ ys ≡ []) ↔ ((xs ≡ []) × (ys ≡ []))
append_nil_iff [] ys = ((λ h. (refl, h)), λ h. h.1)
append_nil_iff (x ∷ xs) ys = ((λ h. absurd (ground arith)), λ h. absurd (ground arith))

unknown_agents_iff :
    (repo : String) (known : List String) (es : List (String × String))
    → (unknown_agents repo known es ≡ []) ↔ All (λ e. elem e.1 known ≡ true) es
unfolding unknown_agents
unknown_agents_iff repo known [] = ((λ _. tt), λ _. refl)
unknown_agents_iff repo known ((p, a) ∷ es) = ground (arith, unknown_agents_iff repo known es)

overlaps_with_iff :
    (repo p : String) (es : List (String × String))
    → (overlaps_with repo p es ≡ []) ↔ All (λ e. Clash p e.0 → ⊥) es
unfolding overlaps_with
overlaps_with_iff repo p [] = ((λ _. tt), λ _. refl)
overlaps_with_iff repo p ((q, a) ∷ es) = elim (Bool-cases (ambiguous p q)) [
  | inl clash ↦
      rw clash ((λ h. absurd (ground arith)), λ h. absurd (h.0 ((ambiguous_iff p q).0 clash)))
  | inr fine ↦ rw fine (
    (λ h. (
      (λ c. absurd (ground (arith, fine, (ambiguous_iff p q).1 c))),
      (overlaps_with_iff repo p es).0 h,
    )),
    λ h. (overlaps_with_iff repo p es).1 h.1,
  )
]

overlaps_iff : (repo : String) (es : List (String × String)) → (overlaps repo es ≡ []) ↔ Distinct es
unfolding overlaps
overlaps_iff repo [] = ((λ _. tt), λ _. refl)
overlaps_iff repo ((p, a) ∷ es) =
    let (split, join) = append_nil_iff (overlaps_with repo p es) (overlaps repo es) in
    (
      λ h. ((overlaps_with_iff repo p es).0 (split h).0, (overlaps_iff repo es).0 (split h).1),
      λ h. join ((overlaps_with_iff repo p es).1 h.0, (overlaps_iff repo es).1 h.1),
    )

validate_repos_iff :
    (known : List String) (rs : List RepoConfig)
    → (validate_repos known rs ≡ []) ↔ All (IsClean known) rs
unfolding validate_repos
validate_repos_iff known [] = ((λ _. tt), λ _. refl)
validate_repos_iff known (r ∷ rs) =
    let (split, join) = append_nil_iff _ (validate_repos known rs) in
    let (split', join') =
      append_nil_iff (unknown_agents r.name known r.owner_paths) (overlaps r.name r.owner_paths) in
    (
      λ h. (
        (
          (unknown_agents_iff r.name known r.owner_paths).0 (split' (split h).0).0,
          (overlaps_iff r.name r.owner_paths).0 (split' (split h).0).1,
        ),
        (validate_repos_iff known rs).0 (split h).1,
      ),
      λ h. join (
        join' (
          (unknown_agents_iff r.name known r.owner_paths).1 h.0.0,
          (overlaps_iff r.name r.owner_paths).1 h.0.1,
        ),
        (validate_repos_iff known rs).1 h.1,
      ),
    )

-- No issue is reported exactly when every agent of every repo is known and no pattern of a repo clashes
-- with a later one: the two are not as long as each other, or one of them does not own the path that
-- the earlier one gives when each of its wildcards is read as an `x`.
pub validate_owner_paths-IsClean :
    (platform : PlatformConfig) (known_agents : List String)
    → (validate_owner_paths platform known_agents ≡ []) ↔ All (IsClean known_agents) platform.repos
unfolding validate_owner_paths
validate_owner_paths-IsClean platform known_agents = validate_repos_iff known_agents platform.repos
