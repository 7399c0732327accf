-- ===== src/OwnerPaths/Resolve/Cwd.antt =====
-- `resolve_owner_for_cwd` and `_owner_for_target` of owner_paths.py. An absolute path is the list
-- of its segments. The file system is a parameter: `located p` is `(project_root / p).resolve()`,
-- `resolved` is `Path.resolve`, and `worktree_main` is the main tree of a linked worktree.
use mathlib.Core.List.{append_assoc}
use otaman_core.Prelude.{
  strip, sym, ◌∙◌, subst, String, Option, none, some, List, [], ◌∷◌, ◌++◌, Result, ok, err, ◌>>=◌,
  str_eq, is_empty, ◌+++◌, All, ◌≡◌, refl, eq_refl, if◌then◌else◌, Bool-cases, Option-cases, inl,
  inr,
}
use otaman_core.OwnerPaths.{RepoConfig, PlatformConfig, find_repo, get_repo}
use otaman_core.OwnerPaths.Resolve.{ResolveError, resolve_owner_for_path}
use otaman_core.OwnerPaths.Resolve.Specificity.{resolve_owner_for_path_cases}

abbrev pub FilePath : Type 0
FilePath = List String

-- `target.relative_to(base)`: `none` where it raises `ValueError`
unfoldable pub relative_to : FilePath → FilePath → Option FilePath
relative_to target [] = some target
relative_to [] (b ∷ base) = none
relative_to (t ∷ target) (b ∷ base) =
    let rest = relative_to target base in if str_eq t b then rest else none

-- `.as_posix()` of a relative path, which is `.` if it has no segment
unfoldable pub as_posix : FilePath → String
as_posix [] = "."
as_posix (s ∷ []) = s
as_posix (s ∷ t ∷ rest) = s +++ "/" +++ as_posix (t ∷ rest)

module _ (located : String → FilePath) where
  -- `repo.path` encloses the target: what remains of the target below it
  abbrev pub below : RepoConfig → FilePath → Option FilePath
  below repo target = if is_empty repo.path then none else relative_to target (located repo.path)

  -- the loop of `_owner_for_target`
  owner_below : PlatformConfig → List RepoConfig → FilePath → Result ResolveError (Option String)
  owner_below platform [] target = ok none
  owner_below platform (repo ∷ repos) target = elim (below repo target) [
    | none ↦ owner_below platform repos target
    | some rel ↦ resolve_owner_for_path platform repo.name (as_posix rel) >>= λ a. ok (some a)
  ]

  unfoldable pub owner_for_target : PlatformConfig → FilePath → Result ResolveError (Option String)
  unfolding owner_below
  owner_for_target platform target = owner_below platform platform.repos target

  module _ (resolved : FilePath → FilePath) (worktree_main : FilePath → Option FilePath) where
    retry : PlatformConfig → Option FilePath → Result ResolveError (Option String)
    retry platform none = ok none
    retry platform (some main) = owner_for_target platform (resolved main)

    from_direct : PlatformConfig → FilePath → Option String → Result ResolveError (Option String)
    from_direct platform cwd (some owner) = ok (some owner)
    from_direct platform cwd none = retry platform (worktree_main cwd)

    unfoldable pub resolve_owner_for_cwd :
        PlatformConfig → FilePath → Result ResolveError (Option String)
    unfolding retry from_direct
    resolve_owner_for_cwd platform cwd = do
      owner ← owner_for_target platform (resolved cwd)
      from_direct platform cwd owner

abbrev Declared : PlatformConfig → RepoConfig → Type 0
Declared platform repo = (r : RepoConfig) × (get_repo platform repo.name ≡ some r)

find_repo_listed :
    (before : List RepoConfig) (repo : RepoConfig) (after : List RepoConfig)
    → (r : RepoConfig) × (find_repo (before ++ repo ∷ after) repo.name ≡ some r)
unfolding find_repo
find_repo_listed [] repo after = (repo, rw (eq_refl repo.name) refl)
find_repo_listed (b ∷ before) repo after = elim (Bool-cases (str_eq b.name repo.name)) [
  | inl hit ↦ (b, rw hit refl)
  | inr miss ↦ let (r, e) = find_repo_listed before repo after in (r, rw miss e)
]

Declared-rest :
    (platform : PlatformConfig) (before rs : List RepoConfig)
    → platform.repos ≡ before ++ rs
    → All (Declared platform) rs
unfolding get_repo
Declared-rest platform before [] e = tt
Declared-rest platform before (r ∷ rs) e = (
  (let (found, eq) = find_repo_listed before r rs in (found, rw e eq)),
  Declared-rest platform (before ++ r ∷ []) rs (e ∙ sym (append_assoc before (r ∷ []) rs)),
)

module _ (located : String → FilePath) where
  owner_below_total :
      (platform : PlatformConfig) (rs : List RepoConfig) (target : FilePath)
      → All (Declared platform) rs
      → (r : Option String) × (owner_below located platform rs target ≡ ok r)
  unfolding owner_below
  owner_below_total platform [] target h = (none, refl)
  owner_below_total platform (repo ∷ rs) target ((found, eq), h) =
      elim (Option-cases (below located repo target)) [
        | inl outside ↦
            let (r, e) = owner_below_total platform rs target h in (r, rw (outside, owner_below) e)
        | inr (rel, inside) ↦
            let (agent, e, owns) =
              (resolve_owner_for_path_cases platform repo.name (as_posix rel)).0 found eq in
            (some (strip agent), rw (inside, owner_below) (rw e refl))
      ]

  owner_below_first :
      (platform : PlatformConfig) (before : List RepoConfig) (repo : RepoConfig)
      (after : List RepoConfig) (target rel : FilePath)
      → All (λ b. below located b target ≡ none) before
      → below located repo target ≡ some rel
      → owner_below located platform (before ++ repo ∷ after) target
        ≡ (resolve_owner_for_path platform repo.name (as_posix rel) >>= λ a. ok (some a))
  unfolding owner_below
  owner_below_first platform [] repo after target rel h inside = rw (inside, owner_below)
  owner_below_first platform (b ∷ before) repo after target rel (outside, h) inside =
      rw (outside, owner_below) (owner_below_first platform before repo after target rel h inside)

  owner_below-none :
      (platform : PlatformConfig) (rs : List RepoConfig) (target : FilePath)
      → All (λ b. below located b target ≡ none) rs
      → owner_below located platform rs target ≡ ok none
  unfolding owner_below
  owner_below-none platform [] target h = refl
  owner_below-none platform (b ∷ rs) target (outside, h) =
      rw (outside, owner_below) (owner_below-none platform rs target h)

  owner_for_target_total :
      (platform : PlatformConfig) (target : FilePath)
      → (r : Option String) × (owner_for_target located platform target ≡ ok r)
  unfolding owner_for_target
  owner_for_target_total platform target =
      owner_below_total platform platform.repos target
        (Declared-rest platform [] platform.repos refl)

  module _ (resolved : FilePath → FilePath) (worktree_main : FilePath → Option FilePath) where
    -- The lookup by working directory never raises, whatever the file system: the repo that it
    -- looks up by name is one that the configuration declares.
    pub resolve_owner_for_cwd_total :
        (platform : PlatformConfig) (cwd : FilePath)
        → (r : Option String) × (resolve_owner_for_cwd located resolved worktree_main platform cwd
            ≡ ok r)
    unfolding resolve_owner_for_cwd
    resolve_owner_for_cwd_total platform cwd =
        let (direct, e) = owner_for_target_total platform (resolved cwd) in
        rw e (go direct (worktree_main cwd))
      where
        go :
            (direct : Option String) (main : Option FilePath)
            → (r : Option String) × ((elim direct [
              | none ↦ retry located resolved worktree_main platform main
              | some owner ↦ ok (some owner)
            ])
                ≡ ok r)
        go (some owner) main = (some owner, refl)
        go none none = (none, refl)
        go none (some main) = owner_for_target_total platform (resolved main)

    direct_stays :
        (platform : PlatformConfig) (cwd : FilePath) (m : Result ResolveError String)
        → ((m >>= λ a. ok (some a)) >>= from_direct located resolved worktree_main platform cwd)
          ≡ (m >>= λ a. ok (some a))
    unfolding from_direct
    direct_stays platform cwd (ok a) = refl
    direct_stays platform cwd (err e) = refl

    retry_elim :
        (platform : PlatformConfig) (main : Option FilePath)
        → retry located resolved worktree_main platform main
          ≡ (elim main [ none ↦ ok none | some m ↦ owner_for_target located platform (resolved m) ])
    unfolding retry
    retry_elim platform none = refl
    retry_elim platform (some m) = refl

    -- The first repo whose path encloses the directory decides: its owner for the path below it.
    pub resolve_owner_for_cwd-first :
        (platform : PlatformConfig) (cwd : FilePath) (before : List RepoConfig) (repo : RepoConfig)
        (after : List RepoConfig) (rel : FilePath)
        → platform.repos ≡ before ++ repo ∷ after
        → All (λ b. below located b (resolved cwd) ≡ none) before
        → below located repo (resolved cwd) ≡ some rel
        → resolve_owner_for_cwd located resolved worktree_main platform cwd
          ≡ (resolve_owner_for_path platform repo.name (as_posix rel) >>= λ a. ok (some a))
    unfolding resolve_owner_for_cwd owner_for_target
    resolve_owner_for_cwd-first platform cwd before repo after rel e h inside =
        let direct : owner_below located platform platform.repos (resolved cwd)
            ≡ (resolve_owner_for_path platform repo.name (as_posix rel) >>= λ a. ok (some a)) =
          subst
            (λ l.
              owner_below located platform l (resolved cwd)
              ≡ (resolve_owner_for_path platform repo.name (as_posix rel) >>= λ a. ok (some a)))
            (sym e) (owner_below_first platform before repo after (resolved cwd) rel h inside) in
        rw direct
          (direct_stays platform cwd (resolve_owner_for_path platform repo.name (as_posix rel)))

    -- Where no repo's path encloses the directory, the main tree of its worktree is tried, if there
    -- is one: a worktree outside the repos has the owner that its main tree has.
    pub resolve_owner_for_cwd-worktree :
        (platform : PlatformConfig) (cwd : FilePath)
        → All (λ b. below located b (resolved cwd) ≡ none) platform.repos
        → resolve_owner_for_cwd located resolved worktree_main platform cwd
          ≡ (elim (worktree_main cwd) [
            | none ↦ ok none
            | some main ↦ owner_for_target located platform (resolved main)
          ])
    unfolding resolve_owner_for_cwd owner_for_target
    resolve_owner_for_cwd-worktree platform cwd h =
        rw (owner_below-none platform platform.repos (resolved cwd) h)
          (retry_elim platform (worktree_main cwd))
