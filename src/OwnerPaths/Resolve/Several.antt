-- ===== src/OwnerPaths/Resolve/Several.antt =====
-- `resolve_owners_for_paths`: the dict that it returns.
use otaman_core.Prelude.{
  String, true, false, Option, none, some, List, [], ◌∷◌, Result, ok, err, >>=-eq-ok, str_eq, elem,
  ◌≡◌, refl, sym, arith, eq_iff, eq_refl, if◌then◌else◌, Bool-cases, inl, inr, strip, ◌∙◌,
}
use otaman_core.OwnerPaths.{RepoConfig, PlatformConfig, get_repo}
use otaman_core.OwnerPaths.Resolve.{
  ResolveError, store_owner, resolve_owner_for_path, resolve_owners, resolve_owners_for_paths,
}
use otaman_core.OwnerPaths.Resolve.Specificity.{resolve_owner_for_path_cases}

-- `d.get(path)`
unfoldable pub owner_of : String → List (String × String) → Option String
owner_of k [] = none
owner_of k ((j, v) ∷ m) = if str_eq j k then some v else owner_of k m

pub owner_of-store_owner :
    (k j v : String) (m : List (String × String))
    → owner_of j (store_owner k v m) ≡ (if str_eq k j then some v else owner_of j m)
unfolding owner_of store_owner
owner_of-store_owner k j v [] = refl
owner_of-store_owner k j v ((i, w) ∷ m) =
    ground (arith, eq_iff k j, eq_iff i k, eq_iff i j, owner_of-store_owner k j v m)

abbrev pub owner_text : Result ResolveError String → Option String
owner_text (ok owner) = some owner
owner_text (err e) = none

module _ (platform : PlatformConfig) (repo_name : String) where
  -- What the finished dict answers for a path: the owner, if the path is one of those asked for.
  resolve_owners_lookup :
      (ps : List String) (out m : List (String × String)) (j : String)
      → resolve_owners platform repo_name ps out ≡ ok m
      → (elem j ps ≡ true
          → (owner : String) × (resolve_owner_for_path platform repo_name j ≡ ok owner)
            × (owner_of j m ≡ some owner))
        × (elem j ps ≡ false → owner_of j m ≡ owner_of j out)
  unfolding resolve_owners
  resolve_owners_lookup [] out m j h =
      let same : out ≡ m = ground arith in ((λ k. absurd (ground arith)), λ k. rw same)
  resolve_owners_lookup (p ∷ ps) out m j h =
      let (owner, e, rest) = >>=-eq-ok (resolve_owner_for_path platform repo_name p) _ h in
      let (listed, other) = resolve_owners_lookup ps (store_owner p owner out) m j rest in
      elim (Bool-cases (elem j ps)) [
        | inl later ↦ ((λ k. listed later), λ k. absurd (ground arith))
        | inr not_later ↦ (
          (λ k.
              let same : j ≡ p = ground (arith, eq_iff j p) in
              (
                owner,
                rw same e,
                other not_later
                    ∙ rw (owner_of-store_owner p j owner out) (rw (sym same) (rw (eq_refl j) refl)),
              )),
          λ k.
              other not_later
              ∙ ground (arith, owner_of-store_owner p j owner out, eq_iff j p, eq_iff p j),
        )
      ]

  resolve_owners_total :
      (r : RepoConfig) (ps : List String) (out : List (String × String))
      → get_repo platform repo_name ≡ some r
      → (m : List (String × String)) × (resolve_owners platform repo_name ps out ≡ ok m)
  unfolding resolve_owners
  resolve_owners_total r [] out found = (out, refl)
  resolve_owners_total r (p ∷ ps) out found =
      let (agent, e, owns) = (resolve_owner_for_path_cases platform repo_name p).0 r found in
      let (m, done) = resolve_owners_total r ps (store_owner p (strip agent) out) found in
      (m, rw e done)

  -- In a declared repo the resolution of several paths succeeds, and the dict gives each path of
  -- the list its owner, and no other path any.
  pub resolve_owners_for_paths-lookup :
      (r : RepoConfig) (paths : List String)
      → get_repo platform repo_name ≡ some r
      → (m : List (String × String)) × (resolve_owners_for_paths platform repo_name paths ≡ ok m)
        × ((j : String)
            → owner_of j m ≡ (
                if elem j paths
                then owner_text (resolve_owner_for_path platform repo_name j)
                else none))
  unfolding resolve_owners_for_paths owner_of
  resolve_owners_for_paths-lookup r paths found =
      let (m, done) = resolve_owners_total r paths [] found in
      (
        m,
        done,
        λ j. elim (Bool-cases (elem j paths)) [
          | inl listed ↦
              let (owner, e, kept) = (resolve_owners_lookup paths [] m j done).0 listed in
              rw (listed, e) kept
          | inr other ↦ rw other ((resolve_owners_lookup paths [] m j done).1 other)
        ],
      )
