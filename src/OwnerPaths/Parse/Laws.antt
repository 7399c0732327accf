-- ===== src/OwnerPaths/Parse/Laws.antt =====
-- What the loader of owner_paths.py guarantees of every configuration that it accepts.
use otaman_core.Prelude.{
  ℕ, suc, String, some, List, [], ◌∷◌, ok, >>=-eq-ok, ◌≡◌, ◌≢◌, refl, inl, inr, All, arith,
  is_empty, strip, strip_idem, is_empty-filled, Bool-cases, str_eq, ◌++◌, subst, Option-cases,
}
use otaman_core.Yaml.{
  Value, Values, Entries, null, str, list, dict, nil, cons, end, entry, get, truthy,
}
use otaman_core.OwnerPaths.{RepoConfig, PlatformConfig, find_repo, get_repo}
use otaman_core.OwnerPaths.Parse.{
  ParseError, bad_name, bad_owner, bad_pattern, bad_agent, dict_set, strip_value, nonempty_text,
  path_of, parse_owner_paths, owner_paths_raw, owner_paths_of, parse_repo, parse_repos, repos_of,
  parse_platform_config,
}
use otaman_core.OwnerPaths.Resolve.{resolve_owner_for_path}
use otaman_core.OwnerPaths.Resolve.Specificity.{Owns, resolve_owner_for_path_cases}

-- A name that a bus recipient can have: not empty, and with no space around it.
abbrev pub IsName : String → Type 0
IsName s = (s ≢ "") × (strip s ≡ s)

abbrev pub EntryIsValid : String × String → Type 0
EntryIsValid e = (e.0 ≢ "") × IsName e.1

pub record RepoIsValid (repo : RepoConfig) : Type 0 where
  pub named : IsName repo.name
  pub owned : IsName repo.owner
  pub entries : All EntryIsValid repo.owner_paths

nonempty_text-filled :
    (v : Value) (e : ParseError) (s : String) → nonempty_text v e ≡ ok s → (v ≡ str s) × (s ≢ "")
unfolding nonempty_text
nonempty_text-filled (str t) e s h = elim (Bool-cases (is_empty t)) [
  | inl empty ↦ absurd (ground arith)
  | inr filled ↦ let same : t ≡ s = ground arith in rw (← same) (refl, is_empty-filled t filled)
]
nonempty_text-filled v e s h = absurd (ground arith)

strip_value-IsName :
    (v : Value) (e : ParseError) (s : String) → nonempty_text (strip_value v) e ≡ ok s → IsName s
strip_value-IsName (str t) e s h =
    let (same, filled) = nonempty_text-filled (str (strip t)) e s h in
    let eq : strip t ≡ s = ground arith in (filled, rw (← eq) (strip_idem t))
strip_value-IsName null e s h = absurd (ground (arith, nonempty_text-filled null e s h))
strip_value-IsName v e s h = absurd (ground (arith, nonempty_text-filled v e s h))

dict_set-valid :
    (k v : String) (m : List (String × String))
    → EntryIsValid (k, v)
    → All EntryIsValid m
    → All EntryIsValid (dict_set k v m)
unfolding dict_set
dict_set-valid k v [] e h = (e, tt)
dict_set-valid k v ((j, w) ∷ m) e (x, h) = elim (Bool-cases (str_eq j k)) [
  | inl same ↦ rw same (e, h)
  | inr other ↦ rw other (x, dict_set-valid k v m e h)
]

parse_owner_paths-valid :
    (i : ℕ) (es : Entries) (out m : List (String × String))
    → All EntryIsValid out
    → parse_owner_paths i es out ≡ ok m
    → All EntryIsValid m
unfolding parse_owner_paths
parse_owner_paths-valid i end out m h e = let same : out ≡ m = ground arith in rw (← same) h
parse_owner_paths-valid i (entry k v es) out m h e =
    let (pattern, pk, rest) = >>=-eq-ok (nonempty_text k (bad_pattern i)) _ e in
    let (agent, pa, done) =
      >>=-eq-ok (nonempty_text (strip_value v) (bad_agent i pattern)) _ rest in
    parse_owner_paths-valid i es (dict_set pattern agent out) m
      (dict_set-valid pattern agent out
        (
          (nonempty_text-filled k (bad_pattern i) pattern pk).1,
          strip_value-IsName v (bad_agent i pattern) agent pa,
        )
        h)
      done

owner_paths_of-valid :
    (i : ℕ) (v : Value) (m : List (String × String))
    → owner_paths_of i v ≡ ok m
    → All EntryIsValid m
unfolding owner_paths_of
owner_paths_of-valid i null m e = let same : [] ≡ m = ground arith in rw (← same) tt
owner_paths_of-valid i (dict es) m e = parse_owner_paths-valid i es [] m tt e
owner_paths_of-valid i v m e = absurd (ground arith)

parse_repo-valid :
    (i : ℕ) (v : Value) (repo : RepoConfig) → parse_repo i v ≡ ok repo → RepoIsValid repo
unfolding parse_repo
parse_repo-valid i (dict r) repo e =
    let (name, pn, e₁) = >>=-eq-ok (nonempty_text (strip_value (get "name" r)) (bad_name i)) _ e in
    let (owner, po, e₂) =
      >>=-eq-ok (nonempty_text (strip_value (get "owner" r)) (bad_owner i)) _ e₁ in
    let (m, pm, e₃) = >>=-eq-ok (owner_paths_of i (owner_paths_raw r)) _ e₂ in
    let same : record { name = name; owner = owner; owner_paths = m; path = path_of (get "path" r) }
        ≡ repo =
      ground arith in
    rw (← same) (record {
      named = strip_value-IsName (get "name" r) (bad_name i) name pn;
      owned = strip_value-IsName (get "owner" r) (bad_owner i) owner po;
      entries = owner_paths_of-valid i (owner_paths_raw r) m pm;
    })
parse_repo-valid i v repo e = absurd (ground arith)

parse_repos-valid :
    (i : ℕ) (vs : Values) (rs : List RepoConfig) → parse_repos i vs ≡ ok rs → All RepoIsValid rs
unfolding parse_repos
parse_repos-valid i nil rs e = let same : [] ≡ rs = ground arith in rw (← same) tt
parse_repos-valid i (cons v vs) rs e =
    let (repo, pr, e₁) = >>=-eq-ok (parse_repo i v) _ e in
    let (rest, ps, e₂) = >>=-eq-ok (parse_repos (suc i) vs) _ e₁ in
    let same : repo ∷ rest ≡ rs = ground arith in
    rw (← same) (parse_repo-valid i v repo pr, parse_repos-valid (suc i) vs rest ps)

repos_of-valid : (v : Value) (rs : List RepoConfig) → repos_of v ≡ ok rs → All RepoIsValid rs
unfolding repos_of
repos_of-valid (list vs) rs e = parse_repos-valid 0 vs rs e
repos_of-valid v rs e = elim (Bool-cases (truthy v)) [
  | inl full ↦ absurd (ground arith)
  | inr blank ↦ let same : [] ≡ rs = ground arith in rw (← same) tt
]

-- Every configuration that the loader accepts has names, owners and agents that are not empty and
-- have no space around them, and no empty pattern.
pub parse_platform_config-valid :
    (data_dict : Entries) (platform : PlatformConfig)
    → parse_platform_config data_dict ≡ ok platform
    → All RepoIsValid platform.repos
unfolding parse_platform_config
parse_platform_config-valid data_dict platform e =
    let (rs, pr, e₁) = >>=-eq-ok (repos_of (get "repos" data_dict)) _ e in
    let same : record { repos = rs } ≡ platform = ground arith in
    rw (← same) (repos_of-valid (get "repos" data_dict) rs pr)

find_repo-valid :
    (rs : List RepoConfig) (name : String) (repo : RepoConfig)
    → All RepoIsValid rs
    → find_repo rs name ≡ some repo
    → RepoIsValid repo
unfolding find_repo
find_repo-valid [] name repo h e = absurd (ground arith)
find_repo-valid (r ∷ rs) name repo (v, h) e = elim (Bool-cases (str_eq r.name name)) [
  | inl hit ↦ let same : r ≡ repo = ground arith in rw (← same) v
  | inr miss ↦ find_repo-valid rs name repo h (ground arith)
]

All-middle :
    (before : List (String × String)) (e : String × String) (after : List (String × String))
    → All EntryIsValid (before ++ e ∷ after)
    → EntryIsValid e
All-middle [] e after h = h.0
All-middle (x ∷ before) e after h = All-middle before e after h.1

Owns-IsName :
    (path : String) (repo : RepoConfig) (agent : String)
    → RepoIsValid repo
    → Owns path repo agent
    → IsName agent
Owns-IsName path repo agent v (inl (none_match, same)) = rw same v.owned
Owns-IsName path repo agent v (inr (n, w)) =
    (All-middle w.before (w.pattern, agent) w.after (subst (All EntryIsValid) w.listed v.entries)).1

-- Whatever path is asked for, the owner that a loaded configuration resolves to is a name that a
-- bus recipient can have.
pub resolved_owner-IsName :
    (data_dict : Entries) (platform : PlatformConfig) (repo_name path owner : String)
    → parse_platform_config data_dict ≡ ok platform
    → resolve_owner_for_path platform repo_name path ≡ ok owner
    → IsName owner
unfolding get_repo
resolved_owner-IsName data_dict platform repo_name path owner loaded e =
    let (hit, miss) = resolve_owner_for_path_cases platform repo_name path in
    elim (Option-cases (get_repo platform repo_name)) [
      | inl missing ↦ absurd (ground (arith, miss missing))
      | inr (repo, found) ↦
          let (agent, eq, owns) = hit repo found in
          let (filled, clean) =
            Owns-IsName path repo agent
              (find_repo-valid platform.repos repo_name repo
                (parse_platform_config-valid data_dict platform loaded) found)
              owns in
          let same : agent ≡ owner = ground (arith, eq, clean) in rw (← same) (filled, clean)
    ]
