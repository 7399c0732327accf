-- ===== src/Bus/Dispatch/Recipients.antt =====
-- Who receives a message: routed by its paths, or by its `to:` field.
use otaman_core.Prelude.{
  ◌<◌, String, List, [], ◌∷◌, Result, ok, err, >>=-eq-ok, >>=-eq-err, ◌≡◌, ◌≢◌, refl, sym, ap, ◌∙◌,
  ◌↔◌, inl, inr, arith, map, keep, length, elem, NoRepeats, All, Bool-cases, Option-cases, is_empty,
  strip, strip_idem, is_empty-filled, sorted_set, elem-sorted_set, sorted_set-NoRepeats, split_on,
}
use otaman_core.Yaml.{Value, Entries, null, bool, str, list, items, get, get_or, truthy}
use otaman_core.Yaml.Text.{to_str}
use otaman_core.OwnerPaths.{PlatformConfig, get_repo}
use otaman_core.OwnerPaths.Resolve.{ResolveError, resolve_owners_for_paths}
use otaman_core.OwnerPaths.Resolve.Several.{resolve_owners_for_paths-lookup}
use otaman_core.Bus.Dispatch.{
  DispatchResult, raised, by_to, multicast, stripped_names, recipients_of, dispatch_by_to, repo_of,
  nonempty_paths, paths_of, lift_error, declared, owners, mode_for, dispatch_by_path,
  dispatch_field, dispatch,
}

stripped_names-clean : (xs : List String) → All (λ s. (s ≢ "") × (strip s ≡ s)) (stripped_names xs)
stripped_names-clean [] = tt
stripped_names-clean (x ∷ xs) = elim (Bool-cases (is_empty (strip x))) [
  | inl blank ↦ rw blank (stripped_names-clean xs)
  | inr filled ↦
      rw filled ((is_empty-filled (strip x) filled, strip_idem x), stripped_names-clean xs)
]

recipients_of-clean : (v : Value) → All (λ s. (s ≢ "") × (strip s ≡ s)) (recipients_of v)
unfolding recipients_of
recipients_of-clean (list vs) = stripped_names-clean (map to_str (items vs))
recipients_of-clean null = stripped_names-clean (split_on b',' (to_str null))
recipients_of-clean v = stripped_names-clean (split_on b',' (to_str v))

-- Without a `path:` field, or with an empty one, the message is routed by `to:`, never raises, and
-- every recipient is a name that is not empty and has no space around it.
pub dispatch-by_to :
    (message : Entries) (platform : PlatformConfig)
    → get "path" message ≡ null
    → (dispatch message platform ≡ ok (dispatch_by_to message))
      × ((dispatch_by_to message).mode ≡ by_to)
      × All (λ s. (s ≢ "") × (strip s ≡ s)) (dispatch_by_to message).recipients
unfolding dispatch dispatch_by_to
dispatch-by_to message platform h =
    (rw h refl, refl, recipients_of-clean (get_or "to" (str "") message))

-- The paths that a `path:` field names: the one of a text, or those of a list, which are its items
-- that are not empty, as texts, of which there is at least one.
abbrev pub NamesPaths : Value → List String → Type 0
NamesPaths (str p) paths = paths ≡ p ∷ []
NamesPaths (list vs) paths = (paths ≡ map to_str (keep truthy (items vs))) × (paths ≢ [])
NamesPaths v paths = ⊥

-- What a dispatch by path delivers: to the owners of the message's paths in its repo, each once.
pub record RoutesByPath (message : Entries) (platform : PlatformConfig) (r : DispatchResult)
    : Type 0 where
  pub repo_name : String
  pub in_repo : get "repo" message ≡ str repo_name
  pub paths : List String
  pub named : NamesPaths (get "path" message) paths
  pub resolved : resolve_owners_for_paths platform repo_name paths ≡ ok r.per_path
  pub members : (a : String) → elem a r.recipients ≡ elem a (owners r.per_path)
  pub once : NoRepeats r.recipients
  pub several : (r.mode ≡ multicast) ↔ (1 < length r.recipients)

mode_for_iff : (xs : List String) → (mode_for xs ≡ multicast) ↔ (1 < length xs)
mode_for_iff xs = ground arith

lift_error-eq-ok :
    (m : Result ResolveError (List (String × String))) (out : List (String × String))
    → lift_error m ≡ ok out
    → m ≡ ok out
unfolding lift_error
lift_error-eq-ok (ok m) out h = ground arith
lift_error-eq-ok (err e) out h = absurd (ground arith)

repo_of-named : (v : Value) (name : String) → repo_of v ≡ ok name → v ≡ str name
unfolding repo_of
repo_of-named (str s) name h = ground arith
repo_of-named v name h = absurd (ground arith)

nonempty_paths-same :
    (xs paths : List String) → nonempty_paths xs ≡ ok paths → (paths ≡ xs) × (paths ≢ [])
unfolding nonempty_paths
nonempty_paths-same [] paths h = absurd (ground arith)
nonempty_paths-same (x ∷ xs) paths h =
    let same : paths ≡ x ∷ xs = ground arith in (same, λ e. absurd (ground (arith, same, e)))

paths_of-NamesPaths : (v : Value) (paths : List String) → paths_of v ≡ ok paths → NamesPaths v paths
unfolding paths_of
paths_of-NamesPaths (str s) paths h = ground arith
paths_of-NamesPaths (list vs) paths h =
    nonempty_paths-same (map to_str (keep truthy (items vs))) paths h
paths_of-NamesPaths v paths h = absurd (ground arith)

declared-same :
    (platform : PlatformConfig) (name known : String)
    → declared platform name ≡ ok known
    → name ≡ known
unfolding declared
declared-same platform name known h = elim (Option-cases (get_repo platform name)) [
  | inl missing ↦ absurd (ground arith)
  | inr (r, found) ↦ ground arith
]

by_path-routes :
    (message : Entries) (platform : PlatformConfig) (r : DispatchResult)
    → dispatch_by_path message platform (get "path" message) ≡ ok r
    → RoutesByPath message platform r
unfolding dispatch_by_path
by_path-routes message platform r h =
    let (name, e₁, h₁) = >>=-eq-ok (repo_of (get "repo" message)) _ h in
    let (paths, e₂, h₂) = >>=-eq-ok (paths_of (get "path" message)) _ h₁ in
    let (known, e₃, h₃) = >>=-eq-ok (declared platform name) _ h₂ in
    let (m, e₄, h₄) = >>=-eq-ok (lift_error (resolve_owners_for_paths platform known paths)) _ h₃ in
    let same : record {
      recipients = sorted_set (owners m);
      mode = mode_for (sorted_set (owners m));
      per_path = m;
    }
        ≡ r =
      ground arith in
    rw (← same) (record {
      repo_name = known;
      in_repo =
          repo_of-named (get "repo" message) name e₁
          ∙ ap str (declared-same platform name known e₃);
      paths = paths;
      named = paths_of-NamesPaths (get "path" message) paths e₂;
      resolved = lift_error-eq-ok (resolve_owners_for_paths platform known paths) m e₄;
      members = λ a. elem-sorted_set a (owners m);
      once = sorted_set-NoRepeats (owners m);
      several = mode_for_iff (sorted_set (owners m));
    })

dispatch_field-by_path :
    (message : Entries) (platform : PlatformConfig) (v : Value)
    → v ≢ null
    → dispatch_field message platform v ≡ dispatch_by_path message platform v
unfolding dispatch_field
dispatch_field-by_path message platform null p = absurd (p refl)
dispatch_field-by_path message platform v p = refl

-- With a `path:` field, a dispatch that succeeds delivers to exactly the owners, in the repo that the
-- message names, of the paths that its field names, each once, and its mode is multicast exactly when
-- there is more than one.
pub dispatch-RoutesByPath :
    (message : Entries) (platform : PlatformConfig) (r : DispatchResult)
    → get "path" message ≢ null
    → dispatch message platform ≡ ok r
    → RoutesByPath message platform r
unfolding dispatch
dispatch-RoutesByPath message platform r present h =
    by_path-routes message platform r
      (sym (dispatch_field-by_path message platform (get "path" message) present) ∙ h)

repo_of-not-raised : (v : Value) (e : ResolveError) → repo_of v ≢ err (raised e)
unfolding repo_of
repo_of-not-raised (str s) e h = ground arith
repo_of-not-raised v e h = ground arith

nonempty_paths-not-raised :
    (ps : List String) (e : ResolveError) → nonempty_paths ps ≢ err (raised e)
unfolding nonempty_paths
nonempty_paths-not-raised [] e h = ground arith
nonempty_paths-not-raised (p ∷ ps) e h = ground arith

paths_of-not-raised : (v : Value) (e : ResolveError) → paths_of v ≢ err (raised e)
unfolding paths_of
paths_of-not-raised (str s) e h = ground arith
paths_of-not-raised (list vs) e h =
    nonempty_paths-not-raised (map to_str (keep truthy (items vs))) e h
paths_of-not-raised v e h = ground arith

declared-not-raised :
    (platform : PlatformConfig) (name : String) (e : ResolveError)
    → declared platform name ≢ err (raised e)
unfolding declared
declared-not-raised platform name e h = ground arith

resolution-not-raised :
    (platform : PlatformConfig) (name : String) (paths : List String) (e : ResolveError)
    (known : String)
    → declared platform name ≡ ok known
    → lift_error (resolve_owners_for_paths platform known paths) ≢ err (raised e)
unfolding declared lift_error
resolution-not-raised platform name paths e known d h =
    elim (Option-cases (get_repo platform name)) [
      | inl missing ↦ absurd (ground arith)
      | inr (r, found) ↦
          let same : name ≡ known = ground arith in
          let (m, done, rest) =
            resolve_owners_for_paths-lookup platform known r paths (rw (← same) found) in
          absurd (ground (arith, done))
    ]

by_path-not-raised :
    (message : Entries) (platform : PlatformConfig) (v : Value) (e : ResolveError)
    → dispatch_by_path message platform v ≢ err (raised e)
unfolding dispatch_by_path
by_path-not-raised message platform v e h = elim (>>=-eq-err (repo_of (get "repo" message)) _ h) [
  | inl bad ↦ repo_of-not-raised (get "repo" message) e bad
  | inr (name, e₁, h₁) ↦ elim (>>=-eq-err (paths_of v) _ h₁) [
    | inl bad ↦ paths_of-not-raised v e bad
    | inr (paths, e₂, h₂) ↦ elim (>>=-eq-err (declared platform name) _ h₂) [
      | inl bad ↦ declared-not-raised platform name e bad
      | inr (known, e₃, h₃) ↦
          elim (>>=-eq-err (lift_error (resolve_owners_for_paths platform known paths)) _ h₃) [
            | inl bad ↦ resolution-not-raised platform name paths e known e₃ bad
            | inr (m, e₄, h₄) ↦ absurd (ground arith)
          ]
    ]
  ]
]

-- An undeclared repo is refused before any path is resolved, so the resolution of the owners never
-- raises its own error out of a dispatch.
pub dispatch-not-raised :
    (message : Entries) (platform : PlatformConfig) (e : ResolveError)
    → dispatch message platform ≢ err (raised e)
unfolding dispatch
dispatch-not-raised message platform e h = go (get "path" message) h
  where
    go : (v : Value) → dispatch_field message platform v ≢ err (raised e)
    go null p = ground arith
    go (bool b) p = by_path-not-raised message platform (bool b) e p
    go v p = by_path-not-raised message platform v e p
