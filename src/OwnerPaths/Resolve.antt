-- ===== src/OwnerPaths/Resolve.antt =====
-- The resolution of owner_paths.py: the owner of a path in a repo, of several paths, and of a
-- working directory.
pub mod Specificity
pub mod Several
pub mod Cwd
use otaman_core.Prelude.{
  ℕ, String, Bool, true, false, Option, none, some, List, [], ◌∷◌, Result, ok, err, ◌>>=◌, str_eq,
  ltb, strip, text_length, if◌then◌else◌,
}
use otaman_core.OwnerPaths.{RepoConfig, PlatformConfig, get_repo}
use otaman_core.OwnerPaths.Glob.{path_matches}

-- `ValueError`: no such repo in platform.yaml
pub data ResolveError : Type 0 where
  unknown_repo : String → ResolveError

-- `best is None or specificity > best[0]`
abbrev pub beats : ℕ → Option (ℕ × String) → Bool
beats n none = true
beats n (some (m, a)) = ltb m n

-- one round of the loop
better : String → String → String → Option (ℕ × String) → Option (ℕ × String)
better path pattern agent best =
    if path_matches path pattern
    then (if beats (text_length pattern) best then some (text_length pattern, agent) else best)
    else best

unfoldable pub best_match :
    String → List (String × String) → Option (ℕ × String) → Option (ℕ × String)
unfolding better
best_match path [] best = best
best_match path ((pattern, agent) ∷ rest) best =
    best_match path rest (better path pattern agent best)

abbrev pub chosen : Option (ℕ × String) → String → String
chosen none owner = owner
chosen (some (n, agent)) owner = agent

unfoldable pub owner_in : RepoConfig → String → String
owner_in repo path = strip (chosen (best_match path repo.owner_paths none) repo.owner)

abbrev found_owner : Option RepoConfig → String → String → Result ResolveError String
found_owner none name path = err (unknown_repo name)
found_owner (some repo) name path = ok (owner_in repo path)

unfoldable pub resolve_owner_for_path :
    PlatformConfig → String → String → Result ResolveError String
resolve_owner_for_path platform repo_name path =
    found_owner (get_repo platform repo_name) repo_name path

-- `d[path] = owner`, as the dict comprehension stores it
pub store_owner : String → String → List (String × String) → List (String × String)
store_owner k v [] = (k, v) ∷ []
store_owner k v ((j, w) ∷ m) = if str_eq j k then (k, v) ∷ m else (j, w) ∷ store_owner k v m

resolve_owners :
    PlatformConfig
    → String
    → List String
    → List (String × String)
    → Result ResolveError (List (String × String))
unfolding store_owner
resolve_owners platform repo_name [] out = ok out
resolve_owners platform repo_name (p ∷ ps) out = do
  owner ← resolve_owner_for_path platform repo_name p
  resolve_owners platform repo_name ps (store_owner p owner out)

unfoldable pub resolve_owners_for_paths :
    PlatformConfig → String → List String → Result ResolveError (List (String × String))
unfolding resolve_owners
resolve_owners_for_paths platform repo_name paths = resolve_owners platform repo_name paths []
