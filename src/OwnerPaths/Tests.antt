-- ===== src/OwnerPaths/Tests.antt =====
-- src/otaman_core/owner_paths.py: a repo with two owned folders.
use otaman_core.Prelude.{
  String, true, false, ◌&&◌, starts_with, strip_by, lstrip, rstrip, replace_char, some, [], ◌∷◌, ok,
  ◌≡◌, ◌↔◌, refl, All, strip,
}
use otaman_core.Yaml.{Entries, str, list, dict, nil, cons, end, entry}
use otaman_core.OwnerPaths.{RepoConfig, PlatformConfig, get_repo}
use otaman_core.OwnerPaths.Glob.{glob_to_regex, regex_match, normalize, path_matches}
use otaman_core.OwnerPaths.Glob.Meaning.{Matches}
use otaman_core.OwnerPaths.Glob.Compiled.{path_matches-Matches}
use otaman_core.OwnerPaths.Validate.{unknown_agents, probe_of, overlaps, validate_owner_paths}
use otaman_core.OwnerPaths.Validate.Clean.{IsClean, validate_owner_paths-IsClean}
use otaman_core.OwnerPaths.Resolve.{resolve_owner_for_path}
use otaman_core.OwnerPaths.Resolve.Specificity.{Owns, resolve_owner_for_path-Owns}
use otaman_core.OwnerPaths.Resolve.Cwd.{FilePath}

abbrev core_repo : RepoConfig
core_repo = record {
  name = "core";
  owner = "core-agent";
  owner_paths = ("docs", "docs-agent") ∷ ("src/**", "cli-agent") ∷ [];
  path = "core";
}

abbrev platform : PlatformConfig
platform = record { repos = core_repo ∷ [] }

core_declared : get_repo platform "core" ≡ some core_repo
unfolding get_repo
core_declared = refl

resolve_owner_for_path-Owns_example :
    (agent : String) × (resolve_owner_for_path platform "core" "docs/a.md" ≡ ok (strip agent))
    × Owns "docs/a.md" core_repo agent
resolve_owner_for_path-Owns_example =
    resolve_owner_for_path-Owns platform "core" "docs/a.md" core_repo core_declared

-- The working directory
abbrev located : String → FilePath
located path = "home" ∷ path ∷ []

-- What the loader reads
abbrev loaded_dict : Entries
loaded_dict =
    entry (str "repos")
      (list (
        cons (dict (entry (str "name") (str "core") (entry (str "owner") (str " core-agent ") end)))
          nil))
      end

path_matches-Matches_example :
    (path_matches "/src/a/b.py" "src/**/*.py/" ≡ true)
    ↔ Matches (normalize "src/**/*.py/") (normalize "/src/a/b.py")
path_matches-Matches_example = path_matches-Matches "/src/a/b.py" "src/**/*.py/"

-- A pattern does not own what only its middle segment would have to cross.
crossed : path_matches "src/a/b.py" "src/*.py" ≡ false
unfolding path_matches normalize glob_to_regex regex_match starts_with strip_by lstrip rstrip
    replace_char
crossed = refl

-- Two patterns of one length that both own `ba`, of which no warning is given: the probe of the first
-- is `xa`.
abbrev overlapping : RepoConfig
overlapping = record {
  name = "core";
  owner = "core-agent";
  owner_paths = ("*a", "docs-agent") ∷ ("b*", "cli-agent") ∷ [];
  path = "core";
}

both_own : (path_matches "ba" "*a" && path_matches "ba" "b*") ≡ true
unfolding path_matches normalize glob_to_regex regex_match starts_with strip_by lstrip rstrip
    replace_char
both_own = refl

unreported :
    validate_owner_paths (record { repos = overlapping ∷ [] }) ("docs-agent" ∷ "cli-agent" ∷ [])
    ≡ []
unfolding validate_owner_paths unknown_agents overlaps probe_of path_matches normalize glob_to_regex
    regex_match starts_with strip_by lstrip rstrip replace_char
unreported = refl

validate_owner_paths-IsClean_example :
    (validate_owner_paths platform ("docs-agent" ∷ "cli-agent" ∷ []) ≡ [])
    ↔ All (IsClean ("docs-agent" ∷ "cli-agent" ∷ [])) platform.repos
validate_owner_paths-IsClean_example =
    validate_owner_paths-IsClean platform ("docs-agent" ∷ "cli-agent" ∷ [])
