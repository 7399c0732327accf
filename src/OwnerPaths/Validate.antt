-- ===== src/OwnerPaths/Validate.antt =====
-- `validate_owner_paths` of owner_paths.py: unknown agents and ambiguous patterns.
pub mod Probe
pub mod Clean
use Prim.Native.String.{[] as nothing, ◌∷◌ as push}
use otaman_core.Prelude.{
  ℕ, zero, suc, code, String, Bool, true, false, not, ◌||◌, ◌&&◌, List, [], ◌∷◌, ◌++◌, ◌==◌, elem,
  starts_with, text_length, if◌then◌else◌,
}
use otaman_core.OwnerPaths.{RepoConfig, PlatformConfig}
use otaman_core.OwnerPaths.Glob.{path_matches}

-- `OwnerPathsIssue`: an error, and a warning with both patterns and the probe.
pub data Issue : Type 0 where
  unknown_agent : (repo pattern agent : String) → Issue
  overlap : (repo first second probe : String) → Issue

-- `p.replace("**", "x").replace("*", "x").replace("?", "x")`: a run of stars counts in pairs.
probe_from : ℕ → String → String
probe_from n nothing = ""
probe_from (suc n) (push c s) = probe_from n s
probe_from zero (push c s) =
    push (if code c == b'*' || code c == b'?' then "x" else c)
      (probe_from (if code c == b'*' && starts_with s "*" then 1 else 0) s)

unfoldable pub probe_of : String → String
unfolding probe_from starts_with
probe_of pattern = probe_from 0 pattern

unfoldable pub unknown_agents : String → List String → List (String × String) → List Issue
unknown_agents repo known [] = []
unknown_agents repo known ((pattern, agent) ∷ rest) =
    let more = unknown_agents repo known rest in
    if elem agent known then more else unknown_agent repo pattern agent ∷ more

-- `len(p1) == len(p2)`, and both match the probe of `p1`
abbrev pub ambiguous : String → String → Bool
ambiguous p q =
    text_length p == text_length q && path_matches (probe_of p) p && path_matches (probe_of p) q

-- the inner loop, over the patterns after `p`
overlaps_with : String → String → List (String × String) → List Issue
overlaps_with repo p [] = []
overlaps_with repo p ((q, agent) ∷ rest) =
    let more = overlaps_with repo p rest in
    if ambiguous p q then overlap repo p q (probe_of p) ∷ more else more

unfoldable pub overlaps : String → List (String × String) → List Issue
unfolding overlaps_with
overlaps repo [] = []
overlaps repo ((p, agent) ∷ rest) = overlaps_with repo p rest ++ overlaps repo rest

validate_repos : List String → List RepoConfig → List Issue
validate_repos known [] = []
validate_repos known (r ∷ rs) =
    (unknown_agents r.name known r.owner_paths ++ overlaps r.name r.owner_paths)
    ++ validate_repos known rs

unfoldable pub validate_owner_paths : PlatformConfig → List String → List Issue
unfolding validate_repos unknown_agents overlaps
validate_owner_paths platform known_agents = validate_repos known_agents platform.repos
