-- ===== src/OwnerPaths.antt =====
-- src/otaman_core/owner_paths.py: the ownership configuration, and what its children model: the
-- loader, the glob matcher, the resolution and the validation.
pub mod Parse
pub mod Glob
pub mod Resolve
pub mod Validate
mod Tests
use otaman_core.Prelude.{String, Option, none, some, List, [], ◌∷◌, str_eq, if◌then◌else◌}

pub record RepoConfig : Type 0 where
  pub name : String
  pub owner : String
  pub owner_paths : List (String × String)
  pub path : String

pub record PlatformConfig : Type 0 where
  pub repos : List RepoConfig

-- the loop of `get_repo`
unfoldable pub find_repo : List RepoConfig → String → Option RepoConfig
find_repo [] name = none
find_repo (r ∷ rs) name = if str_eq r.name name then some r else find_repo rs name

unfoldable pub get_repo : PlatformConfig → String → Option RepoConfig
unfolding find_repo
get_repo platform name = find_repo platform.repos name
