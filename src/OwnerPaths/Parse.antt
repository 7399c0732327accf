-- ===== src/OwnerPaths/Parse.antt =====
-- `parse_platform_config` of owner_paths.py: from the loaded platform.yaml to a `PlatformConfig`,
-- or the first structural error.
pub mod Laws
use otaman_core.Prelude.{
  ℕ, suc, String, Bool, Option, none, some, List, [], ◌∷◌, Result, ok, err, ◌>>=◌, str_eq, is_empty,
  strip, if◌then◌else◌,
}
use otaman_core.Yaml.{
  Value, Values, Entries, null, str, list, dict, nil, cons, end, entry, truthy, is_null, get,
}
use otaman_core.OwnerPaths.{RepoConfig, PlatformConfig}

-- `OwnerPathsError`, with the index of the entry and the pattern at fault
pub data ParseError : Type 0 where
  repos_not_list : ParseError
  repo_not_mapping bad_name bad_owner owner_paths_not_mapping bad_pattern : ℕ → ParseError
  bad_agent : ℕ → String → ParseError

-- `owner_paths[pattern] = agent`
dict_set : String → String → List (String × String) → List (String × String)
dict_set k v [] = (k, v) ∷ []
dict_set k v ((j, w) ∷ m) = if str_eq j k then (k, v) ∷ m else (j, w) ∷ dict_set k v m

-- `if isinstance(v, str): v = v.strip()`
abbrev strip_value : Value → Value
strip_value (str s) = str (strip s)
strip_value v = v

-- `if not isinstance(v, str) or not v: raise e`
nonempty_text : Value → ParseError → Result ParseError String
nonempty_text (str s) e = if is_empty s then err e else ok s
nonempty_text v e = err e

parse_owner_paths :
    ℕ → Entries → List (String × String) → Result ParseError (List (String × String))
unfolding dict_set nonempty_text
parse_owner_paths i end out = ok out
parse_owner_paths i (entry k v es) out = do
  pattern ← nonempty_text k (bad_pattern i)
  agent ← nonempty_text (strip_value v) (bad_agent i pattern)
  parse_owner_paths i es (dict_set pattern agent out)

abbrev owner_paths_raw : Entries → Value
owner_paths_raw r =
    if is_null (get "owner-paths" r) then get "owner_paths" r else get "owner-paths" r

owner_paths_of : ℕ → Value → Result ParseError (List (String × String))
unfolding parse_owner_paths
owner_paths_of i null = ok []
owner_paths_of i (dict es) = parse_owner_paths i es []
owner_paths_of i v = err (owner_paths_not_mapping i)

abbrev path_of : Value → String
path_of (str s) = s
path_of v = ""

parse_repo : ℕ → Value → Result ParseError RepoConfig
unfolding nonempty_text owner_paths_of
parse_repo i (dict r) = do
  name ← nonempty_text (strip_value (get "name" r)) (bad_name i)
  owner ← nonempty_text (strip_value (get "owner" r)) (bad_owner i)
  owner_paths ← owner_paths_of i (owner_paths_raw r)
  ok (record {
    name = name;
    owner = owner;
    owner_paths = owner_paths;
    path = path_of (get "path" r);
  })
parse_repo i v = err (repo_not_mapping i)

-- the loop, `i` the index that the errors name
parse_repos : ℕ → Values → Result ParseError (List RepoConfig)
unfolding parse_repo
parse_repos i nil = ok []
parse_repos i (cons v vs) = do
  repo ← parse_repo i v
  rest ← parse_repos (suc i) vs
  ok (repo ∷ rest)

-- `data.get("repos") or []`, which has to be a list
repos_of : Value → Result ParseError (List RepoConfig)
unfolding parse_repos
repos_of (list vs) = parse_repos 0 vs
repos_of v = if truthy v then err repos_not_list else ok []

unfoldable pub parse_platform_config : Entries → Result ParseError PlatformConfig
unfolding repos_of
parse_platform_config data_dict = do
  repos ← repos_of (get "repos" data_dict)
  ok (record { repos = repos })
