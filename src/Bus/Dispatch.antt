-- ===== src/Bus/Dispatch.antt =====
-- src/otaman_core/bus/dispatch.py: who a message is delivered to.
pub mod Recipients
use otaman_core.Prelude.{
  String, Bool, true, false, Option, none, some, List, [], ◌∷◌, Result, ok, err, ◌>>=◌, map, keep,
  not, ltb, length, is_empty, strip, split_on, sorted_set, if◌then◌else◌,
}
use otaman_core.Yaml.{Value, Entries, null, str, list, items, get, get_or, truthy}
use otaman_core.Yaml.Text.{to_str}
use otaman_core.OwnerPaths.{PlatformConfig, get_repo}
use otaman_core.OwnerPaths.Resolve.{ResolveError, resolve_owners_for_paths}

pub data Mode : Type 0 where
  by_to by_path multicast : Mode

pub record DispatchResult : Type 0 where
  pub recipients : List String
  pub mode : Mode
  pub per_path : List (String × String)

-- `DispatchError`, and the `ValueError` that the resolution may raise
pub data DispatchError : Type 0 where
  no_repo empty_path_list bad_path_type : DispatchError
  repo_not_declared : String → DispatchError
  raised : ResolveError → DispatchError

-- `[r for r in (x.strip() …) if r]`
abbrev pub stripped_names : List String → List String
stripped_names xs = keep (λ s. not (is_empty s)) (map strip xs)

recipients_of : Value → List String
recipients_of (list vs) = stripped_names (map to_str (items vs))
recipients_of v = stripped_names (split_on b',' (to_str v))

unfoldable pub dispatch_by_to : Entries → DispatchResult
unfolding recipients_of
dispatch_by_to message = record {
  recipients = recipients_of (get_or "to" (str "") message);
  mode = by_to;
  per_path = [];
}

repo_of : Value → Result DispatchError String
repo_of (str s) = if is_empty s then err no_repo else ok s
repo_of v = err no_repo

nonempty_paths : List String → Result DispatchError (List String)
nonempty_paths [] = err empty_path_list
nonempty_paths (p ∷ ps) = ok (p ∷ ps)

paths_of : Value → Result DispatchError (List String)
unfolding nonempty_paths
paths_of (str s) = ok (s ∷ [])
paths_of (list vs) = nonempty_paths (map to_str (keep truthy (items vs)))
paths_of v = err bad_path_type

lift_error :
    Result ResolveError (List (String × String)) → Result DispatchError (List (String × String))
lift_error (ok m) = ok m
lift_error (err e) = err (raised e)

declared : PlatformConfig → String → Result DispatchError String
declared platform name = elim (get_repo platform name) [
  | none ↦ err (repo_not_declared name)
  | some r ↦ ok name
]

abbrev pub owners : List (String × String) → List String
owners m = map (λ e. e.1) m

abbrev pub mode_for : List String → Mode
mode_for unique = if ltb 1 (length unique) then multicast else by_path

dispatch_by_path : Entries → PlatformConfig → Value → Result DispatchError DispatchResult
dispatch_by_path message platform path_field = do
  repo_name ← repo_of (get "repo" message)
  paths ← paths_of path_field
  known ← declared platform repo_name
  per_path ← lift_error (resolve_owners_for_paths platform known paths)
  ok (record {
    recipients = sorted_set (owners per_path);
    mode = mode_for (sorted_set (owners per_path));
    per_path = per_path;
  })

dispatch_field : Entries → PlatformConfig → Value → Result DispatchError DispatchResult
unfolding dispatch_by_path repo_of paths_of declared lift_error
dispatch_field message platform null = ok (dispatch_by_to message)
dispatch_field message platform v = dispatch_by_path message platform v

unfoldable pub dispatch : Entries → PlatformConfig → Result DispatchError DispatchResult
unfolding dispatch_field
dispatch message platform = dispatch_field message platform (get "path" message)
