-- ===== src/Bus/Tests.antt =====
-- src/otaman_core/bus: an address, a message routed by path, and the copies of another.
use otaman_core.Prelude.{
  List, Bool-cases, inl, inr, ◌⊎◌, ◌<◌, text_length, some, true, subst, arith, eq_iff, ◌+++◌,
  lstrip, replace_char, starts_with, drop_prefix, String, not, ◌&&◌, ◌||◌, none, [], ◌∷◌, ok, ◌≡◌,
  refl, elem, str_eq, NoRepeats, strip, sorted_set,
}
use otaman_core.Yaml.{Entries, str, list, end, entry, nil, cons}
use otaman_core.OwnerPaths.{PlatformConfig, get_repo}
use otaman_core.OwnerPaths.Resolve.{
  resolve_owners_for_paths, resolve_owner_for_path, owner_in, best_match,
}
use otaman_core.OwnerPaths.Glob.{path_matches, normalize}
use otaman_core.Bus.Uri.{BusUri, to_string, parse, is_segment}
use otaman_core.Bus.Uri.RoundTrip.{IsCanonical, parse-to_string}
use otaman_core.Bus.Dispatch.{DispatchResult, by_path, dispatch}
use otaman_core.Bus.Dispatch.Recipients.{RoutesByPath, dispatch-RoutesByPath}
use otaman_core.Bus.CcFanout.{explicit_names, evaluate_routing_rules, compute_effective_cc}
use otaman_core.Bus.CcFanout.Effective.{compute_effective_cc-members}
use otaman_core.Bus.Stem.{
  safe, route_sep, digits, after_t, match_timestamp, partition_route, names, build_filename,
  parse_stem,
}
use otaman_core.Bus.Stem.RoundTrip.{parse_stem-build_filename}

abbrev core_agent : BusUri
core_agent = record { org = "acme"; program = "otaman"; agent = "core-agent" }

core_agent-IsCanonical : IsCanonical core_agent
unfolding is_segment
core_agent-IsCanonical = ((refl, refl), (refl, refl), (refl, refl))

parse-to_string_example : parse (to_string core_agent) "other" "elsewhere" ≡ ok core_agent
parse-to_string_example = parse-to_string core_agent "other" "elsewhere" core_agent-IsCanonical

abbrev platform : PlatformConfig
platform = record {
  repos =
      record {
        name = "core";
        owner = "core-agent";
        owner_paths = ("docs", "docs-agent") ∷ [];
        path = "";
      }
      ∷ [];
}

abbrev routed : Entries
routed = entry (str "repo") (str "core") (entry (str "path") (str "docs/a.md") end)

abbrev routed_result : DispatchResult
routed_result = record {
  recipients = "docs-agent" ∷ [];
  mode = by_path;
  per_path = ("docs/a.md", "docs-agent") ∷ [];
}

routed-dispatch : dispatch routed platform ≡ ok routed_result
unfolding dispatch get_repo resolve_owners_for_paths resolve_owner_for_path sorted_set owner_in
    strip best_match path_matches normalize
routed-dispatch = refl

dispatch-RoutesByPath_example : RoutesByPath routed platform routed_result
dispatch-RoutesByPath_example =
    dispatch-RoutesByPath routed platform routed_result (λ e. cc) routed-dispatch

abbrev rule : Entries
rule = entry (str "cc") (list (cons (str "audit-agent") nil)) end

compute_effective_cc-members_example :
    ((a : String)
      → elem a (compute_effective_cc "core-agent" "high" ("cli-agent" ∷ []) (rule ∷ []) none) ≡ (
          not (str_eq a "core-agent")
          && (elem a (explicit_names ("cli-agent" ∷ []))
              || elem a (evaluate_routing_rules (rule ∷ []) "core-agent" "high" none))))
    × NoRepeats (compute_effective_cc "core-agent" "high" ("cli-agent" ∷ []) (rule ∷ []) none)
compute_effective_cc-members_example =
    compute_effective_cc-members "core-agent" "high" ("cli-agent" ∷ []) (rule ∷ []) none

abbrev stem_known : List String
stem_known = "cli" ∷ "cli-agent" ∷ []

-- Of the known recipients, every other one is shorter.
stem_others :
    (name : String)
    → elem name stem_known ≡ true
    → names "cli-agent-ping" name ≡ true
    → (name ≡ "cli-agent") ⊎ (text_length name < 9)
stem_others name known leads = elim (Bool-cases (str_eq name "cli-agent")) [
  | inl y ↦ inl (ground (arith, eq_iff name "cli-agent"))
  | inr n ↦
      let cli : "cli" ≡ name = ground (arith, eq_iff name "cli") in
      inr (subst (λ t. text_length t < 9) cli (omega arith))
]

stem_timestamp : match_timestamp "20261001T080031" ≡ some ("20261001T080031", "")
unfolding match_timestamp digits after_t
stem_timestamp = refl

stem_sender : partition_route (safe "core/agent" +++ route_sep) ≡ some (safe "core/agent", "")
unfolding partition_route safe replace_char starts_with drop_prefix
stem_sender = refl

parse_stem-build_filename_example :
    parse_stem (build_filename "20261001T080031" "core/agent" "cli-agent" "ping") stem_known
    ≡ some (record {
      timestamp = "20261001T080031";
      sender = safe "core/agent";
      recipient = some "cli-agent";
      slug = some "ping";
      tail = "cli-agent-ping";
    })
unfolding safe replace_char lstrip
parse_stem-build_filename_example =
    parse_stem-build_filename "20261001T080031" "core/agent" "cli-agent" "ping" stem_known
      stem_timestamp stem_sender refl stem_others refl refl
