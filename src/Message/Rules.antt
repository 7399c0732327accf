-- ===== src/Message/Rules.antt =====
-- src/otaman_core/validate_message.py: validate_message_content's rules, in the order of the source.
use otaman_core.Prelude.{
  String, Bool, true, false, not, ◌||◌, ◌&&◌, List, [], ◌∷◌, ◌++◌, ok, err, elem, all, keep,
  is_empty, strip, split_on, map, if◌then◌else◌, str_eq,
}
use otaman_core.Yaml.{
  Value, Entries, null, bool, str, list, nil, cons, items, is_null, truthy, is_text, is_one_of, has,
  get, get_or,
}
use otaman_core.Yaml.Text.{to_str}
use otaman_core.Message.Fields.{
  is_reply_to, is_gate_slug, is_rfc3339, parse_bus_timestamp, is_blank,
}
use otaman_core.Message.{
  valid_types, privileged_types, path_eligible_types, broadcast_types, decision_required_fields,
  Problem, unknown_recipients, Problems, report, in_set, on_ok, missing_field, undecided,
  bad_timestamp, unknown_type, not_from_human, unknown_priority, unknown_status, bad_reply_to,
  bad_gate_waived, bad_expects_response, reply_is_implied, bad_effort, bad_deadline,
  type_takes_no_path, blank_path, no_paths, blank_path_entry, path_not_text, path_without_repo,
  unknown_recipients, not_a_broadcast, no_split,
}

unfoldable pub missing_fields : List String → Entries → List Problem
missing_fields [] fm = []
missing_fields (f ∷ fs) fm = report (not (has f fm)) (missing_field f) ++ missing_fields fs fm

unfoldable pub timestamp_problems : (String → Bool) → Entries → List Problem
timestamp_problems fromisoformat fm =
    report (has "timestamp" fm && not (parse_bus_timestamp fromisoformat (get "timestamp" fm)))
      bad_timestamp

unfoldable pub type_problems : Entries → Problems
type_problems fm =
    if truthy (get "type" fm)
    then on_ok (in_set valid_types (get "type" fm)) (λ known. report (not known) unknown_type)
    else ok []

unfoldable pub privilege_problems : Entries → Problems
privilege_problems fm =
    on_ok (in_set privileged_types (get "type" fm))
      (λ privileged. report (privileged && not (is_text "human" (get "from" fm))) not_from_human)

undecided_fields : List String → Entries → List Problem
undecided_fields [] fm = []
undecided_fields (f ∷ fs) fm = report (is_blank (get f fm)) (undecided f) ++ undecided_fields fs fm

unfoldable pub decision_problems : Entries → List Problem
unfolding undecided_fields
decision_problems fm =
    if is_text "decision-required" (get "type" fm)
    then undecided_fields decision_required_fields fm
    else []

unfoldable pub priority_problems : Entries → Problems
priority_problems fm =
    if truthy (get "priority" fm)
    then on_ok (in_set ("low" ∷ "normal" ∷ "high" ∷ "urgent" ∷ []) (get "priority" fm))
        (λ known. report (not known) unknown_priority)
    else ok []

unfoldable pub status_problems : Entries → List Problem
status_problems fm =
    report
      (truthy (get "status" fm)
        && not (is_one_of ("pending" ∷ "read" ∷ "resolved" ∷ []) (get "status" fm)))
      unknown_status

unfoldable pub reply_to_problems : Entries → List Problem
reply_to_problems fm =
    report (not (is_null (get "reply-to" fm)) && not (is_reply_to (to_str (get "reply-to" fm))))
      bad_reply_to

is_waiver : Value → Bool
is_waiver (str s) = is_gate_slug s
is_waiver v = is_null v

unfoldable pub gate_waived_problems : Entries → List Problem
unfolding is_waiver
gate_waived_problems fm = report (not (is_waiver (get "x-gate-waived" fm))) bad_gate_waived

expects_problems : Value → Value → List Problem
expects_problems null msg_type = []
expects_problems (bool true) msg_type = []
expects_problems (bool false) msg_type =
    report (is_text "task-assignment" msg_type) reply_is_implied
expects_problems v msg_type = bad_expects_response ∷ []

unfoldable pub expects_response_problems : Entries → List Problem
unfolding expects_problems
expects_response_problems fm = expects_problems (get "expects-response" fm) (get "type" fm)

unfoldable pub effort_problems : Entries → List Problem
effort_problems fm =
    report
      (not (is_null (get "response-effort" fm))
        && not (elem (to_str (get "response-effort" fm)) ("XS" ∷ "S" ∷ "M" ∷ "L" ∷ "XL" ∷ [])))
      bad_effort

unfoldable pub deadline_problems : Entries → List Problem
deadline_problems fm =
    report
      (not (is_null (get "response-deadline" fm))
        && not (is_rfc3339 (to_str (get "response-deadline" fm))))
      bad_deadline

pub is_filled : Value → Bool
is_filled (str s) = not (is_empty (strip s))
is_filled v = false

pub path_value_problems : Value → List Problem
unfolding is_filled
path_value_problems (str s) = report (is_empty (strip s)) blank_path
path_value_problems (list nil) = no_paths ∷ []
path_value_problems (list (cons v vs)) =
    report (not (all is_filled (items (cons v vs)))) blank_path_entry
path_value_problems v = path_not_text ∷ []

-- `if path_field is not None`: the type, then the value, then the repo
unfoldable pub path_problems : Entries → Problems
unfolding path_value_problems is_filled
path_problems fm =
    if is_null (get "path" fm)
    then ok []
    else on_ok
        (if truthy (get "type" fm) then in_set path_eligible_types (get "type" fm) else ok true)
        (λ eligible.
          report (not eligible) type_takes_no_path
          ++ path_value_problems (get "path" fm)
          ++ report (not (is_filled (get "repo" fm))) path_without_repo)

-- `[r.strip() for r in to_field.split(",") if r.strip()]`, then those that are not known
unfoldable pub unknown_agents : List String → String → List String
unknown_agents known to =
    keep (λ r. not (elem r known) && not (str_eq r "human" || str_eq r "all"))
      (keep (λ r. not (is_empty r)) (map strip (split_on b',' to)))

unknown_report : List String → List Problem
unknown_report [] = []
unknown_report (r ∷ rs) = unknown_recipients (r ∷ rs) ∷ []

unfoldable pub to_problems : List String → Value → Problems
unfolding unknown_report
to_problems known (str to) = ok (unknown_report (unknown_agents known to))
to_problems known v = err no_split

-- No known agents: `None`, or the empty set
unfoldable pub recipient_problems : List String → Entries → Problems
unfolding to_problems
recipient_problems [] fm = ok []
recipient_problems (k ∷ known) fm =
    let to = get_or "to" (str "") fm in
    if truthy to && not (is_one_of ("all" ∷ "human" ∷ []) to)
    then to_problems (k ∷ known) to
    else ok []

unfoldable pub broadcast_problems : Entries → Problems
broadcast_problems fm =
    if is_text "all" (get_or "to" (str "") fm) && truthy (get_or "type" (str "") fm)
    then on_ok (in_set broadcast_types (get_or "type" (str "") fm))
        (λ may. report (not may) not_a_broadcast)
    else ok []
