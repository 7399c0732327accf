-- ===== src/Message/Gate.antt =====
-- src/otaman_core/validate_message.py: the rules put together, and the gate that a writer calls.
use otaman_core.Prelude.{
  String, Bool, false, not, ◌&&◌, Option, none, some, List, [], ◌∷◌, ◌++◌, Result, ok, err,
  if◌then◌else◌,
}
use otaman_core.Yaml.{Value, Entries, bool, str, dict, is_text, get, get_or}
use otaman_core.Message.Fields.{frontmatter_text, has_subject}
use otaman_core.Message.{
  required_fields, Problem, Warning, best_effort, Crash, Problems, report, no_frontmatter, bad_yaml,
  not_a_mapping, no_subject, best_effort,
}
use otaman_core.Message.Rules.{
  missing_fields, timestamp_problems, type_problems, privilege_problems, decision_problems,
  priority_problems, status_problems, reply_to_problems, gate_waived_problems,
  expects_response_problems, effort_problems, deadline_problems, path_problems, recipient_problems,
  broadcast_problems,
}

-- The errors of the sections in their order, or the first exception.
abbrev pub appended : List Problem → Problems → Problems
appended ps (ok qs) = ok (ps ++ qs)
appended ps (err e) = err e

abbrev pub joined : List Problems → Problems
joined [] = ok []
joined (ok ps ∷ rs) = appended ps (joined rs)
joined (err e ∷ rs) = err e

abbrev pub best_effort_warnings : Entries → List Warning
best_effort_warnings fm =
    if is_text "all" (get_or "to" (str "") fm) && is_true (get "expects-response" fm)
    then best_effort ∷ []
    else []
  where
    is_true : Value → Bool
    is_true (bool b) = b
    is_true v = false

abbrev pub with_warnings : Problems → List Warning → Result Crash (List Problem × List Warning)
with_warnings (ok ps) ws = ok (ps, ws)
with_warnings (err e) ws = err e

abbrev pub errors_only : Result Crash (List Problem × List Warning) → Problems
errors_only (ok (ps, ws)) = ok ps
errors_only (err e) = err e

-- `load` is `yaml.safe_load`, with none for a `YAMLError`; `fromisoformat` whether `datetime` accepts.
module _ (load : String → Option Value) (fromisoformat : String → Bool) where
  unfoldable pub sections : String → List String → Entries → List Problems
  sections content known fm =
      ok (missing_fields required_fields fm)
      ∷ ok (timestamp_problems fromisoformat fm)
      ∷ type_problems fm
      ∷ privilege_problems fm
      ∷ ok (decision_problems fm)
      ∷ priority_problems fm
      ∷ ok (status_problems fm)
      ∷ ok (reply_to_problems fm)
      ∷ ok (gate_waived_problems fm)
      ∷ ok (expects_response_problems fm)
      ∷ ok (effort_problems fm)
      ∷ ok (deadline_problems fm)
      ∷ path_problems fm
      ∷ recipient_problems known fm
      ∷ broadcast_problems fm
      ∷ ok (report (not (has_subject content)) no_subject)
      ∷ []

  -- the errors and the warnings of the loaded frontmatter
  unfoldable pub checked :
      String → List String → Option Value → Result Crash (List Problem × List Warning)
  unfolding sections
  checked content known none = ok (bad_yaml ∷ [], [])
  checked content known (some (dict fm)) =
      with_warnings (joined (sections content known fm)) (best_effort_warnings fm)
  checked content known (some v) = ok (not_a_mapping ∷ [], [])

  unfoldable pub matched :
      String → List String → List String → Result Crash (List Problem × List Warning)
  unfolding checked
  matched content known [] = ok (no_frontmatter ∷ [], [])
  matched content known (text ∷ texts) = checked content known (load text)

  unfoldable pub validate_message_content :
      String → List String → Result Crash (List Problem × List Warning)
  unfolding matched
  validate_message_content content known = matched content known (frontmatter_text content)

  unfoldable pub validate_message_before_write : String → List String → Problems
  validate_message_before_write content known = errors_only (validate_message_content content known)
