-- ===== src/Message/Tests.antt =====
-- src/otaman_core/validate_message.py: the rules on concrete messages.
use otaman_core.Prelude.{
  String, Bool, true, false, Option, some, [], ◌∷◌, ok, ◌≡◌, refl, All, strip, starts_with,
  drop_prefix, lstrip, rstrip, strip_by,
}
use otaman_core.Yaml.{Value, Entries, str, list, dict, nil, end, entry, get, has}
use otaman_core.Message.{required_fields}
use otaman_core.Message.Rules.{
  missing_fields, timestamp_problems, type_problems, privilege_problems, decision_problems,
  priority_problems, status_problems, reply_to_problems, gate_waived_problems,
  expects_response_problems, effort_problems, deadline_problems, path_problems, recipient_problems,
  broadcast_problems,
}
use otaman_core.Message.Gate.{
  validate_message_before_write, validate_message_content, sections, checked, matched,
}
use otaman_core.Message.Fields.{
  parse_bus_timestamp, frontmatter_text, has_subject, body_of, until_marker,
}
use otaman_core.Message.Accepted.{IsLoaded, accepted-human, accepted_complete}
use otaman_core.Message.Total.{IsAnswer, validate_message_before_write_total}

abbrev field : String → String → Entries → Entries
field k v es = entry (str k) (str v) es

abbrev halt : Entries
halt = field "id" "7" (
    field "from" "human" (
      field "to" "all"
        (field "type" "emergency-halt" (field "timestamp" "2026-11-02T10:00:00Z" end))))

abbrev content : String
content = "---\nid: 7\n---\n\n## Subject: stop\n"

abbrev load_halt : String → Option Value
load_halt text = some (dict halt)

abbrev accepts : String → Bool
accepts text = true

halt_accepted : validate_message_before_write load_halt accepts content [] ≡ ok []
unfolding validate_message_before_write validate_message_content frontmatter_text starts_with
    drop_prefix type_problems privilege_problems priority_problems path_problems recipient_problems
    broadcast_problems missing_fields timestamp_problems parse_bus_timestamp strip decision_problems
    status_problems reply_to_problems body_of has_subject until_marker checked deadline_problems
    effort_problems expects_response_problems gate_waived_problems matched sections lstrip rstrip
    strip_by
halt_accepted = refl

halt-IsLoaded : IsLoaded load_halt accepts content [] halt
unfolding frontmatter_text starts_with drop_prefix until_marker
halt-IsLoaded = ("id: 7", [], refl, refl)

accepted-human_example : get "from" halt ≡ str "human"
accepted-human_example =
    accepted-human load_halt accepts content [] halt_accepted halt halt-IsLoaded refl

accepted_complete_example :
    (fm : Entries) × IsLoaded load_halt accepts content [] fm
    × All (λ f. has f fm ≡ true) required_fields
    × (parse_bus_timestamp accepts (get "timestamp" fm) ≡ true)
    × (has_subject content ≡ true)
accepted_complete_example = accepted_complete load_halt accepts content [] halt_accepted

-- A timestamp that does not parse is an error, and not an exception.
abbrev rejects : String → Bool
rejects text = false

content_text : frontmatter_text content ≡ "id: 7" ∷ []
unfolding frontmatter_text starts_with drop_prefix until_marker
content_text = refl

validate_message_before_write_total_example :
    IsAnswer (validate_message_before_write load_halt rejects content ("core-agent" ∷ []))
validate_message_before_write_total_example =
    validate_message_before_write_total load_halt rejects content ("core-agent" ∷ []) halt "id: 7"
      [] content_text refl refl refl refl

-- `type: []`
abbrev listed : Entries
listed = entry (str "type") (list nil) end
