-- ===== src/SecurityReport/Tests.antt =====
-- src/otaman_core/security_gate_report.py: a blocked report.
use otaman_core.Prelude.{false, none, some, [], ◌∷◌, ok, ◌≡◌, refl}
use otaman_core.SecurityReport.{
  Report, report_from_dict, report_to_dict, is_blocked, map_values, layer_to_dict,
  disagreement_to_dict, suppression_to_dict, parse_all, parse_layer, parse_disagreement,
  parse_suppression,
}
use otaman_core.SecurityReport.Readable.{report_from_dict_stable}

abbrev blocked_report : Report
blocked_report = record {
  repo = "core";
  pr = some "12";
  layers = record { layer = "ci-fast"; verdict = "fail"; findings = "sqli" ∷ [] } ∷ [];
  disagreements =
      record { finding = "sqli"; deterministic = "vulnerable"; observer = "safe"; layer = "" } ∷ [];
  suppressions =
      record { marker = "nosemgrep"; location = "a.py"; justified = false; justification = none }
      ∷ [];
}

read : report_from_dict (report_to_dict blocked_report) ≡ ok blocked_report
unfolding report_from_dict report_to_dict is_blocked map_values layer_to_dict disagreement_to_dict
    suppression_to_dict parse_all parse_layer parse_disagreement parse_suppression
read = refl

report_from_dict_stable_example :
    report_from_dict (report_to_dict blocked_report) ≡ ok blocked_report
report_from_dict_stable_example =
    report_from_dict_stable (report_to_dict blocked_report) blocked_report read
