-- ===== src/SecurityReport.antt =====
-- src/otaman_core/security_gate_report.py: the result record of the gate ladder, its verdict, and its
-- form as a dict.
pub mod RoundTrip
pub mod Readable
mod Tests
use otaman_core.Prelude.{
  String, Bool, true, false, not, ◌||◌, ◌&&◌, Option, none, some, List, [], ◌∷◌, Result, ok, err,
  ◌>>=◌, require, any, all, keep, elem, is_empty, str_eq, if◌then◌else◌,
}
use otaman_core.Yaml.{
  Value, Values, Entries, null, bool, str, list, dict, nil, cons, end, entry, items, is_str, truthy,
  get, get_or,
}
use otaman_core.SecurityGates.{layer_names}

abbrev pub verdicts : List String
verdicts = "pass" ∷ "fail" ∷ "advisory" ∷ "skipped" ∷ "not-run" ∷ []

abbrev pub blocking_verdict : String
blocking_verdict = "fail"

-- `SecurityGateReportError`, by what is malformed
pub data ReportError : Type 0 where
  not_a_mapping not_a_list bad_text bad_texts unknown_layer unknown_verdict bad_justification
        bad_pr :
      ReportError

pub record LayerVerdict : Type 0 where
  pub layer : String
  pub verdict : String
  pub findings : List String

pub record Disagreement : Type 0 where
  pub finding : String
  pub deterministic : String
  pub observer : String
  pub layer : String

pub record Suppression : Type 0 where
  pub marker : String
  pub location : String
  pub justified : Bool
  pub justification : Option String

pub record Report : Type 0 where
  pub repo : String
  pub pr : Option String
  pub layers : List LayerVerdict
  pub disagreements : List Disagreement
  pub suppressions : List Suppression

abbrev is_fail : LayerVerdict → Bool
is_fail la = str_eq la.verdict blocking_verdict

abbrev is_bare : Suppression → Bool
is_bare s = not s.justified

abbrev pub unjustified_suppressions : Report → List Suppression
unjustified_suppressions r = keep is_bare r.suppressions

abbrev pub has_some {ℓ} : {A : Type ℓ} → List A → Bool
has_some [] = false
has_some (x ∷ xs) = true

unfoldable pub is_blocked : Report → Bool
is_blocked r = if any is_fail r.layers then true else has_some (unjustified_suppressions r)

abbrev pub as_str : Value → Result ReportError String
as_str (str s) = if is_empty s then err bad_text else ok s
as_str v = err bad_text

abbrev pub texts : List Value → List String
texts [] = []
texts (str s ∷ vs) = s ∷ texts vs
texts (v ∷ vs) = texts vs

abbrev pub str_tuple : Value → Result ReportError (List String)
str_tuple null = ok []
str_tuple (list vs) = if all is_str (items vs) then ok (texts (items vs)) else err bad_texts
str_tuple v = err bad_texts

unfoldable pub parse_layer : Value → Result ReportError LayerVerdict
parse_layer (dict raw) = do
  layer ← as_str (get "layer" raw)
  u ← require (elem layer layer_names) unknown_layer
  verdict ← as_str (get "verdict" raw)
  w ← require (elem verdict verdicts) unknown_verdict
  findings ← str_tuple (get "findings" raw)
  ok (record { layer = layer; verdict = verdict; findings = findings })
parse_layer v = err not_a_mapping

abbrev pub text_or_empty : Value → String
text_or_empty (str s) = s
text_or_empty v = ""

unfoldable pub parse_disagreement : Value → Result ReportError Disagreement
parse_disagreement (dict raw) = do
  finding ← as_str (get "finding" raw)
  deterministic ← as_str (get "deterministic" raw)
  observer ← as_str (get "observer" raw)
  ok (record {
    finding = finding;
    deterministic = deterministic;
    observer = observer;
    layer = text_or_empty (get_or "layer" (str "") raw);
  })
parse_disagreement v = err not_a_mapping

abbrev pub optional_text : ReportError → Value → Result ReportError (Option String)
optional_text e null = ok none
optional_text e (str s) = ok (some s)
optional_text e v = err e

unfoldable pub parse_suppression : Value → Result ReportError Suppression
parse_suppression (dict raw) = do
  justification ← optional_text bad_justification (get "justification" raw)
  marker ← as_str (get "marker" raw)
  location ← as_str (get "location" raw)
  ok (record {
    marker = marker;
    location = location;
    justified = truthy (get_or "justified" (bool false) raw);
    justification = justification;
  })
parse_suppression v = err not_a_mapping

-- `data.get(k) or []`, which must be a list
abbrev pub list_of : Value → Result ReportError Values
list_of (list vs) = ok vs
list_of v = if truthy v then err not_a_list else ok nil

unfoldable pub parse_all :
    {A : Type 0} → (Value → Result ReportError A) → Values → Result ReportError (List A)
parse_all parse nil = ok []
parse_all parse (cons v vs) = do a ← parse v; rest ← parse_all parse vs; ok (a ∷ rest)

unfoldable pub report_from_dict : Value → Result ReportError Report
unfolding parse_all parse_layer parse_disagreement parse_suppression
report_from_dict (dict es) = do
  pr ← optional_text bad_pr (get "pr" es)
  raw_layers ← list_of (get "layers" es)
  raw_disagreements ← list_of (get "disagreements" es)
  raw_suppressions ← list_of (get "suppressions" es)
  repo ← as_str (get "repo" es)
  layers ← parse_all parse_layer raw_layers
  disagreements ← parse_all parse_disagreement raw_disagreements
  suppressions ← parse_all parse_suppression raw_suppressions
  ok (record {
    repo = repo;
    pr = pr;
    layers = layers;
    disagreements = disagreements;
    suppressions = suppressions;
  })
report_from_dict v = err not_a_mapping

-- the dict's items in the order in which they are written
abbrev pub values : List String → Values
values [] = nil
values (s ∷ ss) = cons (str s) (values ss)

abbrev pub findings_to : List String → Entries
findings_to [] = end
findings_to (s ∷ ss) = entry (str "findings") (list (values (s ∷ ss))) end

unfoldable pub layer_to_dict : LayerVerdict → Value
layer_to_dict la = dict (
    entry (str "layer") (str la.layer)
      (entry (str "verdict") (str la.verdict) (findings_to la.findings)))

abbrev pub layer_to : String → Entries
layer_to String.[] = end
layer_to (String.◌∷◌ c s) = entry (str "layer") (str (String.◌∷◌ c s)) end

unfoldable pub disagreement_to_dict : Disagreement → Value
disagreement_to_dict d = dict (
    entry (str "finding") (str d.finding) (
      entry (str "deterministic") (str d.deterministic)
        (entry (str "observer") (str d.observer) (layer_to d.layer))))

abbrev pub text_to : String → Option String → Entries → Entries
text_to k none es = es
text_to k (some s) es = entry (str k) (str s) es

unfoldable pub suppression_to_dict : Suppression → Value
suppression_to_dict s = dict (
    entry (str "marker") (str s.marker) (
      entry (str "location") (str s.location)
        (entry (str "justified") (bool s.justified) (text_to "justification" s.justification end))))

unfoldable pub map_values : {A : Type 0} → (A → Value) → List A → Values
map_values f [] = nil
map_values f (a ∷ rest) = cons (f a) (map_values f rest)

unfoldable pub report_to_dict : Report → Value
unfolding is_blocked map_values layer_to_dict disagreement_to_dict suppression_to_dict
report_to_dict r = dict (
    entry (str "repo") (str r.repo) (
      entry (str "blocked") (bool (is_blocked r)) (
        text_to "pr" r.pr (
          entry (str "layers") (list (map_values layer_to_dict r.layers)) (
            entry (str "disagreements") (list (map_values disagreement_to_dict r.disagreements)) (
              entry (str "suppressions") (list (map_values suppression_to_dict r.suppressions))
                end))))))
