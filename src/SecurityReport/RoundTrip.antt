-- ===== src/SecurityReport/RoundTrip.antt =====
-- A report survives the bus (src/otaman_core/security_gate_report.py: report_to_dict,
-- report_from_dict).
use otaman_core.Prelude.{
  String, Bool, true, false, Option, none, some, List, [], ◌∷◌, Result, ok, All, all, elem,
  is_empty, eq_refl, ◌≡◌, refl, ap,
}
use otaman_core.Yaml.{
  Value, Values, Entries, end, entry, get_or, bool, str, list, dict, is_str, items, get,
}
use otaman_core.SecurityGates.{layer_names}
use otaman_core.SecurityReport.{
  verdicts, ReportError, LayerVerdict, Disagreement, Suppression, Report, is_blocked, texts,
  text_or_empty, optional_text, bad_justification, str_tuple, parse_layer, parse_disagreement,
  parse_suppression, parse_all, report_from_dict, values, findings_to, layer_to_dict, layer_to,
  disagreement_to_dict, text_to, suppression_to_dict, map_values, report_to_dict,
}

-- What a reader accepts of a layer's verdict, a disagreement and a suppression.
unfoldable pub IsKnownLayer : LayerVerdict → Type 0
IsKnownLayer la =
    (is_empty la.layer ≡ false)
    × (elem la.layer layer_names ≡ true)
    × (is_empty la.verdict ≡ false)
    × (elem la.verdict verdicts ≡ true)

unfoldable pub IsNamed : Disagreement → Type 0
IsNamed d =
    (is_empty d.finding ≡ false)
    × (is_empty d.deterministic ≡ false)
    × (is_empty d.observer ≡ false)

unfoldable pub IsPlaced : Suppression → Type 0
IsPlaced s = (is_empty s.marker ≡ false) × (is_empty s.location ≡ false)

all-values : (ss : List String) → all is_str (items (values ss)) ≡ true
all-values [] = refl
all-values (s ∷ ss) = all-values ss

texts-values : (ss : List String) → texts (items (values ss)) ≡ ss
texts-values [] = refl
texts-values (s ∷ ss) = ap (λ ts. s ∷ ts) (texts-values ss)

text_or_empty-layer_to : (t : String) → text_or_empty (get_or "layer" (str "") (layer_to t)) ≡ t
text_or_empty-layer_to String.[] = refl
text_or_empty-layer_to (String.◌∷◌ c t) = refl

optional_text-text_to :
    (e : ReportError) (k : String) (o : Option String)
    → optional_text e (get k (text_to k o end)) ≡ ok o
optional_text-text_to e k none = refl
optional_text-text_to e k (some s) = rw (eq_refl k) refl

str_tuple-findings : (ss : List String) → str_tuple (get "findings" (findings_to ss)) ≡ ok ss
str_tuple-findings [] = refl
str_tuple-findings (s ∷ ss) = rw (all-values ss, texts-values ss) refl

parse_layer-to_dict : (la : LayerVerdict) → IsKnownLayer la → parse_layer (layer_to_dict la) ≡ ok la
unfolding parse_layer layer_to_dict IsKnownLayer
parse_layer-to_dict la (a, b, c, d) =
    rw (a, b) (rw (c, d) (rw (str_tuple-findings la.findings) refl))

parse_disagreement-to_dict :
    (d : Disagreement) → IsNamed d → parse_disagreement (disagreement_to_dict d) ≡ ok d
unfolding parse_disagreement disagreement_to_dict IsNamed
parse_disagreement-to_dict d (a, b, c) =
    rw (a, b, c)
      (ap
        (λ t. ok (record {
          finding = d.finding;
          deterministic = d.deterministic;
          observer = d.observer;
          layer = t;
        }))
        (text_or_empty-layer_to d.layer))

parse_suppression-to_dict :
    (s : Suppression) → IsPlaced s → parse_suppression (suppression_to_dict s) ≡ ok s
unfolding parse_suppression suppression_to_dict IsPlaced
parse_suppression-to_dict s (a, b) =
    rw (optional_text-text_to bad_justification "justification" s.justification) (rw (a, b) refl)

parse_all-map_values :
    {A : Type 0} (P : A → Type 0) (parse : Value → Result ReportError A) (write : A → Value)
    → ((a : A) → P a → parse (write a) ≡ ok a)
    → (xs : List A) → All P xs
    → parse_all parse (map_values write xs) ≡ ok xs
unfolding parse_all map_values
parse_all-map_values P parse write reads [] h = refl
parse_all-map_values P parse write reads (x ∷ xs) (now, h) =
    rw (reads x now, parse_all-map_values P parse write reads xs h) refl

-- What a report that was read is made of.
pub record IsReadable (r : Report) : Type 0 where
  pub for_repo : is_empty r.repo ≡ false
  pub layers : All IsKnownLayer r.layers
  pub disagreements : All IsNamed r.disagreements
  pub suppressions : All IsPlaced r.suppressions

-- The dict of a report, its parts already written.
written : String → Bool → Option String → (ls ds ss : Values) → Entries
written repo blocked pr ls ds ss = entry (str "repo") (str repo) (
    entry (str "blocked") (bool blocked) (
      text_to "pr" pr (
        entry (str "layers") (list ls)
          (entry (str "disagreements") (list ds) (entry (str "suppressions") (list ss) end)))))

report_from_dict-written :
    (repo : String) (blocked : Bool) (pr : Option String) (ls ds ss : Values)
    (layers : List LayerVerdict) (disagreements : List Disagreement)
    (suppressions : List Suppression)
    → is_empty repo ≡ false
    → parse_all parse_layer ls ≡ ok layers
    → parse_all parse_disagreement ds ≡ ok disagreements
    → parse_all parse_suppression ss ≡ ok suppressions
    → report_from_dict (dict (written repo blocked pr ls ds ss))
      ≡ ok (record {
        repo = repo;
        pr = pr;
        layers = layers;
        disagreements = disagreements;
        suppressions = suppressions;
      })
unfolding report_from_dict written
report_from_dict-written repo blocked none ls ds ss layers disagreements suppressions a b c d =
    rw a (rw (b, c, d) refl)
report_from_dict-written repo blocked (some pr) ls ds ss layers disagreements suppressions a b c d =
    rw a (rw (b, c, d) refl)

-- A report for a named repo, with known layers and verdicts, disagreements whose three texts are not
-- empty, and suppressions with a marker and a location, reads back from its dict as itself, so with
-- the same verdict.
pub report_from_dict-to_dict :
    (r : Report) → IsReadable r → report_from_dict (report_to_dict r) ≡ ok r
unfolding report_to_dict written
report_from_dict-to_dict r h =
    report_from_dict-written r.repo (is_blocked r) r.pr (map_values layer_to_dict r.layers)
      (map_values disagreement_to_dict r.disagreements)
      (map_values suppression_to_dict r.suppressions) r.layers r.disagreements r.suppressions
      h.for_repo
      (parse_all-map_values IsKnownLayer parse_layer layer_to_dict parse_layer-to_dict r.layers
        h.layers)
      (parse_all-map_values IsNamed parse_disagreement disagreement_to_dict
        parse_disagreement-to_dict r.disagreements h.disagreements)
      (parse_all-map_values IsPlaced parse_suppression suppression_to_dict parse_suppression-to_dict
        r.suppressions h.suppressions)
