-- ===== src/SecurityReport/Readable.antt =====
-- Whatever is read as a report reads back (src/otaman_core/security_gate_report.py).
use otaman_core.Prelude.{
  String, false, List, [], ◌∷◌, Result, ok, >>=-eq-ok, require, require-eq-ok, All, elem, is_empty,
  Bool-cases, inl, inr, ◌≡◌, subst, arith,
}
use otaman_core.Yaml.{Value, Values, nil, cons, str, dict, bool, get, get_or, truthy}
use otaman_core.SecurityGates.{layer_names}
use otaman_core.SecurityReport.{
  verdicts, ReportError, unknown_layer, unknown_verdict, bad_justification, bad_pr, LayerVerdict,
  Disagreement, Suppression, Report, as_str, str_tuple, text_or_empty, optional_text, list_of,
  parse_layer, parse_disagreement, parse_suppression, parse_all, report_from_dict, report_to_dict,
}
use otaman_core.SecurityReport.RoundTrip.{
  IsKnownLayer, IsNamed, IsPlaced, IsReadable, report_from_dict-to_dict,
}

as_str-filled : (v : Value) (s : String) → as_str v ≡ ok s → is_empty s ≡ false
as_str-filled (str t) s h = elim (Bool-cases (is_empty t)) [
  | inl y ↦ ground (arith, y)
  | inr n ↦ let same : t ≡ s = ground (arith, n) in rw (← same) n
]
as_str-filled v s h = ground arith

parse_layer-IsKnownLayer : (v : Value) (la : LayerVerdict) → parse_layer v ≡ ok la → IsKnownLayer la
unfolding parse_layer IsKnownLayer
parse_layer-IsKnownLayer (dict raw) la h =
    let (layer, e₁, h₁) = >>=-eq-ok (as_str (get "layer" raw)) _ h in
    let (u, e₂, h₂) = >>=-eq-ok (require (elem layer layer_names) unknown_layer) _ h₁ in
    let (verdict, e₃, h₃) = >>=-eq-ok (as_str (get "verdict" raw)) _ h₂ in
    let (w, e₄, h₄) = >>=-eq-ok (require (elem verdict verdicts) unknown_verdict) _ h₃ in
    let (findings, e₅, h₅) = >>=-eq-ok (str_tuple (get "findings" raw)) _ h₄ in
    let same : record { layer = layer; verdict = verdict; findings = findings } ≡ la =
      ground arith in
    subst IsKnownLayer same (
      as_str-filled _ layer e₁,
      require-eq-ok _ _ e₂,
      as_str-filled _ verdict e₃,
      require-eq-ok _ _ e₄,
    )
parse_layer-IsKnownLayer v la h = ground arith

parse_disagreement-IsNamed :
    (v : Value) (d : Disagreement) → parse_disagreement v ≡ ok d → IsNamed d
unfolding parse_disagreement IsNamed
parse_disagreement-IsNamed (dict raw) d h =
    let (finding, e₁, h₁) = >>=-eq-ok (as_str (get "finding" raw)) _ h in
    let (deterministic, e₂, h₂) = >>=-eq-ok (as_str (get "deterministic" raw)) _ h₁ in
    let (observer, e₃, h₃) = >>=-eq-ok (as_str (get "observer" raw)) _ h₂ in
    let same : record {
      finding = finding;
      deterministic = deterministic;
      observer = observer;
      layer = text_or_empty (get_or "layer" (str "") raw);
    }
        ≡ d =
      ground arith in
    subst IsNamed same
      (as_str-filled _ finding e₁, as_str-filled _ deterministic e₂, as_str-filled _ observer e₃)
parse_disagreement-IsNamed v d h = ground arith

parse_suppression-IsPlaced : (v : Value) (s : Suppression) → parse_suppression v ≡ ok s → IsPlaced s
unfolding parse_suppression IsPlaced
parse_suppression-IsPlaced (dict raw) s h =
    let (justification, e₁, h₁) =
      >>=-eq-ok (optional_text bad_justification (get "justification" raw)) _ h in
    let (marker, e₂, h₂) = >>=-eq-ok (as_str (get "marker" raw)) _ h₁ in
    let (location, e₃, h₃) = >>=-eq-ok (as_str (get "location" raw)) _ h₂ in
    let same : record {
      marker = marker;
      location = location;
      justified = truthy (get_or "justified" (bool false) raw);
      justification = justification;
    }
        ≡ s =
      ground arith in
    subst IsPlaced same (as_str-filled _ marker e₂, as_str-filled _ location e₃)
parse_suppression-IsPlaced v s h = ground arith

parse_all-All :
    {A : Type 0} (P : A → Type 0) (parse : Value → Result ReportError A)
    → ((v : Value) (a : A) → parse v ≡ ok a → P a)
    → (vs : Values) (xs : List A) → parse_all parse vs ≡ ok xs
    → All P xs
unfolding parse_all
parse_all-All P parse sound nil xs h = let same : [] ≡ xs = ground arith in rw (← same) tt
parse_all-All P parse sound (cons v vs) xs h =
    let (a, e₁, h₁) = >>=-eq-ok (parse v) _ h in
    let (rest, e₂, h₂) = >>=-eq-ok (parse_all parse vs) _ h₁ in
    let same : a ∷ rest ≡ xs = ground arith in
    rw (← same) (sound v a e₁, parse_all-All P parse sound vs rest e₂)

report_from_dict-IsReadable : (v : Value) (r : Report) → report_from_dict v ≡ ok r → IsReadable r
unfolding report_from_dict
report_from_dict-IsReadable (dict es) r h =
    let (pr, e₁, h₁) = >>=-eq-ok (optional_text bad_pr (get "pr" es)) _ h in
    let (ls, e₂, h₂) = >>=-eq-ok (list_of (get "layers" es)) _ h₁ in
    let (ds, e₃, h₃) = >>=-eq-ok (list_of (get "disagreements" es)) _ h₂ in
    let (ss, e₄, h₄) = >>=-eq-ok (list_of (get "suppressions" es)) _ h₃ in
    let (repo, e₅, h₅) = >>=-eq-ok (as_str (get "repo" es)) _ h₄ in
    let (layers, e₆, h₆) = >>=-eq-ok (parse_all parse_layer ls) _ h₅ in
    let (disagreements, e₇, h₇) = >>=-eq-ok (parse_all parse_disagreement ds) _ h₆ in
    let (suppressions, e₈, h₈) = >>=-eq-ok (parse_all parse_suppression ss) _ h₇ in
    let same : record {
      repo = repo;
      pr = pr;
      layers = layers;
      disagreements = disagreements;
      suppressions = suppressions;
    }
        ≡ r =
      ground arith in
    subst IsReadable same (record {
      for_repo = as_str-filled _ repo e₅;
      layers = parse_all-All IsKnownLayer parse_layer parse_layer-IsKnownLayer ls layers e₆;
      disagreements =
          parse_all-All IsNamed parse_disagreement parse_disagreement-IsNamed ds disagreements e₇;
      suppressions =
          parse_all-All IsPlaced parse_suppression parse_suppression-IsPlaced ss suppressions e₈;
    })
report_from_dict-IsReadable v r h = ground arith

-- Whatever value a report was read from, the report reads back from its own dict as itself, so with
-- the same layers, disagreements, suppressions and verdict.
pub report_from_dict_stable :
    (v : Value) (r : Report)
    → report_from_dict v ≡ ok r
    → report_from_dict (report_to_dict r) ≡ ok r
report_from_dict_stable v r h = report_from_dict-to_dict r (report_from_dict-IsReadable v r h)
