-- ===== src/SecurityGates/Layer.antt =====
-- src/otaman_core/security_gates.py: what holds of one layer that the parser accepts.
use otaman_core.Prelude.{
  String, Bool, true, false, not, ◌&&◌, Option, none, some, List, [], ◌∷◌, Result, ok, err,
  >>=-eq-ok, require, str_eq, str_eq-false, elem, ◌≡◌, ◌≢◌, refl, subst, ◌⊎◌, inl, inr, Bool-cases,
  arith, eq_iff,
}
use otaman_core.Yaml.{
  Value, nil, Entries, bool, list, end, entry, has, get, get_or, find, or_default, truthy,
}
use otaman_core.SecurityGates.{layer_names, LayerGate}
use otaman_core.SecurityGates.Parse.{
  scanners, GateError, as_mapping, distinct_pair, text_list, parse_timeout, pair_not_texts,
  bad_tools, unknown_key, unknown_layer, stray, layer_fields, parse_cap, parse_scanner_pair,
  pair_of, check_opt_in, parse_body, parse_layer,
}

-- Two distinct scanners of the three.
abbrev pub IsPair : List String → Type 0
IsPair names =
    (a : String) × (b : String) × (names ≡ a ∷ b ∷ [])
    × (a ≢ b)
    × (elem a scanners ≡ true)
    × (elem b scanners ≡ true)

module _ {Cost : Type 0} where
  -- A layer of the ladder, under its name; a recorded scanner pair stands on ci-medium and is two of
  -- the three scanners; only ci-slow is opted into, and only where that is allowed.
  pub record GateIsValid (may_opt_in : Bool) (e : String × LayerGate Cost) : Type 0 where
    pub named : e.1.layer ≡ e.0
    pub known : elem e.0 layer_names ≡ true
    pub paired : (e.1.scanner_pair ≡ []) ⊎ ((e.0 ≡ "ci-medium") × IsPair e.1.scanner_pair)
    pub opted : (e.1.opt_in ≡ false) ⊎ ((e.0 ≡ "ci-slow") × (may_opt_in ≡ true))

distinct_pair-IsPair : (names out : List String) → distinct_pair names ≡ ok out → IsPair out
unfolding distinct_pair
distinct_pair-IsPair (a ∷ b ∷ []) out h = elim (Bool-cases (str_eq a b)) [
  | inl y ↦ absurd (ground arith)
  | inr n ↦ elim (Bool-cases (elem a scanners && elem b scanners)) [
    | inl y ↦
        (let same : a ∷ b ∷ [] ≡ out = ground arith in
          rw (← same) (
            a,
            b,
            refl,
            str_eq-false a b n,
            both_left (elem a scanners) (elem b scanners) y,
            both_right (elem a scanners) (elem b scanners) y,
          ))
    | inr m ↦ absurd (ground arith)
  ]
]
  where
    both_left : (p q : Bool) → (p && q) ≡ true → p ≡ true
    both_left p q e = ground arith

    both_right : (p q : Bool) → (p && q) ≡ true → q ≡ true
    both_right p q e = ground arith
distinct_pair-IsPair names out h = absurd (ground arith)

parse_scanner_pair-IsPair :
    (raw : Value) (out : List String) → parse_scanner_pair raw ≡ ok out → IsPair out
unfolding parse_scanner_pair
parse_scanner_pair-IsPair raw out h =
    let (names, e, k) = >>=-eq-ok (text_list raw pair_not_texts) distinct_pair h in
    distinct_pair-IsPair names out k

pair_of-paired :
    (name : String) (body : Entries) (out : List String)
    → pair_of name body ≡ ok out
    → (out ≡ []) ⊎ ((name ≡ "ci-medium") × IsPair out)
unfolding pair_of
pair_of-paired name body out h = elim (Bool-cases (has "scanner-pair" body)) [
  | inl y ↦ elim (Bool-cases (str_eq name "ci-medium")) [
    | inl m ↦
        (let inner : parse_scanner_pair (get "scanner-pair" body) ≡ ok out = ground arith in
          inr (
            (eq_iff name "ci-medium").0 m,
            parse_scanner_pair-IsPair (get "scanner-pair" body) out inner,
          ))
    | inr m ↦ absurd (ground arith)
  ]
  | inr n ↦ inl (ground arith)
]

absent_false : (o : Option Value) → (o ≡ none) → truthy (or_default (bool false) o) ≡ false
absent_false none h = refl
absent_false (some v) h = absurd (ground arith)

find-none : (k : String) (es : Entries) → has k es ≡ false → find k es ≡ none
find-none k end h = refl
find-none k (entry j v es) h = ground (arith, find-none k es)

check_opt_in-opted :
    (name : String) (allow : Bool) (body : Entries)
    → check_opt_in name allow body ≡ ok tt
    → (truthy (get_or "opt-in" (bool false) body) ≡ false) ⊎ ((name ≡ "ci-slow") × (allow ≡ true))
unfolding check_opt_in
check_opt_in-opted name allow body h = elim (Bool-cases (has "opt-in" body)) [
  | inl y ↦ inr (ground (arith, eq_iff name "ci-slow"), ground arith)
  | inr n ↦ inl (absent_false (find "opt-in" body) (find-none "opt-in" body n))
]

module _ {Cost : Type 0} (nonnegative : Value → Bool) (float_of : Value → Cost) where
  parse_body-GateIsValid :
      (allow : Bool) (name : String) (body : Entries) (g : LayerGate Cost)
      → elem name layer_names ≡ true
      → parse_body nonnegative float_of allow name body ≡ ok g
      → GateIsValid allow (name, g)
  unfolding parse_body
  parse_body-GateIsValid allow name body g known h =
      let (u, e₀, h₀) = >>=-eq-ok (require (not (stray layer_fields body)) unknown_key) _ h in
      let (tools, e₁, h₁) = >>=-eq-ok (text_list (get_or "tools" (list nil) body) bad_tools) _ h₀ in
      let (timeout, e₂, h₂) = >>=-eq-ok (parse_timeout (get "timeout" body)) _ h₁ in
      let (cap, e₃, h₃) = >>=-eq-ok (parse_cap nonnegative float_of (get "cost-cap" body)) _ h₂ in
      let (pair, e₄, h₄) = >>=-eq-ok (pair_of name body) _ h₃ in
      let (done, e₅, h₅) = >>=-eq-ok (check_opt_in name allow body) _ h₄ in
      subst (λ x. GateIsValid allow (name, x)) (ok_eq _ _ h₅)
        (record {
          named = refl;
          known = known;
          paired = pair_of-paired name body pair e₄;
          opted = check_opt_in-opted name allow body e₅;
        })
    where
      ok_eq :
          (x y : LayerGate Cost) → ◌≡◌ {A = Result GateError (LayerGate Cost)} (ok x) (ok y) → x ≡ y
      ok_eq x y e = ground arith

  pub parse_layer-GateIsValid :
      (allow : Bool) (name : String) (raw : Value) (g : LayerGate Cost)
      → parse_layer nonnegative float_of allow name raw ≡ ok g
      → GateIsValid allow (name, g)
  unfolding parse_layer
  parse_layer-GateIsValid allow name raw g h = elim (Bool-cases (elem name layer_names)) [
    | inl y ↦
        (let (body, e, k) =
            >>=-eq-ok (as_mapping raw) (parse_body nonnegative float_of allow name) (rw y at h) in
          parse_body-GateIsValid allow name body g y k)
    | inr n ↦ absurd (failed (rw n at h))
  ]
    where
      failed : ◌≡◌ {A = Result GateError (LayerGate Cost)} (err unknown_layer) (ok g) → ⊥
      failed e = ground arith
