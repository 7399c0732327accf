-- ===== src/DeliveryEnvelope/Covers.antt =====
-- What a list of action classes authorizes (src/otaman_core/delivery_envelope.py: parse_envelope,
-- proceeds_without_prompt).
use otaman_core.Prelude.{
  String, Bool, false, not, ◌||◌, ◌&&◌, none, some, List, [], ◌∷◌, ◌++◌, Result, ok, err, >>=-eq-ok,
  keep, elem, elem-append, elem-keep, any, str_eq, eq_iff, Bool-cases, inl, inr, ◌≡◌, refl, sym, ap,
  ◌∙◌, arith,
}
use otaman_core.Yaml.{Value, Values, list, nil, cons, items}
use otaman_core.DeliveryEnvelope.{
  EnvelopeError, Scope, Envelope, Registry, lookup, mention_of, widen, mention, parse_items,
  parse_envelope, is_floor, is_yes, covers, proceeds_in,
}

-- Whether one entry of the list names the class, unscoped or with the target.
abbrev pub allowed_by : String → String → Result EnvelopeError (String × Scope) → Bool
allowed_by action_class target (err e) = false
allowed_by action_class target (ok m) = str_eq m.0 action_class && covers (some m.1) (some target)

pub allows : String → String → Value → Bool
allows action_class target v = allowed_by action_class target (mention_of v)

elem-union :
    (t : String) (prev scope : List String)
    → elem t (prev ++ keep (λ s. not (elem s prev)) scope) ≡ (elem t prev || elem t scope)
elem-union t prev scope =
    elem-append t prev (keep (λ s. not (elem s prev)) scope)
    ∙ rw (elem-keep (λ s. not (elem s prev)) t scope) (ground arith)

covers-widen :
    (t : String) (prev scope : Scope)
    → covers (some (widen prev scope)) (some t)
      ≡ (covers (some prev) (some t) || covers (some scope) (some t))
unfolding widen
covers-widen t none scope = refl
covers-widen t (some prev) none = ground arith
covers-widen t (some prev) (some scope) = elem-union t prev scope

covers-mention :
    (c t name : String) (scope : Scope) (out : Envelope)
    → covers (lookup c (mention name scope out)) (some t)
      ≡ (covers (lookup c out) (some t) || (str_eq name c && covers (some scope) (some t)))
unfolding mention lookup
covers-mention c t name scope [] = elim (Bool-cases (str_eq name c)) [
  | inl y ↦ rw y refl
  | inr n ↦ rw n refl
]
covers-mention c t name scope ((j, prev) ∷ m) = elim (Bool-cases (str_eq j name)) [
  | inl here ↦
      let e : j ≡ name = ground (arith, eq_iff j name) in
      let alike : str_eq name c ≡ str_eq j c = ap (λ k. str_eq k c) (sym e) in
      rw (here, alike)
        (elim (Bool-cases (str_eq j c)) [
          | inl y ↦ rw y (covers-widen t prev scope)
          | inr n ↦ rw n (ground arith)
        ])
  | inr off ↦ rw off (elim (Bool-cases (str_eq j c)) [
    | inl y ↦
        let apart : str_eq name c ≡ false =
          ground (arith, eq_iff j c, eq_iff name c, eq_iff j name) in
        rw (y, apart) (ground arith)
    | inr n ↦ rw n (covers-mention c t name scope m)
  ])
]

parse_items-covers :
    (c t : String) (vs : Values) (out env : Envelope)
    → parse_items vs out ≡ ok env
    → covers (lookup c env) (some t)
      ≡ (covers (lookup c out) (some t) || any (allows c t) (items vs))
unfolding parse_items allows
parse_items-covers c t nil out env h =
    let same : out ≡ env = ground arith in rw (← same) (ground arith)
parse_items-covers c t (cons v vs) out env h =
    let (m, e, rest) = >>=-eq-ok (mention_of v) _ h in
    parse_items-covers c t vs (mention m.0 m.1 out) env rest
    ∙ rw (covers-mention c t m.0 m.1 out, e) (ground arith)

-- With an `authorizes:` list that parses, for any content of the class registry: an action on a
-- target proceeds without a prompt exactly when its class is not on the floor, is registered as
-- honored, and some entry of the list names it unscoped or with that target.
pub proceeds_in-parse_envelope :
    (registry : Registry) (vs : Values) (env : Envelope) (c t : String)
    → parse_envelope (list vs) ≡ ok env
    → proceeds_in registry env c (some t)
      ≡ (not (is_floor c) && is_yes (lookup c registry) && any (allows c t) (items vs))
unfolding proceeds_in parse_envelope lookup
proceeds_in-parse_envelope registry vs env c t h =
    let covered : covers (lookup c env) (some t) ≡ any (allows c t) (items vs) =
      parse_items-covers c t vs [] env h in
    elim (Bool-cases (is_floor c)) [
      | inl y ↦ rw y refl
      | inr n ↦ rw n (elim (Bool-cases (is_yes (lookup c registry))) [
        | inl y ↦ rw y covered
        | inr m ↦ rw m refl
      ])
    ]
