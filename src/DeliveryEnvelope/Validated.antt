-- ===== src/DeliveryEnvelope/Validated.antt =====
-- What the gate at approval lets through (src/otaman_core/delivery_envelope.py: validate_envelope,
-- proceeds_without_prompt).
use otaman_core.Prelude.{
  String, Bool, true, false, not, Option, some, [], ◌∷◌, ok, >>=-eq-ok, require, require-eq-ok,
  str_eq, eq_iff, Bool-cases, inl, inr, ◌≡◌, refl, ap, ◌∙◌, subst, arith,
}
use otaman_core.Yaml.{Value}
use otaman_core.DeliveryEnvelope.{
  Scope, Envelope, yes, limited, Registry, class_registry, floor_action, unknown_class, lookup,
  is_floor, runtime_honored, is_listed, refuse_floor, refuse_unknown, parse_envelope,
  validate_envelope, is_yes, proceeds_in, proceeds_without_prompt,
}

refuse_floor-lookup :
    (env : Envelope) {u : Unit {0}} (c : String) (s : Scope)
    → refuse_floor env ≡ ok u
    → lookup c env ≡ some s
    → is_floor c ≡ false
unfolding refuse_floor lookup
refuse_floor-lookup [] c s h e = ground arith
refuse_floor-lookup ((j, t) ∷ m) c s h e =
    let (u, first, rest) = >>=-eq-ok (require (not (is_floor j)) (floor_action j)) _ h in
    elim (Bool-cases (str_eq j c)) [
      | inl y ↦
          let same : j ≡ c = ground (arith, eq_iff j c) in
          let clear : not (is_floor j) ≡ true = require-eq-ok _ _ first in
          subst (λ k. is_floor k ≡ false) same (ground arith)
      | inr n ↦ refuse_floor-lookup m c s rest (ground (arith, n))
    ]

refuse_unknown-lookup :
    (env : Envelope) {u : Unit {0}} (c : String) (s : Scope)
    → refuse_unknown env ≡ ok u
    → lookup c env ≡ some s
    → is_listed (runtime_honored c) ≡ true
unfolding refuse_unknown lookup
refuse_unknown-lookup [] c s h e = ground arith
refuse_unknown-lookup ((j, t) ∷ m) c s h e =
    let (u, first, rest) =
      >>=-eq-ok (require (is_listed (runtime_honored j)) (unknown_class j)) _ h in
    elim (Bool-cases (str_eq j c)) [
      | inl y ↦
          let same : j ≡ c = ground (arith, eq_iff j c) in
          subst (λ k. is_listed (runtime_honored k) ≡ true) same (require-eq-ok _ _ first)
      | inr n ↦ refuse_unknown-lookup m c s rest (ground (arith, n))
    ]

-- An envelope that the gate accepts declares only classes of the registry, and none of the floor.
pub validate_envelope-registered :
    (raw : Value) (env : Envelope) (c : String) (s : Scope)
    → validate_envelope raw ≡ ok env
    → lookup c env ≡ some s
    → (is_floor c ≡ false) × (is_listed (runtime_honored c) ≡ true)
unfolding validate_envelope
validate_envelope-registered raw env c s h e =
    let (parsed, e₁, h₁) = >>=-eq-ok (parse_envelope raw) _ h in
    let (u, e₂, h₂) = >>=-eq-ok (refuse_floor parsed) _ h₁ in
    let (w, e₃, h₃) = >>=-eq-ok (refuse_unknown parsed) _ h₂ in
    let same : parsed ≡ env = ground arith in
    let here : lookup c parsed ≡ some s = ap (lookup c) same ∙ e in
    (refuse_floor-lookup parsed c s e₂ here, refuse_unknown-lookup parsed c s e₃ here)

abbrev all_limited : Registry → Bool
all_limited [] = true
all_limited ((c, limited) ∷ m) = all_limited m
all_limited ((c, h) ∷ m) = false

lookup-limited : (c : String) (m : Registry) → all_limited m ≡ true → is_yes (lookup c m) ≡ false
unfolding lookup
lookup-limited c [] h = refl
lookup-limited c ((j, limited) ∷ m) h = elim (Bool-cases (str_eq j c)) [
  | inl y ↦ rw y refl
  | inr n ↦ rw n (lookup-limited c m h)
]
lookup-limited c ((j, yes) ∷ m) h = ground arith

-- As long as no class of the registry is measured as honored, no action proceeds without a prompt,
-- whatever is declared.
pub proceeds_without_prompt-never :
    (env : Envelope) (c : String) (target : Option String)
    → proceeds_without_prompt env c target ≡ false
unfolding proceeds_without_prompt proceeds_in
proceeds_without_prompt-never env c target =
    rw (lookup-limited c class_registry refl) (ground arith)
