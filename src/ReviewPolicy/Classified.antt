-- ===== src/ReviewPolicy/Classified.antt =====
-- What a policy that was parsed classifies (src/otaman_core/review_policy.py).
use otaman_core.Prelude.{
  String, Bool, true, false, not, ◌||◌, Option, List, [], ◌∷◌, ok, >>=-eq-ok, require,
  require-eq-ok, elem, str_eq, eq_iff, Bool-cases, inl, inr, ◌↔◌, ◌≡◌, refl, ap, ◌∙◌, subst, arith,
  if◌then◌else◌,
}
use otaman_core.Yaml.{Value, Entries, null, list, nil, dict, get_or}
use otaman_core.ReviewPolicy.{
  program, mandatory, auto_triage, opt_in, unknown_key, conflict, ReviewPolicy, default_policy,
  default_mandatory, default_auto_triage, str_set, stray, opt_in_of, meets, parse_block,
  parse_review_policy, is_urgent, classify,
}

-- No type is both must-see and collapsed.
pub IsDisjoint : ReviewPolicy → Type 0
IsDisjoint policy = (t : String) → elem t policy.must_see ≡ true → elem t policy.collapsed ≡ false

meets-false :
    (t : String) (xs ys : List String) → meets xs ys ≡ false → elem t xs ≡ true → elem t ys ≡ false
meets-false t [] ys h e = cc
meets-false t (x ∷ xs) ys h e = elim (Bool-cases (str_eq t x)) [
  | inl y ↦ let same : t ≡ x = ground (arith, eq_iff t x) in ap (λ s. elem s ys) same ∙ ground arith
  | inr n ↦ meets-false t xs ys (ground arith) (ground (arith, n))
]

parse_block-IsDisjoint :
    (block : Entries) (policy : ReviewPolicy) → parse_block block ≡ ok policy → IsDisjoint policy
unfolding parse_block IsDisjoint
parse_block-IsDisjoint block policy h =
    let (u, e₁, h₁) =
      >>=-eq-ok
        (require (not (stray ("mandatory" ∷ "auto-triage" ∷ "opt-in" ∷ []) block)) unknown_key) _
        h in
    let (must_see, e₂, h₂) = >>=-eq-ok (str_set (get_or "mandatory" (list nil) block)) _ h₁ in
    let (collapsed, e₃, h₃) = >>=-eq-ok (str_set (get_or "auto-triage" (list nil) block)) _ h₂ in
    let (opted, e₄, h₄) = >>=-eq-ok (opt_in_of block) _ h₃ in
    let (w, e₅, h₅) = >>=-eq-ok (require (not (meets must_see collapsed)) conflict) _ h₄ in
    let same : record { must_see = must_see; collapsed = collapsed; source = program } ≡ policy =
      ground arith in
    let apart : not (meets must_see collapsed) ≡ true = require-eq-ok _ _ e₅ in
    subst IsDisjoint same (λ t here. meets-false t must_see collapsed (ground arith) here)

parse_review_policy-IsDisjoint :
    (v : Value) (policy : ReviewPolicy) → parse_review_policy v ≡ ok policy → IsDisjoint policy
unfolding parse_review_policy IsDisjoint
parse_review_policy-IsDisjoint null policy h =
    let same : default_policy ≡ policy = ground arith in
    subst IsDisjoint same (λ t here. meets-false t default_mandatory default_auto_triage refl here)
parse_review_policy-IsDisjoint (dict block) policy h = parse_block-IsDisjoint block policy h
parse_review_policy-IsDisjoint v policy h = ground arith

decided :
    (u m c : Bool)
    → (m ≡ true → c ≡ false)
    → (((if u then mandatory else if m then mandatory else if c then auto_triage else opt_in)
          ≡ auto_triage)
        ↔ ((u ≡ false) × (c ≡ true)))
      × (((if u then mandatory else if m then mandatory else if c then auto_triage else opt_in)
            ≡ mandatory)
          ↔ ((u || m) ≡ true))
decided true m c apart = ((λ e. cc, λ p. cc), (λ e. refl, λ p. refl))
decided false true c apart = ((λ e. cc, λ p. ground (arith, apart refl)), (λ e. refl, λ p. refl))
decided false false true apart = ((λ e. (refl, refl), λ p. refl), (λ e. cc, λ p. cc))
decided false false false apart = ((λ e. cc, λ p. cc), (λ e. cc, λ p. cc))

-- Under a policy that was parsed, a message is collapsed exactly when it is not urgent and its type
-- is an auto-triage one, and must be seen exactly when it is urgent or its type is a mandatory one:
-- no type that is declared must-see is ever collapsed.
pub classify-parsed :
    (v : Value) (policy : ReviewPolicy) (message_type : String) (priority : Option String)
    → parse_review_policy v ≡ ok policy
    → ((classify policy message_type priority ≡ auto_triage)
        ↔ ((is_urgent priority ≡ false) × (elem message_type policy.collapsed ≡ true)))
      × ((classify policy message_type priority ≡ mandatory)
          ↔ ((is_urgent priority || elem message_type policy.must_see) ≡ true))
unfolding classify IsDisjoint
classify-parsed v policy t priority h =
    let apart : elem t policy.must_see ≡ true → elem t policy.collapsed ≡ false =
      parse_review_policy-IsDisjoint v policy h t in
    decided (is_urgent priority) (elem t policy.must_see) (elem t policy.collapsed) apart
