-- ===== src/Bus/Uri/Canonical.antt =====
-- Every parsed address is valid, and a canonical form is read alike in every local context.
use Prim.Native.String.{[] as nothing, ◌∷◌ as push}
use otaman_core.Prelude.{
  ℕ, ◌+◌, String, true, false, List, [], ◌∷◌, ok, >>=-eq-ok, ◌≡◌, refl, arith, ◌==◌, is_empty,
  ◌+++◌, strip, starts_with, drop_prefix, split_on, count_char, any_char, all_chars, Bool-cases,
  inl, inr, any_char-append,
}
use otaman_core.Bus.Uri.{
  scheme, BusUri, Kind, is_slug, slug_tail, is_segment, validate_segment, to_string, checked,
  full_parts, shorthand_parts, parse_stripped, parse, canonicalize,
}
use otaman_core.Bus.Uri.RoundTrip.{IsSlug, parse-to_string}

abbrev pub IsValid : BusUri → Type 0
IsValid u = (is_segment u.org ≡ true) × (is_segment u.program ≡ true) × (is_segment u.agent ≡ true)

validate_segment-valid :
    (s : String) (k : Kind) (t : String)
    → validate_segment s k ≡ ok t
    → (s ≡ t) × (is_segment s ≡ true)
unfolding validate_segment
validate_segment-valid s k t h = ground arith

checked-IsValid : (o p a : String) (u : BusUri) → checked o p a ≡ ok u → IsValid u
unfolding checked
checked-IsValid o p a u h =
    let (o', eo, h₁) = >>=-eq-ok (validate_segment o Kind.org) _ h in
    let (p', ep, h₂) = >>=-eq-ok (validate_segment p Kind.program) _ h₁ in
    let (a', ea, h₃) = >>=-eq-ok (validate_segment a Kind.agent) _ h₂ in
    let (so, vo) = validate_segment-valid o Kind.org o' eo in
    let (sp, vp) = validate_segment-valid p Kind.program p' ep in
    let (sa, va) = validate_segment-valid a Kind.agent a' ea in
    let same : record { org = o'; program = p'; agent = a' } ≡ u = ground arith in
    rw (← same) (rw (← so) vo, rw (← sp) vp, rw (← sa) va)

full_parts-IsValid : (parts : List String) (u : BusUri) → full_parts parts ≡ ok u → IsValid u
unfolding full_parts
full_parts-IsValid (o ∷ p ∷ a ∷ []) u h = checked-IsValid o p a u h
full_parts-IsValid parts u h = absurd (ground arith)

shorthand_parts-IsValid :
    (local_org : String) (parts : List String) (u : BusUri)
    → shorthand_parts local_org parts ≡ ok u
    → IsValid u
unfolding shorthand_parts
shorthand_parts-IsValid local_org (a ∷ p ∷ []) u h = checked-IsValid local_org p a u h
shorthand_parts-IsValid local_org parts u h = absurd (ground arith)

parse_stripped-IsValid :
    (raw local_org local_program : String) (u : BusUri)
    → parse_stripped raw local_org local_program ≡ ok u
    → IsValid u
unfolding parse_stripped
parse_stripped-IsValid raw lo lp u h = elim (Bool-cases (is_empty raw)) [
  | inl blank ↦ absurd (ground arith)
  | inr filled ↦ elim (Bool-cases (starts_with raw scheme)) [
    | inl full ↦
        full_parts-IsValid (split_on b'/' (drop_prefix raw scheme)) u (rw (filled, full) at h)
    | inr short ↦ elim (Bool-cases (any_char (λ n. n == b'@') raw)) [
      | inl shorthand ↦ elim (Bool-cases (count_char b'@' raw == 1)) [
        | inl once ↦
            shorthand_parts-IsValid lo (split_on b'@' raw) u
              (rw (filled, short, shorthand, once) at h)
        | inr more ↦ absurd (ground arith)
      ]
      | inr bare ↦ checked-IsValid lo lp raw u (rw (filled, short, bare) at h)
    ]
  ]
]

-- Whatever form is parsed, in whatever context, the three segments of the result match the slug
-- grammar.
pub parse-IsValid :
    (raw local_org local_program : String) (u : BusUri)
    → parse raw local_org local_program ≡ ok u
    → IsValid u
unfolding parse
parse-IsValid raw lo lp u h = parse_stripped-IsValid (strip raw) lo lp u h

slug_tail-slug :
    (n : ℕ) (s : String)
    → slug_tail n s ≡ true
    → any_char (λ m. m == 10) s ≡ false
    → all_chars is_slug s ≡ true
unfolding slug_tail
slug_tail-slug n nothing h k = refl
slug_tail-slug n (push c s) h k = ground (arith, slug_tail-slug (n + 1) s)

segment-IsSlug : (s : String) → is_segment s ≡ true → any_char (λ m. m == 10) s ≡ false → IsSlug s
unfolding is_segment
segment-IsSlug nothing h k = absurd (cc)
segment-IsSlug (push c s) h k = (h, ground (arith, slug_tail-slug 0 s))

no_newline :
    (u : BusUri)
    → any_char (λ m. m == 10) (to_string u) ≡ false
    → (any_char (λ m. m == 10) u.org ≡ false)
      × (any_char (λ m. m == 10) u.program ≡ false)
      × (any_char (λ m. m == 10) u.agent ≡ false)
unfolding to_string
no_newline u h =
    let p = λ (m : ℕ). m == 10 in
    ground (
      arith,
      any_char-append p scheme (u.org +++ "/" +++ u.program +++ "/" +++ u.agent),
      any_char-append p u.org ("/" +++ u.program +++ "/" +++ u.agent),
      any_char-append p "/" (u.program +++ "/" +++ u.agent),
      any_char-append p u.program ("/" +++ u.agent),
      any_char-append p "/" u.agent,
    )

-- A canonical form that holds no newline is its own canonical form in every other local context,
-- so it can be stored, and compared as text.
pub canonicalize_stable :
    (raw local_org local_program c : String)
    → canonicalize raw local_org local_program ≡ ok c
    → any_char (λ m. m == 10) c ≡ false
    → (other_org other_program : String) → canonicalize c other_org other_program ≡ ok c
unfolding canonicalize
canonicalize_stable raw lo lp c h k oo op =
    let (u, e, h₁) = >>=-eq-ok (parse raw lo lp) _ h in
    let same : to_string u ≡ c = ground arith in
    let (vo, vp, va) = parse-IsValid raw lo lp u e in
    let (lo_free, lp_free, la_free) = no_newline u (rw same k) in
    rw (← same) (
      rw
        (parse-to_string u oo op (
          segment-IsSlug u.org vo lo_free,
          segment-IsSlug u.program vp lp_free,
          segment-IsSlug u.agent va la_free,
        ))
        refl)
