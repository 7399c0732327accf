-- ===== src/Bus/Uri/RoundTrip.antt =====
-- A canonical address reads back as itself, in every local context.
use Prim.Native.String.{◌∷◌ as push}
use text.Mathlib.TextLemmas.{nil-append, cons-append, append_assoc}
use otaman_core.Prelude.{
  ℕ, String, true, false, not, [], ◌∷◌, ok, ◌≡◌, ◌≢◌, refl, sym, ap, ◌∙◌, arith, ◌==◌, is_empty,
  is_space, ◌+++◌, strip, starts_with, drop_prefix, split_on, all_chars, drop_prefix-append,
  starts_with-append, all_chars-weaken, split_on-cons, split_on_plain, strip_by-append, filled_test,
}
use otaman_core.Bus.Uri.{
  scheme, BusUri, Kind, is_slug, is_segment, validate_segment, to_string, checked, parse,
}

-- A segment that no newline ends.
abbrev pub IsSlug : String → Type 0
IsSlug s = (is_segment s ≡ true) × (all_chars is_slug s ≡ true)

abbrev pub IsCanonical : BusUri → Type 0
IsCanonical u = IsSlug u.org × IsSlug u.program × IsSlug u.agent

slug_not_slash : (n : ℕ) → is_slug n ≡ true → not (n == b'/') ≡ true
slug_not_slash n h = ground arith

slug_not_space : (n : ℕ) → is_slug n ≡ true → not (is_space n) ≡ true
slug_not_space n h = ground arith

segment_filled : (s : String) → is_segment s ≡ true → s ≢ ""
unfolding is_segment
segment_filled s h e = cc (sym (ap is_segment e) ∙ h)

validate_segment_slug : (s : String) (k : Kind) → is_segment s ≡ true → validate_segment s k ≡ ok s
unfolding validate_segment
validate_segment_slug s k h = rw (filled_test s (segment_filled s h)) (rw h refl)

slash_cons : (s : String) → "/" +++ s ≡ push "/" s
slash_cons s = cons-append "/" "" s ∙ ap (λ t. push "/" t) (nil-append s)

scheme_cons : (s : String) → scheme +++ s ≡ push "o" ("taman://" +++ s)
scheme_cons s = cons-append "o" "taman://" s

abbrev rest_of : BusUri → String
rest_of u = u.org +++ ("/" +++ (u.program +++ ("/" +++ u.agent)))

to_string_head :
    (u : BusUri)
    → to_string u
      ≡ (push "o" ("taman://" +++ (u.org +++ ("/" +++ (u.program +++ "/"))))) +++ u.agent
unfolding to_string
to_string_head u = rw (scheme_cons (rest_of u)) (simp (cons-append, append_assoc))

strip-to_string : (u : BusUri) → IsCanonical u → strip (to_string u) ≡ to_string u
unfolding strip
strip-to_string u (o, p, (seg, slug)) = rw (to_string_head u) (
    strip_by-append is_space "o" ("taman://" +++ (u.org +++ ("/" +++ (u.program +++ "/")))) u.agent
      refl (segment_filled u.agent seg)
      (all_chars-weaken is_slug (λ n. not (is_space n)) u.agent slug_not_space slug))

split-rest_of :
    (u : BusUri) → IsCanonical u → split_on b'/' (rest_of u) ≡ u.org ∷ u.program ∷ u.agent ∷ []
split-rest_of u (o, p, a) =
    let plain = λ (s : String) (h : IsSlug s).
      all_chars-weaken is_slug (λ n. not (n == b'/')) s slug_not_slash h.1 in
    rw (slash_cons (u.program +++ ("/" +++ u.agent)), slash_cons u.agent)
      (split_on-cons b'/' "/" u.org (u.program +++ push "/" u.agent) refl (plain u.org o)
        ∙ ap (λ l. u.org ∷ l)
            (split_on-cons b'/' "/" u.program u.agent refl (plain u.program p)
              ∙ ap (λ l. u.program ∷ l) (split_on_plain b'/' u.agent (plain u.agent a))))

checked-canonical : (u : BusUri) → IsCanonical u → checked u.org u.program u.agent ≡ ok u
unfolding checked
checked-canonical u (o, p, a) =
    rw
      (
        validate_segment_slug u.org Kind.org o.0,
        validate_segment_slug u.program Kind.program p.0,
        validate_segment_slug u.agent Kind.agent a.0,
      )
      refl

to_string_filled : (u : BusUri) → is_empty (to_string u) ≡ false
unfolding to_string
to_string_filled u = rw (scheme_cons (rest_of u)) refl

scheme_first : (u : BusUri) → starts_with (to_string u) scheme ≡ true
unfolding to_string
scheme_first u = starts_with-append scheme (rest_of u)

scheme_dropped : (u : BusUri) → drop_prefix (to_string u) scheme ≡ rest_of u
unfolding to_string
scheme_dropped u = drop_prefix-append scheme (rest_of u)

-- The text of an address, whose segments no newline ends, parses back to the address, whatever
-- the local organisation and program.
pub parse-to_string :
    (u : BusUri) (local_org local_program : String)
    → IsCanonical u
    → parse (to_string u) local_org local_program ≡ ok u
unfolding parse
parse-to_string u local_org local_program h = rw (strip-to_string u h) (
    rw (to_string_filled u) (
      rw (scheme_first u) (rw (scheme_dropped u) (rw (split-rest_of u h) (checked-canonical u h)))))
