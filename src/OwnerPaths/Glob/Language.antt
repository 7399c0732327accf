-- ===== src/OwnerPaths/Glob/Language.antt =====
-- What a compiled pattern means: the language of the regular expression, and that the matcher of
-- owner_paths.py decides it.
use Prim.Native.String.{[], ◌∷◌}
use text.Mathlib.TextLemmas.{nil-append, cons-append}
use otaman_core.Prelude.{
  ℕ, Char, code, String, Bool, true, List, ◌==◌, ◌+++◌, all_chars, ◌≡◌, ◌⊎◌, ◌↔◌, inl, inr, refl,
  arith, eq_iff, Bool-cases, ap, sym, ◌∙◌,
}
use otaman_core.OwnerPaths.Glob.{
  Part, any_dirs, across, within, one, exact, not_slash, not_newline, eat, skip_while, regex_match,
}

-- A text that begins with characters of a class and goes on with what satisfies `P`.
abbrev pub Span : (ℕ → Bool) → (String → Type 0) → String → Type 0
Span p P s = (a b : String) × (s ≡ a +++ b) × (all_chars p a ≡ true) × P b

abbrev pub Then : (ℕ → Bool) → (String → Type 0) → String → Type 0
Then p P s = (c : Char) × (t : String) × (s ≡ c ∷ t) × (p (code c) ≡ true) × P t

-- The language of a regular expression: `**` spans anything but newlines, `*` and `?` never a `/`.
abbrev pub Denotes : List Part → String → Type 0
Denotes List.[] s = (s ≡ "") ⊎ (s ≡ "\n")
Denotes (List.◌∷◌ any_dirs ps) s =
    Denotes ps s ⊎ Span not_newline (Then (λ n. n == b'/') (Denotes ps)) s
Denotes (List.◌∷◌ across ps) s = Span not_newline (Denotes ps) s
Denotes (List.◌∷◌ within ps) s = Span not_slash (Denotes ps) s
Denotes (List.◌∷◌ one ps) s = Then not_slash (Denotes ps) s
Denotes (List.◌∷◌ (exact c) ps) s = Then (λ n. n == code c) (Denotes ps) s

module _ (p : ℕ → Bool) (k : String → Bool) (P : String → Type 0) where
  eat_sound : (s : String) → ((t : String) → k t ≡ true → P t) → eat p k s ≡ true → Then p P s
  eat_sound [] to h = cc
  eat_sound (c ∷ s) to h = (c, s, refl, ground arith, to s (ground arith))

  eat_complete : (s : String) → ((t : String) → P t → k t ≡ true) → Then p P s → eat p k s ≡ true
  eat_complete s from (c, t, e, h, q) = rw e (rw h (from t q))

  skip_sound :
      (s : String) → ((t : String) → k t ≡ true → P t) → skip_while p k s ≡ true → Span p P s
  unfolding skip_while
  skip_sound [] to h = ("", "", sym (nil-append ""), refl, to "" h)
  skip_sound (c ∷ s) to h = elim (Bool-cases (k (c ∷ s))) [
    | inl here ↦ ("", c ∷ s, sym (nil-append (c ∷ s)), refl, to (c ∷ s) here)
    | inr later ↦
        let (a, b, e, q, r) = skip_sound s to (ground arith) in
        (c ∷ a, b, ap (λ t. c ∷ t) e ∙ sym (cons-append c a b), ground arith, r)
  ]

  skip_here : (s : String) → k s ≡ true → skip_while p k s ≡ true
  unfolding skip_while
  skip_here [] h = h
  skip_here (c ∷ s) h = rw h refl

  skip_append : (a b : String) → all_chars p a ≡ true → k b ≡ true → skip_while p k (a +++ b) ≡ true
  unfolding skip_while
  skip_append [] b h q = rw (nil-append b) (skip_here b q)
  skip_append (c ∷ a) b h q = rw (cons-append c a b) (ground (arith, skip_append a b))

  skip_complete :
      (s : String) → ((t : String) → P t → k t ≡ true) → Span p P s → skip_while p k s ≡ true
  skip_complete s from (a, b, e, h, q) = rw e (skip_append a b h (from b q))

regex_sound : (ps : List Part) (s : String) → regex_match ps s ≡ true → Denotes ps s
unfolding regex_match
regex_sound List.[] s h = ground (arith, eq_iff s "\n")
regex_sound (List.◌∷◌ any_dirs ps) s h = elim (Bool-cases (regex_match ps s)) [
  | inl here ↦ inl (regex_sound ps s here)
  | inr deeper ↦ inr (
      skip_sound not_newline (eat (λ n. n == b'/') (regex_match ps))
        (Then (λ n. n == b'/') (Denotes ps)) s
        (λ t. eat_sound (λ n. n == b'/') (regex_match ps) (Denotes ps) t (regex_sound ps))
        (ground arith))
]
regex_sound (List.◌∷◌ across ps) s h =
    skip_sound not_newline (regex_match ps) (Denotes ps) s (regex_sound ps) h
regex_sound (List.◌∷◌ within ps) s h =
    skip_sound not_slash (regex_match ps) (Denotes ps) s (regex_sound ps) h
regex_sound (List.◌∷◌ one ps) s h =
    eat_sound not_slash (regex_match ps) (Denotes ps) s (regex_sound ps) h
regex_sound (List.◌∷◌ (exact c) ps) s h =
    eat_sound (λ n. n == code c) (regex_match ps) (Denotes ps) s (regex_sound ps) h

regex_complete : (ps : List Part) (s : String) → Denotes ps s → regex_match ps s ≡ true
unfolding regex_match
regex_complete List.[] s (inl e) = rw e
regex_complete List.[] s (inr e) = rw e
regex_complete (List.◌∷◌ any_dirs ps) s (inl h) = rw (regex_complete ps s h)
regex_complete (List.◌∷◌ any_dirs ps) s (inr h) = ground (
  arith,
  skip_complete not_newline (eat (λ n. n == b'/') (regex_match ps))
      (Then (λ n. n == b'/') (Denotes ps)) s
      (λ t. eat_complete (λ n. n == b'/') (regex_match ps) (Denotes ps) t (regex_complete ps)) h,
)
regex_complete (List.◌∷◌ across ps) s h =
    skip_complete not_newline (regex_match ps) (Denotes ps) s (regex_complete ps) h
regex_complete (List.◌∷◌ within ps) s h =
    skip_complete not_slash (regex_match ps) (Denotes ps) s (regex_complete ps) h
regex_complete (List.◌∷◌ one ps) s h =
    eat_complete not_slash (regex_match ps) (Denotes ps) s (regex_complete ps) h
regex_complete (List.◌∷◌ (exact c) ps) s h =
    eat_complete (λ n. n == code c) (regex_match ps) (Denotes ps) s (regex_complete ps) h

-- The backtracking matcher accepts exactly the language of the compiled pattern.
pub regex_match_iff : (ps : List Part) (s : String) → (regex_match ps s ≡ true) ↔ Denotes ps s
regex_match_iff ps s = (regex_sound ps s, regex_complete ps s)
