-- ===== src/OwnerPaths/Glob/Paths.antt =====
-- Which paths a pattern owns: bare names, directories, and the general glob.
use Prim.Native.String.{[], ◌∷◌}
use text.Mathlib.TextLemmas.{nil-append, cons-append, append-nil}
use otaman_core.Prelude.{
  ℕ, String, Bool, true, false, ◌||◌, List, ◌+++◌, any_char, all_chars, ◌≡◌, ◌≢◌, ◌⊎◌, ◌↔◌, inl,
  inr, refl, sym, ◌∙◌, arith, eq_iff, starts_with, starts_with_iff, str_eq, is_empty, ◌==◌,
  Bool-cases, str_eq-false, filled_test,
}
use otaman_core.OwnerPaths.Glob.{
  Part, across, eat, at_end, exact, glob_from, glob_to_regex, regex_match, skip_while, not_newline,
  is_wildcard, normalize, path_matches,
}
use otaman_core.OwnerPaths.Glob.Language.{Denotes, regex_match_iff}

any_char-filled : (p : ℕ → Bool) (s : String) → any_char p s ≡ true → is_empty s ≡ false
any_char-filled p [] h = cc
any_char-filled p (c ∷ s) h = refl

path_matches_plain :
    (path pattern : String)
    → normalize pattern ≢ ""
    → any_char is_wildcard (normalize pattern) ≡ false
    → path_matches path pattern ≡ (
        str_eq (normalize path) (normalize pattern)
        || starts_with (normalize path) (normalize pattern +++ "/"))
unfolding path_matches
path_matches_plain path pattern filled plain =
    rw (filled_test (normalize pattern) filled) (rw plain refl)

path_matches_wild :
    (path pattern : String)
    → any_char is_wildcard (normalize pattern) ≡ true
    → path_matches path pattern ≡ regex_match (glob_to_regex (normalize pattern)) (normalize path)
unfolding path_matches
path_matches_wild path pattern wild =
    rw (any_char-filled is_wildcard (normalize pattern) wild) (rw wild refl)

bare_iff :
    (norm pat : String)
    → ((str_eq norm pat || starts_with norm (pat +++ "/")) ≡ true)
      ↔ ((norm ≡ pat) ⊎ ((rest : String) × (norm ≡ (pat +++ "/") +++ rest)))
bare_iff norm pat = elim (Bool-cases (str_eq norm pat)) [
  | inl same ↦ rw same ((λ _. inl ((eq_iff norm pat).0 same)), λ _. refl)
  | inr other ↦ rw other (
    (λ h. inr ((starts_with_iff norm (pat +++ "/")).0 h)),
    elim [
      | inl e ↦ absurd (str_eq-false norm pat other e)
      | inr found ↦ (starts_with_iff norm (pat +++ "/")).1 found
    ],
  )
]

-- A pattern without wildcards that is not empty once normalised owns the path of that name and its
-- subtree, and nothing else.
pub path_matches-bare :
    (path pattern : String)
    → normalize pattern ≢ ""
    → any_char is_wildcard (normalize pattern) ≡ false
    → (path_matches path pattern ≡ true) ↔ (
        (normalize path ≡ normalize pattern)
        ⊎ ((rest : String) × (normalize path ≡ (normalize pattern +++ "/") +++ rest)))
path_matches-bare path pattern filled plain =
    rw (path_matches_plain path pattern filled plain)
      (bare_iff (normalize path) (normalize pattern))

-- A pattern with a wildcard owns exactly the paths in the language of its regular expression.
pub path_matches-glob :
    (path pattern : String)
    → any_char is_wildcard (normalize pattern) ≡ true
    → (path_matches path pattern ≡ true)
      ↔ Denotes (glob_to_regex (normalize pattern)) (normalize path)
path_matches-glob path pattern wild =
    rw (path_matches_wild path pattern wild)
      (regex_match_iff (glob_to_regex (normalize pattern)) (normalize path))

abbrev literal : String → List Part → List Part
literal [] ps = ps
literal (c ∷ s) ps = List.◌∷◌ (exact c) (literal s ps)

glob_from-literal :
    (d rest : String)
    → any_char is_wildcard d ≡ false
    → glob_from 0 (d +++ rest) ≡ literal d (glob_from 0 rest)
unfolding glob_from starts_with
glob_from-literal [] rest h = rw (nil-append rest)
glob_from-literal (c ∷ d) rest h =
    rw (cons-append c d rest) (ground (arith, glob_from-literal d rest))

glob_from-subtree : glob_from 0 "/**" ≡ List.◌∷◌ (exact "/") (List.◌∷◌ across List.[])
unfolding glob_from starts_with
glob_from-subtree = refl

literal-append :
    (d rest : String) (ps : List Part)
    → regex_match (literal d ps) (d +++ rest) ≡ regex_match ps rest
unfolding regex_match
literal-append [] rest ps = rw (nil-append rest)
literal-append (c ∷ d) rest ps =
    rw (cons-append c d rest) (ground (arith, literal-append d rest ps))

regex_match_subtree :
    (rest : String)
    → regex_match (List.◌∷◌ (exact "/") (List.◌∷◌ across List.[])) rest
      ≡ eat (λ n. n == b'/') (skip_while not_newline at_end) rest
unfolding regex_match
regex_match_subtree rest = refl

skip_all : (s : String) → all_chars not_newline s ≡ true → skip_while not_newline at_end s ≡ true
unfolding skip_while
skip_all [] h = refl
skip_all (c ∷ s) h = ground (arith, skip_all s)

module _ (dir : String) (plain : any_char is_wildcard dir ≡ false) (whole : normalize dir ≡ dir)
    (whole_glob : normalize (dir +++ "/**") ≡ dir +++ "/**") where
  wild_glob : (d : String) → any_char is_wildcard (d +++ "/**") ≡ true
  wild_glob [] = refl
  wild_glob (c ∷ d) = rw (cons-append c d "/**") (ground (arith, wild_glob d))

  subtree_match :
      (path rest : String)
      → normalize path ≡ dir +++ rest
      → path_matches path (dir +++ "/**")
        ≡ eat (λ n. n == b'/') (skip_while not_newline at_end) rest
  unfolding glob_to_regex
  subtree_match path rest e =
      path_matches_wild path (dir +++ "/**") (rw whole_glob (wild_glob dir))
      ∙ rw (whole_glob, e, glob_from-literal dir "/**" plain, glob_from-subtree)
          (literal-append dir rest _ ∙ regex_match_subtree rest)

  -- For a directory text without wildcards that normalising leaves as it is, also with `/**` after
  -- it: `<dir>/**` does not own `<dir>` itself, and owns every path below it that holds no newline.
  pub path_matches-subtree :
      (path rest : String)
      → normalize path ≡ dir +++ ("/" +++ rest)
      → all_chars not_newline rest ≡ true
      → (path_matches dir (dir +++ "/**") ≡ false) × (path_matches path (dir +++ "/**") ≡ true)
  path_matches-subtree path rest e h = (
    subtree_match dir "" (whole ∙ sym (append-nil dir)),
    subtree_match path ("/" +++ rest) e
        ∙ rw (cons-append "/" "" rest, nil-append rest) (skip_all rest h),
  )
