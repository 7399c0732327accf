-- ===== src/OwnerPaths/Glob.antt =====
-- `_glob_to_regex` and `path_matches` of owner_paths.py. A regular expression that the program
-- builds is the list of its parts; `re.match` on it is the matcher below.
pub mod Language
pub mod Paths
pub mod Meaning
pub mod Compiled
use Prim.Native.String.{[], ◌∷◌}
use otaman_core.Prelude.{
  ℕ, zero, suc, Char, code, String, Bool, true, false, not, ◌||◌, List, str_eq, ◌==◌, ◌&&◌, ◌+++◌,
  is_empty, any_char, starts_with, strip_by, replace_char, if◌then◌else◌,
}
use mathlib.Core.List

-- `(?:.*/)?`, `.*`, `[^/]*`, `[^/]` and an escaped character
pub data Part : Type 0 where
  any_dirs across within one : Part
  exact : Char → Part

-- The part that the pattern has at `pat[i:]`, and how many more characters it takes.
abbrev part_at : Char → String → Part
part_at c s =
    if starts_with (c ∷ s) "**/"
    then any_dirs
    else if starts_with (c ∷ s) "**"
    then across
    else if code c == b'*'
    then within
    else if code c == b'?'
    then one
    else exact c

abbrev skip_at : Char → String → ℕ
skip_at c s = if starts_with (c ∷ s) "**/" then 2 else if starts_with (c ∷ s) "**" then 1 else 0

glob_from : ℕ → String → List Part
glob_from n [] = List.[]
glob_from (suc n) (c ∷ s) = glob_from n s
glob_from zero (c ∷ s) = List.◌∷◌ (part_at c s) (glob_from (skip_at c s) s)

unfoldable pub glob_to_regex : String → List Part
unfolding glob_from starts_with
glob_to_regex pat = glob_from 0 pat

abbrev pub not_slash : ℕ → Bool
not_slash n = not (n == b'/')

abbrev pub not_newline : ℕ → Bool
not_newline n = not (n == 10)

-- `$` matches at the end, and before a newline that ends the text.
abbrev pub at_end : String → Bool
at_end s = is_empty s || str_eq s "\n"

-- One character of a class, and then `k`.
abbrev pub eat : (ℕ → Bool) → (String → Bool) → String → Bool
eat p k [] = false
eat p k (c ∷ s) = p (code c) && k s

-- Any number of characters of a class, and then `k`.
pub skip_while : (ℕ → Bool) → (String → Bool) → String → Bool
skip_while p k [] = k []
skip_while p k (c ∷ s) = k (c ∷ s) || (p (code c) && skip_while p k s)

unfoldable pub regex_match : List Part → String → Bool
unfolding skip_while
regex_match List.[] s = at_end s
regex_match (List.◌∷◌ any_dirs ps) s =
    regex_match ps s || skip_while not_newline (eat (λ n. n == b'/') (regex_match ps)) s
regex_match (List.◌∷◌ across ps) s = skip_while not_newline (regex_match ps) s
regex_match (List.◌∷◌ within ps) s = skip_while not_slash (regex_match ps) s
regex_match (List.◌∷◌ one ps) s = eat not_slash (regex_match ps) s
regex_match (List.◌∷◌ (exact c) ps) s = eat (λ n. n == code c) (regex_match ps) s

-- `p.strip("/").replace("\\", "/")`
unfoldable pub normalize : String → String
unfolding strip_by replace_char
normalize s = replace_char b'\\' "/" (strip_by (λ n. n == b'/') s)

abbrev pub is_wildcard : ℕ → Bool
is_wildcard n = n == b'*' || n == b'?'

unfoldable pub path_matches : String → String → Bool
unfolding regex_match glob_to_regex starts_with
path_matches path pattern =
    let norm = normalize path in
    let pat = normalize pattern in
    if is_empty pat
    then false
    else if any_char is_wildcard pat
    then regex_match (glob_to_regex pat) norm
    else str_eq norm pat || starts_with norm (pat +++ "/")
