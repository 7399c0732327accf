-- ===== src/Bus/Uri.antt =====
-- src/otaman_core/bus/uri.py: canonical bus addresses.
pub mod RoundTrip
pub mod Canonical
use Prim.Native.String.{[] as nothing, ◌∷◌ as push}
use otaman_core.Prelude.{
  ℕ, ◌+◌, code, String, Bool, true, false, not, ◌||◌, ◌&&◌, List, [], ◌∷◌, Result, ok, err, ◌>>=◌,
  str_eq, ◌==◌, leb, is_empty, ◌+++◌, strip, starts_with, drop_prefix, split_on, count_char,
  any_char, if◌then◌else◌,
}

abbrev pub scheme : String
scheme = "otaman://"

pub record BusUri : Type 0 where
  pub org : String
  pub program : String
  pub agent : String

pub data Kind : Type 0 where
  org program agent : Kind

-- `BusUriError`
pub data UriError : Type 0 where
  empty_address not_full not_shorthand : UriError
  empty_segment invalid_segment : Kind → UriError

abbrev pub is_lower : ℕ → Bool
is_lower n = leb b'a' n && leb n b'z'

-- `[a-z0-9-]`
abbrev pub is_slug : ℕ → Bool
is_slug n = is_lower n || (leb b'0' n && leb n b'9') || n == b'-'

-- The rest of a match of `^[a-z][a-z0-9-]{1,63}$` after `n` characters of the repeated class.
-- `$` also matches before a newline that ends the text.
slug_tail : ℕ → String → Bool
slug_tail n nothing = leb 1 n && leb n 63
slug_tail n (push c s) =
    let rest = slug_tail (n + 1) s in
    if is_slug (code c) then rest else leb 1 n && leb n 63 && code c == 10 && is_empty s

unfoldable pub is_segment : String → Bool
unfolding slug_tail
is_segment nothing = false
is_segment (push c s) = is_lower (code c) && slug_tail 0 s

unfoldable pub validate_segment : String → Kind → Result UriError String
unfolding is_segment
validate_segment value kind =
    if is_empty value
    then err (empty_segment kind)
    else if is_segment value
    then ok value
    else err (invalid_segment kind)

-- `str(uri)`
unfoldable pub to_string : BusUri → String
to_string u = scheme +++ u.org +++ "/" +++ u.program +++ "/" +++ u.agent

unfoldable pub is_cross_org : BusUri → String → Bool
is_cross_org u local_org = not (str_eq u.org local_org)

unfoldable pub is_cross_program : BusUri → String → String → Bool
is_cross_program u local_org local_program =
    not (str_eq u.org local_org && str_eq u.program local_program)

checked : String → String → String → Result UriError BusUri
checked org_text program_text agent_text = do
  o ← validate_segment org_text org
  p ← validate_segment program_text program
  a ← validate_segment agent_text agent
  ok (record { org = o; program = p; agent = a })

full_parts : List String → Result UriError BusUri
full_parts (o ∷ p ∷ a ∷ []) = checked o p a
full_parts parts = err not_full

shorthand_parts : String → List String → Result UriError BusUri
shorthand_parts local_org (a ∷ p ∷ []) = checked local_org p a
shorthand_parts local_org parts = err not_shorthand

-- after `raw.strip()`
parse_stripped : String → String → String → Result UriError BusUri
parse_stripped raw local_org local_program =
    if is_empty raw
    then err empty_address
    else if starts_with raw scheme
    then full_parts (split_on b'/' (drop_prefix raw scheme))
    else if any_char (λ n. n == b'@') raw
    then (if count_char b'@' raw == 1
        then shorthand_parts local_org (split_on b'@' raw)
        else err not_shorthand)
    else checked local_org local_program raw

unfoldable pub parse : String → String → String → Result UriError BusUri
unfolding parse_stripped full_parts shorthand_parts checked
parse raw local_org local_program = parse_stripped (strip raw) local_org local_program

unfoldable pub canonicalize : String → String → String → Result UriError String
canonicalize raw local_org local_program = do
  u ← parse raw local_org local_program
  ok (to_string u)

unfoldable pub to_org : String → String → String → Result UriError String
to_org raw local_org local_program = do u ← parse raw local_org local_program; ok u.org
