-- ===== src/Message/Fields.antt =====
-- src/otaman_core/validate_message.py, frontmatter.py: the value tests of single fields. `\d` is read
-- as the ASCII digits; `$` also matches before a newline that ends the text.
use Prim.Native.String.{[] as nothing, ◌∷◌ as push}
use otaman_core.Prelude.{
  ℕ, code, String, Bool, true, false, not, ◌||◌, ◌&&◌, List, [], ◌∷◌, str_eq, ◌==◌, leb, is_empty,
  ◌+++◌, strip, starts_with, drop_prefix, all_chars, text_length, any, push_front, if◌then◌else◌,
}
use otaman_core.Bus.Uri.{is_lower, is_slug}
use otaman_core.Yaml.{Value, datetime, str, is_null}
use otaman_core.Yaml.Text.{to_str}

drop_newline : String → String
drop_newline nothing = ""
drop_newline (push c s) =
    let rest = drop_newline s in if code c == 10 && is_empty s then "" else push c rest

unfoldable pub ends_with : String → String → Bool
ends_with nothing p = is_empty p
ends_with (push c s) p = str_eq (push c s) p || ends_with s p

first_lower : String → Bool
first_lower nothing = false
first_lower (push c s) = is_lower (code c)

-- `_REPLY_TO_PATTERN`
unfoldable pub is_reply_to : String → Bool
unfolding drop_newline ends_with first_lower
is_reply_to s =
    let t = drop_newline s in
    (first_lower t && all_chars is_slug t && ends_with t "-agent" && leb 8 (text_length t))
    || str_eq t "human"

-- `_GATE_WAIVED_SLUG`
unfoldable pub is_gate_slug : String → Bool
unfolding drop_newline ends_with first_lower
is_gate_slug s =
    let t = drop_newline s in
    first_lower t && all_chars is_slug t && not (ends_with t "-") && leb 2 (text_length t)

abbrev is_digit : ℕ → Bool
is_digit n = leb b'0' n && leb n b'9'

-- A pattern of characters, `0` being a digit and `T` the `T` or the blank between date and time; the
-- rest of the text goes to `k`.
follows : String → (String → Bool) → String → Bool
follows nothing k s = k s
follows (push d p) k nothing = false
follows (push d p) k (push c s) =
    (if code d == b'0'
      then is_digit (code c)
      else if code d == b'T'
      then code c == b'T' || code c == b' '
      else code c == code d)
    && follows p k s

is_zone : String → Bool
unfolding follows
is_zone s = str_eq s "Z" || str_eq s "Z\n" || follows "+00:00" at_end s || follows "-00:00" at_end s
  where
    at_end : String → Bool
    at_end t = is_empty t || str_eq t "\n"

after_digits : String → String
after_digits nothing = ""
after_digits (push c s) = let rest = after_digits s in if is_digit (code c) then rest else push c s

is_fraction_zone : String → Bool
unfolding is_zone follows after_digits
is_fraction_zone s = follows ".0" (λ t. is_zone (after_digits t)) s || is_zone s

-- `_RFC3339_RE`
unfoldable pub is_rfc3339 : String → Bool
unfolding follows is_fraction_zone
is_rfc3339 s = follows "0000-00-00T00:00:00" is_fraction_zone s

-- `text.replace("Z", "+00:00")`
replace_zulu : String → String
replace_zulu nothing = ""
replace_zulu (push c s) = (if code c == b'Z' then "+00:00" else push c "") +++ replace_zulu s

-- Whether `parse_bus_timestamp` gives a time, `fromisoformat` being what `datetime` accepts.
unfoldable pub parse_bus_timestamp : (String → Bool) → Value → Bool
unfolding replace_zulu
parse_bus_timestamp fromisoformat (datetime s) = true
parse_bus_timestamp fromisoformat (str s) =
    not (is_empty (strip s)) && fromisoformat (replace_zulu (strip s))
parse_bus_timestamp fromisoformat _ = false

-- `not str(value).strip()`, or no value
unfoldable pub is_blank : Value → Bool
is_blank v = is_null v || is_empty (strip (to_str v))

-- The text between the opening `---` and the first `---` that begins a later line, after at least one
-- character: the group of the `^---\n(.+?)\n---` match.
unfoldable pub until_marker : String → List String
until_marker nothing = []
until_marker (push c s) =
    let rest = until_marker s in if starts_with s "\n---" then push c "" ∷ [] else grown rest
  where
    grown : List String → List String
    grown [] = []
    grown (t ∷ ts) = push c t ∷ []

unfoldable pub frontmatter_text : String → List String
unfolding until_marker
frontmatter_text content =
    if starts_with content "---\n" then until_marker (drop_prefix content "---\n") else []

-- What is left after the first `---`, wherever it stands
after_marker : String → List String
after_marker nothing = []
after_marker (push c s) =
    let rest = after_marker s in
    if starts_with (push c s) "---" then drop_prefix (push c s) "---" ∷ [] else rest

unfoldable pub body_of : String → String
unfolding after_marker
body_of content = elim (after_marker content) [
  | [] ↦ ""
  | t ∷ ts ↦ elim (after_marker t) [ [] ↦ "" | u ∷ us ↦ u ]
]

is_line_break : ℕ → Bool
is_line_break n =
    (leb 10 n && leb n 13) || (leb 28 n && leb n 30) || n == 0x85 || n == 0x2028 || n == 0x2029

-- `splitlines()`, with an empty line more inside a `\r\n` and after a last line break
split_lines : String → List String
unfolding is_line_break
split_lines nothing = "" ∷ []
split_lines (push c s) =
    let rest = split_lines s in if is_line_break (code c) then "" ∷ rest else push_front c rest

unfoldable pub has_subject : String → Bool
unfolding split_lines
has_subject content =
    any (λ line. starts_with (strip line) "## Subject:") (split_lines (body_of content))
