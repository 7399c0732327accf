-- ===== src/Frontmatter.antt =====
-- src/otaman_core/frontmatter.py: parse, cc_recipients and is_cc_copy. `load` is `yaml.load` with the
-- safe loader, with none for a `YAMLError`.
pub mod Written
pub mod Copied
mod Tests
use Prim.Native.Char.{Char}
use otaman_core.Prelude.{
  ℕ, ◌+◌, code, String, Bool, true, false, not, ◌||◌, ◌&&◌, Option, none, some, List, [], ◌∷◌, ◌==◌,
  leb, is_empty, strip, str_eq, starts_with, drop_prefix, if◌then◌else◌,
}
use otaman_core.Yaml.{Value, Entries, bool, str, list, dict, end, items, get}
use otaman_core.Yaml.Text.{to_str}

-- `[ \t]*`
unfoldable pub drop_blanks : String → String
drop_blanks String.[] = ""
drop_blanks (String.◌∷◌ c s) =
    let rest = drop_blanks s in if code c == b' ' || code c == b'\t' then rest else String.◌∷◌ c s

-- `\r?` and `\n?`
abbrev pub drop_one : ℕ → String → String
drop_one n String.[] = ""
drop_one n (String.◌∷◌ c s) = if code c == n then s else String.◌∷◌ c s

-- `\r?\n`, and what follows it
abbrev pub after_break : String → Option String
after_break String.[] = none
after_break (String.◌∷◌ c s) = if code c == b'\n' then some s else none

unfoldable pub line_end : String → Option String
line_end s = after_break (drop_one b'\r' s)

-- `[ \t]*(?:\r?\n(.*))?$`: the body, which is empty at the end of the text
unfoldable pub after_fence : String → Option String
unfolding drop_blanks line_end
after_fence s = if is_empty (drop_blanks s) then some "" else line_end (drop_blanks s)

-- `\r?\n?---[ \t]*(?:\r?\n(.*))?$`
unfoldable pub closing : String → Option String
unfolding after_fence
closing s =
    let fence = drop_one b'\n' (drop_one b'\r' s) in
    let after = after_fence (drop_prefix fence "---") in
    if starts_with fence "---" then after else none

-- the shortest text before a closing fence, and the body
unfoldable pub block_and_body : String → Option (String × String)
unfolding closing
block_and_body String.[] = none
block_and_body (String.◌∷◌ c s) =
    let rest = block_and_body s in
    elim (closing (String.◌∷◌ c s)) [
      | none ↦ elim rest [ none ↦ none | some p ↦ some (String.◌∷◌ c p.0, p.1) ]
      | some body ↦ some ("", body)
    ]

-- `^---[ \t]*\r?\n`
unfoldable pub opening : String → Option String
unfolding drop_blanks line_end
opening s = if starts_with s "---" then line_end (drop_blanks (drop_prefix s "---")) else none

abbrev pub loaded : Option Value → String → String → Entries × String
loaded (some (dict fm)) body text = (fm, body)
loaded v body text = (end, text)

unfoldable pub parse : (load : String → Option Value) → String → Entries × String
unfolding opening block_and_body
parse load text = elim (opening text) [
  | none ↦ (end, text)
  | some rest ↦ elim (block_and_body rest) [
    | none ↦ (end, text)
    | some p ↦ loaded (load p.0) p.1 text
  ]
]

abbrev filled : List String → List String
filled [] = []
filled (s ∷ ss) = if is_empty s then filled ss else s ∷ filled ss

abbrev stripped_texts : List Value → List String
stripped_texts [] = []
stripped_texts (v ∷ vs) = strip (to_str v) ∷ stripped_texts vs

abbrev pub names_of : Value → List String
names_of (str s) = filled (strip s ∷ [])
names_of (list vs) = filled (stripped_texts (items vs))
names_of v = []

unfoldable pub cc_recipients : Entries → List String
cc_recipients fm = names_of (get "cc" fm)

-- `s.lower() == "true"`, whose letters have no capitals but the ASCII ones
abbrev lower_code : ℕ → ℕ
lower_code n = if leb b'A' n && leb n b'Z' then n + 32 else n

unfoldable pub is_lowered : String → String → Bool
is_lowered String.[] String.[] = true
is_lowered (String.◌∷◌ c s) (String.◌∷◌ d p) = lower_code (code c) == code d && is_lowered s p
is_lowered s p = false

abbrev marks_copy : Value → Bool
marks_copy (bool b) = b
marks_copy (str s) = is_lowered (strip s) "true"
marks_copy v = false

unfoldable pub is_cc_copy : Entries → Bool
unfolding is_lowered
is_cc_copy fm = marks_copy (get "x-cc" fm)
