-- ===== src/Bus/Stem.antt =====
-- src/otaman_core/bus_stem.py: the names of the message files. A set of known recipients is a list;
-- `lower` is `str.lower`; `\d` is the ASCII digits.
pub mod Pieces
pub mod Longest
pub mod RoundTrip
use Prim.Native.Char.{Char}
use otaman_core.Prelude.{
  ℕ, suc, zero, ◌+◌, code, String, Bool, true, false, not, ◌||◌, ◌&&◌, Option, none, some, List, [],
  ◌∷◌, ltb, leb, ◌==◌, ◌+++◌, str_eq, is_empty, strip_by, lstrip, starts_with, drop_prefix,
  replace_char, text_length, if◌then◌else◌,
}
use otaman_core.Roster.Resolve.{collapse}

-- `s[:n]`
unfoldable pub take_chars : ℕ → String → String
take_chars n String.[] = ""
take_chars zero (String.◌∷◌ c s) = ""
take_chars (suc n) (String.◌∷◌ c s) = String.◌∷◌ c (take_chars n s)

abbrev pub is_hyphen : ℕ → Bool
is_hyphen n = n == b'-'

-- `if max_len is not None and len(slug) > max_len: slug = slug[:max_len].strip("-")`
capped : Option ℕ → String → String
unfolding take_chars
capped none slug = slug
capped (some max_len) slug =
    if ltb max_len (text_length slug) then strip_by is_hyphen (take_chars max_len slug) else slug

unfoldable pub slugify :
    (lower : String → String) → String → (max_len : Option ℕ) → (fallback : String) → String
unfolding capped
slugify lower text max_len fallback =
    let slug = capped max_len (strip_by is_hyphen (collapse false (lower text))) in
    if is_empty slug then fallback else slug

-- a segment with `-` for `/`
unfoldable pub safe : String → String
safe segment = replace_char b'/' "-" segment

abbrev pub route_sep : String
route_sep = "-to-"

unfoldable pub build_stem : (timestamp sender recipient slug : String) → String
unfolding safe
build_stem timestamp sender recipient slug =
    timestamp +++ "-" +++ safe sender +++ route_sep +++ safe recipient +++ "-" +++ slug

unfoldable pub build_filename : (timestamp sender recipient slug : String) → String
unfolding build_stem
build_filename timestamp sender recipient slug =
    build_stem timestamp sender recipient slug +++ ".md"

pub record ParsedStem : Type 0 where
  pub timestamp : String
  pub sender : String
  pub recipient : Option String
  pub slug : Option String
  pub tail : String

abbrev pub is_digit : ℕ → Bool
is_digit n = leb b'0' n && leb n b'9'

-- n digits at the front of the text, and what follows them
unfoldable pub digits : ℕ → String → Option (String × String)
digits zero s = some ("", s)
digits (suc n) String.[] = none
digits (suc n) (String.◌∷◌ c s) =
    let rest = digits n s in
    if is_digit (code c)
    then elim rest [ none ↦ none | some p ↦ some (String.◌∷◌ c p.0, p.1) ]
    else none

-- `\d{8}T\d{6}` at the front of the text
unfoldable pub after_t : String → Option (String × String)
after_t String.[] = none
after_t (String.◌∷◌ c s) = if code c == b'T' then digits 6 s else none

unfoldable pub match_timestamp : String → Option (String × String)
unfolding digits after_t
match_timestamp s = elim (digits 8 s) [
  | none ↦ none
  | some day ↦ elim (after_t day.1) [
    | none ↦ none
    | some time ↦ some (day.0 +++ "T" +++ time.0, time.1)
  ]
]

-- `\d*-(.*)$`: what follows the hyphen
unfoldable pub after_counter : String → Option String
after_counter String.[] = none
after_counter (String.◌∷◌ c s) =
    let rest = after_counter s in
    if is_digit (code c) then rest else if is_hyphen (code c) then some s else none

-- `s.partition("-to-")`, with none where the separator does not occur
unfoldable pub partition_route : String → Option (String × String)
partition_route String.[] = none
partition_route (String.◌∷◌ c s) =
    let rest = partition_route s in
    if starts_with (String.◌∷◌ c s) route_sep
    then some ("", drop_prefix (String.◌∷◌ c s) route_sep)
    else elim rest [ none ↦ none | some p ↦ some (String.◌∷◌ c p.0, p.1) ]

-- `tail == name or tail.startswith(f"{name}-")`
abbrev pub names : String → String → Bool
names tail name = str_eq tail name || starts_with tail (name +++ "-")

-- `best is None or len(name) > len(best)`
abbrev pub is_longer : String → Option String → Bool
is_longer name none = true
is_longer name (some best) = ltb (text_length best) (text_length name)

unfoldable pub best_name : String → List String → Option String → Option String
best_name tail [] best = best
best_name tail (name ∷ rest) best =
    best_name tail rest (if names tail name && is_longer name best then some name else best)

abbrev pub some_filled : String → Option String
some_filled s = if is_empty s then none else some s

unfoldable pub split_recipient : String → List String → (Option String) × (Option String)
unfolding best_name
split_recipient tail known = elim (best_name tail known none) [
  | none ↦ (none, none)
  | some best ↦ (some best, some_filled (lstrip is_hyphen (drop_prefix tail best)))
]

-- `name[:-3] if name.endswith(".md") else name`
unfoldable pub drop_md : String → String
drop_md String.[] = ""
drop_md (String.◌∷◌ c s) =
    let rest = drop_md s in if str_eq (String.◌∷◌ c s) ".md" then "" else String.◌∷◌ c rest

-- the stem after its timestamp
unfoldable pub parse_route : String → String → List String → ParsedStem
unfolding partition_route split_recipient
parse_route timestamp remainder known = elim (partition_route remainder) [
  | none ↦ record {
    timestamp = timestamp;
    sender = "";
    recipient = none;
    slug = none;
    tail = remainder;
  }
  | some p ↦ record {
    timestamp = timestamp;
    sender = p.0;
    recipient = (split_recipient p.1 known).0;
    slug = (split_recipient p.1 known).1;
    tail = p.1;
  }
]

unfoldable pub parse_stem : String → (known_recipients : List String) → Option ParsedStem
unfolding match_timestamp after_counter parse_route drop_md
parse_stem name known = elim (match_timestamp (drop_md name)) [
  | none ↦ none
  | some m ↦ elim (after_counter m.1) [
    | none ↦ none
    | some remainder ↦ some (parse_route m.0 remainder known)
  ]
]

-- the compact timestamp that a name leads with, or nothing
unfoldable pub timestamp_of : String → String
unfolding match_timestamp
timestamp_of name = elim (match_timestamp name) [ none ↦ "" | some m ↦ m.0 ]
