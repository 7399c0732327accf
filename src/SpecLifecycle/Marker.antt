-- ===== src/SpecLifecycle/Marker.antt =====
-- src/otaman_core/spec_lifecycle.py: the ratifier named in an approved_by marker.
use otaman_core.Prelude.{
  ℕ, code, String, Bool, true, false, ◌||◌, ◌&&◌, Option, none, some, leb, ◌==◌, is_empty, is_space,
  strip, if◌then◌else◌,
}
use otaman_core.Yaml.{Value, str}

-- `re.split(r"\s—\s|\s-\s", s, maxsplit=1)[0]`
abbrev pub is_dash : ℕ → Bool
is_dash n = n == 0x2014 || n == b'-'

abbrev starts_reason : String → Bool
starts_reason (String.◌∷◌ a (String.◌∷◌ b (String.◌∷◌ c s))) =
    is_space (code a) && is_dash (code b) && is_space (code c)
starts_reason s = false

unfoldable pub before_reason : String → String
before_reason String.[] = ""
before_reason (String.◌∷◌ c s) =
    let rest = before_reason s in if starts_reason (String.◌∷◌ c s) then "" else String.◌∷◌ c rest

-- `s.lower()` for a prefix test with an ASCII text: no character of another alphabet has a lower
-- form that starts with one of its letters and goes on with the next.
abbrev lower_code : ℕ → ℕ
lower_code n = if leb b'A' n && leb n b'Z' then Prim.Native.Nat.◌+◌ n 32 else n

unfoldable pub starts_with_lower : String → String → Bool
starts_with_lower s String.[] = true
starts_with_lower String.[] (String.◌∷◌ d p) = false
starts_with_lower (String.◌∷◌ c s) (String.◌∷◌ d p) =
    lower_code (code c) == code d && starts_with_lower s p

-- `s.split(":", 1)[1]`
unfoldable pub after_colon : String → String
after_colon String.[] = ""
after_colon (String.◌∷◌ c s) = let rest = after_colon s in if code c == b':' then s else rest

abbrev some_filled : String → Option String
some_filled s = if is_empty s then none else some s

unfoldable pub ratifier_from_marker : Value → Option String
unfolding before_reason starts_with_lower after_colon
ratifier_from_marker (str s) =
    if starts_with_lower (strip s) "ratified:"
    then some_filled (strip (before_reason (after_colon (strip s))))
    else none
ratifier_from_marker v = none
