-- ===== src/Prelude/Texts.antt =====
-- Python's `str` methods that the program uses, by recursion over the code points.
use Prim.Native.Nat.{ℕ, suc, ◌+◌}
use Prim.Native.Char.{Char, code}
use Prim.Native.String.{String, ◌++◌ as append}
use mathlib.Core.Bool.{Bool, true, false, ◌&&◌, ◌||◌}
use mathlib.Core.List.{List, [], ◌∷◌}
use otaman_core.Prelude.Tests.{leb, ◌==◌, if◌then◌else◌}

infixr 65 ◌+++◌
-- `s + t`
abbrev pub ◌+++◌ : String → String → String
s +++ t = append s t

abbrev pub is_empty : String → Bool
is_empty String.[] = true
is_empty (String.◌∷◌ c s) = false

-- What `str.isspace` accepts, so what `strip()` removes.
abbrev pub is_space : ℕ → Bool
is_space n =
    n == 32
    || (leb 9 n && leb n 13)
    || (leb 28 n && leb n 31)
    || n == 0x85
    || n == 0xa0
    || n == 0x1680
    || (leb 0x2000 n && leb n 0x200a)
    || n == 0x2028
    || n == 0x2029
    || n == 0x202f
    || n == 0x205f
    || n == 0x3000

unfoldable pub lstrip : (ℕ → Bool) → String → String
lstrip p String.[] = ""
lstrip p (String.◌∷◌ c s) = let rest = lstrip p s in if p (code c) then rest else String.◌∷◌ c s

-- The character goes with an empty tail, if it is one of those to drop.
abbrev pub trim_cons : Bool → Char → String → String
trim_cons drop c String.[] = if drop then "" else String.◌∷◌ c ""
trim_cons drop c (String.◌∷◌ d s) = String.◌∷◌ c (String.◌∷◌ d s)

unfoldable pub rstrip : (ℕ → Bool) → String → String
rstrip p String.[] = ""
rstrip p (String.◌∷◌ c s) = trim_cons (p (code c)) c (rstrip p s)

-- `s.strip(chars)`, and `s.strip()`
unfoldable pub strip_by : (ℕ → Bool) → String → String
unfolding lstrip rstrip
strip_by p s = rstrip p (lstrip p s)

unfoldable pub strip : String → String
unfolding strip_by
strip s = strip_by is_space s

-- `s.startswith(p)`
unfoldable pub starts_with : String → String → Bool
starts_with s String.[] = true
starts_with String.[] (String.◌∷◌ d p) = false
starts_with (String.◌∷◌ c s) (String.◌∷◌ d p) = code c == code d && starts_with s p

-- `s[n:]` at the length of a prefix `p`
unfoldable pub drop_prefix : String → String → String
drop_prefix s String.[] = s
drop_prefix String.[] (String.◌∷◌ d p) = ""
drop_prefix (String.◌∷◌ c s) (String.◌∷◌ d p) = drop_prefix s p

abbrev pub any_char : (ℕ → Bool) → String → Bool
any_char p String.[] = false
any_char p (String.◌∷◌ c s) = p (code c) || any_char p s

abbrev pub all_chars : (ℕ → Bool) → String → Bool
all_chars p String.[] = true
all_chars p (String.◌∷◌ c s) = p (code c) && all_chars p s

-- `s.count(c)` of one character
unfoldable pub count_char : ℕ → String → ℕ
count_char n String.[] = 0
count_char n (String.◌∷◌ c s) = (if code c == n then 1 else 0) + count_char n s

-- `s.replace(a, b)` of one character
unfoldable pub replace_char : ℕ → Char → String → String
replace_char n d String.[] = ""
replace_char n d (String.◌∷◌ c s) = String.◌∷◌ (if code c == n then d else c) (replace_char n d s)

abbrev pub push_front : Char → List String → List String
push_front c [] = String.◌∷◌ c "" ∷ []
push_front c (part ∷ parts) = String.◌∷◌ c part ∷ parts

-- `s.split(c)` at one character
unfoldable pub split_on : ℕ → String → List String
split_on n String.[] = "" ∷ []
split_on n (String.◌∷◌ c s) =
    let parts = split_on n s in if code c == n then "" ∷ parts else push_front c parts

abbrev pub text_length : String → ℕ
text_length String.[] = 0
text_length (String.◌∷◌ c s) = suc (text_length s)
