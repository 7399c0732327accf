-- ===== src/Yaml/Text.antt =====
-- `str(v)` and `repr(v)` of the loaded values. A text's `repr` escapes the backslash, the quote, the
-- line and tab controls and the other ASCII controls; every other character is taken to be printable.
use Prim.Native.Nat.{ℕ, zero, suc, ◌/◌, ◌%◌, ◌+◌}
use otaman_core.Prelude.{
  Char, code, String, true, false, not, ◌||◌, ◌&&◌, ◌==◌, ltb, ◌+++◌, any_char, if◌then◌else◌,
}
use otaman_core.Yaml.{
  Value, Values, Entries, null, bool, int, negative, float, datetime, date, str, list, dict, nil,
  cons, end, entry,
}

digit : ℕ → String
digit n =
    if n == 0
    then "0"
    else if n == 1
    then "1"
    else if n == 2
    then "2"
    else if n == 3
    then "3"
    else if n == 4
    then "4"
    else if n == 5
    then "5"
    else if n == 6
    then "6"
    else if n == 7
    then "7"
    else if n == 8
    then "8"
    else if n == 9
    then "9"
    else if n == 10
    then "a"
    else if n == 11
    then "b"
    else if n == 12
    then "c"
    else if n == 13
    then "d"
    else if n == 14
    then "e"
    else "f"

-- The fuel `n + 1` is enough: each round divides the number by ten.
decimal_from : ℕ → ℕ → String → String
decimal_from zero n out = out
decimal_from (suc fuel) n out =
    let rest = decimal_from fuel (n / 10) (digit (n % 10) +++ out) in
    if ltb n 10 then digit n +++ out else rest

unfoldable pub decimal : ℕ → String
unfolding decimal_from digit
decimal n = decimal_from (n + 1) n ""

escape : ℕ → Char → String
escape quote c =
    if code c == b'\\'
    then "\\\\"
    else if code c == quote
    then "\\" +++ String.◌∷◌ c ""
    else if code c == 10
    then "\\n"
    else if code c == 13
    then "\\r"
    else if code c == 9
    then "\\t"
    else if ltb (code c) 32 || code c == 127
    then "\\x" +++ digit (code c / 16) +++ digit (code c % 16)
    else String.◌∷◌ c ""

escape_all : ℕ → String → String
escape_all quote String.[] = ""
escape_all quote (String.◌∷◌ c s) = escape quote c +++ escape_all quote s

-- Single quotes, unless the text holds one and no double quote.
unfoldable pub repr_text : String → String
unfolding escape escape_all digit
repr_text s =
    if any_char (λ n. n == b'\'') s && not (any_char (λ n. n == b'"') s)
    then "\"" +++ escape_all b'"' s +++ "\""
    else "'" +++ escape_all b'\'' s +++ "'"

unfoldable mutual
  unfolding repr_text decimal

  pub repr : Value → String
  repr null = "None"
  repr (bool true) = "True"
  repr (bool false) = "False"
  repr (int n) = decimal n
  repr (negative n) = "-" +++ decimal (n + 1)
  repr (float is_zero s) = s
  repr (datetime s) = "datetime.datetime(" +++ s +++ ")"
  repr (date s) = "datetime.date(" +++ s +++ ")"
  repr (str s) = repr_text s
  repr (list vs) = "[" +++ repr_items vs +++ "]"
  repr (dict es) = "{" +++ repr_entries es +++ "}"

  pub repr_items : Values → String
  repr_items nil = ""
  repr_items (cons v nil) = repr v
  repr_items (cons v (cons w vs)) = repr v +++ ", " +++ repr_items (cons w vs)

  pub repr_entries : Entries → String
  repr_entries end = ""
  repr_entries (entry k v end) = repr k +++ ": " +++ repr v
  repr_entries (entry k v (entry j w es)) =
      repr k +++ ": " +++ repr v +++ ", " +++ repr_entries (entry j w es)

-- `str(v)`: a text, a date and a datetime are their own text, all else is its `repr`.
unfoldable pub to_str : Value → String
unfolding repr
to_str (str s) = s
to_str (datetime s) = s
to_str (date s) = s
to_str v = repr v
