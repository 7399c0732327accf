-- ===== src/Yaml.antt =====
-- What `yaml.safe_load` returns: the dynamic values that every loader of the program reads, with
-- Python's tests and conversions on them (`isinstance`, truth, `dict.get`, `in`, `str`).
-- A float carries whether it is zero, and its text; a date or a datetime carries its text.
pub mod Text
pub mod Laws
pub mod Equal
use otaman_core.Prelude.{
  ℕ, String, Bool, true, false, not, ◌||◌, ◌&&◌, Option, none, some, List, [], ◌∷◌, str_eq, ◌==◌,
  is_empty, if◌then◌else◌,
}

mutual
  pub data Value : Type 0 where
    null : Value
    bool : Bool → Value
    -- `negative n` is -(n + 1)
    int negative : ℕ → Value
    float : (is_zero : Bool) → String → Value
    datetime : String → Value
    date : String → Value
    str : String → Value
    list : Values → Value
    dict : Entries → Value

  pub data Values : Type 0 where
    nil : Values
    cons : Value → Values → Values

  -- The items of a dict, in its order. A key may be any scalar.
  pub data Entries : Type 0 where
    end : Entries
    entry : Value → Value → Entries → Entries

abbrev pub items : Values → List Value
items nil = []
items (cons v vs) = v ∷ items vs

abbrev pub is_null : Value → Bool
is_null null = true
is_null _ = false

-- `isinstance(v, str)`, `isinstance(v, bool)`, `isinstance(v, int)`: a bool is an int.
abbrev pub is_str : Value → Bool
is_str (str s) = true
is_str _ = false

abbrev pub is_bool : Value → Bool
is_bool (bool b) = true
is_bool _ = false

abbrev pub is_int : Value → Bool
is_int (int n) = true
is_int (negative n) = true
is_int (bool b) = true
is_int _ = false

-- A value that `in` and a set accept: lists and dicts are unhashable.
abbrev pub is_hashable : Value → Bool
is_hashable (list vs) = false
is_hashable (dict es) = false
is_hashable _ = true

-- `bool(v)`
abbrev pub truthy : Value → Bool
truthy null = false
truthy (bool b) = b
truthy (int n) = not (n == 0)
truthy (negative n) = true
truthy (float is_zero s) = not is_zero
truthy (datetime s) = true
truthy (date s) = true
truthy (str s) = not (is_empty s)
truthy (list nil) = false
truthy (list (cons v vs)) = true
truthy (dict end) = false
truthy (dict (entry k v es)) = true

-- `v == "…"` for a text
abbrev pub is_text : String → Value → Bool
is_text s (str t) = str_eq t s
is_text s _ = false

-- `v in (…)` for texts
abbrev pub is_one_of : List String → Value → Bool
is_one_of [] v = false
is_one_of (s ∷ ss) v = is_text s v || is_one_of ss v

-- `d.get(k)` and `k in d` for a text key, telling an absent key from a null value
abbrev pub find : String → Entries → Option Value
find k end = none
find k (entry j v es) = if is_text k j then some v else find k es

abbrev pub has : String → Entries → Bool
has k end = false
has k (entry j v es) = is_text k j || has k es

abbrev pub or_default : Value → Option Value → Value
or_default d none = d
or_default d (some v) = v

-- `d.get(k)`: `None` for an absent key too
abbrev pub get : String → Entries → Value
get k es = or_default null (find k es)

-- `d.get(k, default)`
abbrev pub get_or : String → Value → Entries → Value
get_or k d es = or_default d (find k es)

-- A YAML file on disk: not there, there but not readable or not parsed, or what it loads to.
pub data File : Type 0 where
  absent unreadable : File
  content : Value → File

-- `d[k] = v` for a text key: an existing key keeps its place.
unfoldable pub put : String → Value → Entries → Entries
put k v end = entry (str k) v end
put k v (entry j w es) =
    let rest = put k v es in if is_text k j then entry j v es else entry j w rest
