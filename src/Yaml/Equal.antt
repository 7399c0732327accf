-- ===== src/Yaml/Equal.antt =====
-- Python's `==` on what `yaml.safe_load` returns. Where a float is compared, the answer is the
-- parameter `same_float`.
use otaman_core.Prelude.{
  ℕ, ◌+◌, Bool, true, false, ◌&&◌, Option, none, some, ◌==◌, str_eq, if◌then◌else◌,
}
use otaman_core.Yaml.{
  Value, Values, Entries, null, bool, int, negative, float, datetime, date, str, list, dict, nil,
  cons, end, entry,
}

abbrev bit : Bool → ℕ
bit true = 1
bit false = 0

abbrev size : Entries → ℕ
size end = 0
size (entry k v es) = 1 + size es

module _ (same_float : Value → Value → Bool) where
  -- Scalars: a bool is the int 0 or 1.
  unfoldable pub same_scalar : Value → Value → Bool
  same_scalar null null = true
  same_scalar (bool b) (bool c) = bit b == bit c
  same_scalar (bool b) (int n) = bit b == n
  same_scalar (int n) (bool c) = n == bit c
  same_scalar (int n) (int m) = n == m
  same_scalar (negative n) (negative m) = n == m
  same_scalar (datetime s) (datetime t) = str_eq s t
  same_scalar (date s) (date t) = str_eq s t
  same_scalar (str s) (str t) = str_eq s t
  same_scalar (float z s) w = same_float (float z s) w
  same_scalar v (float z s) = same_float v (float z s)
  same_scalar v w = false

  -- The value under a key, which is a scalar.
  unfoldable pub at_key : Value → Entries → Option Value
  at_key k end = none
  at_key k (entry j w es) = if same_scalar j k then some w else at_key k es

  unfoldable mutual
    pub same : Value → Value → Bool
    same (list vs) (list ws) = same_items vs ws
    same (dict es) (dict fs) = (size es == size fs) && same_entries es fs
    same v w = same_scalar v w

    pub same_items : Values → Values → Bool
    same_items nil nil = true
    same_items (cons v vs) (cons w ws) = same v w && same_items vs ws
    same_items vs ws = false

    -- Every entry of the first stands in the second.
    pub same_entries : Entries → Entries → Bool
    same_entries end fs = true
    same_entries (entry k v es) fs =
        elim (at_key k fs) [ none ↦ false | some w ↦ same v w ] && same_entries es fs
