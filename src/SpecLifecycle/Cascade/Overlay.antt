-- ===== src/SpecLifecycle/Cascade/Overlay.antt =====
-- Writing one block over another (src/otaman_core/spec_lifecycle.py: resolve_spec_policy).
use otaman_core.Prelude.{
  String, Bool, true, false, not, ◌||◌, Option, none, some, eq_iff, eq_refl, Bool-cases, inl, inr,
  ◌≡◌, refl, sym, ap, ◌∙◌, arith, if◌then◌else◌,
}
use otaman_core.Yaml.{
  Value, Entries, null, bool, str, dict, end, entry, find, has, get, or_default, is_text, is_null,
  truthy,
}
use otaman_core.Yaml.Laws.{is_text-eq}
use otaman_core.SpecLifecycle.SpecPolicy.{same_key, put_key, overlay, overlay_block}

abbrev pub entries_of : Value → Entries
entries_of (dict es) = es
entries_of v = end

-- A text key stands at most once, as in every dict.
abbrev pub once : String → Entries → Bool
once k end = true
once k (entry j v es) = if is_text k j then not (has k es) else once k es

unfoldable pub HasKeysOnce : Value → Type 0
HasKeysOnce v = (k : String) → once k (entries_of v) ≡ true

-- `program` where it is set, else `org`
abbrev pub pick : Value → Value → Value
pick program org = if is_null program then org else program

same_key-is_text : (k : String) (j i : Value) → same_key j i ≡ true → is_text k i ≡ is_text k j
same_key-is_text k (str s) (str t) h = ground (arith, eq_iff t s)
same_key-is_text k (str s) i h = ground arith
same_key-is_text k (bool true) (str t) h = ground arith
same_key-is_text k (bool false) (str t) h = ground arith
same_key-is_text k j (str t) h = ground arith
same_key-is_text k j i h = refl

same_key_refl :
    (k : String) (j i : Value) → is_text k j ≡ true → is_text k i ≡ true → same_key j i ≡ true
same_key_refl k j i a b = rw (is_text-eq k j a, is_text-eq k i b) (eq_refl k)

find-put_key :
    (k : String) (j v : Value) (es : Entries)
    → find k (put_key j v es) ≡ (if is_text k j then some v else find k es)
unfolding put_key
find-put_key k j v end = refl
find-put_key k j v (entry i w es) = elim (Bool-cases (same_key j i)) [
  | inl y ↦ rw y (
      rw (same_key-is_text k j i y)
        (elim (Bool-cases (is_text k j)) [ inl here ↦ rw here refl | inr off ↦ rw off refl ]))
  | inr n ↦ rw n (
      rw (find-put_key k j v es) (elim (Bool-cases (is_text k i)) [
        | inl here ↦ elim (Bool-cases (is_text k j)) [
          | inl also ↦ ground (arith, n, same_key_refl k j i also here)
          | inr off ↦ rw (here, off) refl
        ]
        | inr off ↦ rw off refl
      ]))
]

-- What one block leaves under a key: its value where it is set, else what was there.
abbrev pub set_over : Option Value → Option Value → Option Value
set_over (some v) before = if is_null v then before else some v
set_over none before = before

missing : (k : String) (es : Entries) → has k es ≡ false → (find k es ≡ none) × (once k es ≡ true)
missing k end h = (refl, refl)
missing k (entry j v es) h = elim (Bool-cases (is_text k j)) [
  | inl here ↦ ground (arith, here)
  | inr off ↦ let (absent, single) = missing k es (ground (arith, off)) in rw off (absent, single)
]

find-set :
    (k : String) (j v : Value) (merged : Entries)
    → find k (if is_null v then merged else put_key j v merged)
      ≡ (if is_text k j then set_over (some v) (find k merged) else find k merged)
find-set k j v merged = elim (Bool-cases (is_null v)) [
  | inl y ↦
      rw y (elim (Bool-cases (is_text k j)) [ inl here ↦ rw here refl | inr off ↦ rw off refl ])
  | inr n ↦ rw n (find-put_key k j v merged)
]

pub find-overlay :
    (k : String) (es merged : Entries)
    → once k es ≡ true
    → find k (overlay es merged) ≡ set_over (find k es) (find k merged)
unfolding overlay
find-overlay k end merged h = refl
find-overlay k (entry j v es) merged h = elim (Bool-cases (is_text k j)) [
  | inl here ↦
      let (absent, single) = missing k es (ground (arith, here)) in
      find-overlay k es (if is_null v then merged else put_key j v merged) single
      ∙ rw (absent, here) (find-set k j v merged ∙ rw here refl)
  | inr off ↦
      find-overlay k es (if is_null v then merged else put_key j v merged) (ground (arith, off))
      ∙ rw off (ap (set_over (find k es)) (find-set k j v merged ∙ rw off refl))
]

pub get-overlay_block :
    (k : String) (v : Value) (merged : Entries)
    → once k (entries_of v) ≡ true
    → get k (overlay_block v merged) ≡ pick (get k (entries_of v)) (get k merged)
unfolding overlay_block
get-overlay_block k (dict es) merged h =
    ap (or_default null) (find-overlay k es merged h) ∙ picked (find k es) (find k merged)
  where
    picked :
        (a b : Option Value)
        → or_default null (set_over a b) ≡ pick (or_default null a) (or_default null b)
    picked none b = refl
    picked (some v) b = elim (Bool-cases (is_null v)) [ inl y ↦ rw y refl | inr n ↦ rw n refl ]
get-overlay_block k v merged h = refl

-- A block that sets nothing leaves every key null.
pub overlay_block-empty :
    (k : String) (v : Value) (merged : Entries)
    → once k (entries_of v) ≡ true
    → overlay_block v merged ≡ end
    → (is_null (get k (entries_of v)) ≡ true) × (get k merged ≡ null)
overlay_block-empty k v merged h e =
    split (get k (entries_of v)) (get k merged)
      (sym (get-overlay_block k v merged h) ∙ ap (get k) e)
  where
    split : (a b : Value) → pick a b ≡ null → (is_null a ≡ true) × (b ≡ null)
    split a b p = elim (Bool-cases (is_null a)) [
      | inl y ↦ (y, sym (rw y refl) ∙ p)
      | inr n ↦ ground (arith, n, ap is_null p)
    ]

pub is_null-eq : (v : Value) → is_null v ≡ true → v ≡ null
is_null-eq null h = refl
is_null-eq v h = ground arith

pub pick-null : (v : Value) → pick v null ≡ v
pick-null v = elim (Bool-cases (is_null v)) [
  | inl y ↦ rw y (sym (is_null-eq v y))
  | inr n ↦ rw n refl
]

-- No key of the merged block is null.
abbrev pub is_set : Option Value → Bool
is_set none = true
is_set (some v) = not (is_null v)

pub set_over-is_set : (a b : Option Value) → is_set b ≡ true → is_set (set_over a b) ≡ true
set_over-is_set none b h = h
set_over-is_set (some v) b h = elim (Bool-cases (is_null v)) [
  | inl y ↦ rw y h
  | inr n ↦ rw n (rw n refl)
]

pub overlay_block-is_set :
    (k : String) (v : Value) (merged : Entries)
    → once k (entries_of v) ≡ true
    → is_set (find k merged) ≡ true
    → is_set (find k (overlay_block v merged)) ≡ true
unfolding overlay_block
overlay_block-is_set k (dict es) merged a h =
    ap is_set (find-overlay k es merged a) ∙ set_over-is_set (find k es) (find k merged) h
overlay_block-is_set k v merged a h = h

pub truthy-is_set :
    (o : Option Value)
    → is_set o ≡ true
    → truthy (or_default (bool true) o)
      ≡ (is_null (or_default null o) || truthy (or_default null o))
truthy-is_set none h = refl
truthy-is_set (some v) h = elim (Bool-cases (is_null v)) [
  | inl y ↦ ground (arith, y)
  | inr n ↦ rw n refl
]
