-- ===== src/Yaml/Laws.antt =====
-- Reading a dict: the laws that the loaders' proofs use.
use otaman_core.Prelude.{
  String, true, false, some, ◌≡◌, refl, sym, ap, ◌∙◌, inl, inr, Bool-cases, arith, eq_iff, eq_refl,
  str_eq, str_eq_comm, if◌then◌else◌,
}
use otaman_core.Yaml.{
  Value, Entries, null, end, entry, str, is_str, is_text, find, has, get, or_default, put,
}

pub is_str-eq : (v : Value) → is_str v ≡ true → (s : String) × (v ≡ str s)
is_str-eq (str s) h = (s, refl)
is_str-eq v h = ground arith

pub is_text-eq : (s : String) (v : Value) → is_text s v ≡ true → v ≡ str s
is_text-eq s (str t) h = ground (arith, eq_iff t s)
is_text-eq s v h = ground arith

-- A key that is there has a value.
pub find-has : (k : String) (es : Entries) → has k es ≡ true → (v : Value) × (find k es ≡ some v)
find-has k end h = cc
find-has k (entry j v es) h = elim (Bool-cases (is_text k j)) [
  | inl same ↦ (v, rw same refl)
  | inr other ↦ let (w, found) = find-has k es (ground arith) in (w, rw other found)
]

-- What a lookup finds after an assignment.
pub find-put :
    (k j : String) (v : Value) (es : Entries)
    → find j (put k v es) ≡ (if str_eq k j then some v else find j es)
unfolding put
find-put k j v end = refl
find-put k j v (entry i w es) = elim (Bool-cases (is_text k i)) [
  | inl same ↦
      let key : i ≡ str k = is_text-eq k i same in
      rw key
        (rw (eq_refl k) (elim (Bool-cases (str_eq k j)) [ inl y ↦ rw y refl | inr n ↦ rw n refl ]))
  | inr other ↦ rw other (elim (Bool-cases (is_text j i)) [
    | inl here ↦
        let key : i ≡ str j = is_text-eq j i here in
        let apart : str_eq k j ≡ false = str_eq_comm k j ∙ sym (ap (is_text k) key) ∙ other in
        rw (here, apart) refl
    | inr elsewhere ↦ rw elsewhere (find-put k j v es)
  ])
]

pub get-put :
    (k j : String) (v : Value) (es : Entries)
    → get j (put k v es) ≡ (if str_eq k j then v else get j es)
get-put k j v es =
    ap (or_default null) (find-put k j v es)
    ∙ elim (Bool-cases (str_eq k j)) [ inl same ↦ rw same refl | inr other ↦ rw other refl ]
