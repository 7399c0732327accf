-- ===== src/Bus/Stem/Longest.antt =====
-- Which known recipient a stem names (src/otaman_core/bus_stem.py: _split_recipient).

use otaman_core.Prelude.{
  ◌<◌, String, Bool, true, false, ◌&&◌, Option, none, some, List, elem, ltb, str_eq, eq_iff,
  eq_refl, text_length, Bool-cases, inl, inr, ◌⊎◌, ◌≡◌, refl, sym, ap, subst, arith,
}
use otaman_core.Bus.Stem.{names, is_longer, best_name}

-- Among the known names that a tail leads with, the longest is found, in whatever order they stand.
abbrev pub is_behind : String → Option String → Bool
is_behind r none = true
is_behind r (some best) = ltb (text_length best) (text_length r)

not_longer :
    (tail r n : String) (best : Option String)
    → (names tail n ≡ true → (n ≡ r) ⊎ (text_length n < text_length r))
    → best ≡ some r
    → (names tail n && is_longer n best) ≡ false
not_longer tail r n best other e = rw e (elim (Bool-cases (names tail n)) [
  | inl y ↦ elim (other y) [
    | inl same ↦ ground (arith, y, ap text_length same)
    | inr less ↦ ground (arith, y, less)
  ]
  | inr off ↦ ground (arith, off)
])

takes :
    (tail r : String) (best : Option String)
    → names tail r ≡ true
    → is_behind r best ≡ true
    → (names tail r && is_longer r best) ≡ true
takes tail r none named h = ground (arith, named)
takes tail r (some best) named h = ground (arith, named, h)

shorter :
    (tail r n : String)
    → str_eq r n ≡ false
    → (names tail n ≡ true → (n ≡ r) ⊎ (text_length n < text_length r))
    → names tail n ≡ true
    → is_behind r (some n) ≡ true
shorter tail r n off other named = elim (other named) [
  | inl same ↦ ground (arith, off, eq_iff r n, sym same)
  | inr less ↦ ground (arith, less)
]

pub best_name-longest :
    (tail r : String) (known : List String) (best : Option String)
    → names tail r ≡ true
    → ((name : String)
        → elem name known ≡ true
        → names tail name ≡ true
        → (name ≡ r) ⊎ (text_length name < text_length r))
    → (best ≡ some r) ⊎ ((elem r known ≡ true) × (is_behind r best ≡ true))
    → best_name tail known best ≡ some r
unfolding best_name
best_name-longest tail r List.[] best named others (inl e) = e
best_name-longest tail r List.[] best named others (inr e) = ground (arith, e.0)
best_name-longest tail r (List.◌∷◌ n rest) best named others (inl e) =
    rw (not_longer tail r n best (others n (rw (eq_refl n) refl)) e)
      (best_name-longest tail r rest best named (λ m here. others m (ground (arith, here))) (inl e))
best_name-longest tail r (List.◌∷◌ n rest) best named others (inr e) =
    let later = λ (m : String) (here : elem m rest ≡ true). others m (ground (arith, here)) in
    elim (Bool-cases (str_eq r n)) [
      | inl y ↦
          let same : r ≡ n = ground (arith, eq_iff r n) in
          let taken : (names tail n && is_longer n best) ≡ true =
            subst (λ m. (names tail m && is_longer m best) ≡ true) same
              (takes tail r best named e.1) in
          rw taken (best_name-longest tail r rest (some n) named later (inl (ap some (sym same))))
      | inr off ↦
          let still : elem r rest ≡ true = ground (arith, off, e.0) in
          elim (Bool-cases (names tail n && is_longer n best)) [
            | inl y ↦ rw y (
                best_name-longest tail r rest (some n) named later (
                  inr (
                    still,
                    shorter tail r n off (others n (rw (eq_refl n) refl)) (ground (arith, y)),
                  )))
            | inr n ↦ rw n (best_name-longest tail r rest best named later (inr (still, e.1)))
          ]
    ]
