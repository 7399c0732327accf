-- ===== src/Prelude/Sets.antt =====
-- Python's sets of strings, as lists: membership, deduplication and sorting.
use Prim.Native.Nat.{Ordering}
use Prim.Native.String.{String, compare}
use mathlib.Core.Path.{◌≡◌, refl, ◌∙◌, subst}
use mathlib.Core.Bool.{Bool, true, false, ◌&&◌, ◌||◌}
use mathlib.Core.List.{List, [], ◌∷◌, ◌++◌}
use native.Mathlib.Omega.{arith}
use text.Mathlib.TextEquality.{eq_iff}
use text.Mathlib.TextPositions.{eq_refl}
use mathlib.Core.Logic.{◌↔◌, inl, inr}
use otaman_core.Prelude.Tests.{str_eq, if◌then◌else◌, Bool-cases}
use otaman_core.Prelude.Lists.{All, keep}

-- `x in xs`
abbrev pub elem : String → List String → Bool
elem x [] = false
elem x (y ∷ ys) = str_eq x y || elem x ys

-- No text stands twice in the list.
abbrev pub NoRepeats : List String → Type 0
NoRepeats [] = Unit
NoRepeats (x ∷ xs) = (elem x xs ≡ false) × NoRepeats xs

-- `sorted(set(xs))`: an insertion that leaves out what is there, in code point order.
abbrev text_leb : String → String → Bool
text_leb s t = elim (compare s t) [ Ordering.gt ↦ false | _ ↦ true ]

pub insert_sorted : String → List String → List String
insert_sorted x [] = x ∷ []
insert_sorted x (y ∷ ys) = if text_leb x y then x ∷ y ∷ ys else y ∷ insert_sorted x ys

unfoldable pub sorted_set : List String → List String
unfolding insert_sorted
sorted_set [] = []
sorted_set (x ∷ xs) = let rest = sorted_set xs in if elem x rest then rest else insert_sorted x rest

elem-insert_sorted :
    (a x : String) (xs : List String) → elem a (insert_sorted x xs) ≡ (str_eq a x || elem a xs)
unfolding insert_sorted
elem-insert_sorted a x [] = refl
elem-insert_sorted a x (y ∷ ys) = ground (arith, elem-insert_sorted a x ys)

insert_sorted-NoRepeats :
    (x : String) (xs : List String)
    → elem x xs ≡ false
    → NoRepeats xs
    → NoRepeats (insert_sorted x xs)
unfolding insert_sorted
insert_sorted-NoRepeats x [] h k = (refl, tt)
insert_sorted-NoRepeats x (y ∷ ys) h (fresh, k) =
    ground (arith, eq_iff x y, eq_iff y x, elem-insert_sorted y x ys, insert_sorted-NoRepeats x ys)

-- The set holds what the list holds.
pub elem-sorted_set : (a : String) (xs : List String) → elem a (sorted_set xs) ≡ elem a xs
unfolding sorted_set
elem-sorted_set a [] = refl
elem-sorted_set a (x ∷ xs) = ground (
  arith,
  eq_iff a x,
  elem-sorted_set a xs,
  elem-sorted_set x xs,
  elem-insert_sorted a x (sorted_set xs),
)

pub sorted_set-NoRepeats : (xs : List String) → NoRepeats (sorted_set xs)
unfolding sorted_set
sorted_set-NoRepeats [] = tt
sorted_set-NoRepeats (x ∷ xs) =
    ground (arith, sorted_set-NoRepeats xs, insert_sorted-NoRepeats x (sorted_set xs))

-- What holds of every member, in its two forms.
pub All-elem :
    (P : String → Type 0) (xs : List String) → All P xs ↔ ((a : String) → elem a xs ≡ true → P a)
All-elem P [] = ((λ h a e. absurd (ground arith)), λ h. tt)
All-elem P (x ∷ xs) = (
  (λ (now, h) a e. elim (Bool-cases (str_eq a x)) [
    | inl same ↦ rw ((eq_iff a x).0 same) now
    | inr other ↦ (All-elem P xs).0 h a (rw other at e)
  ]),
  λ h. (h x (ground (arith, eq_iff x x)), (All-elem P xs).1 (λ a e. h a (ground arith))),
)

pub elem-append : (a : String) (xs ys : List String) → elem a (xs ++ ys) ≡ (elem a xs || elem a ys)
elem-append a [] ys = refl
elem-append a (x ∷ xs) ys = ground (arith, elem-append a xs ys)

pub elem-keep :
    (p : String → Bool) (a : String) (xs : List String) → elem a (keep p xs) ≡ (elem a xs && p a)
elem-keep p a [] = refl
elem-keep p a (x ∷ xs) = elim (Bool-cases (str_eq a x)) [
  | inl same ↦
      let e : a ≡ x = ground (arith, eq_iff a x) in
      subst (λ y. elem a (keep p (y ∷ xs)) ≡ (elem a (y ∷ xs) && p a)) e
        (elim (Bool-cases (p a)) [
          | inl y ↦ rw (y, eq_refl a) refl
          | inr n ↦ rw n (elem-keep p a xs ∙ ground (arith, n))
        ])
  | inr other ↦ elim (Bool-cases (p x)) [
    | inl y ↦ rw (y, other) (elem-keep p a xs)
    | inr n ↦ rw (n, other) (elem-keep p a xs)
  ]
]
