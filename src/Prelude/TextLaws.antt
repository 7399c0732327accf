-- ===== src/Prelude/TextLaws.antt =====
-- Laws of the text operations.
use Prim.Native.String.{[], ◌∷◌}
use text.Mathlib.TextLemmas.{nil-append, cons-append}
use text.Mathlib.TextEquality.{Char-path}
use mathlib.Core.Path.{◌≡◌, refl, sym, ap, ◌∙◌}
use mathlib.Core.Logic.{◌↔◌, ◌⊎◌, inl, inr, ◌≢◌}
use mathlib.Core.Bool.{Bool, true, false, not, ◌||◌}
use native.Mathlib.Omega.{arith}
use otaman_core.Prelude.Tests.{◌==◌, Bool-cases}
use otaman_core.Prelude.Texts.{
  drop_prefix, all_chars, any_char, split_on, starts_with, ◌+++◌, is_empty, is_space, lstrip,
  rstrip, trim_cons, strip_by, strip,
}
use Prim.Native.String.{String}
use mathlib.Core.List
use Prim.Native.Nat.{ℕ}
use Prim.Native.Char.{Char, code}

starts_with_sound : (s p : String) → starts_with s p ≡ true → (rest : String) × (s ≡ p +++ rest)
unfolding starts_with
starts_with_sound s [] h = (s, sym (nil-append s))
starts_with_sound [] (d ∷ p) h = cc
starts_with_sound (c ∷ s) (d ∷ p) h =
    let (rest, e) = starts_with_sound s p (ground arith) in
    let same : c ≡ d = Char-path c d (ground arith) in
    (rest, rw same (ap (λ t. d ∷ t) e ∙ sym (cons-append d p rest)))

starts_with_append : (p rest : String) → starts_with (p +++ rest) p ≡ true
unfolding starts_with
starts_with_append [] rest = refl
starts_with_append (d ∷ p) rest =
    rw (cons-append d p rest) (ground (arith, starts_with_append p rest))

-- `s.startswith(p)` exactly when `s` is `p` and a rest.
pub starts_with_iff :
    (s p : String) → (starts_with s p ≡ true) ↔ ((rest : String) × (s ≡ p +++ rest))
starts_with_iff s p = (starts_with_sound s p, λ (rest, e). rw e (starts_with_append p rest))

module _ (p : ℕ → Bool) where
  rstrip_idem : (s : String) → rstrip p (rstrip p s) ≡ rstrip p s
  unfolding rstrip
  rstrip_idem [] = refl
  rstrip_idem (c ∷ s) = rstrip-trim_cons (p (code c)) c (rstrip p s) refl (rstrip_idem s)
    where
      rstrip-trim_cons :
          (drop : Bool) (c : Char) (t : String)
          → p (code c) ≡ drop
          → rstrip p t ≡ t
          → rstrip p (trim_cons drop c t) ≡ trim_cons drop c t
      rstrip-trim_cons true c [] e h = refl
      rstrip-trim_cons false c [] e h = rw e
      rstrip-trim_cons drop c (d ∷ t) e h = rw h

  -- No character of the class at the front.
  abbrev IsTrimmed : String → Type 0
  IsTrimmed [] = Unit
  IsTrimmed (c ∷ s) = p (code c) ≡ false

  lstrip-IsTrimmed : (s : String) → IsTrimmed (lstrip p s)
  unfolding lstrip
  lstrip-IsTrimmed [] = tt
  lstrip-IsTrimmed (c ∷ s) = elim (Bool-cases (p (code c))) [
    | inl drop ↦ rw drop (lstrip-IsTrimmed s)
    | inr stay ↦ rw stay stay
  ]

  trim_cons-IsTrimmed :
      (c : Char) (t : String) → p (code c) ≡ false → IsTrimmed (trim_cons false c t)
  trim_cons-IsTrimmed c [] h = h
  trim_cons-IsTrimmed c (d ∷ t) h = h

  rstrip-IsTrimmed : (s : String) → IsTrimmed s → IsTrimmed (rstrip p s)
  unfolding rstrip
  rstrip-IsTrimmed [] h = tt
  rstrip-IsTrimmed (c ∷ s) h = rw h (trim_cons-IsTrimmed c (rstrip p s) h)

  lstrip_of_IsTrimmed : (s : String) → IsTrimmed s → lstrip p s ≡ s
  unfolding lstrip
  lstrip_of_IsTrimmed [] h = refl
  lstrip_of_IsTrimmed (c ∷ s) h = rw h

  pub strip_by_idem : (s : String) → strip_by p (strip_by p s) ≡ strip_by p s
  unfolding strip_by
  strip_by_idem s =
      ap (rstrip p) (
        lstrip_of_IsTrimmed (rstrip p (lstrip p s))
          (rstrip-IsTrimmed (lstrip p s) (lstrip-IsTrimmed s)))
      ∙ rstrip_idem (lstrip p s)

-- Stripping a second time changes nothing.
pub strip_idem : (s : String) → strip (strip s) ≡ strip s
unfolding strip
strip_idem s = strip_by_idem is_space s

pub filled_test : (s : String) → s ≢ "" → is_empty s ≡ false
filled_test [] h = absurd (h refl)
filled_test (c ∷ s) h = refl

pub is_empty-filled : (s : String) → is_empty s ≡ false → s ≢ ""
is_empty-filled s h e = cc (ap is_empty e)

pub drop_prefix-append : (p rest : String) → drop_prefix (p +++ rest) p ≡ rest
unfolding drop_prefix
drop_prefix-append [] rest = nil-append rest
drop_prefix-append (d ∷ p) rest = rw (cons-append d p rest) (drop_prefix-append p rest)

pub starts_with-append : (p rest : String) → starts_with (p +++ rest) p ≡ true
starts_with-append = starts_with_append

pub all_chars-weaken :
    (p q : ℕ → Bool) (s : String)
    → ((n : ℕ) → p n ≡ true → q n ≡ true)
    → all_chars p s ≡ true
    → all_chars q s ≡ true
all_chars-weaken p q [] f h = refl
all_chars-weaken p q (c ∷ s) f h = ground (arith, f (code c), all_chars-weaken p q s f)

pub any_char-append :
    (p : ℕ → Bool) (a b : String) → any_char p (a +++ b) ≡ (any_char p a || any_char p b)
any_char-append p [] b = rw (nil-append b)
any_char-append p (c ∷ a) b = rw (cons-append c a b) (ground (arith, any_char-append p a b))

-- A separator after a part that has none ends the part.
pub split_on-cons :
    (n : ℕ) (d : Char) (a b : String)
    → code d ≡ n
    → all_chars (λ m. not (m == n)) a ≡ true
    → split_on n (a +++ (d ∷ b)) ≡ List.◌∷◌ a (split_on n b)
unfolding split_on
split_on-cons n d [] b e h = rw (nil-append (d ∷ b)) (ground (arith, e))
split_on-cons n d (c ∷ a) b e h =
    rw (cons-append c a (d ∷ b)) (ground (arith, split_on-cons n d a b e))

pub split_on_plain :
    (n : ℕ) (a : String)
    → all_chars (λ m. not (m == n)) a ≡ true
    → split_on n a ≡ List.◌∷◌ a List.[]
unfolding split_on
split_on_plain n [] h = refl
split_on_plain n (c ∷ a) h = ground (arith, split_on_plain n a)

module _ (p : ℕ → Bool) where
  rstrip_plain : (s : String) → all_chars (λ n. not (p n)) s ≡ true → rstrip p s ≡ s
  unfolding rstrip
  rstrip_plain [] h = refl
  rstrip_plain (c ∷ s) h =
      rw (rstrip_plain s (ground arith)) (trim_cons_stay (p (code c)) c s (ground arith))
    where
      trim_cons_stay :
          (drop : Bool) (c : Char) (s : String) → drop ≡ false → trim_cons drop c s ≡ c ∷ s
      trim_cons_stay drop c [] h = rw h
      trim_cons_stay drop c (d ∷ s) h = refl

  trim_cons_filled : (drop : Bool) (c : Char) (s : String) → s ≢ "" → trim_cons drop c s ≡ c ∷ s
  trim_cons_filled drop c [] h = absurd (h refl)
  trim_cons_filled drop c (d ∷ s) h = refl

  append_filled : (a t : String) → t ≢ "" → a +++ t ≢ ""
  append_filled [] t h e = h (sym (nil-append t) ∙ e)
  append_filled (c ∷ a) t h e = cc (ap is_empty (sym (cons-append c a t) ∙ e))

  rstrip-append : (a t : String) → t ≢ "" → rstrip p t ≡ t → rstrip p (a +++ t) ≡ a +++ t
  unfolding rstrip
  rstrip-append [] t h e = rw (nil-append t) e
  rstrip-append (c ∷ a) t h e =
      rw (cons-append c a t) (
        rw (rstrip-append a t h e)
          (trim_cons_filled (p (code c)) c (a +++ t) (append_filled a t h)))

  -- A text that begins outside the class and ends in characters outside it is not changed.
  pub strip_by-append :
      (c : Char) (a t : String)
      → p (code c) ≡ false
      → t ≢ ""
      → all_chars (λ n. not (p n)) t ≡ true
      → strip_by p ((c ∷ a) +++ t) ≡ (c ∷ a) +++ t
  unfolding strip_by
  strip_by-append c a t first filled plain =
      let whole : lstrip p ((c ∷ a) +++ t) ≡ (c ∷ a) +++ t =
        rw (cons-append c a t) (lstrip_of_IsTrimmed p (c ∷ (a +++ t)) first) in
      rw whole (rstrip-append (c ∷ a) t filled (rstrip_plain t plain))

-- A text with a character to keep does not strip to nothing.
lstrip-any_char :
    (p : ℕ → Bool) (s : String)
    → any_char (λ n. not (p n)) s ≡ true
    → any_char (λ n. not (p n)) (lstrip p s) ≡ true
unfolding lstrip
lstrip-any_char p [] h = h
lstrip-any_char p (c ∷ s) h = elim (Bool-cases (p (code c))) [
  | inl y ↦ rw y (lstrip-any_char p s (ground (arith, y, h)))
  | inr n ↦ rw n (ground (arith, n))
]

trim_cons-filled :
    (drop : Bool) (c : Char) (s : String)
    → (drop ≡ false) ⊎ (is_empty s ≡ false)
    → is_empty (trim_cons drop c s) ≡ false
trim_cons-filled drop c [] (inl e) = rw e refl
trim_cons-filled drop c [] (inr e) = cc
trim_cons-filled drop c (d ∷ s) h = refl

rstrip-filled :
    (p : ℕ → Bool) (s : String) → any_char (λ n. not (p n)) s ≡ true → is_empty (rstrip p s) ≡ false
unfolding rstrip
rstrip-filled p [] h = cc
rstrip-filled p (c ∷ s) h = elim (Bool-cases (p (code c))) [
  | inl y ↦
      trim_cons-filled (p (code c)) c (rstrip p s) (inr (rstrip-filled p s (ground (arith, y, h))))
  | inr n ↦ trim_cons-filled (p (code c)) c (rstrip p s) (inl n)
]

pub strip-filled :
    (s : String) → any_char (λ n. not (is_space n)) s ≡ true → is_empty (strip s) ≡ false
unfolding strip strip_by
strip-filled s h = rstrip-filled is_space (lstrip is_space s) (lstrip-any_char is_space s h)
