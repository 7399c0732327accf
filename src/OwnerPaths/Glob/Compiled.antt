-- ===== src/OwnerPaths/Glob/Compiled.antt =====
-- The compiled pattern of path_matches (src/otaman_core/owner_paths.py) matches what the pattern means.
use Prim.Native.String.{[], ◌∷◌}
use text.Mathlib.TextEquality.{Char-path}
use otaman_core.Prelude.{
  ℕ, zero, suc, Char, code, String, Bool, true, false, ◌&&◌, List, ◌==◌, starts_with, any_char,
  is_empty, is_empty-filled, ◌≡◌, ◌≢◌, ◌↔◌, inl, inr, refl, arith, Bool-cases, sym, subst,
}
use otaman_core.OwnerPaths.Glob.{
  any_dirs, across, within, one, exact, is_wildcard, glob_from, glob_to_regex, normalize,
  path_matches,
}
use otaman_core.OwnerPaths.Glob.Language.{Denotes}
use otaman_core.OwnerPaths.Glob.Paths.{path_matches-bare, path_matches-glob}
use otaman_core.OwnerPaths.Glob.Meaning.{
  Globs, stop, newline, no_dirs, dirs, stars, star, question, same, Matches,
}

slash_after : (p : String) → starts_with p "*" ≡ false → starts_with p "*/" ≡ false
unfolding starts_with
slash_after [] h = refl
slash_after (c ∷ p) h = ground (arith, h)

-- The compiled pattern, one kind of part after the other
from_dirs :
    (c : Char) (p : String)
    → starts_with (c ∷ p) "**/" ≡ true
    → glob_from 0 (c ∷ p) ≡ List.◌∷◌ any_dirs (glob_from 2 p)
unfolding glob_from
from_dirs c p h = rw h refl

from_stars :
    (c : Char) (p : String)
    → starts_with (c ∷ p) "**/" ≡ false
    → starts_with (c ∷ p) "**" ≡ true
    → glob_from 0 (c ∷ p) ≡ List.◌∷◌ across (glob_from 1 p)
unfolding glob_from
from_stars c p h k = rw (h, k) refl

from_star :
    (c : Char) (p : String)
    → starts_with (c ∷ p) "**/" ≡ false
    → starts_with (c ∷ p) "**" ≡ false
    → (code c == b'*') ≡ true
    → glob_from 0 (c ∷ p) ≡ List.◌∷◌ within (glob_from 0 p)
unfolding glob_from
from_star c p h k l = rw (h, k, l) refl

from_question :
    (c : Char) (p : String)
    → (code c == b'*') ≡ false
    → (code c == b'?') ≡ true
    → glob_from 0 (c ∷ p) ≡ List.◌∷◌ one (glob_from 0 p)
unfolding glob_from starts_with
from_question c p h k = rw (h, k) refl

from_same :
    (c : Char) (p : String)
    → (code c == b'*') ≡ false
    → (code c == b'?') ≡ false
    → glob_from 0 (c ∷ p) ≡ List.◌∷◌ (exact c) (glob_from 0 p)
unfolding glob_from starts_with
from_same c p h k = rw (h, k) refl

Globs-Denotes : {p s : String} → Globs p s → Denotes (glob_from 0 p) s
unfolding glob_from starts_with
Globs-Denotes stop = inl refl
Globs-Denotes newline = inr refl
Globs-Denotes (no_dirs g) = inl (Globs-Denotes g)
Globs-Denotes (dirs {p} {s} a plain g) =
    inr (a, "/" ∷ s, refl, plain, ("/", s, refl, refl, Globs-Denotes g))
Globs-Denotes (stars {p} {s} a next plain g) = rw next (a, s, refl, plain, Globs-Denotes g)
Globs-Denotes (star {p} {s} a next plain g) =
    rw (slash_after p next, next) (a, s, refl, plain, Globs-Denotes g)
Globs-Denotes (question {p} {s} c plain g) = (c, s, refl, plain, Globs-Denotes g)
Globs-Denotes (same {p} {s} c plain g) =
    rw (from_same c p (ground (arith, plain)) (ground (arith, plain)))
      (c, s, refl, ground arith, Globs-Denotes g)

drop : ℕ → String → String
drop zero p = p
drop (suc n) [] = ""
drop (suc n) (c ∷ p) = drop n p

same_char : (c d : Char) → (code c == code d) ≡ true → c ≡ d
same_char c d h = Char-path c d (ground (arith, h))

two : (x y : Bool) → (x && y) ≡ true → (x ≡ true) × (y ≡ true)
two true y h = (refl, h)
two false y h = absurd (ground arith)

three : (x y z : Bool) → (x && (y && z)) ≡ true → (x ≡ true) × ((y ≡ true) × (z ≡ true))
three x y z h = let (a, b) = two x (y && z) h in (a, two y z b)

dirs_text :
    (c : Char) (p : String) → starts_with (c ∷ p) "**/" ≡ true → c ∷ p ≡ "*" ∷ "*" ∷ "/" ∷ drop 2 p
unfolding drop starts_with
dirs_text c [] h = ground arith
dirs_text c (d ∷ []) h = ground arith
dirs_text c (d ∷ e ∷ p) h =
    let (x, (y, z)) =
      three (code c == b'*') (code d == b'*') (code e == b'/')
        (unfold starts_with in ground arith) in
    rw (same_char c "*" x, same_char d "*" y, same_char e "/" z) refl

stars_text :
    (c : Char) (p : String)
    → starts_with (c ∷ p) "**/" ≡ false
    → starts_with (c ∷ p) "**" ≡ true
    → (c ∷ p ≡ "*" ∷ "*" ∷ drop 1 p) × (starts_with (drop 1 p) "/" ≡ false)
unfolding drop starts_with
stars_text c [] h k = ground arith
stars_text c (d ∷ p) h k =
    let (x, y) = two (code c == b'*') (code d == b'*') (ground arith) in
    (rw (same_char c "*" x, same_char d "*" y) refl, ground (arith, h, x, y))

star_next :
    (c : Char) (p : String)
    → starts_with (c ∷ p) "**" ≡ false
    → (code c == b'*') ≡ true
    → starts_with p "*" ≡ false
unfolding starts_with
star_next c p h k = ground arith

plain_wildcard : (n : ℕ) → (n == b'*') ≡ false → (n == b'?') ≡ false → is_wildcard n ≡ false
plain_wildcard n h k = rw (h, k) refl

-- One step at a place where the pattern goes on: `ih` is for the rest of it.
Denotes-here :
    (c : Char) (p s : String)
    → ((n : ℕ) (t : String) → Denotes (glob_from n p) t → Globs (drop n p) t)
    → Denotes (glob_from 0 (c ∷ p)) s
    → Globs (c ∷ p) s
unfolding drop
Denotes-here c p s ih h = elim (Bool-cases (starts_with (c ∷ p) "**/")) [
  | inl d ↦
      subst (λ q. Globs q s) (sym (dirs_text c p d))
        (dirs_case (subst (λ ps. Denotes ps s) (from_dirs c p d) h))
  | inr nd ↦ elim (Bool-cases (starts_with (c ∷ p) "**")) [
    | inl k ↦
        let (text, next) = stars_text c p nd k in
        subst (λ q. Globs q s) (sym text)
          (stars_case next (subst (λ ps. Denotes ps s) (from_stars c p nd k) h))
    | inr nk ↦ elim (Bool-cases (code c == b'*')) [
      | inl x ↦
          subst (λ d. Globs (d ∷ p) s) (sym (same_char c "*" x))
            (star_case (star_next c p nk x) (subst (λ ps. Denotes ps s) (from_star c p nd nk x) h))
      | inr nx ↦ elim (Bool-cases (code c == b'?')) [
        | inl y ↦
            subst (λ d. Globs (d ∷ p) s) (sym (same_char c "?" y))
              (question_case (subst (λ ps. Denotes ps s) (from_question c p nx y) h))
        | inr ny ↦ same_case nx ny (subst (λ ps. Denotes ps s) (from_same c p nx ny) h)
      ]
    ]
  ]
]
  where
    dirs_case : Denotes (List.◌∷◌ any_dirs (glob_from 2 p)) s → Globs ("*" ∷ "*" ∷ "/" ∷ drop 2 p) s
    dirs_case (inl g) = no_dirs (ih 2 s g)
    dirs_case (inr (a, t, e, plain, (d, u, f, slash, g))) =
        rw e (rw f (rw (same_char d "/" slash) (dirs a plain (ih 2 u g))))

    stars_case :
        starts_with (drop 1 p) "/" ≡ false
        → Denotes (List.◌∷◌ across (glob_from 1 p)) s
        → Globs ("*" ∷ "*" ∷ drop 1 p) s
    stars_case next (a, t, e, plain, g) = rw e (stars a next plain (ih 1 t g))

    star_case :
        starts_with p "*" ≡ false → Denotes (List.◌∷◌ within (glob_from 0 p)) s → Globs ("*" ∷ p) s
    star_case next (a, t, e, plain, g) = rw e (star a next plain (ih 0 t g))

    question_case : Denotes (List.◌∷◌ one (glob_from 0 p)) s → Globs ("?" ∷ p) s
    question_case (d, t, e, plain, g) = rw e (question d plain (ih 0 t g))

    same_case :
        (code c == b'*') ≡ false
        → (code c == b'?') ≡ false
        → Denotes (List.◌∷◌ (exact c) (glob_from 0 p)) s
        → Globs (c ∷ p) s
    same_case nx ny (d, t, e, eq, g) =
        rw e (rw (same_char d c eq) (same c (plain_wildcard (code c) nx ny) (ih 0 t g)))

nothing_left : (s : String) → Denotes List.[] s → Globs "" s
nothing_left s (inl e) = rw e stop
nothing_left s (inr e) = rw e newline

Denotes-Globs : (n : ℕ) (p s : String) → Denotes (glob_from n p) s → Globs (drop n p) s
unfolding glob_from drop
Denotes-Globs zero [] s h = nothing_left s h
Denotes-Globs (suc n) [] s h = nothing_left s h
Denotes-Globs (suc n) (c ∷ p) s h = Denotes-Globs n p s h
Denotes-Globs zero (c ∷ p) s h =
    Denotes-here c p s (λ n t. Denotes-Globs n p t) (unfold glob_from in h)

Globs-iff : (p s : String) → Denotes (glob_to_regex p) s ↔ Globs p s
unfolding glob_to_regex drop
Globs-iff p s = ((λ d. Denotes-Globs 0 p s d), λ g. Globs-Denotes g)

is_empty-eq : (s : String) → is_empty s ≡ true → s ≡ ""
is_empty-eq [] h = refl
is_empty-eq (c ∷ s) h = absurd (ground arith)

matches_nothing :
    (path pattern : String) → normalize pattern ≡ "" → path_matches path pattern ≡ false
unfolding path_matches
matches_nothing path pattern h = rw h refl

-- A path is owned by a pattern exactly when, both rid of the slashes around them and with `/` for
-- `\`, the pattern is not empty and, with a wildcard in it, is a glob that matches the path, or,
-- without one, is the path or a directory above it.
pub path_matches-Matches :
    (path pattern : String)
    → (path_matches path pattern ≡ true) ↔ Matches (normalize pattern) (normalize path)
path_matches-Matches path pattern = elim (Bool-cases (is_empty (normalize pattern))) [
  | inl blank ↦
      let nothing : normalize pattern ≡ "" = is_empty-eq (normalize pattern) blank in
      (
        (λ h. absurd (ground (arith, matches_nothing path pattern nothing))),
        λ m. absurd (m.0 nothing),
      )
  | inr filled ↦
      let some_text : normalize pattern ≢ "" = is_empty-filled (normalize pattern) filled in
      elim (Bool-cases (any_char is_wildcard (normalize pattern))) [
        | inl wild ↦
            let regex : _ = path_matches-glob path pattern wild in
            let glob : _ = Globs-iff (normalize pattern) (normalize path) in
            (
              (λ h. (some_text, inl (wild, glob.0 (regex.0 h)))),
              λ m. elim m.1 [
                | inl g ↦ regex.1 (glob.1 g.1)
                | inr b ↦ absurd (ground (arith, wild, b.0))
              ],
            )
        | inr plain ↦
            let bare : _ = path_matches-bare path pattern some_text plain in
            (
              (λ h. (some_text, inr (plain, bare.0 h))),
              λ m. elim m.1 [ inl g ↦ absurd (ground (arith, plain, g.0)) | inr b ↦ bare.1 b.1 ],
            )
      ]
]
