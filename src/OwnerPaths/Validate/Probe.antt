-- ===== src/OwnerPaths/Validate/Probe.antt =====
-- Which patterns validate_owner_paths (src/otaman_core/owner_paths.py) takes to clash.
use Prim.Native.String.{[], ◌∷◌}
use text.Mathlib.TextEquality.{Char-path}
use otaman_core.Prelude.{
  ℕ, zero, suc, Char, code, String, Bool, true, false, ◌&&◌, ◌==◌, starts_with, text_length, ◌≡◌,
  refl, sym, ap, subst, ◌↔◌, inl, inr, arith, Bool-cases,
}
use otaman_core.OwnerPaths.Glob.{is_wildcard, path_matches}
use otaman_core.OwnerPaths.Validate.{probe_from, probe_of, ambiguous}

-- A pattern and its probe: `**`, else `*`, and `?` are read as an `x`.
pub data Probes : String → String → Type 0 where
  stop : Probes "" ""
  stars : {p t : String} → Probes p t → Probes ("*" ∷ "*" ∷ p) ("x" ∷ t)
  star : {p t : String} → starts_with p "*" ≡ false → Probes p t → Probes ("*" ∷ p) ("x" ∷ t)
  question : {p t : String} → Probes p t → Probes ("?" ∷ p) ("x" ∷ t)
  same :
      {p t : String} (c : Char) → is_wildcard (code c) ≡ false → Probes p t → Probes (c ∷ p) (c ∷ t)

-- Two patterns clash: they are as long as each other, and both own the probe of the first.
abbrev pub Clash : String → String → Type 0
Clash p q =
    (text_length p ≡ text_length q)
    × ((probe : String) × (Probes p probe
          × ((path_matches probe p ≡ true) × (path_matches probe q ≡ true))))

drop : ℕ → String → String
drop zero p = p
drop (suc n) [] = ""
drop (suc n) (c ∷ p) = drop n p

same_char : (c d : Char) → (code c == code d) ≡ true → c ≡ d
same_char c d h = Char-path c d (ground (arith, h))

apart :
    (c : Char)
    → is_wildcard (code c) ≡ false
    → ((code c == b'*') ≡ false) × ((code c == b'?') ≡ false)
apart c h = (ground (arith, h), ground (arith, h))

star_text : (p : String) → starts_with p "*" ≡ true → p ≡ "*" ∷ drop 1 p
unfolding starts_with drop
star_text [] h = ground arith
star_text (c ∷ p) h = rw (same_char c "*" (ground (arith, h))) refl

Probes-same : {p t : String} → Probes p t → t ≡ probe_from 0 p
unfolding probe_from starts_with
Probes-same stop = refl
Probes-same (stars g) = ap (λ u. "x" ∷ u) (Probes-same g)
Probes-same (star next g) = rw next (ap (λ u. "x" ∷ u) (Probes-same g))
Probes-same (question g) = ap (λ u. "x" ∷ u) (Probes-same g)
Probes-same (same c plain g) =
    rw (apart c plain).0 (rw (apart c plain).1 (ap (λ u. c ∷ u) (Probes-same g)))

Probes-probe : (n : ℕ) (p : String) → Probes (drop n p) (probe_from n p)
unfolding probe_from drop
Probes-probe zero [] = stop
Probes-probe (suc n) [] = stop
Probes-probe (suc n) (c ∷ p) = Probes-probe n p
Probes-probe zero (c ∷ p) = elim (Bool-cases (code c == b'*')) [
  | inl x ↦ elim (Bool-cases (starts_with p "*")) [
    | inl y ↦
        rw (x, y)
          (subst (λ d. Probes (d ∷ p) ("x" ∷ probe_from 1 p)) (sym (same_char c "*" x))
            (subst (λ q. Probes ("*" ∷ q) ("x" ∷ probe_from 1 p)) (sym (star_text p y))
              (stars (Probes-probe 1 p))))
    | inr y ↦
        rw (x, y)
          (subst (λ d. Probes (d ∷ p) ("x" ∷ probe_from 0 p)) (sym (same_char c "*" x))
            (star y (Probes-probe 0 p)))
  ]
  | inr x ↦ elim (Bool-cases (code c == b'?')) [
    | inl y ↦
        rw (x, y)
          (subst (λ d. Probes (d ∷ p) ("x" ∷ probe_from 0 p)) (sym (same_char c "?" y))
            (question (Probes-probe 0 p)))
    | inr y ↦ rw (x, y) (same c (rw (x, y) refl) (Probes-probe 0 p))
  ]
]

tests_iff :
    (m n : ℕ) (b c : Bool) → ((m == n && b && c) ≡ true) ↔ ((m ≡ n) × ((b ≡ true) × (c ≡ true)))
tests_iff m n b c = ground arith

-- The test of the two patterns decides whether they clash.
pub ambiguous_iff : (p q : String) → (ambiguous p q ≡ true) ↔ Clash p q
unfolding probe_of drop
ambiguous_iff p q =
    let tests : _ =
      tests_iff (text_length p) (text_length q) (path_matches (probe_from 0 p) p)
        (path_matches (probe_from 0 p) q) in
    (
      λ h.
          let (long, (own, other)) = tests.0 h in
          (long, (probe_from 0 p, (Probes-probe 0 p, (own, other)))),
      λ (long, (probe, (read, (own, other)))).
          let e : probe ≡ probe_from 0 p = Probes-same read in
          tests.1 (
            long,
            (
              subst (λ t. path_matches t p ≡ true) e own,
              subst (λ t. path_matches t q ≡ true) e other,
            ),
          ),
    )
