-- ===== src/Bus/Stem/Pieces.antt =====
-- Reading the pieces of a stem: what the readers of src/otaman_core/bus_stem.py do on a text that goes
-- on.
use Prim.Native.String.{[], ◌∷◌}
use text.Mathlib.TextLemmas.{nil-append, cons-append}
use otaman_core.Prelude.{
  ℕ, zero, suc, ◌+◌, ◌≤◌, code, String, true, false, some, str_eq_ne, ◌==◌, ◌+++◌, str_eq,
  starts_with, starts_with_iff, drop_prefix, text_length, Bool-cases, Option-cases, inl, inr, ◌≡◌,
  refl, ap, ◌∙◌, subst, arith,
}
use otaman_core.Bus.Stem.{
  route_sep, is_digit, digits, after_t, match_timestamp, partition_route, drop_md,
}

digits-append :
    (n : ℕ) (s x a b : String) → digits n s ≡ some (a, b) → digits n (s +++ x) ≡ some (a, b +++ x)
unfolding digits
digits-append zero s x a b h =
    let e : ◌≡◌ {A = String × String} ("", s) (a, b) = ground arith in
    ap (λ p. some (p.0, p.1 +++ x)) e
digits-append (suc n) [] x a b h = cc
digits-append (suc n) (c ∷ s) x a b h = elim (Bool-cases (is_digit (code c))) [
  | inl y ↦ elim (Option-cases (digits n s)) [
    | inl missing ↦ ground (arith, y, missing)
    | inr (p, found) ↦
        let e : ◌≡◌ {A = String × String} (c ∷ p.0, p.1) (a, b) = ground (arith, y, found) in
        rw (cons-append c s x)
          (rw y (rw (digits-append n s x p.0 p.1 found) (ap (λ q. some (q.0, q.1 +++ x)) e)))
  ]
  | inr n ↦ ground (arith, n)
]

text_length-append : (s x : String) → text_length (s +++ x) ≡ text_length s + text_length x
text_length-append [] x = rw (nil-append x) (omega arith)
text_length-append (c ∷ s) x = rw (cons-append c s x) (omega (arith, text_length-append s x))

-- The suffix `.md` is taken off, once.
pub drop_md-append : (x : String) → drop_md (x +++ ".md") ≡ x
unfolding drop_md
drop_md-append [] = refl
drop_md-append (c ∷ x) =
    let longer : str_eq (c ∷ (x +++ ".md")) ".md" ≡ false =
      str_eq_ne _ _ (λ e. ground (arith, ap text_length e, text_length-append x ".md")) in
    rw (cons-append c x ".md") (rw longer (ap (λ t. c ∷ t) (drop_md-append x)))

after_t-append :
    (s x a b : String) → after_t s ≡ some (a, b) → after_t (s +++ x) ≡ some (a, b +++ x)
unfolding after_t
after_t-append [] x a b h = cc
after_t-append (c ∷ s) x a b h = elim (Bool-cases (code c == b'T')) [
  | inl y ↦ rw (cons-append c s x) (rw y (digits-append 6 s x a b (ground (arith, y))))
  | inr n ↦ ground (arith, n)
]

-- A text that starts with a timestamp still does when it goes on.
pub match_timestamp-append :
    (s x a b : String)
    → match_timestamp s ≡ some (a, b)
    → match_timestamp (s +++ x) ≡ some (a, b +++ x)
unfolding match_timestamp
match_timestamp-append s x a b h = elim (Option-cases (digits 8 s)) [
  | inl missing ↦ ground (arith, missing)
  | inr (day, found) ↦ elim (Option-cases (after_t day.1)) [
    | inl missing ↦ ground (arith, found, missing)
    | inr (time, met) ↦
        let e : ◌≡◌ {A = String × String} (day.0 +++ "T" +++ time.0, time.1) (a, b) =
          ground (arith, found, met) in
        rw (digits-append 8 s x day.0 day.1 found, match_timestamp)
          (rw (after_t-append day.1 x time.0 time.1 met) (ap (λ q. some (q.0, q.1 +++ x)) e))
  ]
]

-- A test of a prefix no longer than the text does not see what follows.
starts_with-long :
    (s x p : String) → text_length p ≤ text_length s → starts_with (s +++ x) p ≡ starts_with s p
unfolding starts_with
starts_with-long s x [] h = refl
starts_with-long [] x (d ∷ p) h = ground (arith, h)
starts_with-long (c ∷ s) x (d ∷ p) h =
    rw (cons-append c s x) (rw (starts_with-long s x p (ground (arith, h))) refl)

drop_prefix-long :
    (s x p : String)
    → text_length p ≤ text_length s
    → drop_prefix (s +++ x) p ≡ drop_prefix s p +++ x
unfolding drop_prefix
drop_prefix-long s x [] h = refl
drop_prefix-long [] x (d ∷ p) h = ground (arith, h)
drop_prefix-long (c ∷ s) x (d ∷ p) h =
    rw (cons-append c s x) (drop_prefix-long s x p (ground (arith, h)))

-- The separator is no longer than a text in which it was found.
partition_route-long : (s a b : String) → partition_route s ≡ some (a, b) → 4 ≤ text_length s
unfolding partition_route
partition_route-long [] a b h = cc
partition_route-long (c ∷ s) a b h = elim (Bool-cases (starts_with (c ∷ s) route_sep)) [
  | inl y ↦ starts_with-length (c ∷ s) route_sep y
  | inr n ↦ elim (Option-cases (partition_route s)) [
    | inl missing ↦ ground (arith, n, missing)
    | inr (p, found) ↦ omega (arith, partition_route-long s p.0 p.1 found)
  ]
]
  where
    starts_with-length : (s p : String) → starts_with s p ≡ true → text_length p ≤ text_length s
    starts_with-length s p h =
        let (rest, e) = (starts_with_iff s p).0 h in
        omega (arith, ap text_length e, text_length-append p rest)

-- A text in which the separator was found is parted at the same place when it goes on.
pub partition_route-append :
    (s x a b : String)
    → partition_route s ≡ some (a, b)
    → partition_route (s +++ x) ≡ some (a, b +++ x)
unfolding partition_route
partition_route-append [] x a b h = cc
partition_route-append (c ∷ s) x a b h =
    let fits : text_length route_sep ≤ text_length (c ∷ s) = partition_route-long (c ∷ s) a b h in
    let seen : starts_with (c ∷ (s +++ x)) route_sep ≡ starts_with (c ∷ s) route_sep =
      subst (λ t. starts_with t route_sep ≡ starts_with (c ∷ s) route_sep) (cons-append c s x)
        (starts_with-long (c ∷ s) x route_sep fits) in
    rw (cons-append c s x) (elim (Bool-cases (starts_with (c ∷ s) route_sep)) [
      | inl y ↦
          let e : ◌≡◌ {A = String × String} ("", drop_prefix (c ∷ s) route_sep) (a, b) =
            ground (arith, y) in
          let left : drop_prefix (c ∷ (s +++ x)) route_sep ≡ drop_prefix (c ∷ s) route_sep +++ x =
            subst (λ t. drop_prefix t route_sep ≡ drop_prefix (c ∷ s) route_sep +++ x)
              (cons-append c s x) (drop_prefix-long (c ∷ s) x route_sep fits) in
          rw (seen ∙ y) (ap (λ t. some ("", t)) left ∙ ap (λ q. some (q.0, q.1 +++ x)) e)
      | inr n ↦ elim (Option-cases (partition_route s)) [
        | inl missing ↦ ground (arith, n, missing)
        | inr (p, found) ↦
            let e : ◌≡◌ {A = String × String} (c ∷ p.0, p.1) (a, b) = ground (arith, n, found) in
            rw (seen ∙ n)
              (rw (partition_route-append s x p.0 p.1 found) (ap (λ q. some (q.0, q.1 +++ x)) e))
      ]
    ])
