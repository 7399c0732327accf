-- ===== src/Roster/Laws.antt =====
-- What a loaded roster holds, and whom an identity resolves to (src/otaman_core/human_roster.py).
use otaman_core.Prelude.{
  ℕ, suc, String, Bool, true, false, not, Option, none, some, List, [], ◌∷◌, ◌++◌, ok, >>=-eq-ok,
  require-eq-ok, All, all, is_empty, elem, Bool-cases, inl, inr, ◌≡◌, refl, ap, subst, arith,
  if◌then◌else◌, require,
}
use otaman_core.Yaml.{
  Value, Values, File, absent, unreadable, content, str, list, nil, cons, null, dict, end, get,
  items, truthy, is_null,
}
use otaman_core.Roster.{Human, Label, no_name, bad_email, bad_role}
use otaman_core.Roster.Load.{
  label_of, is_filled, email_of, name_of, roles_of, user_of, texts, coerce_entry, coerce_entries,
  parse_human_roster, block_of, load_human_roster,
}
use otaman_core.Roster.Resolve.{identity_candidates, first_match}

abbrev pub filled_email : Option String → Bool
filled_email none = true
filled_email (some s) = not (is_empty s)

abbrev pub has_roles : List String → Bool
has_roles [] = false
has_roles (r ∷ rs) = all (λ s. not (is_empty s)) (r ∷ rs)

-- A name, an address that is not empty, at least one role and no empty one.
pub record IsComplete (h : Human) : Type 0 where
  pub named : is_empty h.name ≡ false
  pub reachable : filled_email h.email ≡ true
  pub hatted : has_roles h.roles ≡ true

texts-filled :
    (vs : List Value) → all is_filled vs ≡ true → all (λ s. not (is_empty s)) (texts vs) ≡ true
unfolding texts
texts-filled [] h = refl
texts-filled (str s ∷ vs) h = ground (arith, texts-filled vs (ground arith))
texts-filled (v ∷ vs) h = ground arith

name_of-named : (i : ℕ) (v : Value) (s : String) → name_of i v ≡ ok s → is_empty s ≡ false
unfolding name_of
name_of-named i (str t) s h =
    let (u, known, done) = >>=-eq-ok (require (not (is_empty t)) (no_name i)) _ h in
    let same : t ≡ s = ground arith in
    let filled : not (is_empty t) ≡ true = require-eq-ok _ _ known in rw (← same) (ground arith)
name_of-named i v s h = ground arith

email_of-reachable :
    (l : Label) (v : Value) (o : Option String) → email_of l v ≡ ok o → filled_email o ≡ true
unfolding email_of
email_of-reachable l null o h = let same : none ≡ o = ground arith in rw (← same) refl
email_of-reachable l (str t) o h =
    let (u, known, done) = >>=-eq-ok (require (not (is_empty t)) (bad_email l)) _ h in
    let same : some t ≡ o = ground arith in rw (← same) (require-eq-ok _ _ known)
email_of-reachable l v o h = ground arith

roles_of-hatted :
    (l : Label) (v : Value) (rs : List String) → roles_of l v ≡ ok rs → has_roles rs ≡ true
unfolding roles_of
roles_of-hatted l (list nil) rs h = ground arith
roles_of-hatted l (list (cons v vs)) rs h =
    let (u, known, done) = >>=-eq-ok (require (all is_filled (v ∷ items vs)) (bad_role l)) _ h in
    let same : texts (v ∷ items vs) ≡ rs = ground arith in
    subst (λ ts. has_roles ts ≡ true) same (hatted v (items vs) (require-eq-ok _ _ known))
  where
    hatted :
        (v : Value) (vs : List Value)
        → all is_filled (v ∷ vs) ≡ true
        → has_roles (texts (v ∷ vs)) ≡ true
    hatted (str s) vs h = texts-filled (str s ∷ vs) h
    hatted v vs h = ground arith
roles_of-hatted l v rs h = ground arith

coerce_entry-IsComplete : (i : ℕ) (v : Value) (h : Human) → coerce_entry i v ≡ ok h → IsComplete h
unfolding coerce_entry
coerce_entry-IsComplete i (dict raw) h e =
    let label = label_of (get "name" raw) i in
    let (name, e₁, h₁) = >>=-eq-ok (name_of i (get "name" raw)) _ e in
    let (email, e₂, h₂) = >>=-eq-ok (email_of label (get "email" raw)) _ h₁ in
    let (roles, e₃, h₃) = >>=-eq-ok (roles_of label (get "roles" raw)) _ h₂ in
    let user_id =
      if is_null (get "pm-user-id" raw) then get "pm_user_id" raw else get "pm-user-id" raw in
    let (id, e₄, h₄) = >>=-eq-ok (user_of label user_id) _ h₃ in
    let same : record { name = name; email = email; roles = roles; pm_user_id = id } ≡ h =
      ground arith in
    subst IsComplete same (record {
      named = name_of-named i (get "name" raw) name e₁;
      reachable = email_of-reachable label (get "email" raw) email e₂;
      hatted = roles_of-hatted label (get "roles" raw) roles e₃;
    })
coerce_entry-IsComplete i v h e = ground arith

coerce_entries-IsComplete :
    (i : ℕ) (vs : Values) (hs : List Human) → coerce_entries i vs ≡ ok hs → All IsComplete hs
unfolding coerce_entries
coerce_entries-IsComplete i nil hs e = let same : [] ≡ hs = ground arith in rw (← same) tt
coerce_entries-IsComplete i (cons v vs) hs e =
    let (h, e₁, h₁) = >>=-eq-ok (coerce_entry i v) _ e in
    let (rest, e₂, h₂) = >>=-eq-ok (coerce_entries (suc i) vs) _ h₁ in
    let same : h ∷ rest ≡ hs = ground arith in
    rw (← same) (coerce_entry-IsComplete i v h e₁, coerce_entries-IsComplete (suc i) vs rest e₂)

parse_human_roster-IsComplete :
    (v : Value) (hs : List Human) → parse_human_roster v ≡ ok hs → All IsComplete hs
unfolding parse_human_roster
parse_human_roster-IsComplete null hs e = let same : [] ≡ hs = ground arith in rw (← same) tt
parse_human_roster-IsComplete (list vs) hs e = coerce_entries-IsComplete 0 vs hs e
parse_human_roster-IsComplete v hs e = ground arith

-- A roster that loads holds only people with a name that is not empty, no empty address, and at
-- least one role, none of them empty.
pub load_human_roster-IsComplete :
    (file : File) (hs : List Human) → load_human_roster file ≡ ok hs → All IsComplete hs
unfolding load_human_roster
load_human_roster-IsComplete absent hs e = let same : [] ≡ hs = ground arith in rw (← same) tt
load_human_roster-IsComplete unreadable hs e = let same : [] ≡ hs = ground arith in rw (← same) tt
load_human_roster-IsComplete (content v) hs e =
    let (block, e₁, h₁) = >>=-eq-ok (block_of (if truthy v then v else dict end)) _ e in
    parse_human_roster-IsComplete block hs h₁

-- The first person of the roster whom the key names.
pub record IsFirst (lower : String → String) (key : String) (roster : List Human) (h : Human)
    : Type 0 where
  pub earlier : List Human
  pub later : List Human
  pub stands : roster ≡ earlier ++ h ∷ later
  pub none_earlier : All (λ g. elem key (identity_candidates lower g) ≡ false) earlier
  pub answers : elem key (identity_candidates lower h) ≡ true

pub first_match-IsFirst :
    (lower : String → String) (key : String) (roster : List Human) (h : Human)
    → first_match lower key roster ≡ some h
    → IsFirst lower key roster h
unfolding first_match
first_match-IsFirst lower key [] h e = ground arith
first_match-IsFirst lower key (g ∷ gs) h e =
    elim (Bool-cases (elem key (identity_candidates lower g))) [
      | inl y ↦
          let same : g ≡ h = ground arith in
          subst (IsFirst lower key (g ∷ gs)) same
            (record { earlier = []; later = gs; stands = refl; none_earlier = tt; answers = y })
      | inr n ↦
          let later = first_match-IsFirst lower key gs h (ground arith) in
          record {
            earlier = g ∷ later.earlier;
            later = later.later;
            stands = ap (λ hs. g ∷ hs) later.stands;
            none_earlier = (n, later.none_earlier);
            answers = later.answers;
          }
    ]
