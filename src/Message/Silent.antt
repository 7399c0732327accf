-- ===== src/Message/Silent.antt =====
-- src/otaman_core/validate_message.py: rules that report nothing.
use otaman_core.Prelude.{
  String, Bool, true, false, not, ◌&&◌, Option, none, some, List, [], ◌∷◌, ◌++◌, ok, err,
  if◌then◌else◌, ◌≡◌, refl, sym, ◌∙◌, ap, subst, arith, eq_iff, All,
}
use otaman_core.Yaml.{
  Value, Entries, null, str, is_hashable, truthy, is_text, is_one_of, has, or_default,
}
use otaman_core.Message.{
  Problem, Problems, unhashable, report, in_set, on_ok, not_a_broadcast, missing_field,
  broadcast_types,
}
use otaman_core.Message.Rules.{missing_fields}
use otaman_core.Message.Gate.{appended, joined}

abbrev pub Silent : Problems → Type 0
Silent r = r ≡ ok []

appended-Silent : (ps : List Problem) (r : Problems) → Silent (appended ps r) → (ps ≡ []) × Silent r
appended-Silent [] (ok qs) h = (refl, h)
appended-Silent (p ∷ ps) (ok qs) h = absurd (ground arith)
appended-Silent ps (err e) h = absurd (ground arith)

pub joined-Silent : (rs : List Problems) → Silent (joined rs) → All Silent rs
joined-Silent [] h = tt
joined-Silent (ok ps ∷ rs) h =
    let (e, k) = appended-Silent ps (joined rs) h in (ap ok e, joined-Silent rs k)
joined-Silent (err e ∷ rs) h = absurd (ground arith)

pub report-silent : (b : Bool) (p : Problem) → report b p ≡ [] → b ≡ false
report-silent true p h = absurd (ground arith)
report-silent false p h = refl

pub ok-Silent : (ps : List Problem) → Silent (ok ps) → ps ≡ []
ok-Silent ps h = ground arith

pub asked :
    (hashable m : Bool) (p : Problem) (f : Bool → Bool)
    → Silent (on_ok (if hashable then ok m else err unhashable) (λ b. report (f b) p))
    → f m ≡ false
asked true m p f h = report-silent (f m) p (ok-Silent (report (f m) p) h)
asked false m p f h = absurd (ground arith)

reported :
    (b : Bool) (p : Problem) (ps : List Problem)
    → report (not b) p ++ ps ≡ []
    → (b ≡ true) × (ps ≡ [])
reported true p ps h = (refl, h)
reported false p ps h = absurd (ground arith)

pub missing_fields-silent :
    (fs : List String) (fm : Entries) → missing_fields fs fm ≡ [] → All (λ f. has f fm ≡ true) fs
unfolding missing_fields
missing_fields-silent [] fm h = tt
missing_fields-silent (f ∷ fs) fm h =
    let (now, rest) = reported (has f fm) (missing_field f) (missing_fields fs fm) h in
    (now, missing_fields-silent fs fm rest)

-- A key that has a value has it whatever the default.
pub defaulted :
    (o : Option Value) (d : Value) (s : String) → or_default null o ≡ str s → or_default d o ≡ str s
defaulted none d s h = absurd (ground arith)
defaulted (some v) d s h = h

pub defaulted_truthy :
    (o : Option Value) (d : Value)
    → truthy (or_default null o) ≡ true
    → or_default d o ≡ or_default null o
defaulted_truthy none d h = absurd (ground arith)
defaulted_truthy (some v) d h = refl

pub eq_text : (s : String) → is_text s (str s) ≡ true
eq_text s = ground (arith, eq_iff s s)

pub whitelisted :
    (to_all : Bool) (t u : Value)
    → t ≡ u
    → to_all ≡ true
    → truthy u ≡ true
    → Silent (
        if to_all && truthy t
        then on_ok (in_set broadcast_types t) (λ may. report (not may) not_a_broadcast)
        else ok [])
    → is_one_of broadcast_types u ≡ true
whitelisted false t u e h typed br = absurd (ground arith)
whitelisted true t u e h typed br =
    let on : truthy t ≡ true = ap truthy e ∙ typed in
    let quiet = asked (is_hashable t) (is_one_of broadcast_types t) not_a_broadcast not (
      let k : Silent (
          if truthy t
          then on_ok (in_set broadcast_types t) (λ may. report (not may) not_a_broadcast)
          else ok []) =
        br in
      subst
        (λ b. Silent (
          if b
          then on_ok (in_set broadcast_types t) (λ may. report (not may) not_a_broadcast)
          else ok []))
        on k) in
    ap (is_one_of broadcast_types) (sym e) ∙ unnot (is_one_of broadcast_types t) quiet
  where
    unnot : (b : Bool) → not b ≡ false → b ≡ true
    unnot b h = ground arith
