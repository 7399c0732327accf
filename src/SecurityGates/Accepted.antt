-- ===== src/SecurityGates/Accepted.antt =====
-- src/otaman_core/security_gates.py: what holds of every configuration that the parser accepts.
use otaman_core.Prelude.{
  String, Bool, true, false, not, List, [], ◌∷◌, Result, ok, >>=-eq-ok, require, All, ◌≡◌, subst,
  arith,
}
use otaman_core.Yaml.{Value, Entries, null, str, dict, end, entry, get_or}
use otaman_core.SecurityGates.{layer_names, LayerGate, RepoEntry, SecurityGatesConfig}
use otaman_core.SecurityGates.Parse.{
  GateError, as_mapping, keyed, unknown_key, stray, parse_block, note_of, relocation_note,
  layer_items, repo_languages, parse_layer, parse_layer_set, parse_languages, parse_repo,
  parse_repos, parse_security_gates,
}
use otaman_core.SecurityGates.Layer.{GateIsValid, parse_layer-GateIsValid}

module _ {Cost : Type 0} (nonnegative : Value → Bool) (float_of : Value → Cost) where
  parse_layer_set-GateIsValid :
      (allow : Bool) (es : Entries) (m : List (String × LayerGate Cost))
      → parse_layer_set nonnegative float_of allow es ≡ ok m
      → All (GateIsValid allow) m
  unfolding parse_layer_set
  parse_layer_set-GateIsValid allow end m h = let same : [] ≡ m = ground arith in rw (← same) tt
  parse_layer_set-GateIsValid allow (entry (str name) raw es) m h =
      let (g, e₁, h₁) = >>=-eq-ok (parse_layer nonnegative float_of allow name raw) _ h in
      let (rest, e₂, h₂) = >>=-eq-ok (parse_layer_set nonnegative float_of allow es) _ h₁ in
      let same : (name, g) ∷ rest ≡ m = ground arith in
      rw (← same) (
        parse_layer-GateIsValid nonnegative float_of allow name raw g e₁,
        parse_layer_set-GateIsValid allow es rest e₂,
      )
  parse_layer_set-GateIsValid allow (entry k raw es) m h = absurd (ground arith)

  keyed-All :
      {A : Type 0} (P : A → Type 0) (k : Value) (a : A) (rest : List (String × A))
      → P a
      → All (λ e. P e.1) rest
      → All (λ e. P e.1) (keyed k a rest)
  unfolding keyed
  keyed-All P (str s) a rest now h = (now, h)
  keyed-All P k a rest now h = h

  parse_languages-GateIsValid :
      (es : Entries) (m : List (String × List (String × LayerGate Cost)))
      → parse_languages nonnegative float_of es ≡ ok m
      → All (λ e. All (GateIsValid false) e.1) m
  unfolding parse_languages
  parse_languages-GateIsValid end m h = let same : [] ≡ m = ground arith in rw (← same) tt
  parse_languages-GateIsValid (entry k raw es) m h =
      let (body, e₁, h₁) = >>=-eq-ok (as_mapping raw) _ h in
      let (layers, e₂, h₂) = >>=-eq-ok (parse_layer_set nonnegative float_of false body) _ h₁ in
      let (rest, e₃, h₃) = >>=-eq-ok (parse_languages nonnegative float_of es) _ h₂ in
      let same : keyed k layers rest ≡ m = ground arith in
      rw (← same) (
        keyed-All (All (GateIsValid false)) k layers rest
          (parse_layer_set-GateIsValid false body layers e₂)
          (parse_languages-GateIsValid es rest e₃))

  parse_repo-GateIsValid :
      (rbody : Entries) (r : RepoEntry Cost)
      → parse_repo nonnegative float_of rbody ≡ ok r
      → All (GateIsValid true) r.layers
  unfolding parse_repo
  parse_repo-GateIsValid rbody r h =
      let (langs, e₁, h₁) = >>=-eq-ok (repo_languages rbody) _ h in
      let (layers, e₂, h₂) =
        >>=-eq-ok (parse_layer_set nonnegative float_of true (layer_items rbody)) _ h₁ in
      let (u, e₃, h₃) =
        >>=-eq-ok (require (not (stray ("opt-out" ∷ "languages" ∷ layer_names) rbody)) unknown_key)
          _ h₂ in
      subst (λ x. All (GateIsValid true) x.layers) (ok_eq _ _ h₃)
        (parse_layer_set-GateIsValid true (layer_items rbody) layers e₂)
    where
      ok_eq :
          (x y : RepoEntry Cost) → ◌≡◌ {A = Result GateError (RepoEntry Cost)} (ok x) (ok y) → x ≡ y
      ok_eq x y e = ground arith

  parse_repos-GateIsValid :
      (es : Entries) (m : List (String × RepoEntry Cost))
      → parse_repos nonnegative float_of es ≡ ok m
      → All (λ e. All (GateIsValid true) e.1.layers) m
  unfolding parse_repos
  parse_repos-GateIsValid end m h = let same : [] ≡ m = ground arith in rw (← same) tt
  parse_repos-GateIsValid (entry k raw es) m h =
      let (rbody, e₁, h₁) = >>=-eq-ok (as_mapping raw) _ h in
      let (r, e₂, h₂) = >>=-eq-ok (parse_repo nonnegative float_of rbody) _ h₁ in
      let (rest, e₃, h₃) = >>=-eq-ok (parse_repos nonnegative float_of es) _ h₂ in
      let same : keyed k r rest ≡ m = ground arith in
      rw (← same) (
        keyed-All (λ x. All (GateIsValid true) x.layers) k r rest
          (parse_repo-GateIsValid rbody r e₂) (parse_repos-GateIsValid es rest e₃))

  -- Every layer of a configuration.
  abbrev pub IsSound : SecurityGatesConfig Cost → Type 0
  IsSound c =
      All (λ e. All (GateIsValid false) e.1) c.languages
      × All (λ e. All (GateIsValid true) e.1.layers) c.repos

  parse_block-IsSound :
      (body : Entries) (c : SecurityGatesConfig Cost)
      → parse_block nonnegative float_of body ≡ ok c
      → IsSound c
  unfolding parse_block
  parse_block-IsSound body c h =
      let (ls, e₁, h₁) = >>=-eq-ok (as_mapping (get_or "languages" (dict end) body)) _ h in
      let (languages, e₂, h₂) = >>=-eq-ok (parse_languages nonnegative float_of ls) _ h₁ in
      let (rs, e₃, h₃) = >>=-eq-ok (as_mapping (get_or "repos" (dict end) body)) _ h₂ in
      let (repos, e₄, h₄) = >>=-eq-ok (parse_repos nonnegative float_of rs) _ h₃ in
      let (note, e₅, h₅) =
        >>=-eq-ok
          (note_of nonnegative float_of (get_or "relocation-note" (str relocation_note) body)) _
          h₄ in
      subst IsSound (ok_eq _ _ h₅)
        (parse_languages-GateIsValid ls languages e₂, parse_repos-GateIsValid rs repos e₄)
    where
      ok_eq :
          (x y : SecurityGatesConfig Cost)
          → ◌≡◌ {A = Result GateError (SecurityGatesConfig Cost)} (ok x) (ok y)
          → x ≡ y
      ok_eq x y e = ground arith

  -- In every configuration that the parser accepts, each layer is one of the ladder's, under its name;
  -- a recorded scanner pair stands on ci-medium and is two different scanners of the three; and only
  -- ci-slow is opted into, by a repo and never by a language.
  pub parse_security_gates-IsSound :
      (block : Value) (c : SecurityGatesConfig Cost)
      → parse_security_gates nonnegative float_of block ≡ ok c
      → IsSound c
  unfolding parse_security_gates
  parse_security_gates-IsSound null c h =
      let same : record { languages = []; repos = []; relocation_note = relocation_note } ≡ c =
        ground arith in
      rw (← same) (tt, tt)
  parse_security_gates-IsSound (dict body) c h = parse_block-IsSound body c h
  parse_security_gates-IsSound v c h = absurd (ground arith)
