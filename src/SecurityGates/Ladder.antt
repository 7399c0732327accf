-- ===== src/SecurityGates/Ladder.antt =====
-- src/otaman_core/security_gates.py: which layers a repo's gates have, and in which order.
use otaman_core.Prelude.{
  String, Bool, true, false, ◌||◌, Option, none, some, List, [], ◌∷◌, any, keep, map, str_eq,
  Bool-cases, inl, inr, if◌then◌else◌, ◌≡◌, refl, ap, ◌∙◌, arith,
}
use otaman_core.SecurityGates.{
  LayerGate, RepoEntry, SecurityGatesConfig, layer_names, lookup, or_else, merge_layer, union_layer,
  overridden, layer_of, add_part, parts_of, add_layer, resolve_layers, resolve_repo_gates, resolved,
  entry_of,
}

abbrev is_filled {ℓ} : {A : Type ℓ} → List A → Bool
is_filled [] = false
is_filled (x ∷ xs) = true

abbrev is_some {ℓ} : {A : Type ℓ} → Option A → Bool
is_some none = false
is_some (some a) = true

-- The first layer of a map under a name, if it is there
abbrev pub has_key {ℓ} : {A : Type ℓ} → String → List (String × A) → Bool
has_key k [] = false
has_key k ((j, a) ∷ m) = str_eq j k || has_key k m

lookup-has_key {ℓ} :
    {A : Type ℓ} (k : String) (m : List (String × A)) → is_some (lookup k m) ≡ has_key k m
unfolding lookup
lookup-has_key k [] = refl
lookup-has_key k ((j, a) ∷ m) = elim (Bool-cases (str_eq j k)) [
  | inl here ↦ rw here refl
  | inr there ↦ rw there (lookup-has_key k m)
]

module _ {Cost : Type 0} (less : Cost → Cost → Bool) where
  -- The block of a language has a gate for the layer.
  abbrev pub declares : SecurityGatesConfig Cost → String → String → Bool
  declares config name la = elim (lookup la config.languages) [
    | none ↦ false
    | some gates ↦ has_key name gates
  ]

  -- Some language of the repo, or the repo itself, declares the layer.
  abbrev pub configured :
      SecurityGatesConfig Cost → List (String × LayerGate Cost) → List String → String → Bool
  configured config overrides langs name =
      any (declares config name) langs || has_key name overrides

  add_part-is_filled :
      (o : Option (LayerGate Cost)) (ps : List (LayerGate Cost))
      → is_filled (add_part less o ps) ≡ (is_some o || is_filled ps)
  add_part-is_filled none ps = refl
  add_part-is_filled (some g) ps = refl

  is_filled-parts_of :
      (config : SecurityGatesConfig Cost) (name : String) (langs : List String)
      → is_filled (parts_of less config name langs) ≡ any (declares config name) langs
  unfolding parts_of
  is_filled-parts_of config name [] = refl
  is_filled-parts_of config name (la ∷ langs) =
      added (lookup la config.languages) (parts_of less config name langs)
        (is_filled-parts_of config name langs)
    where
      added :
          (m : Option (List (String × LayerGate Cost))) (ps : List (LayerGate Cost))
          → is_filled ps ≡ any (declares config name) langs
          → is_filled (add_part less (layer_of less name m) ps) ≡ (
              elim m [ none ↦ false | some gates ↦ has_key name gates ]
              || any (declares config name) langs)
      added none ps e = e
      added (some gates) ps e =
          add_part-is_filled (lookup name gates) ps ∙ rw (lookup-has_key name gates, e) refl

  merge_layer_name :
      (name : String) (ps : List (LayerGate Cost)) (o : Option (LayerGate Cost))
      → (merge_layer less name ps o).layer ≡ name
  unfolding merge_layer union_layer overridden
  merge_layer_name name ps none = refl
  merge_layer_name name ps (some o) = refl

  names_added :
      (name : String) (ps : List (LayerGate Cost)) (o : Option (LayerGate Cost))
      (rest : List (LayerGate Cost))
      → map (λ g. g.layer) (add_layer less name ps o rest) ≡ (
          if is_filled ps || is_some o
          then name ∷ map (λ g. g.layer) rest
          else map (λ g. g.layer) rest)
  unfolding add_layer
  names_added name [] none rest = refl
  names_added name [] (some o) rest =
      ap (λ n. n ∷ map (λ g. g.layer) rest) (merge_layer_name name [] (some o))
  names_added name (p ∷ ps) o rest =
      ap (λ n. n ∷ map (λ g. g.layer) rest) (merge_layer_name name (p ∷ ps) o)

  resolve_layers-names :
      (config : SecurityGatesConfig Cost) (overrides : List (String × LayerGate Cost))
      (langs names : List String)
      → map (λ g. g.layer) (resolve_layers less config overrides langs names)
        ≡ keep (configured config overrides langs) names
  unfolding resolve_layers
  resolve_layers-names config overrides langs [] = refl
  resolve_layers-names config overrides langs (n ∷ ns) = ground (
    arith,
    names_added n (parts_of less config n langs) (lookup n overrides)
        (resolve_layers less config overrides langs ns),
    is_filled-parts_of config n langs,
    lookup-has_key n overrides,
    resolve_layers-names config overrides langs ns,
  )

  -- A repo whose entry does not opt out has exactly the layers that some one of its languages or its own
  -- entry declares, in the order of cost; its own languages stand before those of the caller.
  pub resolve_repo_gates-layers :
      (config : SecurityGatesConfig Cost) (repo : String) (languages : List String)
      (e : RepoEntry Cost)
      → lookup repo config.repos ≡ some e
      → e.opt_out ≡ false
      → map (λ g. g.layer) (resolve_repo_gates less config repo languages).layers
        ≡ keep (configured config e.layers (or_else less e.languages languages)) layer_names
  unfolding resolve_repo_gates resolved entry_of
  resolve_repo_gates-layers config repo languages e found staying =
      rw (found, staying)
        (resolve_layers-names config e.layers (or_else less e.languages languages) layer_names)
