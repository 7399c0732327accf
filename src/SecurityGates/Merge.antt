-- ===== src/SecurityGates/Merge.antt =====
-- src/otaman_core/security_gates.py: one layer of a repo with several languages.
use otaman_core.Prelude.{
  ℕ, ◌≤◌, String, Bool, false, ◌||◌, Option, none, some, List, [], ◌∷◌, ◌++◌, elem, any, ltb,
  NoRepeats, All, ◌≡◌, refl, ◌∙◌, arith, eq_iff, Bool-cases, inl, inr,
}
use otaman_core.SecurityGates.{
  LayerGate, extend, latest, all_tools, all_timeouts, union_layer, merge_layer,
}

elem-append : (a : String) (xs ys : List String) → elem a (xs ++ ys) ≡ (elem a xs || elem a ys)
elem-append a [] ys = refl
elem-append a (x ∷ xs) ys = ground (arith, elem-append a xs ys)

append-NoRepeats :
    (xs : List String) (t : String) → elem t xs ≡ false → NoRepeats xs → NoRepeats (xs ++ t ∷ [])
append-NoRepeats [] t h k = (refl, tt)
append-NoRepeats (x ∷ xs) t h (fresh, k) = (
  elem-append x xs (t ∷ []) ∙ ground (arith, eq_iff t x, eq_iff x t),
  append-NoRepeats xs t (ground arith) k,
)

elem-extend :
    (a : String) (tools ts : List String) → elem a (extend tools ts) ≡ (elem a tools || elem a ts)
unfolding extend
elem-extend a tools [] = ground arith
elem-extend a tools (t ∷ ts) = ground (
  arith,
  eq_iff a t,
  elem-extend a tools ts,
  elem-extend a (tools ++ t ∷ []) ts,
  elem-append a tools (t ∷ []),
)

extend-NoRepeats : (tools ts : List String) → NoRepeats tools → NoRepeats (extend tools ts)
unfolding extend
extend-NoRepeats tools [] h = h
extend-NoRepeats tools (t ∷ ts) h = elim (Bool-cases (elem t tools)) [
  | inl y ↦ rw y (extend-NoRepeats tools ts h)
  | inr n ↦ rw n (extend-NoRepeats (tools ++ t ∷ []) ts (append-NoRepeats tools t n h))
]

-- The first bound is no later than the second.
abbrev pub Within : Option ℕ → Option ℕ → Type 0
Within none m = Unit
Within (some t) m = (n : ℕ) × (m ≡ some n) × (t ≤ n)

Within-latest : (a b c : Option ℕ) → Within a b → Within a (latest b c)
unfolding latest
Within-latest none b c h = tt
Within-latest (some t) none c (n, e, h) = absurd (ground arith)
Within-latest (some t) (some b) none (n, e, h) = (n, e, h)
Within-latest (some t) (some b) (some c) (n, e, h) = elim (Bool-cases (ltb b c)) [
  | inl y ↦ rw y (c, refl, ground arith)
  | inr m ↦ rw m (n, e, h)
]

latest-Within : (b c : Option ℕ) → Within c (latest b c)
unfolding latest
latest-Within b none = tt
latest-Within none (some c) = (c, refl, ground arith)
latest-Within (some b) (some c) = elim (Bool-cases (ltb b c)) [
  | inl y ↦ rw y (c, refl, ground arith)
  | inr m ↦ rw m (b, refl, ground arith)
]

module _ {Cost : Type 0} (less : Cost → Cost → Bool) where
  elem-all_tools :
      (a : String) (tools : List String) (ps : List (LayerGate Cost))
      → elem a (all_tools less tools ps) ≡ (elem a tools || any (λ p. elem a p.tools) ps)
  unfolding all_tools
  elem-all_tools a tools [] = ground arith
  elem-all_tools a tools (p ∷ ps) =
      elem-all_tools a (extend tools p.tools) ps ∙ ground (arith, elem-extend a tools p.tools)

  all_tools-NoRepeats :
      (tools : List String) (ps : List (LayerGate Cost))
      → NoRepeats tools
      → NoRepeats (all_tools less tools ps)
  unfolding all_tools
  all_tools-NoRepeats tools [] h = h
  all_tools-NoRepeats tools (p ∷ ps) h =
      all_tools-NoRepeats (extend tools p.tools) ps (extend-NoRepeats tools p.tools h)

  all_timeouts-keeps :
      (a out : Option ℕ) (ps : List (LayerGate Cost))
      → Within a out
      → Within a (all_timeouts less out ps)
  unfolding all_timeouts
  all_timeouts-keeps a out [] h = h
  all_timeouts-keeps a out (p ∷ ps) h =
      all_timeouts-keeps a (latest out p.timeout) ps (Within-latest a out p.timeout h)

  all_timeouts-Within :
      (out : Option ℕ) (ps : List (LayerGate Cost))
      → All (λ p. Within p.timeout (all_timeouts less out ps)) ps
  unfolding all_timeouts
  all_timeouts-Within out [] = tt
  all_timeouts-Within out (p ∷ ps) = (
    all_timeouts-keeps p.timeout (latest out p.timeout) ps (latest-Within out p.timeout),
    all_timeouts-Within (latest out p.timeout) ps,
  )

  -- Without an override, a layer that at least one language declares runs every tool that one of them
  -- names, each once and no other; it blocks exactly when one of them blocks, waits at least as long
  -- as each of them, and is not opted into.
  pub merge_layer_union :
      (name : String) (p : LayerGate Cost) (ps : List (LayerGate Cost))
      → ((t : String)
          → elem t (merge_layer less name (p ∷ ps) none).tools ≡ any (λ g. elem t g.tools) (p ∷ ps))
        × NoRepeats (merge_layer less name (p ∷ ps) none).tools
        × ((merge_layer less name (p ∷ ps) none).blocking ≡ any (λ g. g.blocking) (p ∷ ps))
        × All (λ g. Within g.timeout (merge_layer less name (p ∷ ps) none).timeout) (p ∷ ps)
        × ((merge_layer less name (p ∷ ps) none).opt_in ≡ false)
  unfolding merge_layer union_layer
  merge_layer_union name p ps = (
    (λ t. elem-all_tools t [] (p ∷ ps)),
    all_tools-NoRepeats [] (p ∷ ps) tt,
    refl,
    all_timeouts-Within none (p ∷ ps),
    refl,
  )
