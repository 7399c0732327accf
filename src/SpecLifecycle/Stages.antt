-- ===== src/SpecLifecycle/Stages.antt =====
-- The order of the stages (src/otaman_core/spec_lifecycle.py: stage_index, next_stage).
use otaman_core.Prelude.{
  ℕ, zero, suc, ◌-◌, ◌<◌, String, true, none, some, List, [], ◌∷◌, ok, length, All, str_eq,
  Bool-cases, Option-cases, inl, inr, ◌≡◌, refl, ap, subst, arith, eq_iff,
}
use otaman_core.SpecLifecycle.{
  stages, position, nth, stage_index, next_stage, is_forward_transition,
}

position-nth :
    (s : String) (ts : List String) (i : ℕ)
    → position s ts ≡ some i
    → (i < length ts) × (nth i ts ≡ some s)
unfolding position nth
position-nth s [] i h = cc
position-nth s (t ∷ ts) i h = elim (Bool-cases (str_eq t s)) [
  | inl same ↦
      let at : 0 ≡ i = ground (arith, same) in
      let name : t ≡ s = ground (arith, eq_iff t s) in rw (← at) (ground arith, ap some name)
  | inr other ↦ elim (Option-cases (position s ts)) [
    | inl missing ↦ ground (arith, other, missing)
    | inr (j, found) ↦
        let at : suc j ≡ i = ground (arith, other, found) in
        let (below, named) = position-nth s ts j found in rw (← at) (omega (arith, below), named)
  ]
]

-- A stage that has an index has one of 0 to 8, and is the stage at that place.
pub stage_index-nth :
    (s : String) (i : ℕ) → stage_index s ≡ ok i → (i < 9) × (nth i stages ≡ some s)
unfolding stage_index
stage_index-nth s i h = elim (Option-cases (position s stages)) [
  | inl missing ↦ ground (arith, missing)
  | inr (j, found) ↦
      let same : j ≡ i = ground (arith, found) in
      subst (λ k. (k < 9) × (nth k stages ≡ some s)) same (position-nth s stages j found)
]

nth-All :
    (P : String → Type 0) (ts : List String) (i : ℕ) (s : String)
    → All P ts
    → nth i ts ≡ some s
    → P s
unfolding nth
nth-All P [] i s h e = cc
nth-All P (t ∷ ts) zero s (now, h) e = let same : t ≡ s = ground arith in subst P same now
nth-All P (t ∷ ts) (suc i) s (now, h) e = nth-All P ts i s h e

-- What holds of each stage of the table holds of every text that has an index.
pub by_stage :
    (P : String → Type 0) → All P stages → (s : String) (i : ℕ) → stage_index s ≡ ok i → P s
by_stage P h s i e = nth-All P stages i s h (stage_index-nth s i e).1

-- `next_stage` taken n times, each of them a forward transition
pub data Walk : ℕ → String → String → Type 0 where
  done : {s : String} → Walk 0 s s
  step :
      {n : ℕ} {s u : String} (t : String)
      → next_stage s ≡ ok (some t)
      → is_forward_transition s t ≡ ok true
      → Walk n t u
      → Walk (suc n) s u

WalksOn : String → Type 0
WalksOn s = (i : ℕ) × (stage_index s ≡ ok i) × Walk (8 - i) s "archived"

stages-WalksOn : All WalksOn stages
unfolding WalksOn stage_index next_stage is_forward_transition nth position
stages-WalksOn =
    let w8 : Walk 0 "archived" "archived" = done in
    let w7 : Walk 1 "verified" "archived" = step "archived" refl refl w8 in
    let w6 : Walk 2 "implemented" "archived" = step "verified" refl refl w7 in
    let w5 : Walk 3 "dispatched" "archived" = step "implemented" refl refl w6 in
    let w4 : Walk 4 "spec-approved" "archived" = step "dispatched" refl refl w5 in
    let w3 : Walk 5 "authored" "archived" = step "spec-approved" refl refl w4 in
    let w2 : Walk 6 "approved" "archived" = step "authored" refl refl w3 in
    let w1 : Walk 7 "proposed" "archived" = step "approved" refl refl w2 in
    let w0 : Walk 8 "pre-proposal" "archived" = step "proposed" refl refl w1 in
    (
      (0, refl, w0),
      (
        (1, refl, w1),
        (
          (2, refl, w2),
          (
            (3, refl, w3),
            ((4, refl, w4), ((5, refl, w5), ((6, refl, w6), ((7, refl, w7), ((8, refl, w8), tt))))),
          ),
        ),
      ),
    )

-- From a stage of index i, taking the next stage ends: exactly 8 - i steps, each of them a forward
-- transition, lead to archived, which has no next stage.
pub next_stage-Walk :
    (s : String) (i : ℕ)
    → stage_index s ≡ ok i
    → Walk (8 - i) s "archived" × (next_stage "archived" ≡ ok none)
unfolding WalksOn next_stage stage_index position nth
next_stage-Walk s i h =
    let (j, at, walk) = by_stage WalksOn stages-WalksOn s i h in
    let same : j ≡ i = ground arith in (subst (λ k. Walk (8 - k) s "archived") same walk, refl)
