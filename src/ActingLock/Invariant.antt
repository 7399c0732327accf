-- ===== src/ActingLock/Invariant.antt =====
-- The invariant of the sessions: each live descriptor has its lock, and what taking a session out of
-- the list, or putting one in, does to it.
use otaman_core.Prelude.{
  ℕ, suc, ◌<◌, String, Option, none, some, List, [], ◌∷◌, ◌++◌, ◌≡◌, ◌≢◌, sym, arith, eq_iff, All,
}
use otaman_core.ActingLock.{Handle, put, drops}
use otaman_core.ActingLock.Sessions.{System}

abbrev pub Apart : List Handle → Type 0
Apart [] = Unit
Apart (h ∷ hs) = All (λ g. g.fd ≢ h.fd) hs × Apart hs

abbrev pub Owned : (String → Option ℕ) → ℕ → List Handle → Type 0
Owned held fresh = All (λ h. (held h.path ≡ some h.fd) × (h.fd < fresh))

-- Every session's descriptor has the flock of its path, and descriptors differ.
pub record IsExclusive (s : System) : Type 0 where
  pub owned : Owned s.world.held s.world.fresh s.sessions
  pub apart : Apart s.sessions
  pub given : (p : String) (d : ℕ) → s.world.held p ≡ some d → d < s.world.fresh
  pub free : (p : String) → All (λ h. h.path ≢ p) s.sessions → s.world.held p ≡ none

-- After one session starts on a free path.
pub Owned-put :
    (held : String → Option ℕ) (fresh : ℕ) (path : String) (hs : List Handle)
    → held path ≡ none
    → Owned held fresh hs
    → Owned (put path (some fresh) held) (suc fresh) hs
Owned-put held fresh path [] free h = tt
Owned-put held fresh path (g ∷ hs) free ((o, lt), h) = (
  (ground (arith, eq_iff g.path path, eq_iff path g.path), omega arith),
  Owned-put held fresh path hs free h,
)

pub fresh_apart :
    (held : String → Option ℕ) (fresh : ℕ) (hs : List Handle)
    → Owned held fresh hs
    → All (λ g. g.fd ≢ fresh) hs
fresh_apart held fresh [] h = tt
fresh_apart held fresh (g ∷ hs) ((o, lt), h) = (omega arith, fresh_apart held fresh hs h)

-- A session that leaves, taken out of the list.
pub Owned-close :
    (held : String → Option ℕ) (fresh fd : ℕ) (hs : List Handle)
    → All (λ g. g.fd ≢ fd) hs
    → Owned held fresh hs
    → Owned (λ j. drops fd (held j)) fresh hs
Owned-close held fresh fd [] k h = tt
Owned-close held fresh fd (g ∷ hs) (ne, k) ((o, lt), h) =
    ((rw o (ground arith), lt), Owned-close held fresh fd hs k h)

module _ {ℓ} (P : Handle → Type ℓ) where
  pub All-without :
      (before : List Handle) (h : Handle) (after : List Handle)
      → All P (before ++ h ∷ after)
      → All P (before ++ after)
  All-without [] h after (x, k) = k
  All-without (b ∷ before) h after (x, k) = (x, All-without before h after k)

  pub All-middle :
      (before : List Handle) (h : Handle) (after : List Handle) → All P (before ++ h ∷ after) → P h
  All-middle [] h after (x, k) = x
  All-middle (b ∷ before) h after (x, k) = All-middle before h after k

  pub All-insert :
      (before : List Handle) (h : Handle) (after : List Handle)
      → P h
      → All P (before ++ after)
      → All P (before ++ h ∷ after)
  All-insert [] h after p k = (p, k)
  All-insert (b ∷ before) h after p (x, k) = (x, All-insert before h after p k)

pub Apart-without :
    (before : List Handle) (h : Handle) (after : List Handle)
    → Apart (before ++ h ∷ after)
    → Apart (before ++ after) × All (λ g. g.fd ≢ h.fd) (before ++ after)
Apart-without [] h after (x, k) = (k, x)
Apart-without (b ∷ before) h after (x, k) =
    let (rest, ne) = Apart-without before h after k in
    (
      (All-without (λ g. g.fd ≢ b.fd) before h after x, rest),
      ((λ e. All-middle (λ g. g.fd ≢ b.fd) before h after x (sym e)), ne),
    )
