-- ===== src/ActingLock/Exclusion.antt =====
-- Sessions that come and go in any order: no two live sessions hold the lock of one identity.
use otaman_core.Prelude.{
  ℕ, ◌<◌, String, Bool, true, Option, none, some, List, [], ◌∷◌, ◌++◌, Result, ok, err, ◌≡◌, ◌≢◌,
  refl, sym, ◌∙◌, ap, subst, inl, inr, arith, eq_iff, str_eq, str_eq-false, All, if◌then◌else◌,
  Bool-cases,
}
use otaman_core.ActingLock.{
  World, Handle, LockError, is_mode, lock_opened, acquire, drops, close, unlink_info,
  unlink_preempt, write_preempt_marker, clear_preempt_marker,
}
use otaman_core.ActingLock.Sessions.{
  System, Step, Reach, starts, refused, closes, dies, unlinks, marks, clears, here, next, IsIdle,
  OnePerPath,
}
use otaman_core.ActingLock.Invariant.{
  Apart, Owned, IsExclusive, Owned-put, fresh_apart, Owned-close, All-without, All-middle,
  All-insert, Apart-without,
}

-- Closing one session's descriptor leaves the others as they were.
close-IsExclusive :
    (s : System) (before : List Handle) (h : Handle) (after : List Handle) (leaving : List String)
    → s.sessions ≡ before ++ h ∷ after
    → IsExclusive s
    → IsExclusive
        (record { world = close h.fd s.world; sessions = before ++ after; leaving = leaving })
unfolding close
close-IsExclusive s before h after leaving e inv =
    let owned = subst (Owned s.world.held s.world.fresh) e inv.owned in
    let (apart, ne) = Apart-without before h after (subst Apart e inv.apart) in
    record {
      owned = Owned-close s.world.held s.world.fresh h.fd (before ++ after) ne (
          All-without (λ g. (s.world.held g.path ≡ some g.fd) × (g.fd < s.world.fresh)) before h
            after owned);
      apart = apart;
      given = λ p d k. inv.given p d (drops_some h.fd d (s.world.held p) k);
      free = λ p k.
          let (holds, lt) =
            All-middle (λ g. (s.world.held g.path ≡ some g.fd) × (g.fd < s.world.fresh)) before h
              after owned in
          close_free p h.path h.fd s.world.held holds (λ ne. inv.free p (
            subst (All (λ g. g.path ≢ p)) (sym e)
              (All-insert (λ g. g.path ≢ p) before h after ne k)));
    }
  where
    drops_some : (fd d : ℕ) (o : Option ℕ) → drops fd o ≡ some d → o ≡ some d
    drops_some fd d none k = k
    drops_some fd d (some x) k = ground arith

    close_free :
        (p path : String) (fd : ℕ) (held : String → Option ℕ)
        → held path ≡ some fd
        → (path ≢ p → held p ≡ none)
        → drops fd (held p) ≡ none
    close_free p path fd held holds other = elim (Bool-cases (str_eq path p)) [
      | inl same ↦
          rw ((let q : path ≡ p = ground (arith, eq_iff path p) in ap held (sym q) ∙ holds))
            (ground arith)
      | inr differ ↦ rw (other (str_eq-false path p differ)) refl
    ]

-- The system after one session has tried to start.
unfoldable tried : System → Result LockError Handle × World → System
tried s (ok h, w) = record { world = w; sessions = h ∷ s.sessions; leaving = s.leaving }
tried s (err e, w) = record { world = w; sessions = s.sessions; leaving = s.leaving }

lock_opened-IsExclusive :
    (s : System) (path mode : String) (tmux : Option String) (pid : ℕ) (now : String)
    (c : String → Bool) (o : Option ℕ)
    → s.world.held path ≡ o
    → IsExclusive s
    → IsExclusive (tried s (lock_opened path mode tmux pid now (record s.world { created = c }) o))
unfolding tried lock_opened
lock_opened-IsExclusive s path mode tmux pid now c (some holder) e inv = record {
  owned = inv.owned;
  apart = inv.apart;
  given = inv.given;
  free = inv.free;
}
lock_opened-IsExclusive s path mode tmux pid now c none e inv = record {
  owned = (
    (ground (arith, eq_iff path path), omega arith),
    Owned-put s.world.held s.world.fresh path s.sessions e inv.owned,
  );
  apart = (fresh_apart s.world.held s.world.fresh s.sessions inv.owned, inv.apart);
  given = λ p d k. let lt = inv.given p d in ground arith;
  free = λ p (ne, k). let was = inv.free p k in ground (arith, eq_iff p path);
}

acquire-IsExclusive :
    (s : System) (path mode : String) (tmux : Option String) (pid : ℕ) (now : String)
    → IsExclusive s
    → IsExclusive (tried s (acquire path mode tmux pid now s.world))
unfolding tried acquire
acquire-IsExclusive s path mode tmux pid now inv = elim (Bool-cases (is_mode mode)) [
  | inl y ↦ rw y (
      lock_opened-IsExclusive s path mode tmux pid now
        (λ j. if str_eq j path then true else s.world.created j) (s.world.held path) refl inv)
  | inr n ↦
      rw n (record { owned = inv.owned; apart = inv.apart; given = inv.given; free = inv.free })
]

Step-IsExclusive : (s t : System) → Step s t → IsExclusive s → IsExclusive t
unfolding tried write_preempt_marker clear_preempt_marker unlink_info unlink_preempt
Step-IsExclusive s t (starts path mode tmux pid now h w e) inv =
    subst (λ p. IsExclusive (tried s p)) e (acquire-IsExclusive s path mode tmux pid now inv)
Step-IsExclusive s t (refused path mode tmux pid now k w e) inv =
    subst (λ p. IsExclusive (tried s p)) e (acquire-IsExclusive s path mode tmux pid now inv)
Step-IsExclusive s t (closes before h after e) inv =
    close-IsExclusive s before h after (h.path ∷ s.leaving) e inv
Step-IsExclusive s t (dies before h after e) inv =
    close-IsExclusive s before h after s.leaving e inv
Step-IsExclusive s t (unlinks before path after e) inv = record {
  owned = inv.owned;
  apart = inv.apart;
  given = inv.given;
  free = inv.free;
}
Step-IsExclusive s t (marks path pid mode now) inv = elim (Bool-cases (is_mode mode)) [
  | inl y ↦
      rw y (record { owned = inv.owned; apart = inv.apart; given = inv.given; free = inv.free })
  | inr n ↦
      rw n (record { owned = inv.owned; apart = inv.apart; given = inv.given; free = inv.free })
]
Step-IsExclusive s t (clears path) inv = record {
  owned = inv.owned;
  apart = inv.apart;
  given = inv.given;
  free = inv.free;
}

Reach-IsExclusive : {s t : System} → Reach s t → IsExclusive s → IsExclusive t
Reach-IsExclusive here inv = inv
Reach-IsExclusive {s} (next {t} {u} r k) inv = Step-IsExclusive t u k (Reach-IsExclusive r inv)

idle-IsExclusive : (s : System) → IsIdle s → IsExclusive s
idle-IsExclusive s idle = record {
  owned = rw idle.nobody tt;
  apart = rw idle.nobody tt;
  given = λ p d k. let e = idle.unlocked p in ground arith;
  free = λ p k. idle.unlocked p;
}

Owned-OnePerPath :
    (held : String → Option ℕ) (fresh : ℕ) (hs : List Handle)
    → Owned held fresh hs
    → Apart hs
    → OnePerPath hs
Owned-OnePerPath held fresh [] o a = tt
Owned-OnePerPath held fresh (h ∷ hs) ((o, lt), os) (a, as') =
    (others hs a os, Owned-OnePerPath held fresh hs os as')
  where
    others :
        (gs : List Handle)
        → All (λ g. g.fd ≢ h.fd) gs
        → Owned held fresh gs
        → All (λ g. g.path ≢ h.path) gs
    others [] k os = tt
    others (g ∷ gs) (ne, k) ((og, lt), os) = (
      (λ e. ne (let same : some g.fd ≡ some h.fd = sym og ∙ ap held e ∙ o in ground arith)),
      others gs k os,
    )

-- Whatever sessions start, are refused, release, die, write or clear markers, in any order and with
-- `release` interrupted between its close and its unlinks, from a system in which no session runs
-- and no lock is held: two live sessions never have the same lock path.
pub Reach-OnePerPath : {s t : System} → IsIdle s → Reach s t → OnePerPath t.sessions
Reach-OnePerPath {s} {t} idle r =
    let inv = Reach-IsExclusive r (idle-IsExclusive s idle) in
    Owned-OnePerPath t.world.held t.world.fresh t.sessions inv.owned inv.apart

-- Whatever sessions have done since a system in which no session ran and no lock was held: where no
-- live session has the lock path, `acquire` with a mode of `LOCK_MODES` gives a lock on that path.
-- A session that died, or that closed its descriptor and left its sidecars behind, never stands in
-- a successor's way.
pub Reach-acquire :
    {s t : System} (path mode : String) (tmux : Option String) (pid : ℕ) (now : String)
    → IsIdle s
    → Reach s t
    → is_mode mode ≡ true
    → All (λ h. h.path ≢ path) t.sessions
    → (h : Handle) × ((acquire path mode tmux pid now t.world).0 ≡ ok h) × (h.path ≡ path)
unfolding acquire lock_opened
Reach-acquire {s} {t} path mode tmux pid now idle r good away =
    let inv = Reach-IsExclusive r (idle-IsExclusive s idle) in
    rw (good, inv.free path away) (_, refl, refl)
