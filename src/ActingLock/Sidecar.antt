-- ===== src/ActingLock/Sidecar.antt =====
-- src/otaman_core/acting_lock.py: what the sidecars say about the lock, after each way to leave it.
use otaman_core.Prelude.{
  ℕ, zero, suc, List, [], ◌∷◌, String, true, false, Option, none, some, ok, err, str_eq, ◌==◌, ◌≡◌,
  refl, arith, eq_iff,
}
use otaman_core.ActingLock.{
  World, Handle, Info, held_by, put, is_mode, lock_opened, acquire, close, unlink_info,
  unlink_preempt, release_steps, run, release, crash, probe, holder_info, read_preempt_marker,
}

-- The sidecar that `acquire` writes, the world it leaves, and the handle it gives
abbrev pub info_of : String → Option String → ℕ → String → Info
info_of mode tmux pid now = record { pid = pid; mode = mode; tmux_session = tmux; started_at = now }

abbrev pub lock_of : String → String → World → Handle
lock_of path mode w = record { path = path; mode = mode; fd = w.fresh; released = false }

str_eq_refl : (s : String) → str_eq s s ≡ true
str_eq_refl s = ground (arith, eq_iff s s)

put_same {ℓ} : {A : Type ℓ} (k : String) (v : Option A) (m : String → Option A) → put k v m k ≡ v
put_same k v m = rw (str_eq_refl k) refl

==_refl : (n : ℕ) → (n == n) ≡ true
==_refl n = ground arith

module _ (path mode : String) (tmux : Option String) (pid : ℕ) (now : String) (w : World)
    (good : is_mode mode ≡ true) (free : w.held path ≡ none) where
  -- On a lock path that is free, with a mode of `LOCK_MODES`: the acquirer gets the lock, and `probe`
  -- shows what it wrote. If it then dies, `probe` shows nobody while `holder_info` still shows the
  -- dead session; if it releases, both show nobody and no marker is left.
  pub acquire-sidecars :
      let w₁ = (acquire path mode tmux pid now w).1 in
      let h = lock_of path mode w in
      ((acquire path mode tmux pid now w).0 ≡ ok h)
      × (probe path w₁ ≡ some (info_of mode tmux pid now))
      × (probe path (crash h w₁) ≡ none)
      × (holder_info path (crash h w₁) ≡ some (info_of mode tmux pid now))
      × (probe path (release h w₁).1 ≡ none)
      × (holder_info path (release h w₁).1 ≡ none)
      × (read_preempt_marker path (release h w₁).1 ≡ none)
  unfolding acquire lock_opened probe crash release close unlink_info unlink_preempt holder_info
      read_preempt_marker
  acquire-sidecars =
      rw (good, free, str_eq_refl path, ==_refl w.fresh) (refl, refl, refl, refl, refl, refl, refl)

-- The first steps of a list, and the others
unfoldable pub first : ℕ → List (World → World) → List (World → World)
first n [] = []
first zero (f ∷ fs) = []
first (suc n) (f ∷ fs) = f ∷ first n fs

unfoldable pub others : ℕ → List (World → World) → List (World → World)
others n [] = []
others zero (f ∷ fs) = f ∷ fs
others (suc n) (f ∷ fs) = others n fs

-- `release`, on a handle that was not released, is its steps, of which the first one frees the flock.
-- Where the holder of a path is interrupted after that step, a successor acquires, and then the holder
-- runs its other steps: the successor has the flock, and yet `probe` shows nobody, and who is refused
-- is told of no holder.
pub release-race :
    (h : Handle) (mode : String) (tmux : Option String) (pid : ℕ) (now : String) (w : World)
    → h.released ≡ false
    → is_mode mode ≡ true
    → w.held h.path ≡ some h.fd
    → let between = run (first 1 (release_steps h)) w in
      let taken = acquire h.path mode tmux pid now between in
      let w₁ = run (others 1 (release_steps h)) taken.1 in
      ((release h w).1 ≡ run (others 1 (release_steps h)) between)
      × (taken.0 ≡ ok (lock_of h.path mode w))
      × (w₁.held h.path ≡ some w.fresh)
      × (probe h.path w₁ ≡ none)
      × ((acquire h.path mode tmux pid now w₁).0 ≡ err (held_by none))
unfolding acquire lock_opened probe close unlink_info unlink_preempt release release_steps run first
    others
release-race h mode tmux pid now w fresh good held =
    rw (fresh, good, held, ==_refl h.fd, str_eq_refl h.path)
      (refl, refl, refl, refl, search put_same)
