-- ===== src/ActingLock/Sessions.antt =====
-- src/otaman_core/acting_lock.py: sessions that start, release and die, as a step relation.
use otaman_core.Prelude.{ℕ, String, Option, none, List, [], ◌∷◌, ◌++◌, ok, err, ◌≡◌, ◌≢◌, All}
use otaman_core.ActingLock.{
  World, Handle, LockError, acquire, close, unlink_info, unlink_preempt, write_preempt_marker,
  clear_preempt_marker,
}

-- The world, the handles of the sessions that run, and the paths whose sidecars a session that has
-- closed its descriptor is still to unlink.
pub record System : Type 0 where
  pub world : World
  pub sessions : List Handle
  pub leaving : List String

-- One step of one process. `release` is two of them, `closes` and `unlinks`: others may step in between.
pub data Step (s : System) : System → Type 0 where
  starts :
      (path mode : String) (tmux : Option String) (pid : ℕ) (now : String) (h : Handle) (w : World)
      → acquire path mode tmux pid now s.world ≡ (ok h, w)
      → Step s (record { world = w; sessions = h ∷ s.sessions; leaving = s.leaving })
  refused :
      (path mode : String) (tmux : Option String) (pid : ℕ) (now : String) (e : LockError)
      (w : World)
      → acquire path mode tmux pid now s.world ≡ (err e, w)
      → Step s (record { world = w; sessions = s.sessions; leaving = s.leaving })
  closes :
      (before : List Handle) (h : Handle) (after : List Handle)
      → s.sessions ≡ before ++ h ∷ after
      → Step s (record {
        world = close h.fd s.world;
        sessions = before ++ after;
        leaving = h.path ∷ s.leaving;
      })
  dies :
      (before : List Handle) (h : Handle) (after : List Handle)
      → s.sessions ≡ before ++ h ∷ after
      → Step s
          (record { world = close h.fd s.world; sessions = before ++ after; leaving = s.leaving })
  unlinks :
      (before : List String) (path : String) (after : List String)
      → s.leaving ≡ before ++ path ∷ after
      → Step s (record {
        world = unlink_preempt path (unlink_info path s.world);
        sessions = s.sessions;
        leaving = before ++ after;
      })
  marks :
      (path : String) (pid : ℕ) (mode now : String)
      → Step s (record {
        world = (write_preempt_marker path pid mode now s.world).1;
        sessions = s.sessions;
        leaving = s.leaving;
      })
  clears :
      (path : String)
      → Step s (record {
        world = clear_preempt_marker path s.world;
        sessions = s.sessions;
        leaving = s.leaving;
      })

pub data Reach (s : System) : System → Type 0 where
  here : Reach s s
  next : {t u : System} → Reach s t → Step t u → Reach s u

-- No session runs, and no lock is held. Files of earlier days may be there.
pub record IsIdle (s : System) : Type 0 where
  pub nobody : s.sessions ≡ []
  pub unlocked : (p : String) → s.world.held p ≡ none

abbrev pub OnePerPath : List Handle → Type 0
OnePerPath [] = Unit
OnePerPath (h ∷ hs) = All (λ g. g.path ≢ h.path) hs × OnePerPath hs
