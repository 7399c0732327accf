-- ===== src/ActingLock.antt =====
-- src/otaman_core/acting_lock.py: one acting session for each identity. The kernel's flock table and
-- the sidecar files are the state; a descriptor is a number that the kernel never gives twice. flock is
-- taken to be there (POSIX), and a lock path stands for the key and the directory that give it.
pub mod Key
pub mod Sessions
pub mod Invariant
pub mod Exclusion
pub mod Sidecar
mod Tests
use otaman_core.Prelude.{
  ℕ, suc, String, Bool, true, false, not, ◌||◌, Option, none, some, List, [], ◌∷◌, Result, ok, err,
  ◌>>=◌, ◌>>◌, require, str_eq, ◌==◌, if◌then◌else◌,
}

-- The text that a mode must be: `LOCK_MODES`.
abbrev pub is_mode : String → Bool
is_mode m = str_eq m "interactive" || str_eq m "background"

-- The `.info` sidecar, and the `.preempt` marker.
pub record Info : Type 0 where
  pub pid : ℕ
  pub mode : String
  pub tmux_session : Option String
  pub started_at : String

pub record Marker : Type 0 where
  pub pid : ℕ
  pub mode : String
  pub timestamp : String

-- A map from lock paths.
abbrev pub Table : Type 0 → Type 0
Table A = String → Option A

abbrev pub put {ℓ} : {A : Type ℓ} → String → Option A → (String → Option A) → String → Option A
put k v m j = if str_eq j k then v else m j

-- `held` is the descriptor that has the exclusive flock of a lock file, `created` whether the file
-- is there. `fresh` is above every descriptor given so far.
pub record World : Type 0 where
  pub held : Table ℕ
  pub created : String → Bool
  pub info : Table Info
  pub preempt : Table Marker
  pub fresh : ℕ

-- `ActingLock`, a handle
pub record Handle : Type 0 where
  pub path : String
  pub mode : String
  pub fd : ℕ
  pub released : Bool

-- `ActingLockError`, and `ActingLockHeld` with the holder's metadata
pub data LockError : Type 0 where
  bad_mode : LockError
  held_by : Option Info → LockError

-- The non-blocking flock on the file that was opened, and the sidecar on success.
unfoldable pub lock_opened :
    String
    → String
    → Option String
    → ℕ
    → String
    → World
    → Option ℕ
    → Result LockError Handle × World
lock_opened path mode tmux_session pid now w (some holder) = (err (held_by (w.info path)), w)
lock_opened path mode tmux_session pid now w none = (
  ok (record { path = path; mode = mode; fd = w.fresh; released = false }),
  record w {
    held = put path (some w.fresh) w.held;
    info =
        put path
          (some (record { pid = pid; mode = mode; tmux_session = tmux_session; started_at = now }))
          w.info;
    fresh = suc w.fresh;
  },
)

-- `acquire` on the lock path of the target, at the time `now`
unfoldable pub acquire :
    String → String → Option String → ℕ → String → World → Result LockError Handle × World
unfolding lock_opened
acquire path mode tmux_session pid now w =
    if is_mode mode
    then lock_opened path mode tmux_session pid now
        (record w { created = λ j. if str_eq j path then true else w.created j }) (w.held path)
    else (err bad_mode, w)

-- The kernel drops the flock of a descriptor that is closed.
abbrev pub drops : ℕ → Option ℕ → Option ℕ
drops fd none = none
drops fd (some d) = if d == fd then none else some d

unfoldable pub close : ℕ → World → World
close fd w = record w { held = λ j. drops fd (w.held j) }

unfoldable pub unlink_info : String → World → World
unlink_info path w = record w { info = put path none w.info }

unfoldable pub unlink_preempt : String → World → World
unlink_preempt path w = record w { preempt = put path none w.preempt }

-- What `release` does to the kernel's state and to the files, one call after the other.
unfoldable pub release_steps : Handle → List (World → World)
unfolding close unlink_info unlink_preempt
release_steps h = close h.fd ∷ unlink_info h.path ∷ unlink_preempt h.path ∷ []

unfoldable pub run : List (World → World) → World → World
run [] w = w
run (f ∷ fs) w = run fs (f w)

-- `release`, run without interruption; a second call does nothing.
unfoldable pub release : Handle → World → Handle × World
unfolding release_steps run
release h w = if h.released then (h, w) else (record h { released = true }, run (release_steps h) w)

-- A process that dies: the kernel closes its descriptor, and nothing removes the sidecars.
unfoldable pub crash : Handle → World → World
unfolding close
crash h w = if h.released then w else close h.fd w

unfoldable pub holder_info : String → World → Option Info
holder_info path w = w.info path

unfoldable pub holder_pid : String → World → Option ℕ
holder_pid path w = elim (w.info path) [ none ↦ none | some i ↦ some i.pid ]

-- The trial flock of `probe`; one that succeeds is undone at once.
probed : Option ℕ → Option Info → Option Info
probed none info = none
probed (some holder) info = info

unfoldable pub probe : String → World → Option Info
unfolding probed
probe path w = if w.created path then probed (w.held path) (w.info path) else none

unfoldable pub write_preempt_marker :
    String → ℕ → String → String → World → Result LockError (Unit {0}) × World
write_preempt_marker path pid mode now w =
    if is_mode mode
    then (
      ok tt,
      record w {
        preempt = put path (some (record { pid = pid; mode = mode; timestamp = now })) w.preempt;
      },
    )
    else (err bad_mode, w)

unfoldable pub read_preempt_marker : String → World → Option Marker
read_preempt_marker path w = w.preempt path

unfoldable pub clear_preempt_marker : String → World → World
clear_preempt_marker path w = record w { preempt = put path none w.preempt }
