-- ===== src/ActingLock/Tests.antt =====
-- src/otaman_core/acting_lock.py: two sessions, and the keys of two identities.
use otaman_core.Prelude.{
  ℕ, String, Bool, true, false, Option, none, some, [], ◌∷◌, ok, err, ◌≡◌, refl, str_eq,
}
use otaman_core.Bus.Uri.{to_string, is_segment}
use otaman_core.Bus.Uri.RoundTrip.{IsCanonical}
use otaman_core.ActingLock.{
  World, Handle, held_by, acquire, close, probe, release_steps, run, release, lock_opened,
}
use otaman_core.ActingLock.Key.{lock_key, lock_key-collides}
use otaman_core.ActingLock.Sessions.{System, Reach, starts, dies, here, next, IsIdle, OnePerPath}
use otaman_core.ActingLock.Exclusion.{Reach-OnePerPath, Reach-acquire}
use otaman_core.ActingLock.Sidecar.{lock_of, first, others, release-race}

abbrev nothing_held : World
nothing_held = record {
  held = λ j. none;
  created = λ j. false;
  info = λ j. none;
  preempt = λ j. none;
  fresh = 3;
}

abbrev idle_system : System
idle_system = record { world = nothing_held; sessions = []; leaving = [] }

idle_system-IsIdle : IsIdle idle_system
idle_system-IsIdle = record { nobody = refl; unlocked = λ p. refl }

abbrev after_start : String → World → World
after_start path w = (acquire path "interactive" none 41 "t" w).1

abbrev core : Handle
core = record { path = "core.lock"; mode = "interactive"; fd = 3; released = false }

abbrev cli : Handle
cli = record { path = "cli.lock"; mode = "interactive"; fd = 4; released = false }

abbrev two_sessions : System
two_sessions = record {
  world = after_start "cli.lock" (after_start "core.lock" nothing_held);
  sessions = cli ∷ core ∷ [];
  leaving = [];
}

two_sessions_reached : Reach idle_system two_sessions
unfolding acquire lock_opened
two_sessions_reached =
    next (next here (starts "core.lock" "interactive" none 41 "t" core _ refl))
      (starts "cli.lock" "interactive" none 41 "t" cli _ refl)

Reach-OnePerPath_example : OnePerPath (cli ∷ core ∷ [])
Reach-OnePerPath_example =
    Reach-OnePerPath {s = idle_system} {t = two_sessions} idle_system-IsIdle two_sessions_reached

-- The first session is killed, and its successor gets the lock.
abbrev core_killed : System
core_killed = record { world = close 3 two_sessions.world; sessions = cli ∷ []; leaving = [] }

core_killed_reached : Reach idle_system core_killed
core_killed_reached = next two_sessions_reached (dies (cli ∷ []) core [] refl)

Reach-acquire_example :
    (h : Handle) × ((acquire "core.lock" "background" none 50 "t" core_killed.world).0 ≡ ok h)
    × (h.path ≡ "core.lock")
Reach-acquire_example =
    Reach-acquire {s = idle_system} {t = core_killed} "core.lock" "background" none 50 "t"
      idle_system-IsIdle core_killed_reached refl ((λ e. cc), tt)

abbrev core_held : World
core_held = record nothing_held { held = λ j. if_core (str_eq j "core.lock") }
  where
    if_core : Bool → Option ℕ
    if_core true = some 3
    if_core false = none

abbrev between : World
between = run (first 1 (release_steps core)) core_held

abbrev raced : World
raced = run (others 1 (release_steps core)) (acquire "core.lock" "background" none 9 "t" between).1

release-race_example :
    ((release core core_held).1 ≡ run (others 1 (release_steps core)) between)
    × ((acquire "core.lock" "background" none 9 "t" between).0
        ≡ ok (lock_of "core.lock" "background" core_held))
    × (raced.held "core.lock" ≡ some 3)
    × (probe "core.lock" raced ≡ none)
    × ((acquire "core.lock" "background" none 9 "t" raced).0 ≡ err (held_by none))
release-race_example = release-race core "background" none 9 "t" core_held refl refl refl

europe_org-IsCanonical :
    IsCanonical (record { org = "acme--eu"; program = "pay"; agent = "core-agent" })
unfolding is_segment
europe_org-IsCanonical = ((refl, refl), (refl, refl), (refl, refl))

europe_program-IsCanonical :
    IsCanonical (record { org = "acme"; program = "eu--pay"; agent = "core-agent" })
unfolding is_segment
europe_program-IsCanonical = ((refl, refl), (refl, refl), (refl, refl))

lock_key-collides_example :
    lock_key (to_string (record { org = "acme--eu"; program = "pay"; agent = "core-agent" }))
    ≡ lock_key (to_string (record { org = "acme"; program = "eu--pay"; agent = "core-agent" }))
lock_key-collides_example =
    lock_key-collides "acme" "eu" "pay" "core-agent" europe_org-IsCanonical
      europe_program-IsCanonical
