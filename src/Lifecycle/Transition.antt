-- ===== src/Lifecycle/Transition.antt =====
-- What a recorded transition leaves in the file.
use otaman_core.Prelude.{
  subst, String, true, false, not, ◌||◌, Option, none, some, [], ◌∷◌, ◌++◌, ok, err, >>=-eq-ok,
  require, ◌≡◌, ◌≢◌, refl, sym, ap, ◌∙◌, arith, str_eq, str_eq_ne, eq_iff, eq_refl, if◌then◌else◌,
  Bool-cases, inl, inr, is_empty, strip,
}
use otaman_core.Yaml.{Value, File, absent, unreadable, content, dict, end, truthy}
use otaman_core.Lifecycle.{
  State, active, state_of, no_author, unknown_state, LifecycleEntry, Registry, checked_state,
}
use otaman_core.Lifecycle.Registry.{
  load_lifecycle, entry_at, set_entry, insert_entry, sorted_items, payload, prior_history,
  next_entry, record_transition, get_state, read_program_state,
}
use otaman_core.Lifecycle.RoundTrip.{IsKeyed, parse_lifecycle-payload, parse_lifecycle-IsKeyed}

pub entry_at-set_entry :
    (k j : String) (e : LifecycleEntry) (m : Registry)
    → entry_at j (set_entry k e m) ≡ (if str_eq k j then some e else entry_at j m)
unfolding entry_at set_entry
entry_at-set_entry k j e [] = refl
entry_at-set_entry k j e ((i, d) ∷ m) =
    ground (arith, eq_iff k j, eq_iff i k, eq_iff i j, entry_at-set_entry k j e m)

set_entry-IsKeyed :
    (k : String) (e : LifecycleEntry) (m : Registry)
    → e.program ≡ k
    → IsKeyed m
    → IsKeyed (set_entry k e m)
unfolding set_entry
set_entry-IsKeyed k e [] now h = (now, tt)
set_entry-IsKeyed k e ((j, d) ∷ m) now (x, h) = elim (Bool-cases (str_eq j k)) [
  | inl same ↦ rw same (now, h)
  | inr other ↦ rw other (x, set_entry-IsKeyed k e m now h)
]

entry_at-insert_entry :
    (k j : String) (e : LifecycleEntry) (m : Registry)
    → entry_at j (insert_entry k e m) ≡ (if str_eq k j then some e else entry_at j m)
unfolding entry_at insert_entry
entry_at-insert_entry k j e [] = refl
entry_at-insert_entry k j e ((i, d) ∷ m) =
    ground (arith, eq_iff k j, eq_iff i j, eq_iff k i, entry_at-insert_entry k j e m)

entry_at-sorted_items : (j : String) (m : Registry) → entry_at j (sorted_items m) ≡ entry_at j m
unfolding sorted_items entry_at
entry_at-sorted_items j [] = refl
entry_at-sorted_items j ((k, e) ∷ m) =
    entry_at-insert_entry k j e (sorted_items m) ∙ rw (entry_at-sorted_items j m) refl

load_lifecycle-IsKeyed : (file : File) (m : Registry) → load_lifecycle file ≡ ok m → IsKeyed m
unfolding load_lifecycle
load_lifecycle-IsKeyed absent m h = let same : [] ≡ m = ground arith in rw (← same) tt
load_lifecycle-IsKeyed unreadable m h = let same : [] ≡ m = ground arith in rw (← same) tt
load_lifecycle-IsKeyed (content v) m h =
    parse_lifecycle-IsKeyed (if truthy v then v else dict end) m h

load_lifecycle-payload :
    (m : Registry) → IsKeyed m → load_lifecycle (content (payload m)) ≡ ok (sorted_items m)
unfolding load_lifecycle
load_lifecycle-payload m h = rw (payload_truthy m) (parse_lifecycle-payload m h)
  where
    payload_truthy : (m : Registry) → truthy (payload m) ≡ true
    payload_truthy m = unfold payload in refl

-- What a transition that succeeds has done, given the registry that it read.
pub record Recorded (registry : Registry) (program : String) (e : LifecycleEntry) (file : File)
    : Type 0 where
  pub after : Registry
  pub reads_back : load_lifecycle file ≡ ok after
  pub stored : entry_at program after ≡ some e
  pub appended :
      e.history
      ≡ prior_history (entry_at program registry)
        ++ record { state = e.state; since = e.since; by = e.by; reason = e.reason } ∷ []
  pub others :
      (q : String) → entry_at q after ≡ (if str_eq program q then some e else entry_at q registry)

module _ (store : Value → File) (faithful : (v : Value) → store v ≡ content v) where
  next-Recorded :
      (registry : Registry) (program : String) (s : State) (author : String)
      (reason : Option String) (now : String)
      → IsKeyed registry
      → Recorded registry program (next_entry registry program s author reason now) (
          store (
            payload (set_entry program (next_entry registry program s author reason now) registry)))
  unfolding next_entry
  next-Recorded registry program s author reason now keyed =
      let e = next_entry registry program s author reason now in
      let m = set_entry program e registry in
      record {
        after = sorted_items m;
        reads_back =
            rw (faithful (payload m))
              (load_lifecycle-payload m (set_entry-IsKeyed program e registry refl keyed));
        stored =
            entry_at-sorted_items program m
            ∙ entry_at-set_entry program program e registry
            ∙ rw (eq_refl program) refl;
        appended = refl;
        others = λ q. entry_at-sorted_items q m ∙ entry_at-set_entry program q e registry;
      }

  -- With a store that reads back the value it wrote: a transition that succeeds has appended one
  -- record to the program's history, which is now its current state, and has kept every other
  -- program that the file it read gave; the new file loads.
  pub record_transition-Recorded :
      (file : File) (program : String) (state : Value) (author : String) (reason : Option String)
      (now : String) (e : LifecycleEntry) (new_file : File)
      → record_transition store file program state author reason now ≡ ok (e, new_file)
      → (registry : Registry) × (load_lifecycle file ≡ ok registry)
        × Recorded registry program e new_file
  unfolding record_transition
  record_transition-Recorded file program state author reason now e new_file h =
      let (s, e₁, h₁) = >>=-eq-ok (checked_state state (unknown_state state)) _ h in
      let (u, e₂, h₂) =
        >>=-eq-ok (require (not (is_empty author || is_empty (strip author))) no_author) _ h₁ in
      let (registry, e₃, h₃) = >>=-eq-ok (load_lifecycle file) _ h₂ in
      let same_entry : next_entry registry program s author reason now ≡ e = ground arith in
      let same_file : store
            (payload (set_entry program (next_entry registry program s author reason now) registry))
          ≡ new_file =
        ground arith in
      (
        registry,
        e₃,
        subst (λ f. Recorded registry program e f) same_file
            (subst
              (λ d. Recorded registry program d (
                store (
                  payload (
                    set_entry program (next_entry registry program s author reason now) registry))))
              same_entry
              (next-Recorded registry program s author reason now
                (load_lifecycle-IsKeyed file registry e₃))),
      )

  -- With a store that reads back the value it wrote: a transition recorded while the file cannot be
  -- read or parsed writes a file that loads, and in which the program's history is the one new record
  -- and every other program has no entry, so no history, and reads as active.
  pub record_transition-forgets :
      (program : String) (state : Value) (author : String) (reason : Option String) (now : String)
      (e : LifecycleEntry) (new_file : File)
      → record_transition store unreadable program state author reason now ≡ ok (e, new_file)
      → (after : Registry) × ((load_lifecycle new_file ≡ ok after)
          × ((entry_at program after ≡ some e)
              × ((e.history
                    ≡ record { state = e.state; since = e.since; by = e.by; reason = e.reason }
                      ∷ [])
                  × ((q : String)
                      → q ≢ program
                      → (entry_at q after ≡ none) × (read_program_state new_file q ≡ ok active)))))
  unfolding read_program_state
  record_transition-forgets program state author reason now e new_file h =
      let (registry, e₁, r) =
        record_transition-Recorded unreadable program state author reason now e new_file h in
      let blank : [] ≡ registry = unfold load_lifecycle in ground arith in
      let gone : (q : String) → q ≢ program → entry_at q r.after ≡ none = λ q differs.
        r.others q
        ∙ rw (str_eq_ne program q (λ p. differs (sym p)))
            (rw (← blank) (unfold entry_at in refl)) in
      let no_prior : prior_history (entry_at program registry) ≡ [] =
        rw (← blank) (unfold entry_at in refl) in
      (
        r.after,
        (
          r.reads_back,
          (
            r.stored,
            (
              r.appended ∙ rw no_prior refl,
              λ q differs.
                  (gone q differs, rw r.reads_back (unfold get_state in rw (gone q differs) refl)),
            ),
          ),
        ),
      )

-- Without a known state, or without an author, nothing is recorded.
pub record_transition-refuses :
    (store : Value → File) (file : File) (program : String) (state : Value) (author : String)
    (reason : Option String) (now : String)
    → (state_of state ≡ none
        → record_transition store file program state author reason now ≡ err (unknown_state state))
      × ((s : State)
          → state_of state ≡ some s
          → strip author ≡ ""
          → record_transition store file program state author reason now ≡ err no_author)
unfolding record_transition
record_transition-refuses store file program state author reason now = (
  λ h. rw (h, checked_state) refl,
  λ s h blank.
      let test : not (is_empty author || is_empty (strip author)) ≡ false =
        ground (arith, ap is_empty blank) in
      rw (h, checked_state) (rw test refl),
)
