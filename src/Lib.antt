-- ===== src/Lib.antt =====
-- otaman-core: the message bus, ownership and governance core, as executable definitions with the
-- theorems that make them correct.
--
-- The program keeps a fleet of agents in order. A platform file says which agent owns which paths of
-- which repository; messages between agents are files whose frontmatter is validated before they are
-- written and routed by recipient or by owned path; policies of several layers are composed so that a
-- layer can only tighten; each program has a lifecycle state with its history; and one lock per agent
-- identity keeps a second session out. Each repository has a ladder of security gates. A change to the
-- specification goes through stages, and gates keep it from merge, dispatch and archive until a human
-- has approved it; the critics of a proposal are chosen by policies that never choose its proposer.
--
-- Which file models which part:
--   Yaml           what `yaml.safe_load` returns, with Python's truth, `isinstance`, `dict.get`, `str`
--                  and `repr` on it (Yaml/Text). Every loader below reads these values.
--   OwnerPaths     src/otaman_core/owner_paths.py: Parse is parse_platform_config, Glob is
--                  _glob_to_regex and path_matches with a backtracking matcher in place of `re`,
--                  Glob/Meaning what a pattern means, read off its text,
--                  Resolve is resolve_owner_for_path and resolve_owners_for_paths, Resolve/Cwd is
--                  _owner_for_target and resolve_owner_for_cwd, Validate is validate_owner_paths.
--   Bus/Uri        src/otaman_core/bus/uri.py: BusUri, parse, canonicalize.
--   Bus/Dispatch   src/otaman_core/bus/dispatch.py: dispatch, which calls OwnerPaths/Resolve.
--   Bus/Stem       src/otaman_core/bus_stem.py: slugify, build_stem, parse_stem.
--   Bus/CcFanout   src/otaman_core/bus/cc_fanout.py: evaluate_routing_rules, compute_effective_cc;
--                  Copies has load_routing_rules and inject_x_cc.
--   Frontmatter    src/otaman_core/frontmatter.py: parse, cc_recipients, is_cc_copy.
--   Message        src/otaman_core/validate_message.py: Rules has one function for each rule of
--                  validate_message_content, Gate puts them together and has the write gate, Fields
--                  the patterns, and parse_bus_timestamp of src/otaman_core/frontmatter.py.
--   Policy         src/otaman_core/policy.py: compose; Load has the parsers and loaders, Select the
--                  selection and effective_policy, Branches resolve_branch_owner, Drift the other
--                  checks of the doctor.
--   Lifecycle      src/otaman_core/lifecycle.py: parse_lifecycle; Registry has load_lifecycle and
--                  record_transition, Doctor check_lifecycle.
--   ActingLock     src/otaman_core/acting_lock.py: the flock table and the sidecar files are a record
--                  that every operation takes and returns; Sessions has the sessions as a step
--                  relation, in which others may step between the close and the unlinks of release;
--                  Key is lock_key, which calls Bus/Uri.
--   SecurityGates  src/otaman_core/security_gates.py: Parse is parse_security_gates, the rest
--                  _merge_layer and resolve_repo_gates; a cost cap is a value of any type.
--   SpecLifecycle  src/otaman_core/spec_lifecycle.py: the stages and the tests on a change; OpenSpec
--                  reads and writes .openspec.yaml, SpecPolicy has the spec_policy cascade, Gates the
--                  merge, dispatch and archive gates, Marker _ratifier_from_marker, Ratify the
--                  ratification, SpecApproved the approval, AutoArchive the delivery mode and the
--                  automatic archive. History has the writers as steps under their guards, Machine
--                  the stage machine that they implement.
--   Roster         src/otaman_core/human_roster.py: Load is parse_human_roster and its loader,
--                  Resolve the resolution of an identity, which SpecLifecycle/SpecApproved calls.
--   VerificationGates  src/otaman_core/verification_gates.py: Parse is parse_verification_gates, Select
--                  _run_policy and select_critics.
--   SecurityReport src/otaman_core/security_gate_report.py: is_blocked, report_from_dict and
--                  report_to_dict; the names of the layers are those of SecurityGates.
--   DeliveryEnvelope  src/otaman_core/delivery_envelope.py: parse_envelope, validate_envelope and
--                  proceeds_without_prompt.
--   ReviewPolicy   src/otaman_core/review_policy.py: parse_review_policy and classify.
--   TaskComplete   src/otaman_core/task_complete.py: the ids of a filing; Filed has the messages of the
--                  bus, Effective the un-ticks and is_effectively_complete.
--   ReleaseGate    src/otaman_core/release_gate.py: cut_eligibility, over TaskComplete.
--   Prelude        the shared names and helpers: tests on numbers and texts, lists, sets as lists, the
--                  result type of code that may raise, Python's text methods and their laws.
--
-- An exception is an error value of the part's own type; its message is not modelled. Dicts are
-- association lists in insertion order. Loops are recursion on the list or text; only the decimal
-- digits of a number use fuel, one more than the number, and each round divides it by ten.
--
-- Parameters: `load` is yaml.safe_load of a frontmatter text, `store` writes and reads back a YAML
-- file, `fromisoformat` says what datetime accepts, `nonnegative`, `float_of` and `less` are Python's
-- numbers in a cost cap, `located`, `resolved` and `worktree_main` are the file system's and git's
-- answers for a working directory, `git` is its log and its diffs, `lower` is str.lower, `is_word` is
-- `\w`, `same_float` is `==` where a float is compared. Files are values of `File` or texts. In
-- TaskComplete `fromisoformat` gives the instant of a text; a time without a zone is left aside.
--
-- Not modelled: command lines, printing and file access around these functions; the text of a float
-- or of a date (it is carried along); `\d` is the ASCII digits; the keys of a policy's rules and of a
-- registry are texts, as their annotations say; the other modules of the package.
pub mod Prelude
pub mod Yaml
pub mod OwnerPaths
pub mod Bus
pub mod Message
pub mod Policy
pub mod DeliveryEnvelope
pub mod Frontmatter
pub mod TaskComplete
pub mod ReleaseGate
pub mod Lifecycle
pub mod ActingLock
pub mod ReviewPolicy
pub mod Roster
pub mod SecurityGates
pub mod SecurityReport
pub mod SpecLifecycle
pub mod VerificationGates
