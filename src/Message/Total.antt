-- ===== src/Message/Total.antt =====
-- src/otaman_core/validate_message.py: when the write gate gives an answer, and when it raises.
use otaman_core.Prelude.{
  String, Bool, true, false, not, ◌&&◌, Option, none, some, List, [], ◌∷◌, ◌++◌, ok, err,
  if◌then◌else◌, ◌≡◌, refl, ap, inl, inr, arith, All, Bool-cases,
}
use otaman_core.Yaml.{
  Value, Entries, null, str, dict, is_hashable, is_str, is_null, truthy, is_text, get, get_or, find,
  or_default,
}
use otaman_core.Message.{
  Problem, Problems, valid_types, privileged_types, path_eligible_types, broadcast_types,
  unknown_type, not_from_human, unknown_priority, type_takes_no_path, path_without_repo,
  not_a_broadcast, Warning, unhashable, report, in_set, on_ok,
}
use otaman_core.Message.Rules.{
  path_value_problems, is_filled, type_problems, privilege_problems, priority_problems,
  path_problems, to_problems, recipient_problems, broadcast_problems,
}
use otaman_core.Message.Gate.{
  best_effort_warnings, with_warnings, errors_only, joined, appended, sections, checked, matched,
  validate_message_content, validate_message_before_write,
}
use otaman_core.Message.Fields.{frontmatter_text}

abbrev pub IsAnswer : Problems → Type 0
IsAnswer r = (ps : List Problem) × (r ≡ ok ps)

appended-IsAnswer : (ps : List Problem) (r : Problems) → IsAnswer r → IsAnswer (appended ps r)
appended-IsAnswer ps r (qs, e) = rw e (_, refl)

joined-IsAnswer : (rs : List Problems) → All IsAnswer rs → IsAnswer (joined rs)
joined-IsAnswer [] h = ([], refl)
joined-IsAnswer (ok ps ∷ rs) (h, k) = appended-IsAnswer ps (joined rs) (joined-IsAnswer rs k)
joined-IsAnswer (err e ∷ rs) ((ps, h), k) = absurd (ground arith)

asked-IsAnswer :
    (s : List String) (v : Value) (f : Bool → List Problem)
    → is_hashable v ≡ true
    → IsAnswer (on_ok (in_set s v) f)
asked-IsAnswer s v f h = rw h (_, refl)

guarded : (b : Bool) (r : Problems) → IsAnswer r → IsAnswer (if b then r else ok [])
guarded true r h = h
guarded false r h = ([], refl)

path_asked :
    (b : Bool) (s : List String) (v : Value) (f : Bool → List Problem)
    → is_hashable v ≡ true
    → IsAnswer (on_ok (if b then in_set s v else ok true) f)
path_asked true s v f h = asked-IsAnswer s v f h
path_asked false s v f h = (f true, refl)

unless_null : (b : Bool) (r : Problems) → IsAnswer r → IsAnswer (if b then ok [] else r)
unless_null true r h = ([], refl)
unless_null false r h = h

defaulted :
    (o : Option Value) (d : Value) (P : Value → Type 0)
    → P d
    → P (or_default null o)
    → P (or_default d o)
defaulted none d P h k = h
defaulted (some v) d P h k = k

to_problems-IsAnswer :
    (known : List String) (v : Value) → is_str v ≡ true → IsAnswer (to_problems known v)
unfolding to_problems
to_problems-IsAnswer known (str s) h = (_, refl)
to_problems-IsAnswer known v h = absurd (ground arith)

recipients-IsAnswer :
    (known : List String) (fm : Entries)
    → is_str (get "to" fm) ≡ true
    → IsAnswer (recipient_problems known fm)
unfolding recipient_problems
recipients-IsAnswer [] fm h = ([], refl)
recipients-IsAnswer (k ∷ known) fm h = guarded _ _ (
    to_problems-IsAnswer (k ∷ known) (get_or "to" (str "") fm)
      (defaulted (find "to" fm) (str "") (λ v. is_str v ≡ true) refl h))

module _ (load : String → Option Value) (fromisoformat : String → Bool) (content : String)
    (known : List String) (fm : Entries) where
  typed : is_hashable (get "type" fm) ≡ true → IsAnswer (type_problems fm)
  unfolding type_problems
  typed h =
      guarded (truthy (get "type" fm)) _
        (asked-IsAnswer valid_types (get "type" fm) (λ known. report (not known) unknown_type) h)

  privileged : is_hashable (get "type" fm) ≡ true → IsAnswer (privilege_problems fm)
  unfolding privilege_problems
  privileged h =
      asked-IsAnswer privileged_types (get "type" fm)
        (λ b. report (b && not (is_text "human" (get "from" fm))) not_from_human) h

  prioritised : is_hashable (get "priority" fm) ≡ true → IsAnswer (priority_problems fm)
  unfolding priority_problems
  prioritised h = guarded (truthy (get "priority" fm)) _ (
      asked-IsAnswer ("low" ∷ "normal" ∷ "high" ∷ "urgent" ∷ []) (get "priority" fm)
        (λ known. report (not known) unknown_priority) h)

  routed : is_hashable (get "type" fm) ≡ true → IsAnswer (path_problems fm)
  unfolding path_problems
  routed h = unless_null (is_null (get "path" fm)) _ (
      path_asked (truthy (get "type" fm)) path_eligible_types (get "type" fm)
        (λ eligible.
          report (not eligible) type_takes_no_path
          ++ path_value_problems (get "path" fm)
          ++ report (not (is_filled (get "repo" fm))) path_without_repo)
        h)

  broadcast : is_hashable (get "type" fm) ≡ true → IsAnswer (broadcast_problems fm)
  unfolding broadcast_problems
  broadcast h =
      guarded (is_text "all" (get_or "to" (str "") fm) && truthy (get_or "type" (str "") fm)) _ (
        asked-IsAnswer broadcast_types (get_or "type" (str "") fm)
          (λ may. report (not may) not_a_broadcast)
          (defaulted (find "type" fm) (str "") (λ v. is_hashable v ≡ true) refl h))

  sections-IsAnswer :
      is_hashable (get "type" fm) ≡ true
      → is_hashable (get "priority" fm) ≡ true
      → is_str (get "to" fm) ≡ true
      → All IsAnswer (sections load fromisoformat content known fm)
  unfolding sections
  sections-IsAnswer h k t = (
    (_, refl),
    (
      (_, refl),
      (
        typed h,
        (
          privileged h,
          (
            (_, refl),
            (
              prioritised k,
              (
                (_, refl),
                (
                  (_, refl),
                  (
                    (_, refl),
                    (
                      (_, refl),
                      (
                        (_, refl),
                        (
                          (_, refl),
                          (
                            routed h,
                            (recipients-IsAnswer known fm t, (broadcast h, ((_, refl), tt))),
                          ),
                        ),
                      ),
                    ),
                  ),
                ),
              ),
            ),
          ),
        ),
      ),
    ),
  )

  answered :
      (r : Problems) (ws : List Warning) → IsAnswer r → IsAnswer (errors_only (with_warnings r ws))
  answered r ws (ps, e) = rw e (ps, refl)

  -- On a message whose frontmatter loads as a mapping, with a type and a priority that are neither a
  -- list nor a mapping, and a text for `to`, the write gate answers with a list of errors and raises
  -- nothing, whatever the other fields, the body and the known agents.
  pub validate_message_before_write_total :
      (text : String) (texts : List String)
      → frontmatter_text content ≡ text ∷ texts
      → load text ≡ some (dict fm)
      → is_hashable (get "type" fm) ≡ true
      → is_hashable (get "priority" fm) ≡ true
      → is_str (get "to" fm) ≡ true
      → IsAnswer (validate_message_before_write load fromisoformat content known)
  unfolding validate_message_before_write validate_message_content matched checked
  validate_message_before_write_total text texts e l h k t =
      rw (e, l)
        (answered (joined (sections load fromisoformat content known fm)) (best_effort_warnings fm)
          (joined-IsAnswer (sections load fromisoformat content known fm)
            (sections-IsAnswer h k t)))

  raised :
      is_hashable (get "type" fm) ≡ false
      → joined (sections load fromisoformat content known fm) ≡ err unhashable
  unfolding sections type_problems privilege_problems
  raised h = elim (Bool-cases (truthy (get "type" fm))) [
    | inl y ↦ rw (y, h) refl
    | inr n ↦ rw (n, h) refl
  ]

  -- On a message whose frontmatter loads as a mapping with a list or a mapping for `type`, the write
  -- gate raises, whatever the rest of the message.
  pub validate_message_before_write-raises :
      (text : String) (texts : List String)
      → frontmatter_text content ≡ text ∷ texts
      → load text ≡ some (dict fm)
      → is_hashable (get "type" fm) ≡ false
      → validate_message_before_write load fromisoformat content known ≡ err unhashable
  unfolding validate_message_before_write validate_message_content matched checked
  validate_message_before_write-raises text texts e l h =
      rw (e, l) (ap (λ r. errors_only (with_warnings r (best_effort_warnings fm))) (raised h))
