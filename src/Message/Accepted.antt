-- ===== src/Message/Accepted.antt =====
-- src/otaman_core/validate_message.py: what holds of every message that a writer may write.
use otaman_core.Prelude.{
  String, Bool, true, false, not, ◌&&◌, Option, none, some, List, [], ◌∷◌, ok, err, ◌≡◌, refl, sym,
  ◌∙◌, ap, subst, arith, All,
}
use otaman_core.Yaml.{
  Value, Entries, str, dict, is_hashable, truthy, is_text, is_one_of, has, get, get_or, find,
}
use otaman_core.Yaml.Laws.{is_text-eq}
use otaman_core.Message.Fields.{parse_bus_timestamp, frontmatter_text, has_subject}
use otaman_core.Message.{
  Problems, report, no_subject, not_from_human, privileged_types, broadcast_types, required_fields,
  Warning,
}
use otaman_core.Message.Rules.{
  missing_fields, timestamp_problems, privilege_problems, broadcast_problems,
}
use otaman_core.Message.Gate.{
  with_warnings, errors_only, matched, joined, sections, checked, validate_message_content,
  validate_message_before_write,
}
use otaman_core.Message.Silent.{
  Silent, joined-Silent, report-silent, ok-Silent, asked, missing_fields-silent, defaulted,
  defaulted_truthy, eq_text, whitelisted,
}

module _ (load : String → Option Value) (fromisoformat : String → Bool) (content : String)
    (known : List String) where
  -- The content has a frontmatter, which loads as the mapping.
  abbrev pub IsLoaded : Entries → Type 0
  IsLoaded fm =
      (text : String) × (texts : List String) × (frontmatter_text content ≡ text ∷ texts)
      × (load text ≡ some (dict fm))

  joined_warned :
      (r : Problems) (ws : List Warning) → errors_only (with_warnings r ws) ≡ ok [] → Silent r
  joined_warned (ok ps) ws h = h
  joined_warned (err e) ws h = h

  accepted_checked :
      (o : Option Value)
      → Silent (errors_only (checked load fromisoformat content known o))
      → (fm : Entries) × (o ≡ some (dict fm))
        × All Silent (sections load fromisoformat content known fm)
  unfolding checked
  accepted_checked (some (dict fm)) h = (
    fm,
    refl,
    joined-Silent (sections load fromisoformat content known fm)
        (joined_warned (joined (sections load fromisoformat content known fm)) _ h),
  )
  accepted_checked none h = absurd (ground arith)
  accepted_checked (some v) h = absurd (ground arith)

  accepted_matched :
      (r : List String)
      → Silent (errors_only (matched load fromisoformat content known r))
      → (text : String) × (texts : List String) × (r ≡ text ∷ texts)
        × Silent (errors_only (checked load fromisoformat content known (load text)))
  unfolding matched
  accepted_matched [] h = absurd (ground arith)
  accepted_matched (text ∷ texts) h = (text, texts, refl, h)

  accepted_sections :
      Silent (validate_message_before_write load fromisoformat content known)
      → (fm : Entries) × IsLoaded fm × All Silent (sections load fromisoformat content known fm)
  unfolding validate_message_before_write validate_message_content
  accepted_sections h =
      let (text, texts, e, k) = accepted_matched (frontmatter_text content) h in
      let (fm, l, a) = accepted_checked (load text) k in (fm, (text, texts, e, l), a)

  loaded_unique : (fm gm : Entries) → IsLoaded fm → IsLoaded gm → fm ≡ gm
  loaded_unique fm gm (text, texts, e, l) (text', texts', e', l') =
      let same : text ∷ texts ≡ text' ∷ texts' = sym e ∙ e' in
      let heads : text ≡ text' = ground arith in
      let values : some (dict fm) ≡ some (dict gm) = sym l ∙ ap load heads ∙ l' in ground arith

  module _ (accepted : validate_message_before_write load fromisoformat content known ≡ ok []) where
    sections-Silent :
        (fm : Entries) → IsLoaded fm → All Silent (sections load fromisoformat content known fm)
    sections-Silent fm loaded =
        let (gm, l, a) = accepted_sections accepted in
        subst (λ g. All Silent (sections load fromisoformat content known g))
          (loaded_unique gm fm l loaded) a

    -- A message that may be written has a frontmatter that loads as a mapping, with every required
    -- field, a timestamp that parses, and a subject line in its body.
    pub accepted_complete :
        (fm : Entries) × IsLoaded fm
        × All (λ f. has f fm ≡ true) required_fields
        × (parse_bus_timestamp fromisoformat (get "timestamp" fm) ≡ true)
        × (has_subject content ≡ true)
    unfolding sections timestamp_problems
    accepted_complete =
        let (
          fm,
          l,
          (m, (t, (_, (_, (_, (_, (_, (_, (_, (_, (_, (_, (_, (_, (_, (su, _)))))))))))))))),
        ) =
          accepted_sections accepted in
        let all_there =
          missing_fields-silent required_fields fm
            (ok-Silent (missing_fields required_fields fm) m) in
        (
          fm,
          l,
          all_there,
          timed fm all_there.1.1.1.1.0 (report-silent _ _ (ok-Silent _ t)),
          subject (has_subject content) (ok-Silent _ su),
        )
      where
        subject : (b : Bool) → report (not b) no_subject ≡ [] → b ≡ true
        subject true h = refl
        subject false h = absurd (ground arith)

        timed :
            (fm : Entries)
            → has "timestamp" fm ≡ true
            → (has "timestamp" fm && not (parse_bus_timestamp fromisoformat (get "timestamp" fm)))
              ≡ false
            → parse_bus_timestamp fromisoformat (get "timestamp" fm) ≡ true
        timed fm h k = ground arith

    -- F012: a message that may be written, and whose frontmatter has a privileged type, is from:
    -- human.
    pub accepted-human :
        (fm : Entries)
        → IsLoaded fm
        → is_one_of privileged_types (get "type" fm) ≡ true
        → get "from" fm ≡ str "human"
    unfolding sections privilege_problems
    accepted-human fm loaded privileged =
        let (_, (_, (_, (pr, _)))) = sections-Silent fm loaded in
        let quiet =
          asked (is_hashable (get "type" fm)) (is_one_of privileged_types (get "type" fm))
            not_from_human (λ b. b && not (is_text "human" (get "from" fm))) pr in
        is_text-eq "human" (get "from" fm) (ground arith)

    -- A message that may be written, and that names a type and goes to all, has a type of the
    -- broadcast whitelist.
    pub accepted-broadcast :
        (fm : Entries)
        → IsLoaded fm
        → get "to" fm ≡ str "all"
        → truthy (get "type" fm) ≡ true
        → is_one_of broadcast_types (get "type" fm) ≡ true
    unfolding sections broadcast_problems
    accepted-broadcast fm loaded to_all typed =
        let (_, (_, (_, (_, (_, (_, (_, (_, (_, (_, (_, (_, (_, (_, (br, _))))))))))))))) =
          sections-Silent fm loaded in
        let there = defaulted (find "to" fm) (str "") "all" to_all in
        let kind = defaulted_truthy (find "type" fm) (str "") typed in
        whitelisted (is_text "all" (get_or "to" (str "") fm)) (get_or "type" (str "") fm)
          (get "type" fm) kind (rw there (eq_text "all")) typed br
