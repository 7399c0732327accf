-- ===== src/Roster/Tests.antt =====
-- src/otaman_core/human_roster.py: a roster of one person.
use otaman_core.Prelude.{none, [], ◌∷◌, ok, ◌≡◌, refl}
use otaman_core.Yaml.{File, content, str, list, dict, nil, cons, end, entry}
use otaman_core.Roster.{Human}
use otaman_core.Roster.Load.{
  name_of, email_of, texts, roles_of, user_of, coerce_entry, coerce_entries, parse_human_roster,
  block_of, load_human_roster,
}

abbrev platform : File
platform = content (
    dict (
      entry (str "human-roster")
        (list (
          cons
            (dict (
              entry (str "name") (str "ann")
                (entry (str "roles") (list (cons (str "cto") nil)) end)))
            nil))
        end))

abbrev ann : Human
ann = record { name = "ann"; email = none; roles = "cto" ∷ []; pm_user_id = none }

loaded : load_human_roster platform ≡ ok (ann ∷ [])
unfolding load_human_roster block_of parse_human_roster coerce_entries coerce_entry name_of email_of
    texts roles_of user_of
loaded = refl
