-- ===== src/Bus/CcFanout/Copies.antt =====
-- The other two functions of src/otaman_core/bus/cc_fanout.py: load_routing_rules and inject_x_cc.
-- A `platform.yaml` that is not UTF-8, whose error the code lets out, is left aside.
use otaman_core.Prelude.{
  Char, code, String, Option, none, some, List, [], ◌∷◌, ◌+++◌, ◌==◌, Result, ok, err, ◌>>=◌,
  is_space, rstrip, starts_with, drop_prefix, if◌then◌else◌,
}
use otaman_core.Yaml.{
  Value, Entries, File, absent, unreadable, content, list, dict, end, items, truthy, get,
}

-- The `AttributeError` of `.get` on what is no mapping.
pub data NoGet : Type 0 where
  no_get : NoGet

-- `v or {}`, on which `.get` is called
abbrev mapping_or_empty : Value → Result NoGet Entries
mapping_or_empty (dict es) = ok es
mapping_or_empty v = if truthy v then err no_get else ok end

unfoldable pub mappings : List Value → List Entries
mappings [] = []
mappings (dict es ∷ vs) = es ∷ mappings vs
mappings (v ∷ vs) = mappings vs

abbrev pub rules_of : Value → List Entries
rules_of (list vs) = mappings (items vs)
rules_of v = []

unfoldable pub load_routing_rules : File → Result NoGet (List Entries)
load_routing_rules absent = ok []
load_routing_rules unreadable = ok []
load_routing_rules (content data_read) = do
  platform ← mapping_or_empty data_read
  bus_cfg ← mapping_or_empty (get "bus" platform)
  ok (rules_of (get "routing_rules" bus_cfg))

-- `(.*?)(\n---)`: the text before the first line that starts with the fence, and what follows it
unfoldable pub cut_fence : String → Option (String × String)
cut_fence String.[] = none
cut_fence (String.◌∷◌ c s) =
    let later = cut_fence s in
    if starts_with (String.◌∷◌ c s) "\n---"
    then some ("", drop_prefix (String.◌∷◌ c s) "\n---")
    else elim later [ none ↦ none | some p ↦ some (String.◌∷◌ c p.0, p.1) ]

pub record Split : Type 0 where
  pub head : String
  pub fm_body : String
  pub rest : String

abbrev pub with_char : Char → Split → Split
with_char c m = record { head = String.◌∷◌ c m.head; fm_body = m.fm_body; rest = m.rest }

abbrev pub split_here : Char → Option (String × String) → Option Split
split_here c none = none
split_here c (some p) = some (record { head = String.◌∷◌ c ""; fm_body = p.0; rest = p.1 })

-- `\s*\n` and the rest of the pattern: the longest run of blanks for which it matches
unfoldable pub split_head : String → Option Split
unfolding cut_fence
split_head String.[] = none
split_head (String.◌∷◌ c s) =
    let longer = split_head s in
    if is_space (code c)
    then elim longer [
      | none ↦ if code c == b'\n' then split_here c (cut_fence s) else none
      | some m ↦ some (with_char c m)
    ]
    else none

-- `fm_body.rstrip("\n") + "\nx-cc: true"`
unfoldable pub flagged : String → String
unfolding rstrip
flagged fm_body = rstrip (λ n. n == b'\n') fm_body +++ "\nx-cc: true"

abbrev pub injected : String → Option Split → String
injected text none = text
injected text (some m) = "---" +++ m.head +++ flagged m.fm_body +++ "\n---" +++ m.rest

unfoldable pub inject_x_cc : String → String
unfolding split_head
inject_x_cc text =
    if starts_with text "---" then injected text (split_head (drop_prefix text "---")) else text
