-- ===== src/SpecLifecycle/OpenSpec.antt =====
-- src/otaman_core/spec_lifecycle.py: reading and writing a change's .openspec.yaml. `store` is the
-- file that writing a value with `yaml.safe_dump` leaves.
use otaman_core.Prelude.{
  String, Bool, true, false, Option, none, some, Result, ok, require, ◌>>=◌, elem, is_empty,
  if◌then◌else◌,
}
use otaman_core.Yaml.{
  Value, Entries, null, str, dict, end, File, absent, unreadable, content, get, put,
}
use otaman_core.SpecLifecycle.{stages, SpecError, unknown_stage}

abbrev dict_or_empty : Value → Entries
dict_or_empty (dict es) = es
dict_or_empty v = end

unfoldable pub read_openspec : File → Entries
read_openspec (content v) = dict_or_empty v
read_openspec _ = end

abbrev pub filled_text : Value → Option String
filled_text (str s) = if is_empty s then none else some s
filled_text v = none

unfoldable pub read_stage : File → Option String
unfolding read_openspec
read_stage file = filled_text (get "stage" (read_openspec file))

abbrev neither_null_nor_dict : Value → Bool
neither_null_nor_dict null = false
neither_null_nor_dict (dict es) = false
neither_null_nor_dict v = true

unfoldable pub openspec_is_unreadable : File → Bool
openspec_is_unreadable absent = false
openspec_is_unreadable unreadable = true
openspec_is_unreadable (content v) = neither_null_nor_dict v

module _ (store : Value → File) where
  unfoldable pub rewrite_yaml_key : File → String → Value → File
  unfolding read_openspec
  rewrite_yaml_key file key value = store (dict (put key value (read_openspec file)))

  unfoldable pub set_stage : File → String → Result SpecError File
  unfolding rewrite_yaml_key
  set_stage file stage = do
    u ← require (elem stage stages) (unknown_stage stage)
    ok (rewrite_yaml_key file "stage" (str stage))
