-- ===== src/SpecLifecycle/SpecPolicy.antt =====
-- src/otaman_core/spec_lifecycle.py: the `spec_policy:` block, and its cascade from the organisation
-- to the program.
use otaman_core.Prelude.{
  String, Bool, true, false, not, ◌||◌, List, [], ◌∷◌, str_eq, ◌==◌, all, if◌then◌else◌,
}
use otaman_core.Yaml.{
  Value, Entries, null, bool, int, negative, float, datetime, date, str, list, dict, end, entry,
  get, get_or, is_one_of, is_null, is_str, truthy, items, put,
}

abbrev pub enforcement_modes : List String
enforcement_modes = "block" ∷ "warn" ∷ "self-waive" ∷ []

abbrev pub process_levels : List String
process_levels = "spec-first" ∷ "solutions" ∷ "outcomes" ∷ "verified" ∷ []

abbrev pub delivery_modes : List String
delivery_modes = "hitl" ∷ "auto" ∷ []

pub record Policy : Type 0 where
  pub mandatory_proposal : Bool
  pub approvers : List String
  pub ratifiers : List String
  pub unapproved_stages : List String
  pub enforcement : String
  pub process_level : String
  pub delivery_default : String

abbrev pub default_policy : Policy
default_policy = record {
  mandatory_proposal = true;
  approvers = "approver" ∷ [];
  ratifiers = "approver" ∷ [];
  unapproved_stages = "pre-proposal" ∷ [];
  enforcement = "warn";
  process_level = "spec-first";
  delivery_default = "hitl";
}

abbrev texts : List Value → List String
texts [] = []
texts (str s ∷ vs) = s ∷ texts vs
texts (v ∷ vs) = texts vs

abbrev pub as_str_tuple : Value → List String → List String
as_str_tuple (list vs) default = if all is_str (items vs) then texts (items vs) else default
as_str_tuple v default = default

-- `v if v in options else default`
abbrev pub one_of : List String → Value → String → String
one_of options (str s) default = if is_one_of options (str s) then s else default
one_of options v default = default

abbrev pub level_in : Value → Value
level_in (dict process) = get "level" process
level_in v = null

unfoldable pub parse_spec_policy : Value → Policy
parse_spec_policy (dict block) = record {
  mandatory_proposal = truthy (get_or "mandatory_proposal" (bool true) block);
  approvers = as_str_tuple (get "approvers" block) ("approver" ∷ []);
  ratifiers = as_str_tuple (get "ratifiers" block) ("approver" ∷ []);
  unapproved_stages = as_str_tuple (get "unapproved_stages" block) ("pre-proposal" ∷ []);
  enforcement = one_of enforcement_modes (get "enforcement" block) "warn";
  process_level = one_of process_levels (level_in (get "process" block)) "spec-first";
  delivery_default = one_of delivery_modes (get "delivery_default" block) "hitl";
}
parse_spec_policy v = default_policy

-- Equal keys of a dict: True and False are 1 and 0. A float is equal to a float of the same text.
abbrev pub same_key : Value → Value → Bool
same_key null null = true
same_key (bool true) (bool b) = b
same_key (bool false) (bool b) = not b
same_key (bool b) (int n) = n == (if b then 1 else 0)
same_key (int n) (bool b) = n == (if b then 1 else 0)
same_key (int n) (int m) = n == m
same_key (negative n) (negative m) = n == m
same_key (float z s) (float y t) = str_eq s t
same_key (datetime s) (datetime t) = str_eq s t
same_key (date s) (date t) = str_eq s t
same_key (str s) (str t) = str_eq t s
same_key _ _ = false

-- `merged[k] = v`
unfoldable pub put_key : Value → Value → Entries → Entries
put_key k v end = entry k v end
put_key k v (entry j w es) =
    let rest = put_key k v es in if same_key k j then entry j v es else entry j w rest

-- `for k, v in block.items(): if v is not None: merged[k] = v`
unfoldable pub overlay : Entries → Entries → Entries
unfolding put_key
overlay end merged = merged
overlay (entry k v es) merged = overlay es (if is_null v then merged else put_key k v merged)

unfoldable pub overlay_block : Value → Entries → Entries
unfolding overlay
overlay_block (dict es) merged = overlay es merged
overlay_block v merged = merged

abbrev pub process_in : Value → Value
process_in (dict es) = get "process" es
process_in v = null

abbrev pub with_process : Entries → Entries → Entries
with_process end merged = merged
with_process (entry k v es) merged = put "process" (dict (entry k v es)) merged

unfoldable pub merged_block : Value → Value → Entries
unfolding overlay_block
merged_block org_block program_block =
    with_process
      (overlay_block (process_in program_block) (overlay_block (process_in org_block) end))
      (overlay_block program_block (overlay_block org_block end))

unfoldable pub resolve_spec_policy : Value → Value → Policy
unfolding parse_spec_policy merged_block
resolve_spec_policy org_block program_block =
    parse_spec_policy (dict (merged_block org_block program_block))

unfoldable pub solutions_stage_required :
    Policy → (impact_ge_l estimate_medium_plus multi_repo : Bool) → Bool
solutions_stage_required policy impact_ge_l estimate_medium_plus multi_repo =
    if str_eq policy.process_level "spec-first"
    then false
    else impact_ge_l || estimate_medium_plus || multi_repo
