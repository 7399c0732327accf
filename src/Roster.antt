-- ===== src/Roster.antt =====
-- src/otaman_core/human_roster.py: the people of platform.yaml, and which of them a name stands for.
pub mod Load
pub mod Resolve
pub mod Laws
mod Tests
use otaman_core.Prelude.{ℕ, String, Option, List}

-- An integer of YAML: `negative n` is -(n + 1).
pub data UserId : Type 0 where
  user negative : ℕ → UserId

pub record Human : Type 0 where
  pub name : String
  pub email : Option String
  pub roles : List String
  pub pm_user_id : Option UserId

-- The entry is named by its name's `repr`, or by its index when it has no name.
pub data Label : Type 0 where
  named : String → Label
  at_index : ℕ → Label

-- `ConfigError`
pub data ConfigError : Type 0 where
  not_entries : ConfigError
  not_a_mapping no_name : ℕ → ConfigError
  bad_email roles_not_list no_roles bad_role bad_user_id : Label → ConfigError
  -- `data.get` on a value that is not a dict: an AttributeError
  no_get : ConfigError

abbrev pub approver_role : String
approver_role = "approver"
