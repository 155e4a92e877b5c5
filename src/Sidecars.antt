-- ===== src/Sidecars.antt =====
-- crates/sidecars/src/config.rs: the helper processes that a configuration declares.
use coulisse.Prelude.{String, Option, List}

pub data RestartPolicy : Type 0 where
  always never on_failure : RestartPolicy

-- The environment is a list of names and values.
pub record SidecarConfig : Type 0 where
  pub args : List String
  pub command : String
  pub cwd : Option String
  pub env : List (String × String)
  pub name : String
  pub restart : RestartPolicy
