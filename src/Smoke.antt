-- ===== src/Smoke.antt =====
-- crates/smoke/src/config.rs, and the merge of crates/smoke/src/merge.rs at this configuration.
use coulisse.Prelude.{ℕ, String, Option, List}
use coulisse.Merge.{Merged, MergeReport, DynamicRow, AdminEntry, merge, admin_view}

pub record PersonaConfig : Type 0 where
  pub model : String
  pub preamble : String
  pub provider : String

pub record SmokeTestConfig : Type 0 where
  pub initial_message : Option String
  pub max_turns : ℕ
  pub name : String
  pub persona : PersonaConfig
  pub repetitions : ℕ
  pub stop_marker : Option String
  pub target : String

abbrev pub smoke_merge :
    List SmokeTestConfig
    → List (DynamicRow SmokeTestConfig)
    → List (Merged SmokeTestConfig) × MergeReport
smoke_merge yaml db = merge (λ cfg. cfg.name) yaml db

abbrev pub smoke_admin_view :
    List SmokeTestConfig → List (DynamicRow SmokeTestConfig) → List (AdminEntry SmokeTestConfig)
smoke_admin_view yaml db = admin_view (λ cfg. cfg.name) yaml db
