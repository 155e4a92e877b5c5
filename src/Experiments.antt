-- ===== src/Experiments.antt =====
-- crates/experiments/src/config.rs and crates/experiments/src/router.rs: the experiments, and how
-- a request for one is routed to a variant. The `f32`s are of a type of the caller's, with the
-- operations that the router uses of them.
pub mod Seeds
pub mod Routing
pub mod Router
pub mod Picks
pub mod Bandit
pub mod Shadow
pub mod Tests
use coulisse.Prelude.{ℕ, ◌^◌, ◌-◌, String, Bool, Option, List, leb, if◌then◌else◌}
use coulisse.Merge.{Merged, MergeReport, DynamicRow, AdminEntry, merge, admin_view}

pub data Strategy : Type 0 where
  bandit shadow split : Strategy

pub record Variant (F32 : Type 0) : Type 0 where
  pub agent : String
  pub weight : F32

pub record ExperimentConfig (F32 : Type 0) : Type 0 where
  pub bandit_window_seconds : Option ℕ
  pub epsilon : Option F32
  pub metric : Option String
  pub min_samples : Option ℕ
  pub name : String
  pub primary : Option String
  pub purpose : Option String
  pub sampling_rate : Option F32
  pub sticky_by_user : Bool
  pub strategy : Strategy
  pub variants : List (Variant F32)

pub record AgentScoreSummary (F32 : Type 0) : Type 0 where
  pub agent_name : String
  pub mean : F32
  pub samples : ℕ

module _ {F32 : Type 0} where
  abbrev pub experiments_merge :
      List (ExperimentConfig F32)
      → List (DynamicRow (ExperimentConfig F32))
      → List (Merged (ExperimentConfig F32)) × MergeReport
  experiments_merge yaml db = merge (λ cfg. cfg.name) yaml db

  abbrev pub experiments_admin_view :
      List (ExperimentConfig F32)
      → List (DynamicRow (ExperimentConfig F32))
      → List (AdminEntry (ExperimentConfig F32))
  experiments_admin_view yaml db = admin_view (λ cfg. cfg.name) yaml db
