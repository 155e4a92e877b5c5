-- ===== src/Judges.antt =====
-- crates/judges/src/config.rs, whose sampling rate is of a type of the caller's, and the merge of
-- crates/judges/src/merge.rs at this configuration.
use coulisse.Prelude.{String, List}
use coulisse.Merge.{Merged, MergeReport, DynamicRow, AdminEntry, merge, admin_view}

-- The rubrics are in the order of their names, as a `BTreeMap` holds them.
pub record JudgeConfig (F32 : Type 0) : Type 0 where
  pub model : String
  pub name : String
  pub provider : String
  pub rubrics : List (String × String)
  pub sampling_rate : F32

module _ {F32 : Type 0} where
  abbrev pub judges_merge :
      List (JudgeConfig F32)
      → List (DynamicRow (JudgeConfig F32))
      → List (Merged (JudgeConfig F32)) × MergeReport
  judges_merge yaml db = merge (λ cfg. cfg.name) yaml db

  abbrev pub judges_admin_view :
      List (JudgeConfig F32)
      → List (DynamicRow (JudgeConfig F32))
      → List (AdminEntry (JudgeConfig F32))
  judges_admin_view yaml db = admin_view (λ cfg. cfg.name) yaml db
