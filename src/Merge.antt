-- ===== src/Merge.antt =====
-- crates/agents/src/merge.rs, and with it the merge.rs of crates/experiments, crates/judges and
-- crates/smoke, which are the same code for another type of configuration: how the entries of the
-- YAML file and the rows of the database become the list that runs and the list that the
-- administrator sees.
pub mod Loops
pub mod Effective
pub mod Agreement
pub mod Counts
pub mod Tests
use coulisse.Prelude.{
  string_eq, ℕ, suc, String, Bool, true, false, Option, none, some, List, [], ◌∷◌, ◌++◌, map,
  if◌then◌else◌, any, ◌==◌, sort_by, filter_map,
}
use coulisse.Prelude.Int.{ℤ}

pub data Source : Type 0 where
  dynamic overridden from_yaml : Source

-- `MergedAgent`.
pub record Merged (Config : Type 0) : Type 0 where
  pub config : Config
  pub source : Source

pub record MergeReport : Type 0 where
  pub dynamic_count : ℕ
  pub override_count : ℕ
  pub tombstone_count : ℕ
  pub yaml_count : ℕ

pub record DynamicRow (Config : Type 0) : Type 0 where
  pub config : Option Config
  pub created_at : ℤ
  pub disabled : Bool
  pub name : String
  pub updated_at : ℤ

pub data AdminSource : Type 0 where
  dynamic overridden tombstoned from_yaml : AdminSource

-- `AdminAgent`.
pub record AdminEntry (Config : Type 0) : Type 0 where
  pub config : Option Config
  pub name : String
  pub source : AdminSource
  pub yaml_backed : Bool

-- A `HashMap` collected from the rows: of two rows of a name the later one stays.
unfoldable pub get_by_name : {R : Type 0} → (R → String) → String → List R → Option R
get_by_name key name [] = none
get_by_name key name (r ∷ rows) = elim (get_by_name key name rows) [
  | none ↦ if key r == name then some r else none
  | some later ↦ some later
]

-- The list and the report that the two loops of `merge` fill.
pub record Merging (Config : Type 0) : Type 0 where
  pub merged : List (Merged Config)
  pub report : MergeReport

module _ {Config : Type 0} where
  abbrev pub push_yaml : Config → Merging Config → Merging Config
  push_yaml cfg s = record {
    merged = s.merged ++ record { config = cfg; source = Source.from_yaml } ∷ [];
    report = record s.report { yaml_count = suc s.report.yaml_count };
  }

  abbrev pub push_override : Config → Merging Config → Merging Config
  push_override cfg s = record {
    merged = s.merged ++ record { config = cfg; source = Source.overridden } ∷ [];
    report = record s.report { override_count = suc s.report.override_count };
  }

  abbrev pub push_dynamic : Config → Merging Config → Merging Config
  push_dynamic cfg s = record {
    merged = s.merged ++ record { config = cfg; source = Source.dynamic } ∷ [];
    report = record s.report { dynamic_count = suc s.report.dynamic_count };
  }

  abbrev pub count_tombstone : Merging Config → Merging Config
  count_tombstone s = record {
    merged = s.merged;
    report = record s.report { tombstone_count = suc s.report.tombstone_count };
  }

  -- `if let Some(cfg) = config { push }`.
  abbrev pub if_some :
      (Config → Merging Config → Merging Config) → Option Config → Merging Config → Merging Config
  if_some push none s = s
  if_some push (some cfg) s = push cfg s

  -- One turn of the first loop, with the row that has the entry's name.
  abbrev pub merge_entry : Config → Option (DynamicRow Config) → Merging Config → Merging Config
  merge_entry cfg none s = push_yaml cfg s
  merge_entry cfg (some row) s =
      if row.disabled then count_tombstone s else if_some push_override row.config s

  -- One turn of the second loop; `declared` says that the YAML file has the name.
  abbrev pub merge_row : Bool → DynamicRow Config → Merging Config → Merging Config
  merge_row declared row s =
      if declared
      then s
      else if row.disabled
      then count_tombstone s
      else if_some push_dynamic row.config s

  module _ (name_of : Config → String) where
    abbrev pub declares : List Config → String → Bool
    declares yaml name = any (λ cfg. name_of cfg == name) yaml

    abbrev pub row_of : List (DynamicRow Config) → Config → Option (DynamicRow Config)
    row_of db cfg = get_by_name (λ r. r.name) (name_of cfg) db

    unfoldable pub merge_entries :
        List (DynamicRow Config) → List Config → Merging Config → Merging Config
    merge_entries db [] s = s
    merge_entries db (cfg ∷ rest) s = merge_entries db rest (merge_entry cfg (row_of db cfg) s)

    unfoldable pub merge_rows :
        List Config → List (DynamicRow Config) → Merging Config → Merging Config
    merge_rows yaml [] s = s
    merge_rows yaml (row ∷ rest) s = merge_rows yaml rest (merge_row (declares yaml row.name) row s)

    unfoldable pub merge :
        List Config → List (DynamicRow Config) → List (Merged Config) × MergeReport
    merge yaml db =
        let start : Merging Config = record {
          merged = [];
          report = record {
            dynamic_count = 0;
            override_count = 0;
            tombstone_count = 0;
            yaml_count = 0;
          };
        } in
        let done = merge_rows yaml db (merge_entries db yaml start) in
        (sort_by (λ m. name_of m.config) done.merged, done.report)

    abbrev pub admin_entry : Config → Option (DynamicRow Config) → AdminEntry Config
    admin_entry cfg none = record {
      config = some cfg;
      name = name_of cfg;
      source = AdminSource.from_yaml;
      yaml_backed = true;
    }
    admin_entry cfg (some row) =
        if row.disabled
        then record {
          config = none;
          name = name_of cfg;
          source = AdminSource.tombstoned;
          yaml_backed = true;
        }
        else record {
          config = row.config;
          name = name_of cfg;
          source = AdminSource.overridden;
          yaml_backed = true;
        }

  abbrev pub active_row : String → Option Config → Option (AdminEntry Config)
  active_row name none = none
  active_row name (some cfg) =
      some (record {
        config = some cfg;
        name = name;
        source = AdminSource.dynamic;
        yaml_backed = false;
      })

  abbrev pub admin_row : Bool → DynamicRow Config → Option (AdminEntry Config)
  admin_row declared row =
      if declared
      then none
      else if row.disabled
      then some (record {
        config = none;
        name = row.name;
        source = AdminSource.tombstoned;
        yaml_backed = false;
      })
      else active_row row.name row.config

  unfoldable pub admin_view :
      (Config → String) → List Config → List (DynamicRow Config) → List (AdminEntry Config)
  admin_view name_of yaml db =
      sort_by (λ entry. entry.name)
        (map (λ cfg. admin_entry name_of cfg (row_of name_of db cfg)) yaml
          ++ filter_map (λ row. admin_row (declares name_of yaml row.name) row) db)
