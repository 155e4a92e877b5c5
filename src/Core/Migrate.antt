-- ===== src/Core/Migrate.antt =====
-- crates/core/src/migrate.rs: the schema versions of the feature crates, over the tables of the
-- database as a state of the caller's. SQLite's execution of a statement and the `semver` crate
-- are parameters; the statements on `coulisse_schema_versions` themselves succeed. A step that
-- fails is rolled back with its version.
pub mod Versions
pub mod Walks
pub mod Runs
pub mod Tests
use coulisse.Prelude.{
  ℕ, String, Bool, Option, none, some, List, [], ◌∷◌, ◌++◌, ◌||◌, not, map, if◌then◌else◌, ◌==◌,
  string_eq, nat_eq, false, Result, ok, err, ◌>>=◌, ◌>>◌, ok_or, keep, is_nil, codes, split_on,
  split_at, trim, trim_end_matches,
}

pub data UpgradeError : Type 0 where
  sqlx : String → UpgradeError
  unknown_step : (from name : String) → UpgradeError

pub data MigrateError : Type 0 where
  empty_versions : (name : String) → MigrateError
  invalid_version : (name version : String) → MigrateError
  failed : String → MigrateError
  unknown_stored_version : (name stored : String) → MigrateError
  unsorted_versions : (name : String) → MigrateError
  upgrade : UpgradeError → MigrateError

-- The `semver` crate: `at_least` is `>=`.
pub record SemverCrate : Type 1 where
  pub Version : Type 0
  pub parse : String → Option Version
  pub at_least : Version → Version → Bool

-- The trait `SchemaMigrator`, over the crate's tables.
pub record SchemaMigrator (Tables : Type 0) : Type 0 where
  pub name : String
  pub schema : List ℕ
  pub versions : List String
  pub upgrade_from : String → Tables → Result UpgradeError Tables

-- The default `upgrade_from`.
unfoldable pub no_upgrade :
    {Tables : Type 0} → String → String → Tables → Result UpgradeError Tables
no_upgrade name from tables = err (unknown_step from name)

-- The tables, and the rows of `coulisse_schema_versions`.
pub record Database (Tables : Type 0) : Type 0 where
  pub tables : Tables
  pub recorded : List (String × String)

abbrev pub version_of : String → List (String × String) → Option String
version_of name [] = none
version_of name ((n, version) ∷ rows) = if n == name then some version else version_of name rows

-- `INSERT … ON CONFLICT(name) DO UPDATE`.
abbrev pub record_version : String → String → List (String × String) → List (String × String)
record_version name version [] = (name, version) ∷ []
record_version name version ((n, v) ∷ rows) =
    if n == name then (n, version) ∷ rows else (n, v) ∷ record_version name version rows

-- `UPDATE … SET version = ? WHERE name = ?`.
abbrev pub update_version : String → String → List (String × String) → List (String × String)
update_version name version [] = []
update_version name version ((n, v) ∷ rows) =
    (n, if n == name then version else v) ∷ update_version name version rows

abbrev pub last : List String → Option String
last [] = none
last (v ∷ []) = some v
last (v ∷ w ∷ vs) = last (w ∷ vs)

-- `line.find("--")`, and what stands before it.
abbrev pub before_comment : Option (List ℕ × List ℕ) → List ℕ → List ℕ
before_comment none line = line
before_comment (some (code, comment)) line = code

abbrev pub strip_comment : List ℕ → List ℕ
strip_comment line = before_comment (split_at (codes "--") line) line

-- `lines()` ends a line at a line feed with the carriage return before it, and has no empty last
-- line.
abbrev pub end_line : List ℕ → List ℕ
end_line [] = []
end_line (c ∷ []) = if c == 13 then [] else c ∷ []
end_line (c ∷ d ∷ line) = c ∷ end_line (d ∷ line)

abbrev pub finish_lines : List ℕ → List (List ℕ) → List (List ℕ)
finish_lines line [] = if is_nil line then [] else line ∷ []
finish_lines line (next ∷ rest) = end_line line ∷ finish_lines next rest

unfoldable pub lines : List ℕ → List (List ℕ)
lines text = let (first, rest) = split_on 10 text in finish_lines first rest

abbrev pub join_lines : List (List ℕ) → List ℕ
join_lines [] = []
join_lines (line ∷ []) = line
join_lines (line ∷ next ∷ rest) = line ++ (10 ∷ join_lines (next ∷ rest))

unfoldable pub split_sql : List ℕ → List (List ℕ)
unfolding lines split_on trim split_at
split_sql sql =
    let (first, rest) = split_on b';' (join_lines (map strip_comment (lines sql))) in
    keep (λ s. not (is_nil s)) (map trim (first ∷ rest))

module _ (crate : SemverCrate) where
  abbrev pub parse_versions : String → List String → Result MigrateError (List crate.Version)
  parse_versions name [] = ok []
  parse_versions name (v ∷ vs) = ok_or (crate.parse v) (invalid_version name v) >>= λ parsed.
      parse_versions name vs >>= λ rest. ok (parsed ∷ rest)

  -- `windows(2).any(|w| w[0] >= w[1])`.
  abbrev pub unsorted : List crate.Version → Bool
  unsorted [] = false
  unsorted (v ∷ []) = false
  unsorted (v ∷ w ∷ vs) = crate.at_least v w || unsorted (w ∷ vs)

  abbrev pub check_sorted : String → String → List crate.Version → Result MigrateError String
  check_sorted name target parsed =
      if unsorted parsed then err (unsorted_versions name) else ok target

  unfoldable pub validate : {Tables : Type 0} → SchemaMigrator Tables → Result MigrateError String
  validate m = ok_or (last m.versions) (empty_versions m.name) >>= λ target.
      parse_versions m.name m.versions >>= check_sorted m.name target

-- The versions from the stored one on: `position`, and the range that starts there.
abbrev pub from_stored : String → List String → Option (List String)
from_stored stored [] = none
from_stored stored (v ∷ vs) = if v == stored then some (v ∷ vs) else from_stored stored vs

module _ {Tables : Type 0} where
  -- The loop over the gaps between the versions, each in a transaction of its own.
  unfoldable pub walk :
      SchemaMigrator Tables
      → List String
      → Database Tables
      → Result MigrateError (Unit {0}) × Database Tables
  walk m [] db = (ok tt, db)
  walk m (from ∷ []) db = (ok tt, db)
  walk m (from ∷ to ∷ vs) db = elim (m.upgrade_from from db.tables) [
    | ok tables ↦
        walk m (to ∷ vs)
          (record { tables = tables; recorded = update_version m.name to db.recorded })
    | err e ↦ (err (upgrade e), db)
  ]

  abbrev pub walk_found :
      SchemaMigrator Tables
      → String
      → Option (List String)
      → Database Tables
      → Result MigrateError (Unit {0}) × Database Tables
  walk_found m stored none db = (err (unknown_stored_version m.name stored), db)
  walk_found m stored (some vs) db = walk m vs db

module _ {Tables : Type 0} (execute : List ℕ → Tables → Result String Tables) where
  abbrev pub execute_all : List (List ℕ) → Tables → Result String Tables
  execute_all [] tables = ok tables
  execute_all (stmt ∷ stmts) tables = execute stmt tables >>= execute_all stmts

  unfoldable pub initialize :
      SchemaMigrator Tables
      → String
      → Database Tables
      → Result MigrateError (Unit {0}) × Database Tables
  initialize m target db = elim (execute_all (split_sql m.schema) db.tables) [
    | ok tables ↦
        (ok tt, record { tables = tables; recorded = record_version m.name target db.recorded })
    | err e ↦ (err (failed e), db)
  ]

  abbrev pub bring_up :
      SchemaMigrator Tables
      → String
      → Option String
      → Database Tables
      → Result MigrateError (Unit {0}) × Database Tables
  bring_up m target none db = initialize m target db
  bring_up m target (some stored) db = walk_found m stored (from_stored stored m.versions) db

  unfoldable pub run :
      SemverCrate
      → SchemaMigrator Tables
      → Database Tables
      → Result MigrateError (Unit {0}) × Database Tables
  run crate m db = elim (validate crate m) [
    | ok target ↦ bring_up m target (version_of m.name db.recorded) db
    | err e ↦ (err e, db)
  ]
