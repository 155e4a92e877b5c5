-- ===== src/Core/Migrate/Tests.antt =====
-- The migrators of the tests of crates/core/src/migrate.rs: tables are the statements that ran.
use coulisse.Prelude.{
  ℕ, String, ◌≡◌, refl, Option, none, some, List, [], ◌∷◌, ◌++◌, Result, ok, err, codes,
  if◌then◌else◌, leb, ◌==◌, string_eq, split_on, split_at, trim, arith,
}
use coulisse.Core.Migrate.{
  UpgradeError, unknown_step, unsorted_versions, upgrade, SemverCrate, SchemaMigrator, Database,
  version_of, last, lines, split_sql, validate, initialize, walk, run,
}
use coulisse.Core.Migrate.Walks.{Walked}
use coulisse.Core.Migrate.Versions.{IsOrder}
use coulisse.Core.Migrate.Runs.{run-Walked, run_again}

abbrev Tables : Type 0
Tables = List (List ℕ)

abbrev known : String → Option ℕ
known text =
    if text == "0.1.0"
    then some 10
    else if text == "0.2.0"
    then some 20
    else if text == "0.3.0"
    then some 30
    else none

abbrev three_versions : SemverCrate
three_versions = record { Version = ℕ; parse = known; at_least = λ v w. leb w v }

three_versions-IsOrder : IsOrder three_versions
three_versions-IsOrder = record {
  reflexive = λ v. ground arith;
  transitive = λ u v w h k. ground arith;
}

abbrev run_statement : List ℕ → Tables → Result String Tables
run_statement stmt tables = ok (tables ++ stmt ∷ [])

abbrev add_color : String → Tables → Result UpgradeError Tables
add_color from tables =
    if from == "0.1.0"
    then ok (tables ++ codes "ALTER" ∷ [])
    else err (unknown_step from "upgrader")

abbrev upgrader : SchemaMigrator Tables
upgrader = record {
  name = "upgrader";
  schema = codes "CREATE a; -- the first;\n  CREATE b;\n";
  versions = "0.1.0" ∷ "0.2.0" ∷ [];
  upgrade_from = add_color;
}

-- A crate that added a version and no step to it.
abbrev stranded : SchemaMigrator Tables
stranded = record upgrader { versions = "0.1.0" ∷ "0.2.0" ∷ "0.3.0" ∷ [] }

abbrev fresh : Database Tables
fresh = record { tables = []; recorded = [] }

abbrev old : Database Tables
old = record {
  tables = codes "CREATE a" ∷ [];
  recorded = ("other", "9.9.9") ∷ ("upgrader", "0.1.0") ∷ [];
}

abbrev made : Database Tables
made = record {
  tables = codes "CREATE a" ∷ codes "CREATE b" ∷ [];
  recorded = ("upgrader", "0.2.0") ∷ [];
}

comments_end_at_the_line :
    split_sql (codes "CREATE a; -- the first;\n  CREATE b;\n")
    ≡ codes "CREATE a" ∷ codes "CREATE b" ∷ []
unfolding split_sql lines
comments_end_at_the_line = refl

fresh_is_made : run run_statement three_versions upgrader fresh ≡ (ok tt, made)
unfolding run validate initialize split_sql lines split_on split_at trim
fresh_is_made = refl

unsorted_is_refused :
    run run_statement three_versions (record upgrader { versions = "0.2.0" ∷ "0.1.0" ∷ [] }) fresh
    ≡ (err (unsorted_versions "upgrader"), fresh)
unfolding run validate
unsorted_is_refused = refl

-- The step to 0.2.0 stays when the one to 0.3.0 is missing.
stranded_stops : run run_statement three_versions stranded old ≡ (
  err (upgrade (unknown_step "0.2.0" "upgrader")),
  record {
    tables = codes "CREATE a" ∷ codes "ALTER" ∷ [];
    recorded = ("other", "9.9.9") ∷ ("upgrader", "0.2.0") ∷ [];
  },
)
unfolding run validate walk
stranded_stops = refl

run-Walked_example :
    Walked stranded
      ("0.1.0" ∷ "0.2.0" ∷ "0.3.0" ∷ [])
      old
      (run run_statement three_versions stranded old).0
      (run run_statement three_versions stranded old).1
unfolding validate
run-Walked_example =
    run-Walked three_versions stranded run_statement old "0.3.0" "0.1.0"
      ("0.1.0" ∷ "0.2.0" ∷ "0.3.0" ∷ []) refl refl refl

run_again_example :
    (version_of "upgrader" made.recorded ≡ last upgrader.versions)
    × (run run_statement three_versions upgrader made ≡ (ok tt, made))
run_again_example =
    run_again three_versions upgrader run_statement fresh made three_versions-IsOrder fresh_is_made
