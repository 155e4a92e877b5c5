-- ===== src/Core/Migrate/Walks.antt =====
-- What a run of crates/core/src/migrate.rs leaves: tables that went through the upgrades up to
-- the version that is recorded for them.
use coulisse.Prelude.{
  String, ◌≡◌, ◌≢◌, ◌⊎◌, inl, inr, refl, ◌∙◌, some, List, [], ◌∷◌, ◌==◌, ==_iff, string_eq, Result,
  ok, err, Result-cases, Bool-cases, arith,
}
use coulisse.Core.Migrate.{
  UpgradeError, MigrateError, upgrade, SchemaMigrator, Database, version_of, update_version, walk,
}

version_of-update_version :
    (name version stored : String) (rows : List (String × String))
    → version_of name rows ≡ some stored
    → version_of name (update_version name version rows) ≡ some version
version_of-update_version name version stored [] h = cc h
version_of-update_version name version stored ((n, v) ∷ rows) h = elim (Bool-cases (n == name)) [
  | inl e ↦ rw e refl
  | inr e ↦ rw e (version_of-update_version name version stored rows (rw e at h))
]

version_of-update_other :
    (name other version : String) (rows : List (String × String))
    → name ≢ other
    → version_of other (update_version name version rows) ≡ version_of other rows
version_of-update_other name other version [] n = refl
version_of-update_other name other version ((m, v) ∷ rows) n =
    ground (arith, ==_iff m name, ==_iff m other, version_of-update_other name other version rows n)

module _ {Tables : Type 0} (m : SchemaMigrator Tables) where
  -- The tables `t` at the first version of a list are upgraded, gap by gap, to the tables `u` at a
  -- later version of it, behind which `rest` is left.
  pub data Climbs : List String → Tables → List String → Tables → Type 0 where
    arrived : {vs : List String} {t : Tables} → Climbs vs t vs t
    climbed :
        {from to : String} {vs rest : List String} {t u w : Tables}
        → m.upgrade_from from t ≡ ok u
        → Climbs (to ∷ vs) u rest w
        → Climbs (from ∷ to ∷ vs) t rest w

  -- Where a walk from tables at its first version ends: the tables have gone through the gaps up
  -- to the version that is recorded, the rows of the other features are as they were, and the walk
  -- stopped there for the error that it returns, or at the last version.
  pub record Walked (vs : List String) (db : Database Tables)
      (result : Result MigrateError (Unit {0})) (after : Database Tables) : Type 0 where
    pub version : String
    pub rest : List String
    pub climbs : Climbs vs db.tables (version ∷ rest) after.tables
    pub recorded : version_of m.name after.recorded ≡ some version
    pub spared :
        (other : String)
        → m.name ≢ other
        → version_of other after.recorded ≡ version_of other db.recorded
    pub ended :
        ((result ≡ ok tt) × (rest ≡ []))
        ⊎ ((e : UpgradeError) × (result ≡ err (upgrade e))
            × (rest ≢ [])
            × (m.upgrade_from version after.tables ≡ err e))

  pub walk-Walked :
      (from : String) (vs : List String) (db : Database Tables)
      → version_of m.name db.recorded ≡ some from
      → Walked (from ∷ vs) db (walk m (from ∷ vs) db).0 (walk m (from ∷ vs) db).1
  unfolding walk
  walk-Walked from [] db h = record {
    version = from;
    rest = [];
    climbs = arrived;
    recorded = h;
    spared = λ other n. refl;
    ended = inl (refl, refl);
  }
  walk-Walked from (to ∷ vs) db h = elim (Result-cases (m.upgrade_from from db.tables)) [
    | inr (e, f) ↦
        rw (f, walk)
          (record {
            version = from;
            rest = to ∷ vs;
            climbs = arrived;
            recorded = h;
            spared = λ other n. refl;
            ended = inr (e, refl, (λ q. cc q), f);
          })
    | inl (tables, f) ↦
        let w =
          walk-Walked to vs
            (record { tables = tables; recorded = update_version m.name to db.recorded })
            (version_of-update_version m.name to from db.recorded h) in
        rw (f, walk)
          (record {
            version = w.version;
            rest = w.rest;
            climbs = climbed f w.climbs;
            recorded = w.recorded;
            spared =
                λ other n. w.spared other n ∙ version_of-update_other m.name other to db.recorded n;
            ended = w.ended;
          })
  ]
