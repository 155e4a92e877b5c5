-- ===== src/Core/Migrate/Runs.antt =====
-- Whole runs of crates/core/src/migrate.rs: where they stop, and that a second run does nothing.
use coulisse.Prelude.{
  ℕ, String, ◌≡◌, inl, inr, refl, sym, ap, ◌∙◌, subst, false, some, List, [], ◌∷◌, ◌==◌, ==_iff,
  ==_refl, string_eq, Result, ok, err, Result-cases, Option-cases, Bool-cases, arith,
}
use coulisse.Core.Migrate.{
  MigrateError, SemverCrate, SchemaMigrator, Database, version_of, record_version, last,
  from_stored, split_sql, parse_versions, unsorted, validate, execute_all, initialize, walk,
  bring_up, run,
}
use coulisse.Core.Migrate.Walks.{Climbs, arrived, climbed, Walked, walk-Walked}
use coulisse.Core.Migrate.Versions.{IsOrder, from_stored-last}

version_of-record_version :
    (name version : String) (rows : List (String × String))
    → version_of name (record_version name version rows) ≡ some version
version_of-record_version name version [] = rw (==_refl name) refl
version_of-record_version name version ((n, v) ∷ rows) = elim (Bool-cases (n == name)) [
  | inl e ↦ rw (e, e) refl
  | inr e ↦ rw (e, e) (version_of-record_version name version rows)
]

last-climb :
    {Tables : Type 0} (m : SchemaMigrator Tables) {vs rest : List String} {t u : Tables}
    → Climbs m vs t rest u
    → last vs ≡ last rest
last-climb m arrived = refl
last-climb m (climbed f c) = last-climb m c

-- What is found starts at the version that is looked for and ends where the list ends.
from_stored-some :
    (stored : String) (vs found : List String)
    → from_stored stored vs ≡ some found
    → (rest : List String) × (found ≡ stored ∷ rest) × (last found ≡ last vs)
from_stored-some stored [] found h = cc h
from_stored-some stored (v ∷ vs) found h = elim (Bool-cases (v == stored)) [
  | inl e ↦
      let here : v ∷ vs ≡ found = some-injective (v ∷ vs) found (rw e at h) in
      (vs, sym here ∙ ap (λ s. s ∷ vs) ((==_iff v stored).0 e), ap last (sym here))
  | inr e ↦
      let (rest, same, ends) = from_stored-some stored vs found (rw e at h) in
      (rest, same, ends ∙ longer vs (rw e at h))
]
  where
    some-injective : (a b : List String) → some a ≡ some b → a ≡ b
    some-injective a b e = ground arith

    longer : (ws : List String) → from_stored stored ws ≡ some found → last ws ≡ last (v ∷ ws)
    longer [] e = cc e
    longer (w ∷ ws) e = refl

module _ (crate : SemverCrate) {Tables : Type 0} (m : SchemaMigrator Tables) where
  validate-ok :
      {target : String}
      → validate crate m ≡ ok target
      → (last m.versions ≡ some target)
        × ((ps : List crate.Version) × (parse_versions crate m.name m.versions ≡ ok ps)
            × (unsorted crate ps ≡ false))
  unfolding validate
  validate-ok {target} h = elim (Option-cases (last m.versions)) [
    | inl e ↦ absurd (cc (rw e at h))
    | inr (t, e) ↦ elim (Result-cases (parse_versions crate m.name m.versions)) [
      | inr (e', f) ↦ absurd (cc (rw (e, f) at h))
      | inl (ps, f) ↦ elim (Bool-cases (unsorted crate ps)) [
        | inl g ↦ absurd (cc (rw (e, f, g) at h))
        | inr g ↦ (e ∙ ground (arith, rw (e, f, g) at h), (ps, f, g))
      ]
    ]
  ]

  module _ (execute : List ℕ → Tables → Result String Tables) (db : Database Tables) where
    run_valid :
        {target : String}
        → validate crate m ≡ ok target
        → run execute crate m db ≡ bring_up execute m target (version_of m.name db.recorded) db
    unfolding run
    run_valid valid = rw (valid, run) refl

    run_invalid :
        {e : MigrateError} → validate crate m ≡ err e → run execute crate m db ≡ (err e, db)
    unfolding run
    run_invalid invalid = rw (invalid, run) refl

    -- With an accepted version list and a recorded version in it, a run upgrades the tables gap by
    -- gap up to the version that is recorded afterwards, and stops there for the error of an
    -- upgrade, or at the last version; the rows of the other features are as they were.
    pub run-Walked :
        (target stored : String) (found : List String)
        → validate crate m ≡ ok target
        → version_of m.name db.recorded ≡ some stored
        → from_stored stored m.versions ≡ some found
        → Walked m found db (run execute crate m db).0 (run execute crate m db).1
    run-Walked target stored found valid h e =
        let (rest, same, _) = from_stored-some stored m.versions found e in
        rw (run_valid valid, h, e)
          (subst (λ vs. Walked m vs db (walk m vs db).0 (walk m vs db).1) (sym same)
            (walk-Walked m stored rest db h))

    -- A run that succeeds leaves the last version recorded.
    run-last :
        (target : String) (after : Database Tables)
        → validate crate m ≡ ok target
        → run execute crate m db ≡ (ok tt, after)
        → version_of m.name after.recorded ≡ some target
    unfolding initialize
    run-last target after valid h =
        let g = sym (run_valid valid) ∙ h in
        elim (Option-cases (version_of m.name db.recorded)) [
          | inl e ↦ elim (Result-cases (execute_all execute (split_sql m.schema) db.tables)) [
            | inl (tables, f) ↦
                let done = rw (e, bring_up, f, initialize) at g in
                subst (λ rows. version_of m.name rows ≡ some target) (ap (λ r. r.1.recorded) done)
                  (version_of-record_version m.name target db.recorded)
            | inr (e', f) ↦ absurd (cc (ap (λ r. r.0) (rw (e, bring_up, f, initialize) at g)))
          ]
          | inr (stored, e) ↦ elim (Option-cases (from_stored stored m.versions)) [
            | inl f ↦ absurd (cc (ap (λ r. r.0) (rw (e, f) at g)))
            | inr (found, f) ↦
                let w = run-Walked target stored found valid e f in
                let ends = (from_stored-some stored m.versions found f).2 in
                elim w.ended [
                  | inl (_, over) ↦
                      let final : last (w.version ∷ []) ≡ some target =
                        ap (λ vs. last (w.version ∷ vs)) (sym over)
                        ∙ sym (last-climb m w.climbs)
                        ∙ ends
                        ∙ (validate-ok valid).0 in
                      ap (λ r. version_of m.name r.1.recorded) (sym h) ∙ w.recorded ∙ final
                  | inr (e', bad, _, _) ↦ absurd (cc (sym bad ∙ ap (λ r. r.0) h))
                ]
          ]
        ]

  -- With SemVer's order, after a run that succeeds the recorded version is the last of the list,
  -- and a second run succeeds and changes nothing.
  pub run_again :
      (execute : List ℕ → Tables → Result String Tables) (db after : Database Tables)
      → IsOrder crate
      → run execute crate m db ≡ (ok tt, after)
      → (version_of m.name after.recorded ≡ last m.versions)
        × (run execute crate m after ≡ (ok tt, after))
  unfolding walk
  run_again execute db after order h = elim (Result-cases (validate crate m)) [
    | inr (e, f) ↦ absurd (cc (ap (λ r. r.0) (sym (run_invalid execute db f) ∙ h)))
    | inl (target, f) ↦
        let recorded = run-last execute db target after f h in
        let (ends, (ps, parsed, sorted)) = validate-ok f in
        (
          recorded ∙ sym ends,
          rw
              (
                run_valid execute after f,
                recorded,
                from_stored-last crate m.name order m.versions ps target parsed sorted ends,
              )
              refl,
        )
  ]
