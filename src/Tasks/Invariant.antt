-- ===== src/Tasks/Invariant.antt =====
-- Every call keeps the table well formed: one row for each id, ids that are printed UUIDs, and the
-- columns filled as the state of the row asks.
use mathlib.Core.List.{map-append}
use coulisse.Prelude.{
  ℕ, String, ◌≡◌, ◌≢◌, refl, Bool, true, false, List, [], ◌∷◌, ◌++◌, map, ==_iff, string_eq, All,
  All-append, Distinct, Distinct-append_one, ◌∙◌, Option-cases, inl, inr, find, find-none,
}
use coulisse.Core.{u64_to_i64}
use coulisse.Uuid.{UuidCrate}
use coulisse.Sql.{Ordering, update_where, map-update_where, All-update_where}
use coulisse.Tasks.{
  TaskRow, Table, TaskSubmission, has_id, is_claimable, enqueue, mark_done, mark_errored, claim,
  reap_test, reap_stale_running, next_runnable_from, oldest_queued,
}
use coulisse.Tasks.Rows.{
  Lifecycle, is_queued, is_errored, is_done, claim-Lifecycle, is_claimable→eq,
}
use coulisse.Tasks.Calls.{Call, enqueues, marks_done, marks_errored, claims, reaps, step, run}

abbrev pub ids : Table → List String
ids table = map (λ r. r.id) table

-- A table without the id `k` has no id that equals it.
pub ids-ne :
    (k : String) (table : Table)
    → All (λ r. has_id k r ≡ false) table
    → All (λ j. j ≢ k) (ids table)
ids-ne k [] h = tt
ids-ne k (r ∷ table) h = (λ e. cc (h.0, (==_iff r.id k).1 e), ids-ne k table h.1)

ids-append_one :
    (table : Table) (r : TaskRow)
    → All (λ q. has_id r.id q ≡ false) table
    → Distinct (ids table)
    → Distinct (ids (table ++ r ∷ []))
ids-append_one table r h d =
    rw (map-append (λ q. q.id) table (r ∷ []))
      (Distinct-append_one (ids table) r.id (ids-ne r.id table h) d)

module _ (c : UuidCrate) where
  open c use {Uuid, to_string}

  abbrev pub IsPrinted : TaskRow → Type 0
  IsPrinted r = (u : Uuid) × (r.id ≡ to_string u)

  pub record IsValid (table : Table) : Type 0 where
    pub printed : All IsPrinted table
    pub distinct : Distinct (ids table)
    pub lifecycle : All Lifecycle table

  update-IsValid :
      (test : TaskRow → Bool) (change : TaskRow → TaskRow) (table : Table)
      → ((r : TaskRow) → (change r).id ≡ r.id)
      → ((r : TaskRow) → Lifecycle r → test r ≡ true → Lifecycle (change r))
      → IsValid table
      → IsValid (update_where test change table)
  update-IsValid test change table same fill v = record {
    printed =
        All-update_where IsPrinted IsPrinted test change table (λ r p _. (p.0, same r ∙ p.1))
          (λ r p _. p) v.printed;
    distinct = rw (map-update_where (λ r. r.id) test change table same) v.distinct;
    lifecycle =
        All-update_where Lifecycle Lifecycle test change table fill (λ r p _. p) v.lifecycle;
  }

  enqueue-IsValid :
      (now : ℕ) (id : Uuid) (s : TaskSubmission Uuid) (table : Table)
      → IsValid table
      → IsValid (enqueue c now id s table).0
  unfolding enqueue
  enqueue-IsValid now id s table v = elim (Option-cases (find (has_id (to_string id)) table)) [
    | inr (r, e) ↦ rw (e, enqueue) v
    | inl e ↦
        rw (e, enqueue)
          (record {
            printed = All-append IsPrinted table _ v.printed ((id, refl), tt);
            distinct = ids-append_one table _ (find-none _ table e) v.distinct;
            lifecycle =
                All-append Lifecycle table _ v.lifecycle (is_queued refl refl refl refl refl, tt);
          })
  ]

  module _ (o : Ordering) where
    claims-IsValid :
        (now : ℕ) (seen table : Table)
        → IsValid table
        → IsValid (next_runnable_from o c now seen table).0
    unfolding next_runnable_from claim
    claims-IsValid now seen table v = elim (Option-cases (oldest_queued o seen)) [
      | inl e ↦ rw (e, next_runnable_from) v
      | inr (row, e) ↦
          rw (e, next_runnable_from)
            (update-IsValid (is_claimable row.id) _ table (λ r. refl)
              (λ r l h. claim-Lifecycle r _ l (is_claimable→eq row.id r h).1) v)
    ]

    -- Every call keeps the table well formed.
    pub step-IsValid :
        (table : Table) (call : Call c) → IsValid table → IsValid (step c o table call)
    unfolding step mark_done mark_errored reap_stale_running
    step-IsValid table (enqueues now id s) v = enqueue-IsValid now id s table v
    step-IsValid table (marks_done now id result) v =
        update-IsValid _ _ table (λ r. refl) (λ r l _. is_done refl _ result refl refl) v
    step-IsValid table (marks_errored now id error) v =
        update-IsValid _ _ table (λ r. refl) (λ r l _. is_errored refl _ error refl refl) v
    step-IsValid table (claims now seen) v = claims-IsValid now seen table v
    step-IsValid table (reaps now before reason) v =
        update-IsValid (reap_test (u64_to_i64 before)) _ table (λ r. refl)
          (λ r l _. is_errored refl _ reason refl refl) v

    -- Any history of calls keeps a well-formed table well-formed.
    pub run-IsValid :
        (table : Table) (calls : List (Call c)) → IsValid table → IsValid (run c o table calls)
    unfolding run
    run-IsValid table [] v = v
    run-IsValid table (call ∷ calls) v =
        run-IsValid (step c o table call) calls (step-IsValid table call v)
