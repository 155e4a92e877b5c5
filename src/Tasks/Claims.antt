-- ===== src/Tasks/Claims.antt =====
-- `next_runnable` hands each task to one worker, the oldest first, and misses none.
use mathlib.Core.List.{Memᴰ}
use coulisse.Prelude.{
  ℕ, ◌≡◌, ◌≢◌, refl, sym, ap, subst, ◌∙◌, true, none, some, List, [], ◌∷◌, arith, ==_iff, string_eq,
  nat_eq, All, All-map, All-perm, All-of_keep, Distinct, Result-cases, Option-cases, inl, inr, ◌⊎◌,
  mem-perm, mem-keep, ok, keep,
}
use coulisse.Prelude.Int.{ℤ, ◌≤ℤ◌}
use coulisse.Core.{u64_to_i64, i64_to_u64}
use coulisse.Core.TaskState
use coulisse.Core.TaskState.{TaskState, done, errored, queued, running}
use coulisse.Uuid.{UuidCrate}
use coulisse.Sql.{
  Ordering, rows_affected, rows_affected-mem, mem-rows_affected, first-mem, first-none,
  first-IsSortedBy,
}
use coulisse.Tasks.{
  TaskRow, Table, Task, has_state, is_claimable, into_task, claim, next_runnable,
  next_runnable_from, oldest_queued,
}
use coulisse.Tasks.Rows.{has_state→eq, eq→is_claimable}
use coulisse.Tasks.Calls.{
  Call, enqueues, marks_done, marks_errored, claims, reaps, step, claimed, handed_out,
  all_handed_out,
}
use coulisse.Tasks.Invariant.{IsValid, step-IsValid}
use coulisse.Tasks.Spent.{IsSpent, step-IsSpent, into_task-id, claim-IsSpent}

module _ (o : Ordering) where
  -- The row that a claim picks is queued, and no queued row is older.
  oldest_queued_lem :
      (table : Table) {row : TaskRow}
      → oldest_queued o table ≡ some row
      → Memᴰ row table
        × (has_state queued row ≡ true)
        × All (λ q. has_state queued q ≡ true → row.created_at ≤ℤ q.created_at) table
  unfolding oldest_queued
  oldest_queued_lem table {row} e =
      let key : TaskRow → ℤ = λ r. r.created_at in
      let waiting = keep (has_state queued) table in
      let (m, q) =
        mem-keep (has_state queued) table
          (mem-perm (o.order_by-perm TaskRow key waiting) (first-mem _ e)) in
      (
        m,
        q,
        All-of_keep (λ q. row.created_at ≤ℤ q.created_at) (has_state queued) table
            (All-perm (λ q. row.created_at ≤ℤ q.created_at) (o.order_by-perm TaskRow key waiting)
              (first-IsSortedBy key _ (o.order_by-IsSortedBy TaskRow key waiting) e)),
      )

  oldest_queued-none :
      (table : Table)
      → oldest_queued o table ≡ none
      → All (λ q. has_state queued q ≡ true → ⊥) table
  unfolding oldest_queued
  oldest_queued-none table e =
      let key : TaskRow → ℤ = λ r. r.created_at in
      let waiting = keep (has_state queued) table in
      All-of_keep (λ _. ⊥) (has_state queued) table
        (All-perm (λ _. ⊥) (o.order_by-perm TaskRow key waiting) (rw (first-none _ e) tt))

  module _ (c : UuidCrate) where
    open c use {Uuid, to_string, parse_str, parse_str-to_string}

    -- A claim that returns a task touched a row, and read the picked row.
    claim_inversion :
        (now : ℕ) (seen table : Table) (task : Task Uuid)
        → (next_runnable_from o c now seen table).1 ≡ ok (some task)
        → (row : TaskRow) × (t : Task Uuid) × (oldest_queued o seen ≡ some row)
          × (rows_affected (is_claimable row.id) table ≢ 0)
          × (into_task c row ≡ ok t)
          × (task ≡ record t { state = running; started_at = some (i64_to_u64 (u64_to_i64 now)) })
    unfolding next_runnable_from
    claim_inversion now seen table task h = elim (Option-cases (oldest_queued o seen)) [
      | inl e ↦ absurd (ground arith)
      | inr (row, e) ↦ elim (Result-cases (into_task c row)) [
        | inr (bad, f) ↦ absurd (ground arith)
        | inl (t, f) ↦ (row, t, e, ground arith, f, ground arith)
      ]
    ]

    -- When `next_runnable` returns a task, that task was a queued row of the table, no queued row
    -- has an earlier `created_at`, and it comes back running, started at the clock reading.
    pub next_runnable_oldest :
        (now : ℕ) (table : Table) (task : Task Uuid)
        → (next_runnable o c now table).1 ≡ ok (some task)
        → (row : TaskRow) × Memᴰ row table
          × (row.state ≡ TaskState.as_str queued)
          × All (λ q. has_state queued q ≡ true → row.created_at ≤ℤ q.created_at) table
          × (parse_str row.id ≡ some task.id)
          × (task.state ≡ running)
          × (task.started_at ≡ some (i64_to_u64 (u64_to_i64 now)))
    unfolding next_runnable
    next_runnable_oldest now table task h =
        let (row, t, e, _, f, g) = claim_inversion now table table task h in
        let (m, q, first_of_all) = oldest_queued_lem table e in
        (
          row,
          m,
          has_state→eq queued row q,
          first_of_all,
          into_task-id c o row f ∙ ap (λ (x : Task Uuid). some x.id) (sym g),
          ap (λ (x : Task Uuid). x.state) g,
          ap (λ (x : Task Uuid). x.started_at) g,
        )

    claim_not_none :
        (now : ℕ) (seen table : Table) {row : TaskRow}
        → oldest_queued o seen ≡ some row
        → rows_affected (is_claimable row.id) table ≢ 0
        → (next_runnable_from o c now seen table).1 ≢ ok none
    unfolding next_runnable_from
    claim_not_none now seen table {row} e there h = elim (Result-cases (into_task c row)) [
      | inl (t, f) ↦ ground arith
      | inr (bad, f) ↦ ground arith
    ]

    claimed_table :
        (now : ℕ) (seen table : Table) {row : TaskRow}
        → oldest_queued o seen ≡ some row
        → (next_runnable_from o c now seen table).0 ≡ claim (u64_to_i64 now) row table
    unfolding next_runnable_from
    claimed_table now seen table e = ground arith

    -- `next_runnable` says that there is nothing to run only when no row of the table is queued.
    pub next_runnable-none :
        (now : ℕ) (table : Table)
        → (next_runnable o c now table).1 ≡ ok none
        → All (λ q. q.state ≢ TaskState.as_str queued) table
    unfolding next_runnable
    next_runnable-none now table h = elim (Option-cases (oldest_queued o table)) [
      | inl e ↦
          All-map _ (λ q. q.state ≢ TaskState.as_str queued) table
            (λ q n f. n ((==_iff q.state _).1 f)) (oldest_queued-none table e)
      | inr (row, e) ↦
          let (m, q, _) = oldest_queued_lem table e in
          let there =
            mem-rows_affected (is_claimable row.id) m
              (eq→is_claimable row.id row refl (has_state→eq queued row q)) in
          absurd (claim_not_none now table table e there h)
    ]

    -- What a call hands out was waiting before it, and is spent after it.
    abbrev HandsOut : Table → Call c → List Uuid → Type 0
    HandsOut table call us =
        (us ≡ [])
        ⊎ ((u : Uuid) × (us ≡ u ∷ [])
            × (¬ IsSpent (to_string u) table)
            × IsSpent (to_string u) (step c o table call))

    claims-HandsOut :
        (now : ℕ) (seen table : Table)
        → IsValid c table
        → HandsOut table (claims now seen) (handed_out c o table (claims now seen))
    unfolding handed_out step
    claims-HandsOut now seen table v =
        elim (Result-cases (next_runnable_from o c now seen table).1) [
          | inr (bad, e) ↦ inl (ap (claimed c o) e)
          | inl (none, e) ↦ inl (ap (claimed c o) e)
          | inl (some task, e) ↦
              let (row, t, f, touched, g, h) = claim_inversion now seen table task e in
              let (r, m, k) = rows_affected-mem (is_claimable row.id) table touched in
              let (before, after) =
                claim-IsSpent c o now row r table t.id v (into_task-id c o row g) m k in
              inr (
                t.id,
                ap (claimed c o) e ∙ ap (λ (x : Task Uuid). x.id ∷ []) h,
                before,
                subst (IsSpent (to_string t.id)) (sym (claimed_table now seen table f)) after,
              )
        ]

    handed_out-HandsOut :
        (table : Table) (call : Call c)
        → IsValid c table
        → HandsOut table call (handed_out c o table call)
    unfolding handed_out
    handed_out-HandsOut table (claims now seen) v = claims-HandsOut now seen table v
    handed_out-HandsOut table (enqueues now id s) v = inl refl
    handed_out-HandsOut table (marks_done now id result) v = inl refl
    handed_out-HandsOut table (marks_errored now id error) v = inl refl
    handed_out-HandsOut table (reaps now before reason) v = inl refl

    all_handed_out-Distinct :
        (table : Table) (before : List Uuid) (calls : List (Call c))
        → IsValid c table
        → All (λ u. IsSpent (to_string u) table) before
        → Distinct before
        → Distinct (all_handed_out c o table before calls)
    unfolding all_handed_out
    all_handed_out-Distinct table before [] v spent d = d
    all_handed_out-Distinct table before (call ∷ calls) v spent d =
        let later =
          All-map _ (λ u. IsSpent (to_string u) (step c o table call)) before
            (λ u s. step-IsSpent c o (to_string u) table call s) spent in
        let valid = step-IsValid c o table call v in
        elim (handed_out-HandsOut table call v) [
          | inl e ↦ rw e (all_handed_out-Distinct (step c o table call) before calls valid later d)
          | inr (u, e, waiting, after) ↦ rw e (
              all_handed_out-Distinct (step c o table call) (u ∷ before) calls valid (after, later)
                (
                  All-map _ (λ w. u ≢ w) before
                      (λ w s f. waiting (subst (λ x. IsSpent (to_string x) table) (sym f) s)) spent,
                  d,
                ))
        ]

    -- In any history of calls on a well-formed table, whatever tables the claims had read, no task
    -- is handed to a worker twice.
    pub claimed_once :
        (table : Table) (calls : List (Call c))
        → IsValid c table
        → Distinct (all_handed_out c o table [] calls)
    claimed_once table calls v = all_handed_out-Distinct table [] calls v tt tt
