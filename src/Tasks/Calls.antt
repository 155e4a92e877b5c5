-- ===== src/Tasks/Calls.antt =====
-- Histories of the queue: submitters, workers and the startup sweep calling it in any order.
use coulisse.Prelude.{ℕ, String, Option, none, some, List, [], ◌∷◌, ◌++◌, Result, ok, err}
use coulisse.Uuid.{UuidCrate}
use coulisse.Sql.{Ordering}
use coulisse.Tasks.{
  Table, Task, TaskSubmission, TaskError, enqueue, mark_done, mark_errored, next_runnable_from,
  reap_stale_running,
}

module _ (c : UuidCrate) where
  open c use {Uuid}

  -- One call, with the clock reading that it makes. A claim also has the table that its `SELECT`
  -- saw, which another worker may have changed before its `UPDATE`.
  pub data Call : Type 0 where
    enqueues : ℕ → Uuid → TaskSubmission Uuid → Call
    marks_done : ℕ → Uuid → String → Call
    marks_errored : ℕ → Uuid → String → Call
    claims : ℕ → Table → Call
    reaps : ℕ → ℕ → String → Call

  module _ (o : Ordering) where
    unfoldable pub step : Table → Call → Table
    step table (enqueues now id submission) = (enqueue c now id submission table).0
    step table (marks_done now id result) = mark_done c now id result table
    step table (marks_errored now id error) = mark_errored c now id error table
    step table (claims now seen) = (next_runnable_from o c now seen table).0
    step table (reaps now before reason) = (reap_stale_running now before reason table).0

    unfoldable pub run : Table → List Call → Table
    run table [] = table
    run table (call ∷ calls) = run (step table call) calls

    abbrev pub claimed : Result TaskError (Option (Task Uuid)) → List Uuid
    claimed (ok (some task)) = task.id ∷ []
    claimed (ok none) = []
    claimed (err e) = []

    -- The tasks that a call hands to a worker.
    unfoldable pub handed_out : Table → Call → List Uuid
    handed_out table (claims now seen) = claimed (next_runnable_from o c now seen table).1
    handed_out table _ = []

    -- Those of a history, the latest first.
    unfoldable pub all_handed_out : Table → List Uuid → List Call → List Uuid
    all_handed_out table before [] = before
    all_handed_out table before (call ∷ calls) =
        all_handed_out (step table call) (handed_out table call ++ before) calls
