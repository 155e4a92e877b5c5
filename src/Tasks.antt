-- ===== src/Tasks.antt =====
-- crates/tasks/src/queue.rs and error.rs: the persistent queue of background agent runs, as the
-- table `tasks` and its operations. Each statement is modelled where SQLite carries it out; the
-- clock reading `now_secs()` and the fresh id are arguments.
pub mod Rows
pub mod Calls
pub mod Invariant
pub mod Spent
pub mod Claims
pub mod Reaping
pub mod Tests
pub mod Reading
use coulisse.Prelude.{
  ℕ, String, Bool, ◌&&◌, ◌||◌, Option, none, some, List, [], ◌∷◌, ◌++◌, map, Result, ok, err, ◌>>=◌,
  ok_or, ◌==◌, string_eq, nat_eq, if◌then◌else◌, find, keep, true, false,
}
use coulisse.Prelude.Int.{ℤ, ltb_ℤ}
use coulisse.Core.{u64_to_i64, i64_to_u64}
use coulisse.Core.TaskState
use coulisse.Core.TaskState.{TaskState, done, errored, queued, running}
use coulisse.Uuid.{UuidCrate}
use coulisse.Sql.{Ordering, first, update_where, rows_affected}

pub record TaskRow : Type 0 where
  pub agent : String
  pub created_at : ℤ
  pub error : Option String
  pub finished_at : Option ℤ
  pub id : String
  pub prompt : String
  pub result : Option String
  pub started_at : Option ℤ
  pub state : String
  pub user_id : String

pub record Task (Uuid : Type 0) : Type 0 where
  pub agent : String
  pub created_at : ℕ
  pub error : Option String
  pub finished_at : Option ℕ
  pub id : Uuid
  pub prompt : String
  pub result : Option String
  pub started_at : Option ℕ
  pub state : TaskState
  pub user_id : Uuid

pub record TaskSubmission (Uuid : Type 0) : Type 0 where
  pub agent : String
  pub prompt : String
  pub user_id : Uuid

-- `Database` is SQLite's refusal of a second row with one primary key.
pub data TaskError : Type 0 where
  database : TaskError
  invalid_id : String → TaskError
  invalid_user_id : String → String → TaskError
  unknown_state : String → String → TaskError

abbrev pub Table : Type 0
Table = List TaskRow

abbrev pub has_id : String → TaskRow → Bool
has_id k r = r.id == k

abbrev pub has_state : TaskState → TaskRow → Bool
has_state s r = r.state == TaskState.as_str s

abbrev map_option : {A B : Type 0} → (A → B) → Option A → Option B
map_option f none = none
map_option f (some a) = some (f a)

module _ (c : UuidCrate) where
  open c use {Uuid, to_string, parse_str}

  unfoldable pub into_task : TaskRow → Result TaskError (Task Uuid)
  into_task r = do
    state ← elim (TaskState.from_str r.state) [
      | ok s ↦ ok s
      | err word ↦ err (unknown_state r.id word)
    ]
    task_uuid ← ok_or (parse_str r.id) (invalid_id r.id)
    user_uuid ← ok_or (parse_str r.user_id) (invalid_user_id r.id r.user_id)
    ok (record {
      agent = r.agent;
      created_at = i64_to_u64 r.created_at;
      error = r.error;
      finished_at = map_option i64_to_u64 r.finished_at;
      id = task_uuid;
      prompt = r.prompt;
      result = r.result;
      started_at = map_option i64_to_u64 r.started_at;
      state = state;
      user_id = user_uuid;
    })

  -- What `next_runnable` returns for the row that it claimed.
  claimed_task : ℤ → TaskRow → Result TaskError (Option (Task Uuid))
  claimed_task now row = do
    task ← into_task row
    ok (some (record task { state = running; started_at = some (i64_to_u64 now) }))

  -- The row that `enqueue` inserts; the columns that it does not name are null.
  abbrev pub new_row : ℕ → Uuid → TaskSubmission Uuid → TaskRow
  new_row now_secs id submission = record {
    agent = submission.agent;
    created_at = u64_to_i64 now_secs;
    error = none;
    finished_at = none;
    id = to_string id;
    prompt = submission.prompt;
    result = none;
    started_at = none;
    state = TaskState.as_str queued;
    user_id = to_string submission.user_id;
  }

  unfoldable pub enqueue : ℕ → Uuid → TaskSubmission Uuid → Table → Table × Result TaskError Uuid
  enqueue now_secs id submission table = elim (find (has_id (to_string id)) table) [
    | some _ ↦ (table, err database)
    | none ↦ (table ++ new_row now_secs id submission ∷ [], ok id)
  ]

  unfoldable pub get : Uuid → Table → Result TaskError (Option (Task Uuid))
  get id table = elim (find (has_id (to_string id)) table) [
    | none ↦ ok none
    | some row ↦ into_task row >>= λ t. ok (some t)
  ]

  unfoldable pub mark_done : ℕ → Uuid → String → Table → Table
  mark_done now_secs id result table =
      update_where (has_id (to_string id))
        (λ r. record r {
          state = TaskState.as_str done;
          finished_at = some (u64_to_i64 now_secs);
          result = some result;
        })
        table

  unfoldable pub mark_errored : ℕ → Uuid → String → Table → Table
  mark_errored now_secs id error table =
      update_where (has_id (to_string id))
        (λ r. record r {
          state = TaskState.as_str errored;
          finished_at = some (u64_to_i64 now_secs);
          error = some error;
        })
        table

-- `WHERE id = ? AND state = 'queued'`.
abbrev pub is_claimable : String → TaskRow → Bool
is_claimable k r = r.id == k && r.state == TaskState.as_str queued

abbrev pub set_running : ℤ → TaskRow → TaskRow
set_running now r = record r { state = TaskState.as_str running; started_at = some now }

-- The `UPDATE` of `next_runnable`.
unfoldable pub claim : ℤ → TaskRow → Table → Table
claim now row table = update_where (is_claimable row.id) (set_running now) table

unfoldable pub reap_test : ℤ → TaskRow → Bool
reap_test cutoff r =
    has_state running r && elim r.started_at [ none ↦ true | some t ↦ ltb_ℤ t cutoff ]

-- The table, and how many rows were touched.
unfoldable pub reap_stale_running : ℕ → ℕ → String → Table → Table × ℕ
unfolding reap_test
reap_stale_running now_secs started_before_secs reason table = (
  update_where (reap_test (u64_to_i64 started_before_secs))
      (λ r. record r {
        state = TaskState.as_str errored;
        finished_at = some (u64_to_i64 now_secs);
        error = some reason;
      })
      table,
  rows_affected (reap_test (u64_to_i64 started_before_secs)) table,
)

module _ (o : Ordering) where
  -- `WHERE state = 'queued' ORDER BY created_at LIMIT 1`.
  unfoldable pub oldest_queued : Table → Option TaskRow
  oldest_queued table =
      first (o.order_by TaskRow (λ r. r.created_at) (keep (has_state queued) table))

  module _ (c : UuidCrate) where
    open c use {Uuid}

    -- The row is read from `seen` and claimed in `table`: one and the same unless another worker
    -- committed in between.
    unfoldable pub next_runnable_from :
        ℕ → Table → Table → Table × Result TaskError (Option (Task Uuid))
    unfolding claimed_task
    next_runnable_from now_secs seen table = elim (oldest_queued seen) [
      | none ↦ (table, ok none)
      | some row ↦ (
        claim (u64_to_i64 now_secs) row table,
        if rows_affected (is_claimable row.id) table == 0
            then ok none
            else claimed_task c (u64_to_i64 now_secs) row,
      )
    ]

    unfoldable pub next_runnable : ℕ → Table → Table × Result TaskError (Option (Task Uuid))
    unfolding next_runnable_from
    next_runnable now_secs table = next_runnable_from now_secs table table
