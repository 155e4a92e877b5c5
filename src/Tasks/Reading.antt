-- ===== src/Tasks/Reading.antt =====
-- What `get` returns after the other operations, and what the startup sweep leaves behind.
use coulisse.Prelude.{
  ℕ, String, ◌≡◌, refl, Option, none, some, [], ◌∷◌, ◌++◌, arith, ==_iff, ==_refl, ◌==◌, string_eq,
  nat_eq, Option-cases, inl, inr, find, ok, ◌>>=◌, if◌then◌else◌,
}
use coulisse.Core.{u64_to_i64, i64_to_u64}
use coulisse.Core.TaskState
use coulisse.Core.TaskState.{TaskState, done, errored, queued, running}
use coulisse.Uuid.{UuidCrate}
use coulisse.Sql.{update_where}
use coulisse.Tasks.{
  TaskRow, Table, Task, TaskSubmission, has_id, new_row, into_task, enqueue, get, mark_done,
  mark_errored,
}

abbrev pub map_option : {A B : Type 0} → (A → B) → Option A → Option B
map_option f none = none
map_option f (some a) = some (f a)

-- An update of the rows of one id changes what is found at that id, and at no other.
find-update_where :
    (k j : String) (change : TaskRow → TaskRow) (table : Table)
    → ((r : TaskRow) → (change r).id ≡ r.id)
    → find (has_id j) (update_where (has_id k) change table)
      ≡ (if k == j then map_option change (find (has_id j) table) else find (has_id j) table)
unfolding update_where
find-update_where k j change [] same = ground arith
find-update_where k j change (r ∷ table) same = ground (
  arith,
  same r,
  ==_iff r.id k,
  ==_iff r.id j,
  ==_iff k j,
  find-update_where k j change table same,
)

find-append_one :
    (j : String) (table : Table) (r : TaskRow)
    → find (has_id r.id) table ≡ none
    → find (has_id j) (table ++ r ∷ []) ≡ (if r.id == j then some r else find (has_id j) table)
find-append_one j [] r h = refl
find-append_one j (q ∷ table) r h =
    ground (arith, ==_iff r.id j, ==_iff q.id j, ==_iff q.id r.id, find-append_one j table r)

module _ (c : UuidCrate) where
  open c use {Uuid, to_string, parse_str, parse_str-to_string}

  abbrev as_done : ℕ → String → TaskRow → TaskRow
  as_done now result r = record r {
    state = TaskState.as_str done;
    finished_at = some (u64_to_i64 now);
    result = some result;
  }

  abbrev as_errored : ℕ → String → TaskRow → TaskRow
  as_errored now error r = record r {
    state = TaskState.as_str errored;
    finished_at = some (u64_to_i64 now);
    error = some error;
  }

  into_task-new_row :
      (now : ℕ) (id : Uuid) (s : TaskSubmission Uuid)
      → (into_task c (new_row c now id s) >>= λ t. ok (some t))
        ≡ ok (
            some (record {
              agent = s.agent;
              created_at = i64_to_u64 (u64_to_i64 now);
              error = none;
              finished_at = none;
              id = id;
              prompt = s.prompt;
              result = none;
              started_at = none;
              state = queued;
              user_id = s.user_id;
            }))
  unfolding into_task
  into_task-new_row now id s = ground (
    arith,
    TaskState.from_str-as_str queued,
    parse_str-to_string id,
    parse_str-to_string s.user_id,
  )

  -- A task that was enqueued under a fresh id reads back queued, with what was submitted and no
  -- result yet.
  pub get-enqueue :
      (now : ℕ) (id : Uuid) (s : TaskSubmission Uuid) (table : Table)
      → find (has_id (to_string id)) table ≡ none
      → get c id (enqueue c now id s table).0
        ≡ ok (
            some (record {
              agent = s.agent;
              created_at = i64_to_u64 (u64_to_i64 now);
              error = none;
              finished_at = none;
              id = id;
              prompt = s.prompt;
              result = none;
              started_at = none;
              state = queued;
              user_id = s.user_id;
            }))
  unfolding get enqueue
  get-enqueue now id s table fresh =
      rw (fresh, enqueue)
        (rw
          (
            find-append_one (to_string id) table (new_row c now id s) fresh,
            ==_refl (to_string id),
            get,
          )
          (into_task-new_row now id s))

  into_task-as_done :
      (now : ℕ) (result : String) (r : TaskRow) {t : Task Uuid}
      → into_task c r ≡ ok t
      → into_task c (as_done now result r)
        ≡ ok (record t {
          state = done;
          finished_at = some (i64_to_u64 (u64_to_i64 now));
          result = some result;
        })
  unfolding into_task
  into_task-as_done now result r h = ground (arith, TaskState.from_str-as_str done)

  into_task-as_errored :
      (now : ℕ) (error : String) (r : TaskRow) {t : Task Uuid}
      → into_task c r ≡ ok t
      → into_task c (as_errored now error r)
        ≡ ok (record t {
          state = errored;
          finished_at = some (i64_to_u64 (u64_to_i64 now));
          error = some error;
        })
  unfolding into_task
  into_task-as_errored now error r h = ground (arith, TaskState.from_str-as_str errored)

  -- Once a stored task is marked done, `get` returns it finished at the clock reading with the result,
  -- and every other id reads as before.
  pub get-mark_done :
      (now : ℕ) (id j : Uuid) (result : String) (table : Table) (t : Task Uuid)
      → get c id table ≡ ok (some t)
      → get c j (mark_done c now id result table) ≡ (
          if to_string id == to_string j
          then ok (
              some (record t {
                state = done;
                finished_at = some (i64_to_u64 (u64_to_i64 now));
                result = some result;
              }))
          else get c j table)
  unfolding get mark_done
  get-mark_done now id j result table t h =
      elim (Option-cases (find (has_id (to_string id)) table)) [
        | inl e ↦ absurd (ground arith)
        | inr (r, e) ↦ ground (
          arith,
          find-update_where (to_string id) (to_string j) (as_done now result) table (λ q. refl),
          ==_iff (to_string id) (to_string j),
          into_task-as_done now result r {t = t},
        )
      ]

  -- Once a stored task is marked errored, `get` returns it finished at the clock reading with the
  -- reason, and every other id reads as before.
  pub get-mark_errored :
      (now : ℕ) (id j : Uuid) (error : String) (table : Table) (t : Task Uuid)
      → get c id table ≡ ok (some t)
      → get c j (mark_errored c now id error table) ≡ (
          if to_string id == to_string j
          then ok (
              some (record t {
                state = errored;
                finished_at = some (i64_to_u64 (u64_to_i64 now));
                error = some error;
              }))
          else get c j table)
  unfolding get mark_errored
  get-mark_errored now id j error table t h =
      elim (Option-cases (find (has_id (to_string id)) table)) [
        | inl e ↦ absurd (ground arith)
        | inr (r, e) ↦ ground (
          arith,
          find-update_where (to_string id) (to_string j) (as_errored now error) table (λ q. refl),
          ==_iff (to_string id) (to_string j),
          into_task-as_errored now error r {t = t},
        )
      ]
