-- ===== src/Tasks/Tests.antt =====
-- The queue's theorems at small tables: text ids and the insertion order.
use mathlib.Core.List.{Memᴰ}
use text.Mathlib.TextEquality.{eq_iff}
use coulisse.Prelude.{
  ℕ, String, ◌≡◌, ◌≢◌, refl, true, false, none, some, List, [], ◌∷◌, ◌++◌, arith, All, Distinct, ok,
  find, keep, length, string_eq,
}
use coulisse.Prelude.Int.{pos, ◌≤ℤ◌}
use coulisse.Core.{u64_to_i64, i64_to_u64}
use coulisse.Core.TaskState
use coulisse.Core.TaskState.{done, errored, queued, running}
use coulisse.Uuid.{text_uuids}
use coulisse.Sql.{rows_affected}
use coulisse.Sql.Sort.{insertion_order}
use coulisse.Tasks.{
  TaskRow, Table, Task, TaskSubmission, has_id, has_state, into_task, get, next_runnable,
  oldest_queued, reap_stale_running,
}
use coulisse.Tasks.Rows.{is_queued}
use coulisse.Tasks.Calls.{Call, marks_done, claims, reaps, run, all_handed_out}
use coulisse.Tasks.Invariant.{IsValid, run-IsValid}
use coulisse.Tasks.Claims.{next_runnable_oldest, next_runnable-none, claimed_once}
use coulisse.Tasks.Reading.{map_option}
use coulisse.Tasks.Reaping.{is_stale, reaped, reap_exact}

abbrev waiting : String → ℕ → TaskRow
waiting id created_at = record {
  agent = "pm";
  created_at = pos created_at;
  error = none;
  finished_at = none;
  id = id;
  prompt = "do the thing";
  result = none;
  started_at = none;
  state = "queued";
  user_id = "u";
}

abbrev late_first : Table
late_first = waiting "a" 5 ∷ waiting "b" 3 ∷ []

late_first-IsValid : IsValid text_uuids late_first
unfolding TaskState.as_str
late_first-IsValid = record {
  printed = (("a", refl), (("b", refl), tt));
  distinct = ((ground (arith, eq_iff "a" "b"), tt), (tt, tt));
  lifecycle = (is_queued refl refl refl refl refl, (is_queued refl refl refl refl refl, tt));
}

abbrev claimed_b : Task String
claimed_b = record {
  agent = "pm";
  created_at = 3;
  error = none;
  finished_at = none;
  id = "b";
  prompt = "do the thing";
  result = none;
  started_at = some 9;
  state = running;
  user_id = "u";
}

picks_b : (next_runnable insertion_order text_uuids 9 late_first).1 ≡ ok (some claimed_b)
unfolding next_runnable oldest_queued into_task insertion_order TaskState.from_str TaskState.as_str
    u64_to_i64 i64_to_u64 rows_affected
picks_b = refl

next_runnable_oldest_example :
    (row : TaskRow) × Memᴰ row late_first
    × (row.state ≡ TaskState.as_str queued)
    × All (λ q. has_state queued q ≡ true → row.created_at ≤ℤ q.created_at) late_first
    × (some row.id ≡ some "b")
    × (running ≡ running)
    × (some 9 ≡ some (i64_to_u64 (u64_to_i64 9)))
next_runnable_oldest_example =
    next_runnable_oldest insertion_order text_uuids 9 late_first claimed_b picks_b

abbrev busy : Table
busy = record (waiting "c" 1) { state = "running"; started_at = some (pos 4) } ∷ []

next_runnable-none_example : All {A = TaskRow} (λ q. q.state ≢ TaskState.as_str queued) busy
next_runnable-none_example =
    next_runnable-none insertion_order text_uuids 9 busy
      (unfold next_runnable oldest_queued insertion_order TaskState.as_str in refl)

abbrev two_workers : List (Call text_uuids)
two_workers =
    claims 9 late_first
    ∷ claims 10 late_first
    ∷ marks_done 11 "b" "all good"
    ∷ reaps 12 20 "restart"
    ∷ []

claimed_once_example :
    Distinct (all_handed_out text_uuids insertion_order late_first [] two_workers)
claimed_once_example =
    claimed_once insertion_order text_uuids late_first two_workers late_first-IsValid

run-IsValid_example : IsValid text_uuids (run text_uuids insertion_order late_first two_workers)
run-IsValid_example =
    run-IsValid text_uuids insertion_order late_first two_workers late_first-IsValid

abbrev submission : TaskSubmission String
submission = record { agent = "pm"; prompt = "p"; user_id = "u" }

abbrev waiting_b : Task String
waiting_b = record claimed_b { started_at = none; state = queued }

reads_b : get text_uuids "b" late_first ≡ ok (some waiting_b)
unfolding get into_task TaskState.from_str i64_to_u64
reads_b = refl

abbrev interrupted : Table
interrupted = busy ++ late_first

reap_exact_example :
    ((k : String)
      → find (has_id k) (reap_stale_running 30 20 "restart" interrupted).0
        ≡ map_option (reaped 30 (u64_to_i64 20) "restart") (find (has_id k) interrupted))
    × ((reap_stale_running 30 20 "restart" interrupted).1
        ≡ length (keep (is_stale (u64_to_i64 20)) interrupted))
    × All
        (λ r. is_stale (u64_to_i64 20) r ≡ false)
        (reap_stale_running 30 20 "restart" interrupted).0
reap_exact_example = reap_exact 30 20 "restart" interrupted
