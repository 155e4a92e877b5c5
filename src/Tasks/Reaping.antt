-- ===== src/Tasks/Reaping.antt =====
-- The startup sweep over tasks that were running when the process stopped.
use coulisse.Prelude.{
  ℕ, String, ◌≡◌, refl, Bool, true, false, ◌&&◌, none, some, [], ◌∷◌, arith, ◌==◌, string_eq, All,
  All-intro, find, keep, length, if◌then◌else◌,
}
use coulisse.Prelude.Int.{ℤ, ltb_ℤ}
use coulisse.Core.{u64_to_i64}
use coulisse.Core.TaskState
use coulisse.Core.TaskState.{errored, running}
use coulisse.Sql.{update_where, All-update_where, rows_affected}
use coulisse.Tasks.{TaskRow, Table, has_id, reap_test, reap_stale_running}
use coulisse.Tasks.Reading.{map_option}

-- A running row with no start, or one before the cutoff.
abbrev pub is_stale : ℤ → TaskRow → Bool
is_stale cutoff r =
    r.state == TaskState.as_str running
    && elim r.started_at [ none ↦ true | some t ↦ ltb_ℤ t cutoff ]

abbrev pub reaped : ℕ → ℤ → String → TaskRow → TaskRow
reaped now cutoff reason r =
    if is_stale cutoff r
    then record r {
      state = TaskState.as_str errored;
      finished_at = some (u64_to_i64 now);
      error = some reason;
    }
    else r

rows_affected-eq-length :
    (test : TaskRow → Bool) (table : Table) → rows_affected test table ≡ length (keep test table)
unfolding rows_affected
rows_affected-eq-length test [] = refl
rows_affected-eq-length test (r ∷ table) = ground (arith, rows_affected-eq-length test table)

find-reaped :
    (now : ℕ) (cutoff : ℤ) (reason k : String) (table : Table)
    → find (has_id k) (
        update_where
          (reap_test cutoff)
          (λ r. record r {
            state = TaskState.as_str errored;
            finished_at = some (u64_to_i64 now);
            error = some reason;
          })
          table)
      ≡ map_option (reaped now cutoff reason) (find (has_id k) table)
unfolding update_where reap_test
find-reaped now cutoff reason k [] = refl
find-reaped now cutoff reason k (r ∷ table) = ground (arith, find-reaped now cutoff reason k table)

-- The sweep errors exactly the stale rows, with the reason and the clock reading, leaves every other
-- row as it was, returns how many rows were stale, and leaves none stale behind.
pub reap_exact :
    (now before : ℕ) (reason : String) (table : Table)
    → ((k : String)
        → find (has_id k) (reap_stale_running now before reason table).0
          ≡ map_option (reaped now (u64_to_i64 before) reason) (find (has_id k) table))
      × ((reap_stale_running now before reason table).1
          ≡ length (keep (is_stale (u64_to_i64 before)) table))
      × All
          (λ r. is_stale (u64_to_i64 before) r ≡ false)
          (reap_stale_running now before reason table).0
unfolding reap_stale_running TaskState.as_str
reap_exact now before reason table = (
  λ k. find-reaped now (u64_to_i64 before) reason k table,
  rows_affected-eq-length (reap_test (u64_to_i64 before)) table,
  All-update_where (λ _. Unit {0}) (λ r. is_stale (u64_to_i64 before) r ≡ false)
      (reap_test (u64_to_i64 before)) _ table (λ r _ _. refl) (λ r _ e. e)
      (All-intro (λ _. Unit {0}) table (λ _. tt)),
)
