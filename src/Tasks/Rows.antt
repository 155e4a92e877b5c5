-- ===== src/Tasks/Rows.antt =====
-- What each operation of crates/tasks/src/queue.rs does to one row, whatever the row.
use coulisse.Prelude.{String, ◌≡◌, ◌≢◌, refl, sym, ◌∙◌, true, none, some, arith, ==_iff, string_eq}
use coulisse.Prelude.Int.{ℤ}
use coulisse.Core.TaskState
use coulisse.Core.TaskState.{TaskState, done, errored, queued, running}
use coulisse.Tasks.{TaskRow, has_state, is_claimable}

-- Which columns are filled in each state.
pub data Lifecycle (r : TaskRow) : Type 0 where
  is_queued :
      r.state ≡ TaskState.as_str queued
      → r.started_at ≡ none
      → r.finished_at ≡ none
      → r.result ≡ none
      → r.error ≡ none
      → Lifecycle r
  is_running :
      r.state ≡ TaskState.as_str running
      → (t : ℤ) → r.started_at ≡ some t
      → r.finished_at ≡ none
      → r.result ≡ none
      → r.error ≡ none
      → Lifecycle r
  is_done :
      r.state ≡ TaskState.as_str done
      → (t : ℤ) (v : String) → r.finished_at ≡ some t
      → r.result ≡ some v
      → Lifecycle r
  is_errored :
      r.state ≡ TaskState.as_str errored
      → (t : ℤ) (v : String) → r.finished_at ≡ some t
      → r.error ≡ some v
      → Lifecycle r

pub state_ne :
    (r : TaskRow) (x y : TaskState)
    → r.state ≡ TaskState.as_str x
    → x ≢ y
    → r.state ≢ TaskState.as_str y
state_ne r x y e ne f = ne (TaskState.as_str-injective x y (sym e ∙ f))

pub has_state→eq :
    (s : TaskState) (r : TaskRow) → has_state s r ≡ true → r.state ≡ TaskState.as_str s
has_state→eq s r h = (==_iff r.state (TaskState.as_str s)).0 h

pub is_claimable→eq :
    (k : String) (r : TaskRow)
    → is_claimable k r ≡ true
    → (r.id ≡ k) × (r.state ≡ TaskState.as_str queued)
is_claimable→eq k r h = ((==_iff r.id k).0 (ground arith), (==_iff r.state _).0 (ground arith))

pub eq→is_claimable :
    (k : String) (r : TaskRow)
    → r.id ≡ k
    → r.state ≡ TaskState.as_str queued
    → is_claimable k r ≡ true
eq→is_claimable k r e f = ground (arith, ==_iff r.id k, ==_iff r.state (TaskState.as_str queued))

-- Queued rows are blank, and claiming one fills in the start.
pub claim-Lifecycle :
    (r : TaskRow) (now : ℤ)
    → Lifecycle r
    → r.state ≡ TaskState.as_str queued
    → Lifecycle (record r { state = TaskState.as_str running; started_at = some now })
claim-Lifecycle r now (is_queued e a b c d) q = is_running refl now refl b c d
claim-Lifecycle r now (is_running e t a b c d) q =
    absurd (state_ne r running queued e (λ f. grind arith) q)
claim-Lifecycle r now (is_done e t v a b) q = absurd (state_ne r done queued e (λ f. grind arith) q)
claim-Lifecycle r now (is_errored e t v a b) q =
    absurd (state_ne r errored queued e (λ f. grind arith) q)
