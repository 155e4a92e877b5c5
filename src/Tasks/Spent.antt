-- ===== src/Tasks/Spent.antt =====
-- A task that has left the queue stays out of it: no call puts a row back, and a claim takes every
-- row of its id out.
use mathlib.Core.List.{Memᴰ, map-append}
use mathlib.Core.List.Memᴰ
use coulisse.Prelude.{
  ℕ, String, ◌≡◌, ◌≢◌, refl, sym, ap, subst, ◌∙◌, Bool, true, some, arith, string_eq, nat_eq, All,
  All-intro, All-append, All-mem, Option-cases, inl, inr, find, find-none, ok,
}
use coulisse.Prelude.Int.{ℤ}
use coulisse.Core.{u64_to_i64}
use coulisse.Core.TaskState
use coulisse.Core.TaskState.{TaskState, done, errored, queued, running}
use coulisse.Uuid.{UuidCrate}
use coulisse.Sql.{Ordering, update_where, map-update_where, All-update_where}
use coulisse.Tasks.{
  TaskRow, Table, Task, TaskSubmission, has_id, is_claimable, into_task, enqueue, mark_done,
  mark_errored, claim, set_running, reap_test, reap_stale_running, next_runnable_from,
  oldest_queued,
}
use coulisse.Tasks.Rows.{is_claimable→eq, eq→is_claimable}
use coulisse.Tasks.Calls.{Call, enqueues, marks_done, marks_errored, claims, reaps, step}
use coulisse.Tasks.Invariant.{ids, ids-ne, IsPrinted, IsValid}

abbrev pub NotQueued : String → TaskRow → Type 0
NotQueued k r = r.id ≡ k → r.state ≢ TaskState.as_str queued

-- A row has the id `k`, and no row of that id waits.
pub record IsSpent (k : String) (table : Table) : Type 0 where
  pub present : Memᴰ k (ids table)
  pub taken : All (NotQueued k) table

update-IsSpent :
    (k : String) (test : TaskRow → Bool) (change : TaskRow → TaskRow) (table : Table)
    → ((r : TaskRow) → (change r).id ≡ r.id)
    → ((r : TaskRow) → (change r).state ≢ TaskState.as_str queued)
    → IsSpent k table
    → IsSpent k (update_where test change table)
update-IsSpent k test change table same moved v = record {
  present = rw (map-update_where (λ r. r.id) test change table same) v.present;
  taken =
      All-update_where (NotQueued k) (NotQueued k) test change table (λ r _ _ _. moved r)
        (λ r p _. p) v.taken;
}

word_ne : (x : TaskState) → x ≢ queued → TaskState.as_str x ≢ TaskState.as_str queued
word_ne x ne e = ne (TaskState.as_str-injective x queued e)

module _ (c : UuidCrate) where
  open c use {Uuid, to_string, parse_str, parse_str-to_string}

  enqueue-IsSpent :
      (k : String) (now : ℕ) (id : Uuid) (s : TaskSubmission Uuid) (table : Table)
      → IsSpent k table
      → IsSpent k (enqueue c now id s table).0
  unfolding enqueue
  enqueue-IsSpent k now id s table v = elim (Option-cases (find (has_id (to_string id)) table)) [
    | inr (r, e) ↦ rw (e, enqueue) v
    | inl e ↦
        rw (e, enqueue)
          (record {
            present = rw (map-append (λ q. q.id) table) (Memᴰ.append_left _ v.present);
            taken = All-append (NotQueued k) table _ v.taken (
              λ f.
                  absurd (
                    All-mem _ (ids-ne (to_string id) table (find-none _ table e)) v.present
                      (sym f)),
              tt,
            );
          })
  ]

  module _ (o : Ordering) where
    claims-IsSpent :
        (k : String) (now : ℕ) (seen table : Table)
        → IsSpent k table
        → IsSpent k (next_runnable_from o c now seen table).0
    unfolding next_runnable_from claim
    claims-IsSpent k now seen table v = elim (Option-cases (oldest_queued o seen)) [
      | inl e ↦ rw (e, next_runnable_from) v
      | inr (row, e) ↦
          rw (e, next_runnable_from)
            (update-IsSpent k (is_claimable row.id) _ table (λ r. refl)
              (λ r. word_ne running (λ f. grind arith)) v)
    ]

    pub step-IsSpent :
        (k : String) (table : Table) (call : Call c)
        → IsSpent k table
        → IsSpent k (step c o table call)
    unfolding step mark_done mark_errored reap_stale_running
    step-IsSpent k table (enqueues now id s) v = enqueue-IsSpent k now id s table v
    step-IsSpent k table (marks_done now id result) v =
        update-IsSpent k _ _ table (λ r. refl) (λ r. word_ne done (λ f. grind arith)) v
    step-IsSpent k table (marks_errored now id error) v =
        update-IsSpent k _ _ table (λ r. refl) (λ r. word_ne errored (λ f. grind arith)) v
    step-IsSpent k table (claims now seen) v = claims-IsSpent k now seen table v
    step-IsSpent k table (reaps now before reason) v =
        update-IsSpent k (reap_test (u64_to_i64 before)) _ table (λ r. refl)
          (λ r. word_ne errored (λ f. grind arith)) v

    pub into_task-id :
        (row : TaskRow) {t : Task Uuid} → into_task c row ≡ ok t → parse_str row.id ≡ some t.id
    unfolding into_task
    into_task-id row h = ground arith

    -- The claim of a row takes every row of its id out of the queue.
    claim-taken :
        (now : ℤ) (row : TaskRow) (table : Table) → All (NotQueued row.id) (claim now row table)
    unfolding claim
    claim-taken now row table =
        All-update_where (λ _. Unit {0}) (NotQueued row.id) (is_claimable row.id) _ table
          (λ r _ _ _. word_ne running (λ f. grind arith))
          (λ r _ h e f. cc (h, eq→is_claimable row.id r e f))
          (All-intro (λ _. Unit {0}) table (λ _. tt))

    ids-claim : (now : ℤ) (row : TaskRow) (table : Table) → ids (claim now row table) ≡ ids table
    unfolding claim
    ids-claim now row table =
        map-update_where (λ q. q.id) (is_claimable row.id) (set_running now) table (λ q. refl)

    parsed-printed :
        (k : String) (u u' : Uuid) → k ≡ to_string u → parse_str k ≡ some u' → to_string u' ≡ k
    parsed-printed k u u' e f =
        let g : some u ≡ some u' = sym (parse_str-to_string u) ∙ ap parse_str (sym e) ∙ f in
        let h : u ≡ u' = cc g in sym (e ∙ ap to_string h)

    pub claim-IsSpent :
        (now : ℕ) (row r : TaskRow) (table : Table) (u : Uuid)
        → IsValid c table
        → parse_str row.id ≡ some u
        → Memᴰ r table
        → is_claimable row.id r ≡ true
        → (¬ IsSpent (to_string u) table) × IsSpent (to_string u) (claim (u64_to_i64 now) row table)
    claim-IsSpent now row r table u v f m h =
        let (same, waits) = is_claimable→eq row.id r h in
        let printed = All-mem (IsPrinted c) v.printed m in
        let e : to_string u ≡ row.id = parsed-printed row.id printed.0 u (sym same ∙ printed.1) f in
        rw e (
          (λ spent. All-mem (NotQueued row.id) spent.taken m same waits),
          record {
            present = rw ids-claim (subst (λ k. Memᴰ k (ids table)) same (Memᴰ.map (λ q. q.id) m));
            taken = claim-taken (u64_to_i64 now) row table;
          },
        )
