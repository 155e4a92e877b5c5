-- ===== src/Limits/Usage.antt =====
-- The counters of a user add up what `record` was given in the present window.
use coulisse.Prelude.{
  ℕ, ◌+◌, ◌≤◌, ◌<◌, String, ◌≡◌, refl, List, [], ◌∷◌, arith, leb, ok, err, ◌==◌, string_eq, nat_eq,
  if◌then◌else◌, Bool-cases, inl, inr,
}
use coulisse.Core.{i64_max}
use coulisse.Limits.{
  WindowKind, Table, size_secs, database, stored_count, count, window_start, record_window,
  record_tokens, day, hour, month,
}
use coulisse.Limits.Windows.{IsKeyed, record_window-IsKeyed, stored_count-record_window}
use coulisse.Limits.Enforcement.{Usage, recorded, total, IsHistory}

record_tokens-IsKeyed :
    (now : ℕ) (user : String) (tokens : ℕ) (table : Table)
    → IsKeyed table
    → IsKeyed (record_tokens now user tokens table)
unfolding record_tokens
record_tokens-IsKeyed now user tokens table h = elim (Bool-cases (tokens == 0)) [
  | inl e ↦ rw e h
  | inr e ↦ rw e (
      record_window-IsKeyed now user tokens month _ (
        record_window-IsKeyed now user tokens day _
          (record_window-IsKeyed now user tokens hour table h)))
]

recorded-IsKeyed : (history : List Usage) → IsKeyed (recorded history)
unfolding recorded
recorded-IsKeyed [] = tt
recorded-IsKeyed (u ∷ history) =
    record_tokens-IsKeyed u.now u.user u.tokens (recorded history) (recorded-IsKeyed history)

abbrev added : ℕ → String → String → ℕ → WindowKind → ℕ → ℕ → ℕ
added now user user' tokens kind start used =
    if user == user' then (if window_start kind now == start then used + tokens else 0) else used

-- The three writes touch one row of each kind, so a kind sees one of them.
stored_count-record_windows :
    (now : ℕ) (user user' : String) (tokens : ℕ) (kind : WindowKind) (start : ℕ) (table : Table)
    → IsKeyed table
    → tokens ≤ i64_max
    → now ≤ i64_max
    → start ≤ i64_max
    → stored_count user' kind start (
        record_window now user tokens month
          (record_window now user tokens day (record_window now user tokens hour table)))
      ≡ added now user user' tokens kind start (stored_count user' kind start table)
stored_count-record_windows now user user' tokens kind start table h t n s =
    let in_hour = record_window now user tokens hour table in
    let in_day = record_window now user tokens day in_hour in
    let hour_ok = record_window-IsKeyed now user tokens hour table h in
    let day_ok = record_window-IsKeyed now user tokens day in_hour hour_ok in
    ground (
      arith,
      stored_count-record_window now user user' tokens hour kind start table h t n s,
      stored_count-record_window now user user' tokens day kind start in_hour hour_ok t n s,
      stored_count-record_window now user user' tokens month kind start in_day day_ok t n s,
    )

stored_count-record_tokens :
    (now : ℕ) (user user' : String) (tokens : ℕ) (kind : WindowKind) (start : ℕ) (table : Table)
    → IsKeyed table
    → tokens ≤ i64_max
    → now ≤ i64_max
    → start ≤ i64_max
    → stored_count user' kind start (record_tokens now user tokens table) ≡ (
        if tokens == 0
        then stored_count user' kind start table
        else added now user user' tokens kind start (stored_count user' kind start table))
unfolding record_tokens
stored_count-record_tokens now user user' tokens kind start table h t n s =
    elim (Bool-cases (tokens == 0)) [
      | inl e ↦ rw e
      | inr e ↦ rw e (stored_count-record_windows now user user' tokens kind start table h t n s)
    ]

-- Each window begins at or before its time, and a later time's window begins no earlier.
window_start-le : (kind : WindowKind) (m n : ℕ) → m ≤ n → window_start kind m ≤ window_start kind n
unfolding size_secs
window_start-le day m n h = omega arith
window_start-le hour m n h = omega arith
window_start-le month m n h = omega arith

total_before :
    (user : String) (kind : WindowKind) (start now : ℕ) (history : List Usage)
    → IsHistory now history
    → window_start kind now < start
    → total user kind start history ≡ 0
unfolding total
total_before user kind start now [] h lt = refl
total_before user kind start now (u ∷ history) h lt =
    ground (arith, window_start-le kind u.now now, total_before user kind start u.now history h.3)

counted :
    (user : String) (kind : WindowKind) (now later : ℕ) (history : List Usage)
    → IsHistory now history
    → now ≤ later
    → later ≤ i64_max
    → stored_count user kind (window_start kind later) (recorded history)
      ≡ total user kind (window_start kind later) history
unfolding recorded total
counted user kind now later [] h le max = unfold stored_count in refl
counted user kind now later (u ∷ history) h le max =
    let start = window_start kind later in
    ground (
      arith,
      stored_count-record_tokens u.now u.user user u.tokens kind start (recorded history)
          (recorded-IsKeyed history) h.2 (omega arith) (omega arith),
      window_start-le kind u.now later (omega arith),
      total_before user kind start u.now history h.3,
      counted user kind u.now later history h.3 (omega arith) max,
    )

-- After a history of records whose clock readings never fall, and whose token counts and times fit
-- an `i64`, the read of the counter of each kind gives the sum of what the user was given in the
-- present window where that sum fits an `i64`, and is an error of the database where it does not.
pub count-recorded :
    (user : String) (kind : WindowKind) (now : ℕ) (history : List Usage)
    → IsHistory now history
    → now ≤ i64_max
    → let given = total user kind (window_start kind now) history in
      count user kind (window_start kind now) (recorded history)
      ≡ (if leb given i64_max then ok given else err (database "count: a REAL is no i64"))
unfolding count
count-recorded user kind now history h max =
    rw (count, counted user kind now now history h (omega arith) max) refl
