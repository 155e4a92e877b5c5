-- ===== src/Limits.antt =====
-- crates/limits/src/tracker.rs, request_limits.rs and error.rs: token caps per user on hour, day and
-- month windows, over the table `rate_limit_windows`. The clock reading is an argument.
pub mod Windows
pub mod Metadata
pub mod Enforcement
pub mod Usage
pub mod Tests
use coulisse.Prelude.{
  ℕ, ◌+◌, ◌-◌, ◌*◌, ◌%◌, String, Bool, true, false, ◌&&◌, Option, none, some, List, [], ◌∷◌, Result,
  ok, err, ◌>>=◌, ◌>>◌, leb, ◌==◌, string_eq, nat_eq, if◌then◌else◌, find,
}
use coulisse.Prelude.Int.{ℤ, pos, negsuc, int_eq, ◌+ℤ◌}
use coulisse.Core.{u64_to_i64, i64_max}

pub data WindowKind : Type 0 where
  day hour month : WindowKind

unfoldable pub as_db_str : WindowKind → String
as_db_str day = "day"
as_db_str hour = "hour"
as_db_str month = "month"

unfoldable pub size_secs : WindowKind → ℕ
size_secs day = 86_400
size_secs hour = 3_600
size_secs month = 30 * 86_400

pub record RequestLimits : Type 0 where
  pub tokens_per_day : Option ℕ
  pub tokens_per_hour : Option ℕ
  pub tokens_per_month : Option ℕ

pub data LimitError : Type 0 where
  database : String → LimitError
  exceeded : ℕ → ℕ → ℕ → WindowKind → LimitError
  invalid_metadata : String → String → LimitError

-- One row of `rate_limit_windows`; the primary key is the user and the kind. SQLite keeps a sum of
-- integers past `i64::MAX` as floating point. Such a `count` stands here as the sum: it is above
-- `i64::MAX` until the window is left, since what is added is never negative.
pub record WindowRow : Type 0 where
  pub count : ℤ
  pub kind : String
  pub start : ℤ
  pub user_id : String

abbrev pub Table : Type 0
Table = List WindowRow

abbrev is_none : Option ℕ → Bool
is_none none = true
is_none (some _) = false

unfoldable pub is_empty : RequestLimits → Bool
is_empty limits =
    is_none limits.tokens_per_day
    && is_none limits.tokens_per_hour
    && is_none limits.tokens_per_month

abbrev pub has_key : String → WindowKind → WindowRow → Bool
has_key user kind r = r.user_id == user && r.kind == as_db_str kind

-- A negative count reads as 0.
abbrev pub count_column : ℤ → ℕ
count_column (pos n) = n
count_column (negsuc n) = 0

-- The `count` of the row that the query finds.
unfoldable pub stored_count : String → WindowKind → ℕ → Table → ℕ
stored_count user kind start table =
    elim (find (λ r. has_key user kind r && r.start == u64_to_i64 start) table) [
      | none ↦ 0
      | some r ↦ count_column r.count
    ]

-- The read of a column as an `i64` fails on floating point.
unfoldable pub count : String → WindowKind → ℕ → Table → Result LimitError ℕ
count user kind start table =
    let stored : ℕ = stored_count user kind start table in
    if leb stored i64_max then ok stored else err (database "count: a REAL is no i64")

-- The window of `now` begins at the last multiple of its size.
abbrev pub window_start : WindowKind → ℕ → ℕ
window_start kind now = now - now % size_secs kind

-- One round of the loop of `check`.
unfoldable pub check_window :
    ℕ → String → Table → Option ℕ → WindowKind → Result LimitError (Unit {0})
check_window now user table none kind = ok tt
check_window now user table (some cap) kind =
    count user kind (window_start kind now) table >>= λ consumed.
    if leb cap consumed
    then err (exceeded cap (window_start kind now + size_secs kind - now) consumed kind)
    else ok tt

unfoldable pub check : ℕ → String → RequestLimits → Table → Result LimitError (Unit {0})
check now user limits table = if is_empty limits then ok tt else do
  check_window now user table limits.tokens_per_hour hour
  check_window now user table limits.tokens_per_day day
  check_window now user table limits.tokens_per_month month

-- `INSERT … ON CONFLICT(user_id, kind) DO UPDATE`.
unfoldable pub upsert : String → WindowKind → ℤ → ℤ → Table → Table
upsert user kind tokens start [] =
    record { count = tokens; kind = as_db_str kind; start = start; user_id = user } ∷ []
upsert user kind tokens start (r ∷ table) =
    if has_key user kind r
    then record r { count = if r.start == start then r.count +ℤ tokens else tokens; start = start }
      ∷ table
    else r ∷ upsert user kind tokens start table

unfoldable pub record_window : ℕ → String → ℕ → WindowKind → Table → Table
record_window now user tokens kind table =
    upsert user kind (u64_to_i64 tokens) (u64_to_i64 (window_start kind now)) table

-- `Tracker::record`.
unfoldable pub record_tokens : ℕ → String → ℕ → Table → Table
record_tokens now user tokens table =
    if tokens == 0
    then table
    else record_window now user tokens month
        (record_window now user tokens day (record_window now user tokens hour table))
