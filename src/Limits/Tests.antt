-- ===== src/Limits/Tests.antt =====
-- The limits' theorems at a small history.
use coulisse.Prelude.{
  ◌-◌, ◌^◌, leb, ◌≡◌, ◌↔◌, refl, none, some, List, [], ◌∷◌, arith, ok, err, if◌then◌else◌, ◌==◌,
  string_eq,
}
use coulisse.Core.{u64_to_i64, i64_max}
use coulisse.Prelude.Int.{◌+ℤ◌}
use coulisse.Limits.{
  RequestLimits, database, exceeded, hour, day, month, count, window_start, check, check_window,
  is_empty, stored_count, size_secs, record_tokens, record_window, upsert, as_db_str,
}
use coulisse.Limits.Enforcement.{
  Usage, IsUnder, recorded, total, Refuses, PassesBefore, check_iff, check_refusal,
}
use coulisse.Limits.Usage.{count-recorded}
use coulisse.Limits.Metadata.{Metadata, from_metadata, Says, from_metadata_iff}

abbrev hundred_an_hour : RequestLimits
hundred_an_hour = record {
  tokens_per_day = none;
  tokens_per_hour = some 100;
  tokens_per_month = none;
}

abbrev history : List Usage
history =
    record { now = 7300; user = "alice"; tokens = 60 }
    ∷ record { now = 7250; user = "bob"; tokens = 5 }
    ∷ record { now = 7210; user = "alice"; tokens = 45 }
    ∷ record { now = 7100; user = "alice"; tokens = 1000 }
    ∷ []

count-recorded_example : count "alice" hour (window_start hour 7400) (recorded history) ≡ (
    if leb (total "alice" hour (window_start hour 7400) history) i64_max
    then ok (total "alice" hour (window_start hour 7400) history)
    else err (database "count: a REAL is no i64"))
count-recorded_example = count-recorded "alice" hour 7400 history (omega arith) (omega arith)

check_iff_example : (check 7400 "alice" hundred_an_hour (recorded history) ≡ ok tt) ↔ (
    IsUnder 7400 "alice" (recorded history) (some 100) hour
    × IsUnder 7400 "alice" (recorded history) none day
    × IsUnder 7400 "alice" (recorded history) none month)
check_iff_example = check_iff 7400 "alice" hundred_an_hour (recorded history)

refused : check 7400 "alice" hundred_an_hour (recorded history) ≡ err (exceeded 100 3400 105 hour)
unfolding check check_window is_empty recorded record_tokens record_window upsert as_db_str count
    stored_count size_secs u64_to_i64 ◌+ℤ◌
refused = refl

check_refusal_example :
    Refuses 7400 "alice" (recorded history) (some 100) hour 100 3400 105
    × PassesBefore 7400 "alice" (recorded history) hundred_an_hour hour
check_refusal_example =
    check_refusal 7400 "alice" hundred_an_hour (recorded history) 100 3400 105 hour refused

-- A sum past `i64::MAX` is no count that a read returns.
abbrev past_i64 : List Usage
past_i64 =
    record { now = 7300; user = "alice"; tokens = 2 ^ 63 - 1 }
    ∷ record { now = 7210; user = "alice"; tokens = 1 }
    ∷ []

unreadable :
    check 7400 "alice" hundred_an_hour (recorded past_i64)
    ≡ err (database "count: a REAL is no i64")
unfolding check check_window is_empty recorded record_tokens record_window upsert as_db_str count
    stored_count size_secs u64_to_i64 ◌+ℤ◌
unreadable = refl

abbrev metadata : Metadata
metadata k = if k == "tokens_per_hour" then some "100" else none

from_metadata_iff_example : (from_metadata metadata ≡ ok hundred_an_hour) ↔ (
    Says metadata "tokens_per_day" none
    × Says metadata "tokens_per_hour" (some 100)
    × Says metadata "tokens_per_month" none)
from_metadata_iff_example = from_metadata_iff metadata hundred_an_hour
