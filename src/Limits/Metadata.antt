-- ===== src/Limits/Metadata.antt =====
-- crates/limits/src/request_limits.rs: the caps that a request carries as metadata.
use coulisse.Prelude.{
  codes, ℕ, String, ◌≡◌, ◌↔◌, Option, none, some, arith, Result, ok, err, ◌>>=◌, string_eq,
  Option-cases, inl, inr,
}
use coulisse.Decimal.{parse_u64}
use coulisse.Limits.{RequestLimits, LimitError, invalid_metadata}

-- The map of a request, of which one value stands at a key.
abbrev pub Metadata : Type 0
Metadata = String → Option String

-- An absent key is no cap; a value that is no `u64` is an error.
unfoldable pub parse_cap : Metadata → String → Result LimitError (Option ℕ)
parse_cap metadata key = elim (metadata key) [
  | none ↦ ok none
  | some v ↦ elim (parse_u64 (codes v)) [
    | none ↦ err (invalid_metadata key v)
    | some n ↦ ok (some n)
  ]
]

unfoldable pub from_metadata : Metadata → Result LimitError RequestLimits
from_metadata metadata = do
  tokens_per_day ← parse_cap metadata "tokens_per_day"
  tokens_per_hour ← parse_cap metadata "tokens_per_hour"
  tokens_per_month ← parse_cap metadata "tokens_per_month"
  ok (record {
    tokens_per_day = tokens_per_day;
    tokens_per_hour = tokens_per_hour;
    tokens_per_month = tokens_per_month;
  })

-- What a key says: nothing, or a `u64`.
abbrev pub Says : Metadata → String → Option ℕ → Type 0
Says metadata key none = metadata key ≡ none
Says metadata key (some n) = (v : String) × (metadata key ≡ some v) × (parse_u64 (codes v) ≡ some n)

parse_cap→Says :
    (metadata : Metadata) (key : String) (o : Option ℕ)
    → parse_cap metadata key ≡ ok o
    → Says metadata key o
unfolding parse_cap
parse_cap→Says metadata key none h = ground arith
parse_cap→Says metadata key (some n) h = elim (Option-cases (metadata key)) [
  | inl e ↦ absurd (ground arith)
  | inr (v, e) ↦ (v, e, ground arith)
]

Says→parse_cap :
    (metadata : Metadata) (key : String) (o : Option ℕ)
    → Says metadata key o
    → parse_cap metadata key ≡ ok o
unfolding parse_cap
Says→parse_cap metadata key none h = ground arith
Says→parse_cap metadata key (some n) (v, e, f) = ground arith

-- The caps of a request are read exactly when each of the three keys is absent or holds a `u64`, and
-- they are what the keys say.
pub from_metadata_iff :
    (metadata : Metadata) (limits : RequestLimits)
    → (from_metadata metadata ≡ ok limits) ↔ (
        Says metadata "tokens_per_day" limits.tokens_per_day
        × Says metadata "tokens_per_hour" limits.tokens_per_hour
        × Says metadata "tokens_per_month" limits.tokens_per_month)
unfolding from_metadata
from_metadata_iff metadata limits = (
  λ h. (
    parse_cap→Says metadata "tokens_per_day" limits.tokens_per_day (ground arith),
    parse_cap→Says metadata "tokens_per_hour" limits.tokens_per_hour (ground arith),
    parse_cap→Says metadata "tokens_per_month" limits.tokens_per_month (ground arith),
  ),
  λ (d, h, m). ground (
    arith,
    Says→parse_cap metadata "tokens_per_day" limits.tokens_per_day d,
    Says→parse_cap metadata "tokens_per_hour" limits.tokens_per_hour h,
    Says→parse_cap metadata "tokens_per_month" limits.tokens_per_month m,
  ),
)
