-- ===== src/Core.antt =====
-- crates/core/src/lib.rs: casts between Rust's and SQLite's integers; the children have the enums
-- that columns store, and the migrations of the tables.
pub mod TaskState
pub mod Role
pub mod ToolCallKind
pub mod MemoryKind
pub mod Migrate
use coulisse.Prelude.{ℕ, ◌-◌, ◌^◌, ◌≤◌, ◌≡◌, arith, min, leb, if◌then◌else◌}
use coulisse.Prelude.Int.{ℤ, pos, negsuc}

abbrev pub i64_max : ℕ
i64_max = 2 ^ 63 - 1

abbrev pub u32_max : ℕ
u32_max = 2 ^ 32 - 1

unfoldable pub u64_to_i64 : ℕ → ℤ
u64_to_i64 value = if leb value i64_max then pos value else pos i64_max

unfoldable pub i64_to_u64 : ℤ → ℕ
i64_to_u64 (pos n) = n
i64_to_u64 (negsuc n) = 0

unfoldable pub i64_to_u32 : ℤ → ℕ
i64_to_u32 (pos n) = if leb n u32_max then n else u32_max
i64_to_u32 (negsuc n) = 0

-- A value written to a column and read back saturates at `i64::MAX`.
pub i64_to_u64-u64_to_i64 : (n : ℕ) → i64_to_u64 (u64_to_i64 n) ≡ min n i64_max
unfolding i64_to_u64 u64_to_i64
i64_to_u64-u64_to_i64 n = ground arith

pub u64_to_i64-pos : (n : ℕ) → n ≤ i64_max → u64_to_i64 n ≡ pos n
unfolding u64_to_i64
u64_to_i64-pos n h = ground arith
