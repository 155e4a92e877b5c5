-- ===== src/Core/MemoryKind.antt =====
-- crates/memory/src/types.rs: `MemoryKind`, and the words that a column stores for it.
use text.Mathlib.TextEquality.{eq_iff}
use coulisse.Prelude.{String, ◌≡◌, refl, Result, ok, err, ◌==◌, string_eq, if◌then◌else◌, arith}

pub data MemoryKind : Type 0 where
  fact preference : MemoryKind

unfoldable pub as_str : MemoryKind → String
as_str fact = "fact"
as_str preference = "preference"

-- Any other word is the error `UnknownMemoryKind`.
unfoldable pub from_str : String → Result String MemoryKind
from_str s = if s == "fact" then ok fact else if s == "preference" then ok preference else err s

pub from_str-as_str : (x : MemoryKind) → from_str (as_str x) ≡ ok x
unfolding from_str as_str
from_str-as_str fact = refl
from_str-as_str preference = refl

-- Parsing a word inverts printing: a word is accepted exactly when it is the word of a value.
pub as_str-from_str : (s : String) (x : MemoryKind) → from_str s ≡ ok x → as_str x ≡ s
unfolding from_str as_str
as_str-from_str s x h = ground (arith, eq_iff s "fact", eq_iff s "preference")
