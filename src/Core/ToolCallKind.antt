-- ===== src/Core/ToolCallKind.antt =====
-- crates/core/src/lib.rs: `ToolCallKind`, and the words that a column stores for it.
use text.Mathlib.TextEquality.{eq_iff}
use coulisse.Prelude.{String, ◌≡◌, refl, Result, ok, err, ◌==◌, string_eq, if◌then◌else◌, arith}

pub data ToolCallKind : Type 0 where
  mcp subagent : ToolCallKind

unfoldable pub as_str : ToolCallKind → String
as_str mcp = "mcp"
as_str subagent = "subagent"

-- Any other word is the error `UnknownToolCallKind`.
unfoldable pub from_str : String → Result String ToolCallKind
from_str s = if s == "mcp" then ok mcp else if s == "subagent" then ok subagent else err s

pub from_str-as_str : (x : ToolCallKind) → from_str (as_str x) ≡ ok x
unfolding from_str as_str
from_str-as_str mcp = refl
from_str-as_str subagent = refl

-- Parsing a word inverts printing: a word is accepted exactly when it is the word of a value.
pub as_str-from_str : (s : String) (x : ToolCallKind) → from_str s ≡ ok x → as_str x ≡ s
unfolding from_str as_str
as_str-from_str s x h = ground (arith, eq_iff s "mcp", eq_iff s "subagent")
