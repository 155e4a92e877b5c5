-- ===== src/Core/Role.antt =====
-- crates/core/src/lib.rs: `Role`, and the words that a column stores for it.
use text.Mathlib.TextEquality.{eq_iff}
use coulisse.Prelude.{String, ◌≡◌, refl, Result, ok, err, ◌==◌, string_eq, if◌then◌else◌, arith}

pub data Role : Type 0 where
  assistant system user : Role

unfoldable pub as_str : Role → String
as_str assistant = "assistant"
as_str system = "system"
as_str user = "user"

-- Any other word is the error `UnknownRole`.
unfoldable pub from_str : String → Result String Role
from_str s =
    if s == "assistant"
    then ok assistant
    else if s == "system"
    then ok system
    else if s == "user"
    then ok user
    else err s

pub from_str-as_str : (x : Role) → from_str (as_str x) ≡ ok x
unfolding from_str as_str
from_str-as_str assistant = refl
from_str-as_str system = refl
from_str-as_str user = refl

-- Parsing a word inverts printing: a word is accepted exactly when it is the word of a value.
pub as_str-from_str : (s : String) (x : Role) → from_str s ≡ ok x → as_str x ≡ s
unfolding from_str as_str
as_str-from_str s x h = ground (arith, eq_iff s "assistant", eq_iff s "system", eq_iff s "user")
