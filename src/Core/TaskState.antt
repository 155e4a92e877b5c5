-- ===== src/Core/TaskState.antt =====
-- crates/core/src/lib.rs: `TaskState`, and the words that a column stores for it.
use text.Mathlib.TextEquality.{eq_iff}
use coulisse.Prelude.{String, ◌≡◌, refl, ap, Result, ok, err, ◌==◌, string_eq, if◌then◌else◌, arith}

pub data TaskState : Type 0 where
  done errored queued running : TaskState

unfoldable pub as_str : TaskState → String
as_str done = "done"
as_str errored = "errored"
as_str queued = "queued"
as_str running = "running"

-- Any other word is the error `UnknownTaskState`.
unfoldable pub from_str : String → Result String TaskState
from_str s =
    if s == "done"
    then ok done
    else if s == "errored"
    then ok errored
    else if s == "queued"
    then ok queued
    else if s == "running"
    then ok running
    else err s

pub from_str-as_str : (x : TaskState) → from_str (as_str x) ≡ ok x
unfolding from_str as_str
from_str-as_str done = refl
from_str-as_str errored = refl
from_str-as_str queued = refl
from_str-as_str running = refl

-- Parsing a word inverts printing: a word is accepted exactly when it is the word of a value.
pub as_str-from_str : (s : String) (x : TaskState) → from_str s ≡ ok x → as_str x ≡ s
unfolding from_str as_str
as_str-from_str s x h =
    ground (arith, eq_iff s "done", eq_iff s "errored", eq_iff s "queued", eq_iff s "running")

pub as_str-injective : (x y : TaskState) → as_str x ≡ as_str y → x ≡ y
as_str-injective x y e = cc (ap from_str e, from_str-as_str x, from_str-as_str y)
