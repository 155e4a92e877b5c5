-- ===== src/Uuid.antt =====
-- The `uuid` crate, as the program uses it: an identifier is written to a column as text and
-- parsed when the row is read.
use coulisse.Prelude.{String, ◌≡◌, refl, Option, some, string_eq}

pub record UuidCrate : Type 1 where
  pub Uuid : Type 0
  pub to_string : Uuid → String
  pub parse_str : String → Option Uuid
  pub parse_str-to_string : (u : Uuid) → parse_str (to_string u) ≡ some u

-- A crate whose identifiers are their own text.
abbrev pub text_uuids : UuidCrate
text_uuids = record {
  Uuid = String;
  to_string = λ s. s;
  parse_str = λ s. some s;
  parse_str-to_string = λ s. refl;
}
