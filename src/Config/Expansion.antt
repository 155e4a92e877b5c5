-- ===== src/Config/Expansion.antt =====
-- cli/src/config.rs: how `${VAR}` and `${vars.name}` are replaced in the text of the configuration
-- before it is parsed, and how an error is given its line. Texts are code points, and offsets are
-- in bytes. `std::env::var` is a parameter.
pub mod Filling
pub mod Indents
pub mod Lines
pub mod Tests
use coulisse.Prelude.{
  ℕ, zero, suc, ◌+◌, ◌-◌, min, String, codes, ◌||◌, Option, none, some, List, [], ◌∷◌, ◌++◌,
  if◌then◌else◌, Result, ok, err, ◌>>=◌, ok_or, find, length, leb, starts_with, split_at, split_on,
  is_nil, ◌==◌, nat_eq, text_eq,
}
use coulisse.Experiments.Seeds.{utf8}
use coulisse.Config.{ConfigError}
use coulisse.Config.ConfigError.{config_var_not_set, env_var_not_set, unclosed_env_var}

pub data ExpandError : Type 0 where
  config_var_missing : (offset : ℕ) (var : List ℕ) → ExpandError
  env_var_missing : (offset : ℕ) (var : List ℕ) → ExpandError
  unclosed : (offset : ℕ) → ExpandError

abbrev pub byte_len : List ℕ → ℕ
byte_len text = length (utf8 text)

-- The loop of both expansions: find the opener, read up to the brace, and let `resolve` append to
-- the result what the name stands for. Every turn shortens the rest, so the length of the text is
-- fuel enough.
unfoldable pub expand_loop :
    List ℕ
    → (ℕ → List ℕ → List ℕ → Result ExpandError (List ℕ))
    → List ℕ
    → ℕ
    → List ℕ
    → List ℕ
    → Result ExpandError (List ℕ)
expand_loop opener resolve s zero result rest = ok (result ++ rest)
expand_loop opener resolve s (suc fuel) result rest = elim (split_at opener rest) [
  | none ↦ ok (result ++ rest)
  | some (before, opened) ↦
      let offset = byte_len s - byte_len rest + byte_len before in
      elim (split_at (codes "}") opened) [
        | none ↦ err (unclosed offset)
        | some (var, closed) ↦ resolve offset (result ++ before) var >>= λ filled.
            expand_loop opener resolve s fuel filled closed
      ]
]

module _ (lookup : List ℕ → Option (List ℕ)) where
  -- `${vars.*}` is left for the second pass.
  abbrev pub resolve_env : ℕ → List ℕ → List ℕ → Result ExpandError (List ℕ)
  resolve_env offset result var =
      if starts_with (codes "vars.") var
      then ok (result ++ codes "${" ++ var ++ codes "}")
      else (ok_or (lookup var) (env_var_missing offset var) >>= λ value. ok (result ++ value))

  unfoldable pub expand_env_vars_with : List ℕ → Result ExpandError (List ℕ)
  expand_env_vars_with s = expand_loop (codes "${") resolve_env s (length s) [] s

-- What follows the last newline: `rfind('\n')`.
abbrev pub after_newline : List ℕ → Option (List ℕ)
after_newline [] = none
after_newline (c ∷ cs) = elim (after_newline cs) [
  | some later ↦ some later
  | none ↦ if c == 10 then some cs else none
]

abbrev pub last_line : List ℕ → Option (List ℕ) → List ℕ
last_line s none = s
last_line s (some line) = line

abbrev pub take_blanks : List ℕ → List ℕ
take_blanks [] = []
take_blanks (c ∷ cs) = let rest = take_blanks cs in if (c == 32) || (c == 9) then c ∷ rest else []

unfoldable pub leading_indent_of_last_line : List ℕ → List ℕ
leading_indent_of_last_line s = take_blanks (last_line s (after_newline s))

-- The lines after the first, each on a line of its own and indented unless it is empty.
abbrev pub push_lines : List ℕ → List (List ℕ) → List ℕ
push_lines indent [] = []
push_lines indent (line ∷ lines) =
    10 ∷ (if is_nil line then [] else indent) ++ line ++ push_lines indent lines

abbrev pub indented : List ℕ → List ℕ × List (List ℕ) → List ℕ
indented indent (line, lines) = line ++ push_lines indent lines

-- A `HashMap` has one entry of a name.
abbrev pub var_named : List (String × String) → List ℕ → Option (String × String)
var_named vars name = find (λ v. codes v.0 == name) vars

abbrev pub resolve_var : List (String × String) → ℕ → List ℕ → List ℕ → Result ExpandError (List ℕ)
resolve_var vars offset result name =
    ok_or (var_named vars name) (config_var_missing offset name) >>= λ v.
    ok (result ++ indented (leading_indent_of_last_line result) (split_on 10 (codes v.1)))

unfoldable pub expand_config_vars : List ℕ → List (String × String) → Result ExpandError (List ℕ)
expand_config_vars s vars = expand_loop (codes "${vars.") (resolve_var vars) s (length s) [] s

-- The loop of `locate` over the bytes: the number of the line that holds a position, and where that
-- line starts.
unfoldable pub scan_lines : ℕ → ℕ → ℕ → ℕ → List ℕ → ℕ × ℕ
scan_lines clamped i line_number line_start [] = (line_number, line_start)
scan_lines clamped i line_number line_start (b ∷ bs) =
    let (number, start) = if b == 10 then (line_number + 1, i + 1) else (line_number, line_start) in
    let rest = scan_lines clamped (i + 1) number start bs in
    if leb clamped i then (line_number, line_start) else rest

abbrev pub drop : ℕ → List ℕ → List ℕ
drop zero bs = bs
drop (suc n) [] = []
drop (suc n) (b ∷ bs) = drop n bs

abbrev pub to_newline : List ℕ → List ℕ
to_newline [] = []
to_newline (b ∷ bs) = let rest = to_newline bs in if b == 10 then [] else b ∷ rest

unfoldable pub locate : List ℕ → ℕ → ℕ × List ℕ
locate source offset =
    let (line_number, line_start) = scan_lines (min offset (length source)) 0 1 0 source in
    (line_number, to_newline (drop line_start source))

abbrev pub offset_of : ExpandError → ℕ
offset_of (config_var_missing offset var) = offset
offset_of (env_var_missing offset var) = offset
offset_of (unclosed offset) = offset

abbrev pub with_line :
    {F32 CronError : Type 0} → String → ExpandError → ℕ × List ℕ → ConfigError F32 CronError
with_line path (config_var_missing offset var) (line_number, line_content) =
    config_var_not_set line_content line_number path var
with_line path (env_var_missing offset var) (line_number, line_content) =
    env_var_not_set line_content line_number path var
with_line path (unclosed offset) (line_number, line_content) =
    unclosed_env_var line_content line_number path

-- `ExpandError::located_in`, with the line in bytes.
unfoldable pub located_in :
    {F32 CronError : Type 0} → ExpandError → List ℕ → String → ConfigError F32 CronError
located_in e source path = with_line path e (locate (utf8 source) (offset_of e))
