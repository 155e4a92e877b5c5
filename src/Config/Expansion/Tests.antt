-- ===== src/Config/Expansion/Tests.antt =====
-- The expansions and the lines of cli/src/config.rs at small texts.
use coulisse.Prelude.{
  join, false, member, ℕ, ◌+◌, String, codes, ◌≡◌, refl, inl, inr, Option, none, some, List, [],
  ◌∷◌, ◌++◌, map, ok, length, split_at, not_member_iff, nat_eq, arith, All, ◌≢◌,
}
use coulisse.Config.Expansion.{
  expand_env_vars_with, expand_config_vars, expand_loop, resolve_env, locate,
}
use coulisse.Config.Expansion.Filling.{
  Placeholder, env_piece, render, HasEnvValue, expand_env_vars_with-render, expand_loop_fuel,
}
use coulisse.Config.Expansion.Indents.{
  OneLine, Lines, HasLines, written, Becomes, shift, expand_config_vars-Becomes,
}
use coulisse.Config.Expansion.Lines.{locate-line}

abbrev lookup : List ℕ → Option (List ℕ)
lookup name = some (codes "secret")

abbrev api_key : Placeholder
api_key = record { text = codes "api_key: "; name = codes "KEY"; value = codes "secret" }

abbrev greeting : Placeholder
greeting = record { text = codes " hello "; name = codes "vars.who"; value = codes "${vars.who}" }

abbrev from_env : List ℕ
from_env = render (codes "${") (map env_piece (api_key ∷ greeting ∷ [])) (codes "!")

have_values : All (HasEnvValue lookup) (api_key ∷ greeting ∷ [])
unfolding split_at
have_values = ((refl, refl, inl (refl, refl)), ((refl, refl, inr (refl, refl)), tt))

closed_end : split_at (codes "${") (codes "!") ≡ none
unfolding split_at
closed_end = refl

expand_env_vars_with-render_example :
    expand_env_vars_with lookup from_env ≡ ok (codes "api_key: secret hello ${vars.who}!")
expand_env_vars_with-render_example =
    expand_env_vars_with-render lookup (api_key ∷ greeting ∷ []) (codes "!") have_values closed_end

abbrev vars : List (String × String)
vars = ("rules", "Be brief.\n\nBe kind.") ∷ []

-- A value of three lines, the second empty, in a line with an indent of two blanks.
abbrev rules : Lines
rules = record {
  text = codes "prompt: |\n  - ";
  name = codes "rules";
  first = codes "Be brief.";
  others = [] ∷ codes "Be kind." ∷ [];
}

no_newline : (line : List ℕ) → member 10 line ≡ false → OneLine line
no_newline line e = (not_member_iff 10 line).0 e

rules_have_lines : All (HasLines vars) (rules ∷ [])
unfolding split_at join
rules_have_lines = (
  (
    refl,
    refl,
    (("rules", "Be brief.\n\nBe kind."), refl, refl),
    no_newline (codes "Be brief.") refl,
    (tt, (no_newline (codes "Be kind.") refl, tt)),
  ),
  tt,
)

rules_become : Becomes [] (rules ∷ []) (codes "!") (codes "prompt: |\n  - Be brief.\n\n  Be kind.!")
unfolding join shift
rules_become = (
  codes "  ",
  record {
    before = codes "prompt: |\n";
    rest = codes "- ";
    split = refl;
    starts = inr (codes "prompt: |", refl);
    one_line = no_newline (codes "  - ") refl;
    blank = (inl refl, (inl refl, tt));
    stops = inr (b'-', codes " ", refl, (λ e. cc e), λ e. cc e);
  },
  refl,
)

closed_vars_end : split_at (codes "${vars.") (codes "!") ≡ none
unfolding split_at
closed_vars_end = refl

expand_config_vars-Becomes_example :
    expand_config_vars (written (rules ∷ []) (codes "!")) vars
    ≡ ok (codes "prompt: |\n  - Be brief.\n\n  Be kind.!")
expand_config_vars-Becomes_example =
    expand_config_vars-Becomes vars (rules ∷ []) (codes "!")
      (codes "prompt: |\n  - Be brief.\n\n  Be kind.!") rules_have_lines closed_vars_end
      rules_become

expand_loop_fuel_example :
    expand_loop (codes "${") (resolve_env lookup) from_env (length from_env) [] from_env
    ≡ expand_loop (codes "${") (resolve_env lookup) from_env 1000 [] from_env
expand_loop_fuel_example =
    expand_loop_fuel (codes "${") (resolve_env lookup) from_env (length from_env) 1000 from_env
      (omega arith) (omega arith) (omega arith) []

plain_line : All (λ b. b ≢ 10) (codes "b: 2")
plain_line = (not_member_iff 10 (codes "b: 2")).0 refl

locate-line_example :
    locate ((codes "a: 1" ++ 10 ∷ []) ++ (codes "b: 2" ++ 10 ∷ codes "c: 3")) 7
    ≡ (1 + 1, codes "b: 2")
locate-line_example =
    locate-line (codes "a: 1" ++ 10 ∷ []) (codes "b: 2") (10 ∷ codes "c: 3") 7
      (inr (codes "a: 1", refl)) plain_line refl (omega arith) (omega arith)
