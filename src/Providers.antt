-- ===== src/Providers.antt =====
-- crates/providers/src/lib.rs: the providers, and the words that a configuration names them by.
pub mod Tests
use mathlib.Core.Option.{some-injective}
use text.Mathlib.TextEquality.{eq_iff}
use coulisse.Prelude.{
  String, ◌≡◌, refl, sym, ap, ◌∙◌, ◌↔◌, Bool, true, PartialEq, Option, none, some, ◌==◌, ==_iff,
  string_eq, if◌then◌else◌, arith,
}

pub data ProviderKind : Type 0 where
  anthropic cohere deepseek gemini groq openai : ProviderKind

unfoldable pub as_str : ProviderKind → String
as_str anthropic = "anthropic"
as_str cohere = "cohere"
as_str deepseek = "deepseek"
as_str gemini = "gemini"
as_str groq = "groq"
as_str openai = "openai"

unfoldable pub parse : String → Option ProviderKind
parse s =
    if s == "anthropic"
    then some anthropic
    else if s == "cohere"
    then some cohere
    else if s == "deepseek"
    then some deepseek
    else if s == "gemini"
    then some gemini
    else if s == "groq"
    then some groq
    else if s == "openai"
    then some openai
    else none

pub parse-as_str : (kind : ProviderKind) → parse (as_str kind) ≡ some kind
unfolding parse as_str
parse-as_str anthropic = refl
parse-as_str cohere = refl
parse-as_str deepseek = refl
parse-as_str gemini = refl
parse-as_str groq = refl
parse-as_str openai = refl

-- A word that parses is the word of the provider that it parses to.
pub as_str-parse : (s : String) (kind : ProviderKind) → parse s ≡ some kind → as_str kind ≡ s
unfolding parse as_str
as_str-parse s kind h = ground (
  arith,
  eq_iff s "anthropic",
  eq_iff s "cohere",
  eq_iff s "deepseek",
  eq_iff s "gemini",
  eq_iff s "groq",
  eq_iff s "openai",
)

as_str-injective : (a b : ProviderKind) → as_str a ≡ as_str b → a ≡ b
as_str-injective a b e = some-injective _ _ (sym (parse-as_str a) ∙ (ap parse e ∙ parse-as_str b))

abbrev pub kind_test : ProviderKind → ProviderKind → Bool
kind_test a b = as_str a == as_str b

pub kind_test_iff : (a b : ProviderKind) → (kind_test a b ≡ true) ↔ (a ≡ b)
kind_test_iff a b = (
  (λ h. as_str-injective a b ((==_iff (as_str a) (as_str b)).0 h)),
  λ e. (==_iff (as_str a) (as_str b)).1 (ap as_str e),
)

-- The derived `PartialEq`: two kinds are equal when their words are.
instance abbrev pub kind_eq : PartialEq ProviderKind
kind_eq = record { test = kind_test; test_iff = kind_test_iff }

pub record ProviderConfig : Type 0 where
  pub api_key : String
