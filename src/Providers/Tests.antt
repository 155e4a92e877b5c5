-- ===== src/Providers/Tests.antt =====
-- The provider words at one word.
use coulisse.Prelude.{◌≡◌, refl, some}
use coulisse.Providers.{parse}
use coulisse.Providers.ProviderKind.{groq}

parses_groq : parse "groq" ≡ some groq
unfolding parse
parses_groq = refl
