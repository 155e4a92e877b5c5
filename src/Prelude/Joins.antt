-- ===== src/Prelude/Joins.antt =====
-- Parts of a text with a delimiter between them.
use Prim.Native.Nat.{ℕ}
use mathlib.Core.Path.{◌≡◌, refl, ◌∙◌}
use mathlib.Core.List.{List, [], ◌∷◌, ◌++◌}
use mathlib.Core.Logic.{◌≢◌}
use native.Mathlib.Omega.{arith}
use coulisse.Prelude.Tests.{nat_eq, ==_refl}
use coulisse.Prelude.Lists.{All}
use coulisse.Prelude.Text.{split_on}

abbrev pub Lacks : ℕ → List ℕ → Type 0
Lacks d text = All (λ c. c ≢ d) text

unfoldable pub join : ℕ → List ℕ → List (List ℕ) → List ℕ
join d first [] = first
join d first (part ∷ parts) = first ++ (d ∷ join d part parts)

split_on-Lacks : (d : ℕ) (text : List ℕ) → Lacks d text → split_on d text ≡ (text, [])
unfolding split_on
split_on-Lacks d [] h = refl
split_on-Lacks d (c ∷ cs) h = rw (split_on-Lacks d cs h.1) (ground (arith, h.0))

split_on-delimiter :
    (d : ℕ) (text more : List ℕ)
    → Lacks d text
    → split_on d (text ++ (d ∷ more)) ≡ (text, (split_on d more).0 ∷ (split_on d more).1)
unfolding split_on
split_on-delimiter d [] more h = rw (==_refl d) refl
split_on-delimiter d (c ∷ cs) more h = rw (split_on-delimiter d cs more h.1) (ground (arith, h.0))

-- A text that is joined from parts without the delimiter splits into them.
pub split_on-join :
    (d : ℕ) (first : List ℕ) (parts : List (List ℕ))
    → Lacks d first
    → All (Lacks d) parts
    → split_on d (join d first parts) ≡ (first, parts)
unfolding join
split_on-join d first [] h hs = split_on-Lacks d first h
split_on-join d first (part ∷ parts) h hs =
    split_on-delimiter d first (join d part parts) h
    ∙ rw (split_on-join d part parts hs.0 hs.1) refl
