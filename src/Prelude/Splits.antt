-- ===== src/Prelude/Splits.antt =====
-- What stands before and after an occurrence of a pattern in a text.
use Prim.Native.Nat.{ℕ, ◌+◌, ◌≤◌}
use mathlib.Core.Path.{◌≡◌, refl, ap, subst, ◌∙◌}
use mathlib.Core.List.{List, [], ◌∷◌, ◌++◌}
use mathlib.Core.Logic.{◌≢◌, inl, inr}
use mathlib.Core.Option.{Option, none, some, some-injective}
use native.Mathlib.Omega.{arith}
use coulisse.Prelude.Tests.{nat_eq, ◌==◌, ==_iff, ==_refl, Bool-cases}
use coulisse.Prelude.Lists.{All, length}
use coulisse.Prelude.Text.{strip_prefix, here_or, prepend, split_at}

-- What stands after a pattern is shorter than the text by the pattern.
strip_prefix-length :
    (p text rest : List ℕ) → strip_prefix p text ≡ some rest → length p + length rest ≡ length text
strip_prefix-length [] text rest h =
    let same = ap length (some-injective _ _ h) in omega (arith, same)
strip_prefix-length (x ∷ p) [] rest h = absurd (ground arith)
strip_prefix-length (x ∷ p) (c ∷ cs) rest h = elim (Bool-cases (c == x)) [
  | inl e ↦ let shorter = strip_prefix-length p cs rest (rw e at h) in omega (arith, shorter)
  | inr e ↦ absurd (let bad = rw e at h in ground arith)
]

here_or-shorter :
    (o : Option (List ℕ)) (later : Option (List ℕ × List ℕ)) (before after : List ℕ) (n long : ℕ)
    → ((rest : List ℕ) → o ≡ some rest → n + length rest ≤ long)
    → (later ≡ some (before, after) → n + length after ≤ long)
    → here_or o later ≡ some (before, after)
    → n + length after ≤ long
here_or-shorter none later before after n long f g h = g h
here_or-shorter (some rest) later before after n long f g h =
    subst (λ parts. n + length parts.1 ≤ long) (some-injective _ _ h) (f rest refl)

prepend-some :
    (c : ℕ) (o : Option (List ℕ × List ℕ)) (before after : List ℕ)
    → prepend c o ≡ some (before, after)
    → (front : List ℕ) × (o ≡ some (front, after))
prepend-some c none before after h = absurd (ground arith)
prepend-some c (some (front, back)) before after h =
    (front, ap (λ back. some (front, back)) (ap (λ parts. parts.1) (some-injective _ _ h)))

pub split_at-shorter :
    (p text before after : List ℕ)
    → split_at p text ≡ some (before, after)
    → length p + length after ≤ length text
unfolding split_at
split_at-shorter p [] before after h =
    here_or-shorter (strip_prefix p []) none before after (length p) 0
      (λ rest e. let same = strip_prefix-length p [] rest e in omega (arith, same))
      (λ e. absurd (ground arith)) h
split_at-shorter p (c ∷ cs) before after h =
    here_or-shorter (strip_prefix p (c ∷ cs)) (prepend c (split_at p cs)) before after (length p)
      (length (c ∷ cs))
      (λ rest e. let same = strip_prefix-length p (c ∷ cs) rest e in omega (arith, same))
      (λ e.
        let r = prepend-some c (split_at p cs) before after e in
        let shorter = split_at-shorter p cs r.0 after r.1 in omega (arith, shorter))
      h

-- A pattern whose first character stands only there is found behind a text that lacks it.
strip_prefix-interrupted :
    (o : ℕ) (p cs tail : List ℕ)
    → All (λ x. o ≢ x) p
    → strip_prefix p cs ≡ none
    → strip_prefix p (cs ++ o ∷ tail) ≡ none
strip_prefix-interrupted o [] cs tail h e = absurd (ground arith)
strip_prefix-interrupted o (x ∷ p) [] tail h e = elim (Bool-cases (o == x)) [
  | inl t ↦ absurd (h.0 ((==_iff o x).0 t))
  | inr t ↦ rw t refl
]
strip_prefix-interrupted o (x ∷ p) (c ∷ cs) tail h e = elim (Bool-cases (c == x)) [
  | inl t ↦ rw t (strip_prefix-interrupted o p cs tail h.1 (rw t at e))
  | inr t ↦ rw t refl
]

strip_prefix-same : (p tail : List ℕ) → strip_prefix p (p ++ tail) ≡ some tail
strip_prefix-same [] tail = refl
strip_prefix-same (x ∷ p) tail = rw (==_refl x) (strip_prefix-same p tail)

here_or-none :
    (o : Option (List ℕ)) (later : Option (List ℕ × List ℕ))
    → here_or o later ≡ none
    → (o ≡ none) × (later ≡ none)
here_or-none none later h = (refl, h)
here_or-none (some rest) later h = absurd (ground arith)

prepend-none : (c : ℕ) (o : Option (List ℕ × List ℕ)) → prepend c o ≡ none → o ≡ none
prepend-none c none h = refl
prepend-none c (some (front, back)) h = absurd (ground arith)

first_char :
    (o : ℕ) (p : List ℕ) (c : ℕ) (cs tail : List ℕ)
    → All (λ x. o ≢ x) p
    → strip_prefix (o ∷ p) (c ∷ cs) ≡ none
    → strip_prefix (o ∷ p) (c ∷ cs ++ o ∷ tail) ≡ none
first_char o p c cs tail h e = elim (Bool-cases (c == o)) [
  | inl t ↦ rw t (strip_prefix-interrupted o p cs tail h (rw t at e))
  | inr t ↦ rw t refl
]

pub split_at-append :
    (o : ℕ) (p text tail : List ℕ)
    → All (λ x. o ≢ x) p
    → split_at (o ∷ p) text ≡ none
    → split_at (o ∷ p) (text ++ (o ∷ (p ++ tail))) ≡ some (text, tail)
unfolding split_at
split_at-append o p [] tail h e =
    ap (λ r. here_or r (prepend o (split_at (o ∷ p) (p ++ tail)))) (strip_prefix-same (o ∷ p) tail)
split_at-append o p (c ∷ cs) tail h e =
    let both = here_or-none (strip_prefix (o ∷ p) (c ∷ cs)) _ e in
    let deeper = split_at-append o p cs tail h (prepend-none c _ both.1) in
    ap (λ r. here_or r (prepend c (split_at (o ∷ p) (cs ++ (o ∷ (p ++ tail))))))
      (first_char o p c cs (p ++ tail) h both.0)
    ∙ ap (prepend c) deeper
