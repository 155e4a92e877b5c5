-- ===== src/Memory/Fitting.antt =====
-- What the greedy loop of crates/memory/src/types.rs keeps of a list.
use mathlib.Core.List.{reverse, reverse-cons}
use coulisse.Prelude.{
  ℕ, All, true, subst, ◌+◌, ◌≤◌, ◌<◌, ◌≡◌, refl, ap, List, [], ◌∷◌, ◌++◌, map, arith, leb, leb→le,
  Bool-cases, inl, inr,
}
use coulisse.Core.{u32_max}
use coulisse.Memory.{saturating_add, fitting}

-- The exact sum of costs, which does not saturate.
abbrev pub total {ℓ} : {A : Type ℓ} → (A → ℕ) → List A → ℕ
total cost [] = 0
total cost (x ∷ xs) = cost x + total cost xs

-- The first element left out would have passed the budget.
abbrev pub Stops {ℓ} : {A : Type ℓ} → (A → ℕ) → ℕ → ℕ → List A → Type 0
Stops cost budget used [] = Unit
Stops cost budget used (x ∷ rest) = budget < used + cost x

-- `kept` is the longest prefix of `xs` whose costs sum to at most `budget`.
pub record IsLongestFit {A : Type 0} (cost : A → ℕ) (budget : ℕ) (kept xs : List A) : Type 0 where
  pub rest : List A
  pub split : xs ≡ kept ++ rest
  pub fits : total cost kept ≤ budget
  pub stops : Stops cost budget (total cost kept) rest

module _ {A : Type 0} (cost : A → ℕ) (budget : ℕ) (small : budget < u32_max) where
  abbrev Fitted : ℕ → List A → List A → Type 0
  Fitted used xs kept =
      (rest : List A) × (xs ≡ kept ++ rest)
      × (used + total cost kept ≤ budget)
      × Stops cost budget (used + total cost kept) rest

  saturating_add_exact :
      (a b : ℕ) → leb (saturating_add a b) budget ≡ true → saturating_add a b ≡ a + b
  saturating_add_exact a b e = ground (arith, small)

  Fitted-cons :
      (used : ℕ) (x : A) (xs kept : List A)
      → leb (saturating_add used (cost x)) budget ≡ true
      → Fitted (saturating_add used (cost x)) xs kept
      → Fitted used (x ∷ xs) (x ∷ kept)
  Fitted-cons used x xs kept e (rest, split, fits, stops) =
      let exact = saturating_add_exact used (cost x) e in
      (
        rest,
        ap (λ ys. x ∷ ys) split,
        ground (arith, exact),
        subst (λ n. Stops cost budget n rest) (omega (arith, exact)) stops,
      )

  fitting-Fitted :
      (used : ℕ) (xs : List A) → used ≤ budget → Fitted used xs (fitting cost budget used xs)
  unfolding fitting
  fitting-Fitted used [] h = ([], refl, omega arith, tt)
  fitting-Fitted used (x ∷ xs) h = elim (Bool-cases (leb (saturating_add used (cost x)) budget)) [
    | inl e ↦ rw e (
        Fitted-cons used x xs _ e (fitting-Fitted (saturating_add used (cost x)) xs (leb→le _ _ e)))
    | inr e ↦ rw e (x ∷ xs, refl, omega arith, ground arith)
  ]

  pub fitting-IsLongestFit : (xs : List A) → IsLongestFit cost budget (fitting cost budget 0 xs) xs
  fitting-IsLongestFit xs =
      let r = fitting-Fitted 0 xs (omega arith) in
      record {
        rest = r.0;
        split = r.1;
        fits = omega (arith, r.2);
        stops = subst (λ n. Stops cost budget n r.0) (omega arith) r.3;
      }

pub total-append {ℓ} :
    {A : Type ℓ} (cost : A → ℕ) (xs ys : List A)
    → total cost (xs ++ ys) ≡ total cost xs + total cost ys
total-append cost [] ys = omega arith
total-append cost (x ∷ xs) ys = omega (arith, total-append cost xs ys)

pub total-reverse :
    {A : Type 0} (cost : A → ℕ) (xs : List A) → total cost (reverse xs) ≡ total cost xs
total-reverse cost [] = refl
total-reverse cost (x ∷ xs) =
    rw (reverse-cons x xs)
      (omega (arith, total-append cost (reverse xs) (x ∷ []), total-reverse cost xs))

pub total-map :
    {A B : Type 0} (f : A → B) (cost : A → ℕ) (price : B → ℕ) (xs : List A)
    → All (λ a. cost a ≡ price (f a)) xs
    → total price (map f xs) ≡ total cost xs
total-map f cost price [] h = refl
total-map f cost price (x ∷ xs) h = omega (arith, h.0, total-map f cost price xs h.1)

-- A sum that stays below the bound does not saturate.
pub saturating_add-small : (a b : ℕ) → a + b ≤ u32_max → saturating_add a b ≡ a + b
saturating_add-small a b h = ground arith
