-- ===== src/Prelude/Text.antt =====
-- Rust's `str` methods over code points.
use Prim.Native.Nat.{ℕ, suc}
use Prim.Native.String.{String}
use mathlib.Core.Path.{◌≡◌, refl, sym, ap, ◌∙◌}
use mathlib.Core.Bool.{Bool, true, false, not, ◌&&◌, ◌||◌}
use mathlib.Core.List.{List, [], ◌∷◌, map, reverse, Memᴰ}
use mathlib.Core.Logic.{◌↔◌, ◌≢◌, ◌⊎◌, inl, inr}
use mathlib.Core.Option.{Option, none, some}
use native.Mathlib.Omega.{arith}
use coulisse.Prelude.Tests.{
  leb, eqb, PartialEq, string_eq, nat_eq, ◌==◌, ==_iff, ==_refl, if◌then◌else◌, Bool-cases,
}
use coulisse.Prelude.Lists.{any, All}
use coulisse.Prelude.Sorting.{codes}

-- `char::is_whitespace`: the code points of Unicode's White_Space.
abbrev pub is_white : ℕ → Bool
is_white c =
    (leb 9 c && leb c 13)
    || eqb c 32
    || eqb c 133
    || eqb c 160
    || eqb c 5760
    || (leb 8192 c && leb c 8202)
    || eqb c 8232
    || eqb c 8233
    || eqb c 8239
    || eqb c 8287
    || eqb c 12288

abbrev pub trim_start : List ℕ → List ℕ
trim_start [] = []
trim_start (c ∷ cs) = let rest = trim_start cs in if is_white c then rest else c ∷ cs

unfoldable pub trim : List ℕ → List ℕ
trim text = reverse (trim_start (reverse (trim_start text)))

abbrev pub is_nil {ℓ} : {A : Type ℓ} → List A → Bool
is_nil [] = true
is_nil (x ∷ xs) = false

-- `s.trim().is_empty()`.
unfoldable pub is_blank : String → Bool
unfolding trim
is_blank s = is_nil (trim (codes s))

-- `strip_prefix` and `starts_with`.
abbrev pub strip_prefix : List ℕ → List ℕ → Option (List ℕ)
strip_prefix [] text = some text
strip_prefix (p ∷ ps) [] = none
strip_prefix (p ∷ ps) (c ∷ cs) = let rest = strip_prefix ps cs in if c == p then rest else none

abbrev pub starts_with : List ℕ → List ℕ → Bool
starts_with [] text = true
starts_with (p ∷ ps) [] = false
starts_with (p ∷ ps) (c ∷ cs) = let rest = starts_with ps cs in if c == p then rest else false

-- `str::contains` with a text.
unfoldable pub contains_text : List ℕ → List ℕ → Bool
contains_text pattern [] = is_nil pattern
contains_text pattern (c ∷ cs) =
    let rest = contains_text pattern cs in if starts_with pattern (c ∷ cs) then true else rest

module _ {A : Type 0} ⦃p : PartialEq A⦄ where
  -- `HashSet::contains`, on the list of what was inserted.
  abbrev pub member : A → List A → Bool
  member a xs = any (λ x. x == a) xs

  pub member-mem : (a : A) (xs : List A) → member a xs ≡ true → Memᴰ a xs
  member-mem a [] e = absurd (ground arith)
  member-mem a (x ∷ xs) e = elim (Bool-cases (x == a)) [
    | inl h ↦ Memᴰ.head (sym ((==_iff x a).0 h))
    | inr h ↦ Memᴰ.tail (member-mem a xs (rw h at e))
  ]

  mem-member : (a : A) (xs : List A) → Memᴰ a xs → member a xs ≡ true
  mem-member a [] m = elim m [ ]
  mem-member a (x ∷ xs) (Memᴰ.head e) = rw (ap (λ y. y == a) (sym e) ∙ ==_refl a) refl
  mem-member a (x ∷ xs) (Memᴰ.tail m) = elim (Bool-cases (x == a)) [
    | inl h ↦ rw h refl
    | inr h ↦ rw h (mem-member a xs m)
  ]

  any-map :
      {B : Type 0} (key : B → A) (a : A) (xs : List B)
      → member a (map key xs) ≡ any (λ x. key x == a) xs
  any-map key a [] = refl
  any-map key a (x ∷ xs) = ap (λ b. if key x == a then true else b) (any-map key a xs)

  pub member_iff : (a : A) (xs : List A) → (member a xs ≡ true) ↔ Memᴰ a xs
  member_iff a xs = (member-mem a xs, mem-member a xs)

  not_member-All : (a : A) (xs : List A) → member a xs ≡ false → All (λ x. x ≢ a) xs
  not_member-All a [] e = tt
  not_member-All a (x ∷ xs) e = elim (Bool-cases (x == a)) [
    | inl h ↦ absurd (ground arith)
    | inr h ↦ ((λ s. absurd (ground (arith, (==_iff x a).1 s))), not_member-All a xs (rw h at e))
  ]

  All-not_member : (a : A) (xs : List A) → All (λ x. x ≢ a) xs → member a xs ≡ false
  All-not_member a [] h = refl
  All-not_member a (x ∷ xs) h = elim (Bool-cases (x == a)) [
    | inl e ↦ absurd (h.0 ((==_iff x a).0 e))
    | inr e ↦ rw e (All-not_member a xs h.1)
  ]

  pub any_iff :
      {B : Type 0} (key : B → A) (a : A) (xs : List B)
      → (any (λ x. key x == a) xs ≡ true) ↔ Memᴰ a (map key xs)
  any_iff key a xs =
      let same = any-map key a xs in
      ((λ h. member-mem a (map key xs) (same ∙ h)), λ m. sym same ∙ mem-member a (map key xs) m)

  pub not_member_iff : (a : A) (xs : List A) → (member a xs ≡ false) ↔ All (λ x. x ≢ a) xs
  not_member_iff a xs = (not_member-All a xs, All-not_member a xs)

abbrev pub here_or : Option (List ℕ) → Option (List ℕ × List ℕ) → Option (List ℕ × List ℕ)
here_or none later = later
here_or (some rest) later = some ([], rest)

abbrev pub prepend : ℕ → Option (List ℕ × List ℕ) → Option (List ℕ × List ℕ)
prepend c none = none
prepend c (some (before, after)) = some (c ∷ before, after)

-- `str::find` of a text, with what stands before and after its first occurrence.
unfoldable pub split_at : List ℕ → List ℕ → Option (List ℕ × List ℕ)
split_at pattern [] = here_or (strip_prefix pattern []) none
split_at pattern (c ∷ cs) =
    here_or (strip_prefix pattern (c ∷ cs)) (prepend c (split_at pattern cs))

-- `str::split` at a character.
unfoldable pub split_on : ℕ → List ℕ → List ℕ × List (List ℕ)
split_on d [] = ([], [])
split_on d (c ∷ cs) =
    let (part, parts) = split_on d cs in if c == d then ([], part ∷ parts) else (c ∷ part, parts)

-- `split_whitespace().count()`: a field starts at each character that is not white and does not
-- follow one.
abbrev pub count_fields : Bool → List ℕ → ℕ
count_fields inside [] = 0
count_fields inside (c ∷ cs) =
    let rest = count_fields (not (is_white c)) cs in
    if is_white c then rest else if inside then rest else suc rest

-- `trim_end_matches(c)`.
unfoldable pub trim_end_matches : ℕ → List ℕ → List ℕ
trim_end_matches d [] = []
trim_end_matches d (c ∷ cs) =
    let rest = trim_end_matches d cs in if (c == d) && is_nil rest then [] else c ∷ rest

abbrev pub list_test : List ℕ → List ℕ → Bool
list_test [] [] = true
list_test [] (y ∷ ys) = false
list_test (x ∷ xs) [] = false
list_test (x ∷ xs) (y ∷ ys) = let rest = list_test xs ys in if x == y then rest else false

list_test-true : (xs ys : List ℕ) → list_test xs ys ≡ true → xs ≡ ys
list_test-true [] [] h = refl
list_test-true [] (y ∷ ys) h = absurd (ground arith)
list_test-true (x ∷ xs) [] h = absurd (ground arith)
list_test-true (x ∷ xs) (y ∷ ys) h = ground (arith, list_test-true xs ys)

list_test_refl : (xs : List ℕ) → list_test xs xs ≡ true
list_test_refl [] = refl
list_test_refl (x ∷ xs) = ground (arith, list_test_refl xs, ==_refl x)

pub list_test_iff : (xs ys : List ℕ) → (list_test xs ys ≡ true) ↔ (xs ≡ ys)
list_test_iff xs ys = (list_test-true xs ys, λ e. ap (list_test xs) (sym e) ∙ list_test_refl xs)

-- Two texts, as code points.
instance abbrev pub text_eq : PartialEq (List ℕ)
text_eq = record { test = list_test; test_iff = list_test_iff }

pub or_iff : (a b : Bool) → ((a || b) ≡ true) ↔ ((a ≡ true) ⊎ (b ≡ true))
or_iff true b = ((λ h. inl refl), λ h. refl)
or_iff false b = ((λ h. inr h), λ h. elim h [ inl e ↦ absurd (ground arith) | inr e ↦ e ])

pub is_nil_iff {ℓ} : {A : Type ℓ} (xs : List A) → (is_nil xs ≡ false) ↔ (xs ≢ [])
is_nil_iff [] = ((λ h. absurd (ground arith)), λ h. absurd (h refl))
is_nil_iff (x ∷ xs) = ((λ h e. cc), λ h. refl)
