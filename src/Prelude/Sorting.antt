-- ===== src/Prelude/Sorting.antt =====
-- Rust's stable `sort_by` on a text key, whose order is that of the code points.
use mathlib.Core.List.Permᴰ
use mathlib.Core.List.{Permᴰ}
use Prim.Native.Nat.{ℕ, suc}
use Prim.Native.Char.{code}
use Prim.Native.String.{String}
use mathlib.Core.Path.{◌≡◌, refl, sym, ap, ◌∙◌}
use mathlib.Core.Bool.{Bool, true, false}
use mathlib.Core.List.{List, [], ◌∷◌, ◌++◌}
use mathlib.Core.Logic.{inl, inr}
use mathlib.Core.Option.{Option, none, some}
use native.Mathlib.Omega.{arith}
use coulisse.Prelude.Tests.{ltb, eqb, if◌then◌else◌, Bool-cases, Option-cases}
use coulisse.Prelude.Lists.{length, All, All-map}
use coulisse.Prelude.Perms.{All-perm}

-- The code points of a text.
abbrev pub codes : String → List ℕ
codes String.[] = []
codes (String.◌∷◌ c s) = code c ∷ codes s

abbrev pub lex_leb : List ℕ → List ℕ → Bool
lex_leb [] ys = true
lex_leb (x ∷ xs) [] = false
lex_leb (x ∷ xs) (y ∷ ys) =
    let rest = lex_leb xs ys in if ltb x y then true else if eqb x y then rest else false

pub lex_leb_total : (xs ys : List ℕ) → lex_leb xs ys ≡ false → lex_leb ys xs ≡ true
lex_leb_total [] ys h = absurd (ground arith)
lex_leb_total (x ∷ xs) [] h = refl
lex_leb_total (x ∷ xs) (y ∷ ys) h = ground (arith, lex_leb_total xs ys)

pub lex_leb_trans :
    (xs ys zs : List ℕ) → lex_leb xs ys ≡ true → lex_leb ys zs ≡ true → lex_leb xs zs ≡ true
lex_leb_trans [] ys zs h k = refl
lex_leb_trans (x ∷ xs) [] zs h k = absurd (ground arith)
lex_leb_trans (x ∷ xs) (y ∷ ys) [] h k = absurd (ground arith)
lex_leb_trans (x ∷ xs) (y ∷ ys) (z ∷ zs) h k = ground (arith, lex_leb_trans xs ys zs)

-- `str::cmp(a, b) != Greater`.
unfoldable pub str_leb : String → String → Bool
str_leb a b = lex_leb (codes a) (codes b)

str_leb_total : (a b : String) → str_leb a b ≡ false → str_leb b a ≡ true
unfolding str_leb
str_leb_total a b = lex_leb_total (codes a) (codes b)

str_leb_trans : (a b c : String) → str_leb a b ≡ true → str_leb b c ≡ true → str_leb a c ≡ true
unfolding str_leb
str_leb_trans a b c = lex_leb_trans (codes a) (codes b) (codes c)

module _ {A : Type 0} (key : A → String) where
  unfoldable pub insert_by : A → List A → List A
  insert_by x [] = x ∷ []
  insert_by x (y ∷ ys) =
      let rest = insert_by x ys in if str_leb (key x) (key y) then x ∷ y ∷ ys else y ∷ rest

  unfoldable pub sort_by : List A → List A
  sort_by [] = []
  sort_by (x ∷ xs) = insert_by x (sort_by xs)

  abbrev pub IsSortedByName : List A → Type 0
  IsSortedByName [] = Unit
  IsSortedByName (x ∷ xs) = All (λ y. str_leb (key x) (key y) ≡ true) xs × IsSortedByName xs

  All-insert_by : (P : A → Type 0) (x : A) (ys : List A) → P x → All P ys → All P (insert_by x ys)
  unfolding insert_by
  All-insert_by P x [] p h = (p, tt)
  All-insert_by P x (y ∷ ys) p h = elim (Bool-cases (str_leb (key x) (key y))) [
    | inl e ↦ rw e (p, h)
    | inr e ↦ rw e (h.0, All-insert_by P x ys p h.1)
  ]

  insert_by-IsSortedByName :
      (x : A) (ys : List A) → IsSortedByName ys → IsSortedByName (insert_by x ys)
  unfolding insert_by
  insert_by-IsSortedByName x [] h = (tt, tt)
  insert_by-IsSortedByName x (y ∷ ys) h = elim (Bool-cases (str_leb (key x) (key y))) [
    | inl e ↦ rw e ((e, All-map _ _ ys (λ z k. str_leb_trans (key x) (key y) (key z) e k) h.0), h)
    | inr e ↦ rw e (
      All-insert_by _ x ys (str_leb_total (key x) (key y) e) h.0,
      insert_by-IsSortedByName x ys h.1,
    )
  ]

  pub sort_by-IsSortedByName : (xs : List A) → IsSortedByName (sort_by xs)
  unfolding sort_by
  sort_by-IsSortedByName [] = tt
  sort_by-IsSortedByName (x ∷ xs) =
      insert_by-IsSortedByName x (sort_by xs) (sort_by-IsSortedByName xs)

  insert_by-perm : (x : A) (ys : List A) → Permᴰ (insert_by x ys) (x ∷ ys)
  unfolding insert_by
  insert_by-perm x [] = Permᴰ.cons refl Permᴰ.nil
  insert_by-perm x (y ∷ ys) = elim (Bool-cases (str_leb (key x) (key y))) [
    | inl e ↦ rw e (Permᴰ.refl (x ∷ y ∷ ys))
    | inr e ↦ rw e (Permᴰ.trans (Permᴰ.cons refl (insert_by-perm x ys)) (Permᴰ.swap refl refl))
  ]

  pub sort_by-perm : (xs : List A) → Permᴰ (sort_by xs) xs
  unfolding sort_by
  sort_by-perm [] = Permᴰ.nil
  sort_by-perm (x ∷ xs) =
      Permᴰ.trans (insert_by-perm x (sort_by xs)) (Permᴰ.cons refl (sort_by-perm xs))

  length-insert_by : (x : A) (ys : List A) → length (insert_by x ys) ≡ suc (length ys)
  unfolding insert_by
  length-insert_by x [] = refl
  length-insert_by x (y ∷ ys) = ground (arith, length-insert_by x ys)

  pub length-sort_by : (xs : List A) → length (sort_by xs) ≡ length xs
  unfolding sort_by
  length-sort_by [] = refl
  length-sort_by (x ∷ xs) = omega (arith, length-insert_by x (sort_by xs), length-sort_by xs)

-- Rust's `filter_map`.
abbrev pub cons_option {ℓ} : {A : Type ℓ} → Option A → List A → List A
cons_option none xs = xs
cons_option (some x) xs = x ∷ xs

abbrev pub filter_map {ℓ κ} : {A : Type ℓ} {B : Type κ} → (A → Option B) → List A → List B
filter_map f [] = []
filter_map f (x ∷ xs) = cons_option (f x) (filter_map f xs)

pub filter_map-append {ℓ κ} :
    {A : Type ℓ} {B : Type κ} (f : A → Option B) (xs ys : List A)
    → filter_map f (xs ++ ys) ≡ filter_map f xs ++ filter_map f ys
filter_map-append f [] ys = refl
filter_map-append f (x ∷ xs) ys = elim (Option-cases (f x)) [
  | inl e ↦ ground (arith, filter_map-append f xs ys)
  | inr (b, e) ↦ ground (arith, filter_map-append f xs ys)
]

-- Sorting commutes with a `filter_map` that keeps the keys.
module _ {A B : Type 0} (key : A → String) (key' : B → String) (f : A → Option B) where
  abbrev pub KeepsKey : A → Type 0
  KeepsKey a = (b : B) → f a ≡ some b → key' b ≡ key a

  insert_by-least :
      (b : B) (zs : List B)
      → All (λ z. str_leb (key' b) (key' z) ≡ true) zs
      → insert_by key' b zs ≡ b ∷ zs
  unfolding insert_by
  insert_by-least b [] h = refl
  insert_by-least b (z ∷ zs) h = rw h.0 refl

  All-filter_map :
      (x : String) (ys : List A)
      → All KeepsKey ys
      → All (λ y. str_leb x (key y) ≡ true) ys
      → All (λ z. str_leb x (key' z) ≡ true) (filter_map f ys)
  All-filter_map x [] k h = tt
  All-filter_map x (y ∷ ys) k h = elim (Option-cases (f y)) [
    | inl e ↦ rw (e, All) (All-filter_map x ys k.1 h.1)
    | inr (b, e) ↦ rw (e, All) (rw (k.0 b e) h.0, All-filter_map x ys k.1 h.1)
  ]

  filter_map-insert_by-none :
      (x : A) (ys : List A) → f x ≡ none → filter_map f (insert_by key x ys) ≡ filter_map f ys
  unfolding insert_by
  filter_map-insert_by-none x [] e = rw e refl
  filter_map-insert_by-none x (y ∷ ys) e = elim (Bool-cases (str_leb (key x) (key y))) [
    | inl h ↦ rw h rw e refl
    | inr h ↦ rw h (elim (Option-cases (f y)) [
      | inl n ↦ ground (arith, filter_map-insert_by-none x ys e)
      | inr (b, n) ↦ ground (arith, filter_map-insert_by-none x ys e)
    ])
  ]

  filter_map-insert_by-some :
      (x : A) (b : B) (ys : List A)
      → f x ≡ some b
      → key' b ≡ key x
      → All KeepsKey ys
      → IsSortedByName key ys
      → filter_map f (insert_by key x ys) ≡ insert_by key' b (filter_map f ys)
  unfolding insert_by
  filter_map-insert_by-some x b [] e k ks h = rw e refl
  filter_map-insert_by-some x b (y ∷ ys) e k ks h = elim (Bool-cases (str_leb (key x) (key y))) [
    | inl le ↦ rw le rw e (
        sym (
          insert_by-least b (filter_map f (y ∷ ys)) (
            rw k (
              All-filter_map (key x) (y ∷ ys) ks
                (le, All-map _ _ ys (λ z. str_leb_trans (key x) (key y) (key z) le) h.0)))))
    | inr gt ↦ rw gt (elim (Option-cases (f y)) [
      | inl n ↦ ground (arith, filter_map-insert_by-some x b ys e k ks.1 h.1)
      | inr (c, n) ↦ ground (arith, filter_map-insert_by-some x b ys e k ks.1 h.1, ks.0 c n)
    ])
  ]

  pub filter_map-sort_by :
      (xs : List A)
      → All KeepsKey xs
      → filter_map f (sort_by key xs) ≡ sort_by key' (filter_map f xs)
  unfolding sort_by
  filter_map-sort_by [] ks = refl
  filter_map-sort_by (x ∷ xs) ks = elim (Option-cases (f x)) [
    | inl e ↦ rw e (filter_map-insert_by-none x (sort_by key xs) e ∙ filter_map-sort_by xs ks.1)
    | inr (b, e) ↦ rw e (
        filter_map-insert_by-some x b (sort_by key xs) e (ks.0 b e)
          (All-perm _ (Permᴰ.symm (sort_by-perm key xs)) ks.1) (sort_by-IsSortedByName key xs)
        ∙ ap (insert_by key' b) (filter_map-sort_by xs ks.1))
  ]
