-- ===== src/Prelude/Perms.antt =====
-- What a permutation and a membership carry over.
use mathlib.Core.Path.{◌≡◌, refl, sym, subst, ◌∙◌}
use mathlib.Core.Bool.{Bool, true, false}
use mathlib.Core.List.{List, [], ◌∷◌, Memᴰ, Permᴰ}
use mathlib.Core.Logic.{inl, inr}
use mathlib.Core.Option.{none, some}
use native.Mathlib.Omega.{arith}
use coulisse.Prelude.Tests.{Bool-cases}
use coulisse.Prelude.Lists.{All, find, keep}

module _ {ℓ κ} {A : Type ℓ} (P : A → Type κ) where
  pub All-perm : {xs ys : List A} → Permᴰ xs ys → All P xs → All P ys
  All-perm Permᴰ.nil h = h
  All-perm (Permᴰ.cons e p) h = (subst P e h.0, All-perm p h.1)
  All-perm (Permᴰ.swap e f) h = (subst P f h.1.0, (subst P e h.0, h.1.1))
  All-perm (Permᴰ.trans p q) h = All-perm q (All-perm p h)

  pub All-mem : {a : A} {xs : List A} → All P xs → Memᴰ a xs → P a
  All-mem h (Memᴰ.head e) = subst P (sym e) h.0
  All-mem h (Memᴰ.tail m) = All-mem h.1 m

module _ {ℓ} {A : Type ℓ} where
  pub mem-perm : {a : A} {xs ys : List A} → Permᴰ xs ys → Memᴰ a xs → Memᴰ a ys
  mem-perm Permᴰ.nil m = elim m [ ]
  mem-perm (Permᴰ.cons e p) (Memᴰ.head f) = Memᴰ.head (f ∙ e)
  mem-perm (Permᴰ.cons e p) (Memᴰ.tail m) = Memᴰ.tail (mem-perm p m)
  mem-perm (Permᴰ.swap e f) (Memᴰ.head g) = Memᴰ.tail (Memᴰ.head (g ∙ e))
  mem-perm (Permᴰ.swap e f) (Memᴰ.tail (Memᴰ.head g)) = Memᴰ.head (g ∙ f)
  mem-perm (Permᴰ.swap e f) (Memᴰ.tail (Memᴰ.tail m)) = Memᴰ.tail (Memᴰ.tail m)
  mem-perm (Permᴰ.trans p q) m = mem-perm q (mem-perm p m)

  -- What `find` returns is an element that passes the test; `none` means that none does.
  pub find-some :
      (p : A → Bool) (xs : List A) {a : A} → find p xs ≡ some a → Memᴰ a xs × (p a ≡ true)
  find-some p [] e = absurd (ground arith)
  find-some p (x ∷ xs) {a} e = elim (Bool-cases (p x)) [
    | inl h ↦ (Memᴰ.head (ground arith), ground arith)
    | inr h ↦ let r = find-some p xs {a = a} (ground arith) in (Memᴰ.tail r.0, r.1)
  ]

  pub find-none : (p : A → Bool) (xs : List A) → find p xs ≡ none → All (λ a. p a ≡ false) xs
  find-none p [] e = tt
  find-none p (x ∷ xs) e = (ground arith, find-none p xs (ground arith))

  pub All-keep {κ} :
      (P : A → Type κ) (p : A → Bool) (xs : List A)
      → ((a : A) → Memᴰ a xs → p a ≡ true → P a)
      → All P (keep p xs)
  All-keep P p [] f = tt
  All-keep P p (x ∷ xs) f = elim (Bool-cases (p x)) [
    | inl h ↦ rw h (f x (Memᴰ.head refl) h, All-keep P p xs (λ a m. f a (Memᴰ.tail m)))
    | inr h ↦ rw h (All-keep P p xs (λ a m. f a (Memᴰ.tail m)))
  ]

  mem-keep_cons :
      (p : A → Bool) (x : A) (xs ys : List A) {a : A}
      → p x ≡ true
      → (Memᴰ a ys → Memᴰ a xs × (p a ≡ true))
      → Memᴰ a (x ∷ ys)
      → Memᴰ a (x ∷ xs) × (p a ≡ true)
  mem-keep_cons p x xs ys h f (Memᴰ.head e) = (Memᴰ.head e, rw e h)
  mem-keep_cons p x xs ys h f (Memᴰ.tail n) = let r = f n in (Memᴰ.tail r.0, r.1)

  pub mem-keep :
      (p : A → Bool) (xs : List A) {a : A} → Memᴰ a (keep p xs) → Memᴰ a xs × (p a ≡ true)
  mem-keep p [] m = elim m [ ]
  mem-keep p (x ∷ xs) m = elim (Bool-cases (p x)) [
    | inl h ↦ mem-keep_cons p x xs (keep p xs) h (λ n. mem-keep p xs n) (rw h at m)
    | inr h ↦ let r = mem-keep p xs (rw h at m) in (Memᴰ.tail r.0, r.1)
  ]

  pub All-of_keep {κ} :
      (P : A → Type κ) (p : A → Bool) (xs : List A)
      → All P (keep p xs)
      → All (λ a. p a ≡ true → P a) xs
  All-of_keep P p [] h = tt
  All-of_keep P p (x ∷ xs) h = elim (Bool-cases (p x)) [
    | inl e ↦ let h' = rw e at h in ((λ _. h'.0), All-of_keep P p xs h'.1)
    | inr e ↦ ((λ f. absurd (ground arith)), All-of_keep P p xs (rw e at h))
  ]
