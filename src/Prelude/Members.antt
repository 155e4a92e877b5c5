-- ===== src/Prelude/Members.antt =====
-- Membership in a list that is appended or filtered.
use mathlib.Core.Path.{◌≡◌, refl, sym, ap, ◌∙◌}
use mathlib.Core.List.{List, [], ◌∷◌, ◌++◌, Memᴰ}
use mathlib.Core.Logic.{◌⊎◌, inl, inr}
use mathlib.Core.Option.{Option, some}
use coulisse.Prelude.Tests.{Option-cases}
use coulisse.Prelude.Sorting.{filter_map}

module _ {A : Type 0} where
  pub append-mem_left : (xs ys : List A) {a : A} → Memᴰ a xs → Memᴰ a (xs ++ ys)
  append-mem_left [] ys m = elim m [ ]
  append-mem_left (x ∷ xs) ys (Memᴰ.head e) = Memᴰ.head e
  append-mem_left (x ∷ xs) ys (Memᴰ.tail m) = Memᴰ.tail (append-mem_left xs ys m)

  pub append-mem_right : (xs ys : List A) {a : A} → Memᴰ a ys → Memᴰ a (xs ++ ys)
  append-mem_right [] ys m = m
  append-mem_right (x ∷ xs) ys m = Memᴰ.tail (append-mem_right xs ys m)

  pub mem-append : (xs ys : List A) {a : A} → Memᴰ a (xs ++ ys) → Memᴰ a xs ⊎ Memᴰ a ys
  mem-append [] ys m = inr m
  mem-append (x ∷ xs) ys (Memᴰ.head e) = inl (Memᴰ.head e)
  mem-append (x ∷ xs) ys (Memᴰ.tail m) = elim (mem-append xs ys m) [
    | inl l ↦ inl (Memᴰ.tail l)
    | inr r ↦ inr r
  ]

module _ {A B : Type 0} (f : A → Option B) where
  mem_cons-filter_map :
      (x : A) (xs : List A) (ys : List B) (c : B) {b : B}
      → f x ≡ some c
      → (Memᴰ b ys → (a : A) × Memᴰ a xs × (f a ≡ some b))
      → Memᴰ b (c ∷ ys)
      → (a : A) × Memᴰ a (x ∷ xs) × (f a ≡ some b)
  mem_cons-filter_map x xs ys c n k (Memᴰ.head e) = (x, Memᴰ.head refl, n ∙ ap some (sym e))
  mem_cons-filter_map x xs ys c n k (Memᴰ.tail m) = let r = k m in (r.0, Memᴰ.tail r.1, r.2)

  pub mem-filter_map :
      (xs : List A) {b : B} → Memᴰ b (filter_map f xs) → (a : A) × Memᴰ a xs × (f a ≡ some b)
  mem-filter_map [] m = elim m [ ]
  mem-filter_map (x ∷ xs) {b} m = elim (Option-cases (f x)) [
    | inl n ↦ let r = mem-filter_map xs {b = b} (rw n at m) in (r.0, Memᴰ.tail r.1, r.2)
    | inr (c, n) ↦
        mem_cons-filter_map x xs (filter_map f xs) c n (λ k. mem-filter_map xs {b = b} k)
          (rw n at m)
  ]

  pub filter_map-mem :
      (xs : List A) {a : A} {b : B} → Memᴰ a xs → f a ≡ some b → Memᴰ b (filter_map f xs)
  filter_map-mem [] m h = elim m [ ]
  filter_map-mem (x ∷ xs) (Memᴰ.head e) h = rw (ap f (sym e) ∙ h) (Memᴰ.head refl)
  filter_map-mem (x ∷ xs) {a} {b} (Memᴰ.tail m) h = elim (Option-cases (f x)) [
    | inl n ↦ rw n (filter_map-mem xs {a = a} {b = b} m h)
    | inr (c, n) ↦ rw n (Memᴰ.tail (filter_map-mem xs {a = a} {b = b} m h))
  ]
