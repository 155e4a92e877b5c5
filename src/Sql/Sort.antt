-- ===== src/Sql/Sort.antt =====
-- An order that meets the interface: insertion before the first row with a larger key.
use mathlib.Core.List.Permᴰ
use mathlib.Core.List.{Permᴰ}
use coulisse.Prelude.{refl, List, [], ◌∷◌, arith, All, if◌then◌else◌, Bool-cases, inl, inr, All-map}
use coulisse.Prelude.Int.{ℤ, ◌≤ℤ◌, ltb_ℤ}
use coulisse.Sql.{IsSortedBy, Ordering}

module _ (R : Type 0) (key : R → ℤ) where
  place : R → List R → List R
  place r [] = r ∷ []
  place r (q ∷ rows) =
      let rest = place r rows in if ltb_ℤ (key r) (key q) then r ∷ q ∷ rows else q ∷ rest

  place-perm : (r : R) (rows : List R) → Permᴰ (place r rows) (r ∷ rows)
  unfolding place
  place-perm r [] = Permᴰ.cons refl Permᴰ.nil
  place-perm r (q ∷ rows) = elim (Bool-cases (ltb_ℤ (key r) (key q))) [
    | inl e ↦ rw e (Permᴰ.cons refl (Permᴰ.refl (q ∷ rows)))
    | inr e ↦ rw e (Permᴰ.trans (Permᴰ.cons refl (place-perm r rows)) (Permᴰ.swap refl refl))
  ]

  place-All :
      (k : ℤ) (r : R) (rows : List R)
      → k ≤ℤ key r
      → All (λ q. k ≤ℤ key q) rows
      → All (λ q. k ≤ℤ key q) (place r rows)
  unfolding place
  place-All k r [] h a = (h, tt)
  place-All k r (q ∷ rows) h a = ground (arith, place-All k r rows h a.1)

  below_trans :
      (j k : ℤ) (rows : List R) → j ≤ℤ k → All (λ q. k ≤ℤ key q) rows → All (λ q. j ≤ℤ key q) rows
  below_trans j k rows h = All-map _ _ rows (λ q m. omega arith)

  place-IsSortedBy : (r : R) (rows : List R) → IsSortedBy key rows → IsSortedBy key (place r rows)
  unfolding place
  place-IsSortedBy r [] h = (tt, tt)
  place-IsSortedBy r (q ∷ rows) h = elim (Bool-cases (ltb_ℤ (key r) (key q))) [
    | inl e ↦ rw e ((ground arith, below_trans (key r) (key q) rows (ground arith) h.0), h)
    | inr e ↦ rw e (place-All (key q) r rows (ground arith) h.0, place-IsSortedBy r rows h.1)
  ]

  pub sort : List R → List R
  sort [] = []
  sort (r ∷ rows) = place r (sort rows)

  pub sort-perm : (rows : List R) → Permᴰ (sort rows) rows
  unfolding sort
  sort-perm [] = Permᴰ.nil
  sort-perm (r ∷ rows) = Permᴰ.trans (place-perm r (sort rows)) (Permᴰ.cons refl (sort-perm rows))

  pub sort-IsSortedBy : (rows : List R) → IsSortedBy key (sort rows)
  unfolding sort
  sort-IsSortedBy [] = tt
  sort-IsSortedBy (r ∷ rows) = place-IsSortedBy r (sort rows) (sort-IsSortedBy rows)

unfoldable pub insertion_order : Ordering
unfolding sort place
insertion_order = record {
  order_by = sort;
  order_by-perm = sort-perm;
  order_by-IsSortedBy = sort-IsSortedBy;
}
