-- ===== src/Sql.antt =====
-- The SQL statements that the crates send to SQLite, over a table as the list of its rows in rowid
-- order. `ORDER BY` leaves the order of equal keys open, so it is a parameter with its documented
-- behaviour.
pub mod Sort
use mathlib.Core.List.{Permᴰ, Memᴰ}
use coulisse.Prelude.{
  ℕ, zero, suc, ◌+◌, ◌≤◌, ◌≡◌, ◌≢◌, refl, ap, subst, Bool, true, false, not, Option, none, some,
  List, [], ◌∷◌, ◌++◌, map, arith, length, find, keep, All, if◌then◌else◌, Bool-cases, inl, inr,
}
use coulisse.Prelude.Int.{ℤ, ◌≤ℤ◌}

abbrev pub IsSortedBy : {R : Type 0} → (R → ℤ) → List R → Type 0
IsSortedBy key [] = Unit
IsSortedBy key (r ∷ rows) = All (λ q. key r ≤ℤ key q) rows × IsSortedBy key rows

-- `ORDER BY key ASC`.
pub record Ordering : Type 1 where
  pub order_by : (R : Type 0) → (R → ℤ) → List R → List R
  pub order_by-perm : (R : Type 0) (key : R → ℤ) (rows : List R) → Permᴰ (order_by R key rows) rows
  pub order_by-IsSortedBy :
      (R : Type 0) (key : R → ℤ) (rows : List R) → IsSortedBy key (order_by R key rows)

module _ {R : Type 0} where
  -- `LIMIT 1`, or the first row of a `fetch_optional`.
  abbrev pub first : List R → Option R
  first [] = none
  first (r ∷ rows) = some r

  -- `UPDATE … SET change WHERE test`.
  unfoldable pub update_where : (R → Bool) → (R → R) → List R → List R
  update_where test change [] = []
  update_where test change (r ∷ rows) =
      (if test r then change r else r) ∷ update_where test change rows

  -- `rows_affected()` of such a statement.
  unfoldable pub rows_affected : (R → Bool) → List R → ℕ
  rows_affected test [] = 0
  rows_affected test (r ∷ rows) = (if test r then 1 else 0) + rows_affected test rows

  -- `DELETE … WHERE test`.
  unfoldable pub delete_where : (R → Bool) → List R → List R
  delete_where test rows = keep (λ r. not (test r)) rows

  pub map-update_where {ℓ} :
      {K : Type ℓ} (key : R → K) (test : R → Bool) (change : R → R) (rows : List R)
      → ((r : R) → key (change r) ≡ key r)
      → map key (update_where test change rows) ≡ map key rows
  unfolding update_where
  map-update_where key test change [] same = refl
  map-update_where key test change (r ∷ rows) same =
      ground (arith, same r, map-update_where key test change rows same)

  pub All-update_where :
      (P Q : R → Type 0) (test : R → Bool) (change : R → R) (rows : List R)
      → ((r : R) → P r → test r ≡ true → Q (change r))
      → ((r : R) → P r → test r ≡ false → Q r)
      → All P rows
      → All Q (update_where test change rows)
  unfolding update_where
  All-update_where P Q test change [] hit miss h = tt
  All-update_where P Q test change (r ∷ rows) hit miss h = elim (Bool-cases (test r)) [
    | inl e ↦ rw e (hit r h.0 e, All-update_where P Q test change rows hit miss h.1)
    | inr e ↦ rw e (miss r h.0 e, All-update_where P Q test change rows hit miss h.1)
  ]

  -- A statement that touched a row found one.
  pub rows_affected-mem :
      (test : R → Bool) (rows : List R)
      → rows_affected test rows ≢ 0
      → (r : R) × Memᴰ r rows × (test r ≡ true)
  unfolding rows_affected
  rows_affected-mem test [] h = absurd (h refl)
  rows_affected-mem test (r ∷ rows) h = elim (Bool-cases (test r)) [
    | inl e ↦ (r, Memᴰ.head refl, e)
    | inr e ↦
        let (q, m, f) = rows_affected-mem test rows (λ z. h (rw e (omega (arith, z)))) in
        (q, Memᴰ.tail m, f)
  ]

  pub mem-rows_affected :
      (test : R → Bool) {r : R} {rows : List R}
      → Memᴰ r rows
      → test r ≡ true
      → rows_affected test rows ≢ 0
  unfolding rows_affected
  mem-rows_affected test (Memᴰ.head e) h z = ground (arith, ap test e)
  mem-rows_affected test {rows = q ∷ rows} (Memᴰ.tail m) h z =
      mem-rows_affected test m h (ground arith)

  -- The first row of an order is there if there is a row, and no key is below its key.
  pub first-IsSortedBy :
      (key : R → ℤ) (rows : List R) {r : R}
      → IsSortedBy key rows
      → first rows ≡ some r
      → All (λ q. key r ≤ℤ key q) rows
  first-IsSortedBy key [] s e = tt
  first-IsSortedBy key (q ∷ rows) {r} s e =
      subst (λ z. All (λ x. key z ≤ℤ key x) (q ∷ rows)) (cc) (omega arith, s.0)

  pub first-mem : (rows : List R) {r : R} → first rows ≡ some r → Memᴰ r rows
  first-mem [] e = absurd (ground arith)
  first-mem (q ∷ rows) {r} e = Memᴰ.head (cc)

  pub first-none : (rows : List R) → first rows ≡ none → rows ≡ []
  first-none [] e = refl
  first-none (q ∷ rows) e = cc
