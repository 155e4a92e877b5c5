-- ===== src/Sanitize/Suffixes.antt =====
-- The search of crates/mcp/src/sanitize.rs for a free suffix ends: of one name more than are taken,
-- one is free.
use coulisse.Prelude.{
  ℕ, zero, suc, ◌+◌, ◌≤◌, ◌<◌, ◌≡◌, ◌≢◌, ◌↔◌, refl, sym, ap, ◌∙◌, true, false, not, List, [], ◌∷◌,
  ◌++◌, nat_eq, keep, length, arith, Bool-cases, inl, inr,
}
use coulisse.Decimal.{print, print-injective}
use coulisse.Sanitize.{Name, eq_name, suffixed, contains, free_suffix, dedupe}

eq_name_refl : (xs : Name) → eq_name xs xs ≡ true
eq_name_refl [] = refl
eq_name_refl (x ∷ xs) = ground (arith, eq_name_refl xs)

eq_name-eq : (xs ys : Name) → eq_name xs ys ≡ true → xs ≡ ys
eq_name-eq [] [] e = refl
eq_name-eq [] (y ∷ ys) e = absurd (ground arith)
eq_name-eq (x ∷ xs) [] e = absurd (ground arith)
eq_name-eq (x ∷ xs) (y ∷ ys) e = ground (arith, eq_name-eq xs ys)

pub eq_name_iff : (xs ys : Name) → (eq_name xs ys ≡ true) ↔ (xs ≡ ys)
eq_name_iff xs ys = (eq_name-eq xs ys, λ e. rw e (eq_name_refl ys))

-- The names taken but for one.
abbrev without : Name → List Name → List Name
without name taken = keep (λ t. not (eq_name t name)) taken

length-without_le : (name : Name) (taken : List Name) → length (without name taken) ≤ length taken
length-without_le name [] = omega arith
length-without_le name (t ∷ taken) = ground (arith, length-without_le name taken)

length-without :
    (name : Name) (taken : List Name)
    → contains taken name ≡ true
    → length (without name taken) < length taken
length-without name [] e = absurd (ground arith)
length-without name (t ∷ taken) e =
    ground (arith, length-without name taken, length-without_le name taken)

contains-without :
    (name other : Name) (taken : List Name)
    → other ≢ name
    → contains (without name taken) other ≡ contains taken other
contains-without name other [] ne = refl
contains-without name other (t ∷ taken) ne = elim (Bool-cases (eq_name t name)) [
  | inl e ↦ elim (Bool-cases (eq_name t other)) [
    | inl f ↦ absurd (ne (sym (eq_name-eq t other f) ∙ eq_name-eq t name e))
    | inr f ↦ rw e rw f (contains-without name other taken ne)
  ]
  | inr e ↦ rw e (ground (arith, contains-without name other taken ne))
]

abbrev tail : Name → Name
tail [] = []
tail (x ∷ xs) = xs

append-cancel : (xs ys zs : Name) → xs ++ ys ≡ xs ++ zs → ys ≡ zs
append-cancel [] ys zs e = e
append-cancel (x ∷ xs) ys zs e = append-cancel xs ys zs (ap tail e)

suffixed-ne : (candidate : Name) (m n : ℕ) → n < m → suffixed candidate m ≢ suffixed candidate n
suffixed-ne candidate m n h e = omega (
  arith,
  h,
  print-injective m n (ap tail (append-cancel candidate (b'_' ∷ print m) (b'_' ∷ print n) e)),
)

some_suffix_free :
    (bound : ℕ) (taken : List Name) (candidate : Name) (n : ℕ)
    → length taken ≤ bound
    → (m : ℕ) × (n ≤ m) × (m ≤ n + bound) × (contains taken (suffixed candidate m) ≡ false)
some_suffix_free zero [] candidate n h = (n, omega arith, omega arith, refl)
some_suffix_free zero (t ∷ taken) candidate n h = absurd (omega (arith, h))
some_suffix_free (suc bound) taken candidate n h =
    elim (Bool-cases (contains taken (suffixed candidate n))) [
      | inl e ↦
          let shorter = length-without (suffixed candidate n) taken e in
          let r =
            some_suffix_free bound (without (suffixed candidate n) taken) candidate (n + 1)
              (omega (arith, h, shorter)) in
          (
            r.0,
            omega (arith, r.1),
            omega (arith, r.2),
            sym (
                  contains-without (suffixed candidate n) (suffixed candidate r.0) taken
                    (suffixed-ne candidate r.0 n (omega (arith, r.1))))
                ∙ r.3,
          )
      | inr e ↦ (n, omega arith, omega arith, e)
    ]

differs :
    (taken : List Name) (candidate : Name) (n m : ℕ)
    → contains taken (suffixed candidate n) ≡ true
    → contains taken (suffixed candidate m) ≡ false
    → n ≢ m
differs taken candidate n m h e same =
    absurd (cc (h, e, ap (λ k. contains taken (suffixed candidate k)) same))

free_suffix-free :
    (fuel : ℕ) (taken : List Name) (candidate : Name) (n m : ℕ)
    → n ≤ m
    → m < n + fuel
    → contains taken (suffixed candidate m) ≡ false
    → contains taken (free_suffix fuel taken candidate n) ≡ false
unfolding free_suffix
free_suffix-free zero taken candidate n m le lt e = absurd (omega (arith, le, lt))
free_suffix-free (suc fuel) taken candidate n m le lt e =
    elim (Bool-cases (contains taken (suffixed candidate n))) [
      | inl h ↦ rw h (
          free_suffix-free fuel taken candidate (n + 1) m
            (ground (arith, le, differs taken candidate n m h e)) (omega (arith, lt)) e)
      | inr h ↦ rw h h
    ]

-- The name that `dedupe` gives is not among the names taken.
pub dedupe-fresh :
    (candidate : Name) (taken : List Name) → contains taken (dedupe candidate taken) ≡ false
unfolding dedupe
dedupe-fresh candidate taken = elim (Bool-cases (contains taken candidate)) [
  | inl e ↦
      let r = some_suffix_free (length taken) taken candidate 2 (omega arith) in
      rw e (free_suffix-free (length taken + 1) taken candidate 2 r.0 r.1 (omega (arith, r.2)) r.3)
  | inr e ↦ rw e e
]
