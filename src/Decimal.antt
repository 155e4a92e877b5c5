-- ===== src/Decimal.antt =====
-- Rust's decimal text of unsigned integers, over code points: `Display`, and `u64::from_str`.
use coulisse.Prelude.{
  ℕ, zero, suc, ◌+◌, ◌-◌, ◌*◌, ◌/◌, ◌%◌, ◌^◌, ◌≤◌, ◌<◌, ◌≡◌, ◌≢◌, refl, ap, ◌∙◌, Bool, true, ◌&&◌,
  Option, none, some, List, [], ◌∷◌, ◌++◌, arith, leb, ltb, ◌==◌, nat_eq, if◌then◌else◌, All,
  All-append, Bool-cases, inl, inr,
}

abbrev pub is_digit : ℕ → Bool
is_digit c = leb b'0' c && leb c b'9'

-- At most `fuel` digits; `print` gives as many as the number can have.
unfoldable pub print_fuel : ℕ → ℕ → List ℕ
print_fuel zero n = []
print_fuel (suc fuel) n =
    let front = print_fuel fuel (n / 10) in
    if ltb n 10 then (b'0' + n) ∷ [] else front ++ (b'0' + n % 10) ∷ []

unfoldable pub print : ℕ → List ℕ
print n = print_fuel (suc n) n

unfoldable pub read_digits : ℕ → List ℕ → Option ℕ
read_digits acc [] = some acc
read_digits acc (c ∷ cs) = if is_digit c then read_digits (acc * 10 + (c - b'0')) cs else none

abbrev pub u64_max : ℕ
u64_max = 2 ^ 64 - 1

abbrev bounded : Option ℕ → Option ℕ
bounded none = none
bounded (some n) = if leb n u64_max then some n else none

-- A lone sign or no text at all is no number, and a leading `+` is allowed.
unfoldable pub parse_u64 : List ℕ → Option ℕ
parse_u64 [] = none
parse_u64 (c ∷ []) = if is_digit c then some (c - b'0') else none
parse_u64 (c ∷ d ∷ cs) =
    if c == b'+' then bounded (read_digits 0 (d ∷ cs)) else bounded (read_digits 0 (c ∷ d ∷ cs))

read_digits-append_one :
    (acc n c : ℕ) (xs : List ℕ)
    → read_digits acc xs ≡ some n
    → is_digit c ≡ true
    → read_digits acc (xs ++ c ∷ []) ≡ some (n * 10 + (c - b'0'))
unfolding read_digits
read_digits-append_one acc n c [] h d = ground arith
read_digits-append_one acc n c (x ∷ xs) h d =
    ground (arith, read_digits-append_one (acc * 10 + (x - b'0')) n c xs)

read_digits-print_fuel : (fuel n : ℕ) → n < fuel → read_digits 0 (print_fuel fuel n) ≡ some n
unfolding print_fuel
read_digits-print_fuel zero n h = elim h [ ]
read_digits-print_fuel (suc fuel) n h = elim (Bool-cases (ltb n 10)) [
  | inl e ↦ rw e (unfold read_digits in ground arith)
  | inr e ↦ rw e (
      read_digits-append_one 0 (n / 10) (b'0' + n % 10) (print_fuel fuel (n / 10))
        (read_digits-print_fuel fuel (n / 10) (ground arith)) (ground arith)
      ∙ ap some (omega arith))
]

pub read_digits-print : (n : ℕ) → read_digits 0 (print n) ≡ some n
unfolding print
read_digits-print n = read_digits-print_fuel (suc n) n (omega arith)

-- Two numbers with one text are equal.
pub print-injective : (m n : ℕ) → print m ≡ print n → m ≡ n
print-injective m n e = cc (ap (read_digits 0) e, read_digits-print m, read_digits-print n)

print_fuel-digits : (fuel n : ℕ) → All (λ c. is_digit c ≡ true) (print_fuel fuel n)
unfolding print_fuel
print_fuel-digits zero n = tt
print_fuel-digits (suc fuel) n = elim (Bool-cases (ltb n 10)) [
  | inl e ↦ rw e (ground arith, tt)
  | inr e ↦ rw e (
      All-append _ (print_fuel fuel (n / 10)) _ (print_fuel-digits fuel (n / 10))
        (ground arith, tt))
]

pub print-digits : (n : ℕ) → All (λ c. is_digit c ≡ true) (print n)
unfolding print
print-digits n = print_fuel-digits (suc n) n

parse_u64-digits :
    (n : ℕ) (xs : List ℕ)
    → xs ≢ []
    → All (λ c. is_digit c ≡ true) xs
    → read_digits 0 xs ≡ some n
    → n ≤ u64_max
    → parse_u64 xs ≡ some n
unfolding parse_u64
parse_u64-digits n [] ne d h le = absurd (ne refl)
parse_u64-digits n (c ∷ []) ne d h le = unfold read_digits in ground arith
parse_u64-digits n (c ∷ d ∷ cs) ne ds h le = ground (arith, ds.0)

append_one-ne-nil : (xs : List ℕ) (c : ℕ) → xs ++ c ∷ [] ≢ []
append_one-ne-nil [] c e = cc
append_one-ne-nil (x ∷ xs) c e = cc

print-ne-nil : (n : ℕ) → print n ≢ []
unfolding print print_fuel
print-ne-nil n = elim (Bool-cases (ltb n 10)) [
  | inl e ↦ rw e (λ h. cc)
  | inr e ↦ rw e (append_one-ne-nil _ _)
]

-- Every `u64` reads back from its decimal text.
pub parse_u64-print : (n : ℕ) → n ≤ u64_max → parse_u64 (print n) ≡ some n
parse_u64-print n h =
    parse_u64-digits n (print n) (print-ne-nil n) (print-digits n) (read_digits-print n) h
