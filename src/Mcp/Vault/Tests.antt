-- ===== src/Mcp/Vault/Tests.antt =====
-- A vault whose cipher hides nothing, over the code points of a text.
use Prim.Native.Char.{Char, char, code, IsScalar}
use Prim.Native.Nat.{compare, Ordering}
use coulisse.Prelude.{
  ℕ, String, ◌≡◌, ◌⊎◌, inl, inr, refl, sym, ap, Option, none, some, List, [], ◌∷◌, codes,
}
use coulisse.Mcp.Vault.{Bytes, Crypto, MetadataJson}
use coulisse.Mcp.Vault.Interface.{IsVault, VaultDraw, token_vault, token_vault-IsVault}

Ordering-cases : (o : Ordering) → (o ≡ Ordering.lt) ⊎ ((o ≡ Ordering.eq) ⊎ (o ≡ Ordering.gt))
Ordering-cases Ordering.lt = inl refl
Ordering-cases Ordering.eq = inr (inl refl)
Ordering-cases Ordering.gt = inr (inr refl)

abbrev Decided : Type 0 → Type 0
Decided P = (P ⊎ (P → ⊥)) × ((p q : P) → p ≡ q)

decided_unit : Decided (Unit {0})
decided_unit = (inl tt, λ p q. refl)

decided_empty : Decided ⊥
decided_empty = (inr (λ p. p), λ p q. absurd p)

-- The scalar value test, by the three orders that it depends on.
IsScalar-above :
    (n : ℕ)
    → ((compare n 55296 ≡ Ordering.eq) ⊎ (compare n 55296 ≡ Ordering.gt))
    → Decided (IsScalar n)
IsScalar-above n e = elim (Ordering-cases (compare 57343 n)) [
  | inl f ↦ elim (Ordering-cases (compare n 1114112)) [
    | inl g ↦ elim e [ inl e ↦ rw (e, f, g) decided_unit | inr e ↦ rw (e, f, g) decided_unit ]
    | inr h ↦ elim h [
      | inl g ↦ elim e [ inl e ↦ rw (e, f, g) decided_empty | inr e ↦ rw (e, f, g) decided_empty ]
      | inr g ↦ elim e [ inl e ↦ rw (e, f, g) decided_empty | inr e ↦ rw (e, f, g) decided_empty ]
    ]
  ]
  | inr h ↦ elim h [
    | inl f ↦ elim e [ inl e ↦ rw (e, f) decided_empty | inr e ↦ rw (e, f) decided_empty ]
    | inr f ↦ elim e [ inl e ↦ rw (e, f) decided_empty | inr e ↦ rw (e, f) decided_empty ]
  ]
]

scalar : (n : ℕ) → Decided (IsScalar n)
scalar n = elim (Ordering-cases (compare n 55296)) [
  | inl e ↦ rw e decided_unit
  | inr e ↦ IsScalar-above n e
]

abbrev char_from : (n : ℕ) → IsScalar n ⊎ (IsScalar n → ⊥) → Option Char
char_from n (inl p) = some (char n p)
char_from n (inr no_scalar) = none

abbrev char_of : ℕ → Option Char
char_of n = char_from n (scalar n).0

abbrev push_char : Option Char → Option String → Option String
push_char none rest = none
push_char (some c) none = none
push_char (some c) (some rest) = some (String.◌∷◌ c rest)

abbrev string_of : List ℕ → Option String
string_of [] = some String.[]
string_of (n ∷ ns) = push_char (char_of n) (string_of ns)

char_from-scalar :
    (n : ℕ) (p : IsScalar n) (d : Decided (IsScalar n)) → char_from n d.0 ≡ some (char n p)
char_from-scalar n p (inl q, same) = ap (λ r. some (char n r)) (same q p)
char_from-scalar n p (inr no_scalar, same) = absurd (no_scalar p)

char_of-code : (c : Char) → char_of (code c) ≡ some c
char_of-code (char n p) = char_from-scalar n p (scalar n)

string_of-codes : (s : String) → string_of (codes s) ≡ some s
string_of-codes String.[] = refl
string_of-codes (String.◌∷◌ c s) = rw (char_of-code c, string_of-codes s) refl

abbrev plain : Crypto
plain = record {
  seal = λ nonce plaintext. some plaintext;
  unseal = λ nonce ciphertext. some ciphertext;
  unseal-seal = λ nonce plaintext ciphertext h. sym h;
  as_bytes = codes;
  from_utf8 = string_of;
  from_utf8-as_bytes = string_of-codes;
}

abbrev text_metadata : MetadataJson String
text_metadata = record {
  to_string = λ m. some m;
  from_str = λ s. some s;
  from_str-to_string = λ m json h. sym h;
}

abbrev twelve_zeros : Bytes
twelve_zeros = 0 ∷ 0 ∷ 0 ∷ 0 ∷ 0 ∷ 0 ∷ 0 ∷ 0 ∷ 0 ∷ 0 ∷ 0 ∷ 0 ∷ []

abbrev draws : ℕ → VaultDraw
draws n = record {
  access_nonce = twelve_zeros;
  refresh_nonce = twelve_zeros;
  now_secs = n;
  access_twelve = refl;
  refresh_twelve = refl;
}

token_vault-IsVault_example : IsVault (token_vault plain text_metadata draws)
token_vault-IsVault_example = token_vault-IsVault plain text_metadata draws
