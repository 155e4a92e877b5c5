-- ===== src/Mcp/Vault/Sealing.antt =====
-- What crates/mcp/src/vault.rs reads back of what it sealed.
use coulisse.Prelude.{
  String, ◌≡◌, ◌≢◌, ◌⊎◌, inl, inr, refl, sym, ap, subst, ◌∙◌, Bool, true, false, ◌&&◌, Option, none,
  some, List, [], ◌∷◌, ◌++◌, find, ◌==◌, ==_iff, ==_refl, string_eq, Result, ok, length,
  Option-cases, Result-cases, Bool-cases, if◌then◌else◌, arith,
}
use coulisse.Sql.{delete_where}
use coulisse.Mcp.Error.{McpError}
use coulisse.Mcp.Vault.{
  Bytes, Crypto, StoredToken, TokenRow, split_nonce, nonce_bytes, transpose, map_option, of_user,
  upsert, encrypt_text, decrypt_text, read_token,
}

split_nonce-append :
    (nonce rest : Bytes) → split_nonce (length nonce) (nonce ++ rest) ≡ some (nonce, rest)
split_nonce-append [] rest = refl
split_nonce-append (b ∷ nonce) rest = rw (split_nonce-append nonce rest) refl

module _ {R : Type 0} where
  -- After an upsert the row with the key is the new one or the updated one.
  pub find-upsert :
      (has_key : R → Bool) (update : R → R) (new : R) (rows : List R)
      → has_key new ≡ true
      → ((row : R) → has_key row ≡ true → has_key (update row) ≡ true)
      → (row : R) × (find has_key (upsert has_key update new rows) ≡ some row)
        × ((row ≡ new) ⊎ ((old : R) × (row ≡ update old)))
  find-upsert has_key update new [] own kept = (new, rw own refl, inl refl)
  find-upsert has_key update new (row ∷ rows) own kept = elim (Bool-cases (has_key row)) [
    | inl e ↦ (update row, rw e (rw (kept row e) refl), inr (row, refl))
    | inr e ↦
        let (found, f, which) = find-upsert has_key update new rows own kept in
        (found, rw (e, e) f, which)
  ]

  pub find-upsert_other :
      (has_key other : R → Bool) (update : R → R) (new : R) (rows : List R)
      → other new ≡ false
      → ((row : R) → has_key row ≡ true → (other row ≡ false) × (other (update row) ≡ false))
      → find other (upsert has_key update new rows) ≡ find other rows
  find-upsert_other has_key other update new [] miss apart = rw miss refl
  find-upsert_other has_key other update new (row ∷ rows) miss apart =
      elim (Bool-cases (has_key row)) [
        | inl e ↦ rw e (rw ((apart row e).0, (apart row e).1) refl)
        | inr e ↦ rw e (
            ap (λ found. if other row then some row else found)
              (find-upsert_other has_key other update new rows miss apart))
      ]

  pub find-delete_where : (p : R → Bool) (rows : List R) → find p (delete_where p rows) ≡ none
  unfolding delete_where
  find-delete_where p [] = refl
  find-delete_where p (row ∷ rows) = elim (Bool-cases (p row)) [
    | inl e ↦ rw e (find-delete_where p rows)
    | inr e ↦ rw (e, e) (find-delete_where p rows)
  ]

  pub find-delete_where_other :
      (p other : R → Bool) (rows : List R)
      → ((row : R) → p row ≡ true → other row ≡ false)
      → find other (delete_where p rows) ≡ find other rows
  unfolding delete_where
  find-delete_where_other p other [] apart = refl
  find-delete_where_other p other (row ∷ rows) apart = elim (Bool-cases (p row)) [
    | inl e ↦ rw (e, apart row e) (find-delete_where_other p other rows apart)
    | inr e ↦ rw e (
        ap (λ found. if other row then some row else found)
          (find-delete_where_other p other rows apart))
  ]

pub own_key : (s u : String) → ((s == s) && (u == u)) ≡ true
own_key s u = rw (==_refl s, ==_refl u) refl

-- A row of one key is of no other.
pub key_apart :
    (s u s' u' : String) (row : TokenRow)
    → (s ≢ s') ⊎ (u ≢ u')
    → of_user s u row ≡ true
    → of_user s' u' row ≡ false
key_apart s u s' u' row apart e = ground (
  arith,
  e,
  ==_iff row.server_name s,
  ==_iff row.user_id u,
  ==_iff row.server_name s',
  ==_iff row.user_id u',
)

module _ (crypto : Crypto) where
  -- With a nonce of twelve bytes, what was sealed is read back.
  pub decrypt_text-encrypt_text :
      (server nonce : _) (plaintext : String) (blob : Bytes)
      → length nonce ≡ nonce_bytes
      → encrypt_text crypto server nonce plaintext ≡ ok blob
      → decrypt_text crypto server blob ≡ ok plaintext
  unfolding encrypt_text decrypt_text
  decrypt_text-encrypt_text server nonce plaintext blob twelve h =
      elim (Option-cases (crypto.seal nonce (crypto.as_bytes plaintext))) [
        | inl e ↦ absurd (cc (rw e at h))
        | inr (ciphertext, e) ↦
            let same : nonce ++ ciphertext ≡ blob = ground (arith, rw e at h) in
            let parts : split_nonce nonce_bytes blob ≡ some (nonce, ciphertext) =
              ap (λ n. split_nonce n blob) (sym twelve)
              ∙ ap (split_nonce (length nonce)) (sym same)
              ∙ split_nonce-append nonce ciphertext in
            rw
              (
                parts,
                crypto.unseal-seal nonce (crypto.as_bytes plaintext) ciphertext e,
                crypto.from_utf8-as_bytes plaintext,
              )
              refl
      ]

  transpose-sealed :
      (server : String) (nonce : Bytes) (plaintext : Option String) (blob : Option Bytes)
      → length nonce ≡ nonce_bytes
      → transpose (map_option (encrypt_text crypto server nonce) plaintext) ≡ ok blob
      → transpose (map_option (decrypt_text crypto server) blob) ≡ ok plaintext
  transpose-sealed server nonce none none twelve h = refl
  transpose-sealed server nonce none (some b) twelve h = absurd (ground arith)
  transpose-sealed server nonce (some text) blob twelve h =
      elim (Result-cases (encrypt_text crypto server nonce text)) [
        | inr (e, f) ↦ absurd (cc (rw (f, transpose) at h))
        | inl (sealed, f) ↦
            let same : some sealed ≡ blob =
              ok-injective (some sealed) blob (rw (f, transpose) at h) in
            subst (λ b. transpose (map_option (decrypt_text crypto server) b) ≡ ok (some text)) same
              (rw (decrypt_text-encrypt_text server nonce text sealed twelve f) refl)
      ]
    where
      Sealed : Type 0
      Sealed = Result McpError (Option Bytes)

      ok-injective : (a b : Option Bytes) → ◌≡◌ {A = Sealed} (ok a) (ok b) → a ≡ b
      ok-injective a b e = ground arith

  -- What a row with the sealed parts of a token reads as.
  pub read_sealed :
      (server access_nonce refresh_nonce access_enc : _) (refresh_enc : Option Bytes)
      (token : StoredToken) (row : TokenRow)
      → length access_nonce ≡ nonce_bytes
      → length refresh_nonce ≡ nonce_bytes
      → encrypt_text crypto server access_nonce token.access_token ≡ ok access_enc
      → transpose (map_option (encrypt_text crypto server refresh_nonce) token.refresh_token)
        ≡ ok refresh_enc
      → row.access_token_enc ≡ access_enc
      → row.refresh_token_enc ≡ refresh_enc
      → row.expires_at ≡ token.expires_at
      → read_token crypto server row ≡ ok (some token)
  read_sealed server access_nonce refresh_nonce access_enc refresh_enc token row twelve twelve' f g
        a r x =
      rw
        (
          a,
          decrypt_text-encrypt_text server access_nonce token.access_token access_enc twelve f,
          r,
          transpose-sealed server refresh_nonce token.refresh_token refresh_enc twelve' g,
          x,
        )
        refl
