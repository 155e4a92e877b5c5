-- ===== src/Mcp/Vault/Tokens.antt =====
-- The token that crates/mcp/src/vault.rs reads for a user and a server after a write.
use coulisse.Prelude.{
  ℕ, String, ◌≡◌, ◌≢◌, ◌⊎◌, inl, inr, refl, sym, ap, subst, ◌∙◌, Option, none, some, List, find,
  string_eq, Result, ok, err, length, Option-cases, Result-cases, arith,
}
use coulisse.Mcp.Error.{McpError, not_connected}
use coulisse.Mcp.Vault.{
  Bytes, Crypto, StoredToken, TokenRow, split_nonce, nonce_bytes, transpose, map_option, of_user,
  upsert, encrypt_text, decrypt_text, delete_token, read_token, read_found, get_token, token_row,
  update_row, upsert_token,
}
use coulisse.Mcp.Vault.Sealing.{
  find-upsert, find-upsert_other, find-delete_where, find-delete_where_other, own_key, key_apart,
  read_sealed,
}

module _ (crypto : Crypto) where
  module _ (access_nonce refresh_nonce : Bytes) (now_secs : ℕ) (server user : String)
      (token : StoredToken) (tokens after : List TokenRow)
      (stored : upsert_token crypto access_nonce refresh_nonce now_secs server user token tokens
        ≡ ok after) where
    -- The parts of an upsert that succeeds.
    upserted :
        (access_enc : Bytes) × (refresh_enc : Option Bytes) × (encrypt_text crypto server
            access_nonce token.access_token
          ≡ ok access_enc)
        × (transpose (map_option (encrypt_text crypto server refresh_nonce) token.refresh_token)
            ≡ ok refresh_enc)
        × (let new =
              token_row crypto server user now_secs token.expires_at access_enc refresh_enc in
            upsert (of_user server user) (update_row crypto new) new tokens ≡ after)
    unfolding upsert_token
    upserted = elim (Result-cases (encrypt_text crypto server access_nonce token.access_token)) [
      | inr (e, f) ↦ absurd (cc (rw (f, upsert_token) at stored))
      | inl (access_enc, f) ↦
          elim (Result-cases (
            transpose
              (map_option (encrypt_text crypto server refresh_nonce) token.refresh_token))) [
                | inr (e, g) ↦ absurd (cc (rw (f, upsert_token, g) at stored))
                | inl (refresh_enc, g) ↦ (
                  access_enc,
                  refresh_enc,
                  f,
                  g,
                  ok-injective _ after (rw (f, upsert_token, g) at stored),
                )
              ]
    ]
      where
        Rows : Type 0
        Rows = Result McpError (List TokenRow)

        ok-injective : (a b : List TokenRow) → ◌≡◌ {A = Rows} (ok a) (ok b) → a ≡ b
        ok-injective a b e = ground arith

    -- With nonces of twelve bytes, a token that was stored for a user and a server is what is read
    -- back for them.
    pub get_token-upsert_token :
        length access_nonce ≡ nonce_bytes
        → length refresh_nonce ≡ nonce_bytes
        → get_token crypto server user after ≡ ok (some token)
    unfolding get_token
    get_token-upsert_token twelve twelve' =
        let (access_enc, refresh_enc, f, g, same) = upserted in
        let new = token_row crypto server user now_secs token.expires_at access_enc refresh_enc in
        let (row, found, which) =
          find-upsert (of_user server user) (update_row crypto new) new tokens (own_key server user)
            (λ r e. e) in
        let read =
          read_sealed crypto server access_nonce refresh_nonce access_enc refresh_enc token in
        subst (λ rows. get_token crypto server user rows ≡ ok (some token)) same
          (rw found elim which [
            | inl e ↦
                subst (λ r. read_token crypto server r ≡ ok (some token)) (sym e)
                  (read new twelve twelve' f g refl refl refl)
            | inr (old, e) ↦
                subst (λ r. read_token crypto server r ≡ ok (some token)) (sym e)
                  (read (update_row crypto new old) twelve twelve' f g refl refl refl)
          ])

    pub get_token-upsert_token_other :
        (s' u' : String)
        → (server ≢ s') ⊎ (user ≢ u')
        → get_token crypto s' u' after ≡ get_token crypto s' u' tokens
    unfolding get_token
    get_token-upsert_token_other s' u' apart =
        let (access_enc, refresh_enc, f, g, same) = upserted in
        let new = token_row crypto server user now_secs token.expires_at access_enc refresh_enc in
        ap (λ rows. get_token crypto s' u' rows) (sym same)
        ∙ ap (read_found crypto (read_token crypto s')) (
            find-upsert_other (of_user server user) (of_user s' u') (update_row crypto new) new
              tokens (key_apart server user s' u' new apart (own_key server user))
              (λ row e. (
                key_apart server user s' u' row apart e,
                key_apart server user s' u' (update_row crypto new row) apart e,
              )))

  pub get_token-delete_token :
      (server user : String) (tokens : List TokenRow)
      → get_token crypto server user (delete_token crypto server user tokens) ≡ ok none
  unfolding get_token delete_token
  get_token-delete_token server user tokens =
      ap (read_found crypto (read_token crypto server))
        (find-delete_where (of_user server user) tokens)

  pub get_token-delete_token_other :
      (server user s' u' : String) (tokens : List TokenRow)
      → (server ≢ s') ⊎ (user ≢ u')
      → get_token crypto s' u' (delete_token crypto server user tokens)
        ≡ get_token crypto s' u' tokens
  unfolding get_token delete_token
  get_token-delete_token_other server user s' u' tokens apart =
      ap (read_found crypto (read_token crypto s')) (
        find-delete_where_other (of_user server user) (of_user s' u') tokens
          (λ row e. key_apart server user s' u' row apart e))

  decrypt_text-err :
      (server : String) (blob : Bytes) {e : McpError}
      → decrypt_text crypto server blob ≡ err e
      → (a b : String) → e ≢ not_connected a b
  unfolding decrypt_text
  decrypt_text-err server blob {e} h a b n = elim (Option-cases (split_nonce nonce_bytes blob)) [
    | inl f ↦ absurd (cc (n, rw f at h))
    | inr ((nonce, ciphertext), f) ↦ elim (Option-cases (crypto.unseal nonce ciphertext)) [
      | inl g ↦ absurd (cc (n, rw (f, g) at h))
      | inr (plaintext, g) ↦ elim (Option-cases (crypto.from_utf8 plaintext)) [
        | inl k ↦ absurd (cc (n, rw (f, g, k) at h))
        | inr (text, k) ↦ absurd (cc (rw (f, g, k) at h))
      ]
    ]
  ]

  transpose-err :
      (server : String) (blob : Option Bytes) {e : McpError}
      → transpose (map_option (decrypt_text crypto server) blob) ≡ err e
      → (a b : String) → e ≢ not_connected a b
  transpose-err server none h a b n = cc h
  transpose-err server (some blob) h a b n = elim (Result-cases (decrypt_text crypto server blob)) [
    | inl (text, f) ↦ absurd (cc (rw (f, transpose) at h))
    | inr (e', f) ↦ decrypt_text-err server blob f a b (ground (arith, n, rw (f, transpose) at h))
  ]

  read_token-err :
      (server : String) (row : TokenRow) {e : McpError}
      → read_token crypto server row ≡ err e
      → (a b : String) → e ≢ not_connected a b
  read_token-err server row h a b n =
      elim (Result-cases (decrypt_text crypto server row.access_token_enc)) [
        | inr (e', f) ↦
            decrypt_text-err server row.access_token_enc f a b (ground (arith, n, rw f at h))
        | inl (text, f) ↦
            elim (Result-cases
              (transpose (map_option (decrypt_text crypto server) row.refresh_token_enc))) [
                | inr (e', g) ↦
                    transpose-err server row.refresh_token_enc g a b
                      (ground (arith, n, rw (f, g) at h))
                | inl (refresh_token, g) ↦ absurd (cc (rw (f, g) at h))
              ]
      ]

  pub get_token-err :
      (server user : String) (tokens : List TokenRow) {e : McpError}
      → get_token crypto server user tokens ≡ err e
      → (a b : String) → e ≢ not_connected a b
  unfolding get_token
  get_token-err server user tokens h a b n =
      elim (Option-cases (find (of_user server user) tokens)) [
        | inl f ↦ absurd (cc (rw f at h))
        | inr (row, f) ↦ read_token-err server row (rw f at h) a b n
      ]
