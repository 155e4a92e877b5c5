-- ===== src/Mcp/Vault/Interface.antt =====
-- What the sessions of users need of the token vault of crates/mcp/src/vault.rs: its operations on a
-- state, and what a read returns after a write.
use coulisse.Prelude.{
  ℕ, suc, String, ◌≡◌, ◌≢◌, ◌⊎◌, inl, inr, refl, Option, none, some, List, Result, ok, err, length,
  Result-cases,
}
use coulisse.Mcp.Error.{McpError, not_connected}
use coulisse.Mcp.Vault.{
  Bytes, Crypto, MetadataJson, StoredToken, StoredClient, Tables, TokenRow, nonce_bytes, get_token,
  get_client, upsert_token, delete_token,
}
use coulisse.Mcp.Vault.Tokens.{
  get_token-upsert_token, get_token-upsert_token_other, get_token-delete_token,
  get_token-delete_token_other, get_token-err,
}

pub record Vault (Metadata : Type 0) : Type 1 where
  pub State : Type 0
  pub get_token : String → String → State → Result McpError (Option StoredToken)
  pub get_client : String → State → Result McpError (Option (StoredClient Metadata))
  pub upsert_token : String → String → StoredToken → State → Result McpError (Unit {0}) × State
  pub delete_token : String → String → State → State

pub record IsVault {Metadata : Type 0} (v : Vault Metadata) : Type 0 where
  pub get-upsert :
      (server user : String) (token : StoredToken) (s : v.State)
      → (v.upsert_token server user token s).0 ≡ ok tt
      → v.get_token server user (v.upsert_token server user token s).1 ≡ ok (some token)
  pub get-upsert_other :
      (server user s' u' : String) (token : StoredToken) (s : v.State)
      → (server ≢ s') ⊎ (user ≢ u')
      → v.get_token s' u' (v.upsert_token server user token s).1 ≡ v.get_token s' u' s
  pub get-delete :
      (server user : String) (s : v.State)
      → v.get_token server user (v.delete_token server user s) ≡ ok none
  pub get-delete_other :
      (server user s' u' : String) (s : v.State)
      → (server ≢ s') ⊎ (user ≢ u')
      → v.get_token s' u' (v.delete_token server user s) ≡ v.get_token s' u' s
  -- A read does not ask for a new consent.
  pub get_errs :
      (server user : String) (s : v.State) {e : McpError}
      → v.get_token server user s ≡ err e
      → (a b : String) → e ≢ not_connected a b

-- The tables, and how many draws of nonces and clock readings were used.
pub record VaultState : Type 0 where
  pub tables : Tables
  pub drawn : ℕ

pub record VaultDraw : Type 0 where
  pub access_nonce : Bytes
  pub refresh_nonce : Bytes
  pub now_secs : ℕ
  pub access_twelve : length access_nonce ≡ nonce_bytes
  pub refresh_twelve : length refresh_nonce ≡ nonce_bytes

module _ (crypto : Crypto) {Metadata : Type 0} (json : MetadataJson Metadata)
    (draws : ℕ → VaultDraw) where
  -- `execute` after the sealing, or the error of the sealing.
  abbrev pub written :
      Result McpError (List TokenRow) → VaultState → Result McpError (Unit {0}) × VaultState
  written (ok tokens) s =
      (ok tt, record { tables = record s.tables { tokens = tokens }; drawn = suc s.drawn })
  written (err e) s = (err e, record s { drawn = suc s.drawn })

  abbrev pub upsert_drawn :
      String → String → StoredToken → VaultState → Result McpError (List TokenRow)
  upsert_drawn server user token s =
      let draw = draws s.drawn in
      upsert_token crypto draw.access_nonce draw.refresh_nonce draw.now_secs server user token
        s.tables.tokens

  abbrev pub token_vault : Vault Metadata
  token_vault = record {
    State = VaultState;
    get_token = λ server user s. get_token crypto server user s.tables.tokens;
    get_client = λ server s. get_client crypto json server s.tables.clients;
    upsert_token = λ server user token s. written (upsert_drawn server user token s) s;
    delete_token = λ server user s. record s {
      tables = record s.tables { tokens = delete_token crypto server user s.tables.tokens };
    };
  }

  upsert_stores :
      (server user : String) (token : StoredToken) (s : VaultState)
      → (written (upsert_drawn server user token s) s).0 ≡ ok tt
      → get_token crypto server user (written (upsert_drawn server user token s) s).1.tables.tokens
        ≡ ok (some token)
  upsert_stores server user token s h = elim (Result-cases (upsert_drawn server user token s)) [
    | inr (e, f) ↦ absurd (cc (rw (f, written) at h))
    | inl (after, f) ↦
        let draw = draws s.drawn in
        rw (f, written)
          (get_token-upsert_token crypto draw.access_nonce draw.refresh_nonce draw.now_secs server
            user token s.tables.tokens after f draw.access_twelve draw.refresh_twelve)
  ]

  upsert_spares :
      (server user s' u' : String) (token : StoredToken) (s : VaultState)
      → (server ≢ s') ⊎ (user ≢ u')
      → get_token crypto s' u' (written (upsert_drawn server user token s) s).1.tables.tokens
        ≡ get_token crypto s' u' s.tables.tokens
  upsert_spares server user s' u' token s apart =
      elim (Result-cases (upsert_drawn server user token s)) [
        | inr (e, f) ↦ rw (f, written) refl
        | inl (after, f) ↦
            let draw = draws s.drawn in
            rw (f, written)
              (get_token-upsert_token_other crypto draw.access_nonce draw.refresh_nonce
                draw.now_secs server user token s.tables.tokens after f s' u' apart)
      ]

  -- The vault on the tables keeps what it stores: after a token was stored for a user and a
  -- server a read for them returns it, after a deletion a read returns none, and both leave every
  -- other read as it was.
  pub token_vault-IsVault : IsVault token_vault
  token_vault-IsVault = record {
    get-upsert = upsert_stores;
    get-upsert_other = upsert_spares;
    get_errs = λ server user s {e} h. get_token-err crypto server user s.tables.tokens h;
    get-delete = λ server user s. get_token-delete_token crypto server user s.tables.tokens;
    get-delete_other = λ server user s' u' s apart.
        get_token-delete_token_other crypto server user s' u' s.tables.tokens apart;
  }
