-- ===== src/Mcp/Vault.antt =====
-- crates/mcp/src/vault.rs: the tables `mcp_oauth_tokens` and `mcp_oauth_clients` and the sealing of
-- what they hold. The `aes-gcm` crate, UTF-8 and the JSON of the metadata are parameters; a user is
-- the text of its id; the drawn nonces and the seconds of the clock are arguments; the statements
-- themselves succeed.
pub mod Sealing
pub mod Tokens
pub mod Interface
pub mod Tests
use coulisse.Prelude.{
  ℕ, zero, suc, String, ◌≡◌, Bool, true, false, not, ◌&&◌, Option, none, some, List, [], ◌∷◌, ◌++◌,
  map, find, if◌then◌else◌, ◌==◌, string_eq, Result, ok, err, ◌>>=◌, ok_or, length,
}
use coulisse.Prelude.Int.{ℤ}
use coulisse.Core.{u64_to_i64}
use coulisse.Sql.{delete_where, first}
use coulisse.Mcp.Error.{McpError, encrypt, decrypt, decrypted_not_utf8, client_metadata}

abbrev pub Bytes : Type 0
Bytes = List ℕ

-- What the vault uses of other crates: a cipher under the vault's key, which opens what it sealed
-- with the same nonce, and the bytes of a text.
pub record Crypto : Type 0 where
  pub seal : Bytes → Bytes → Option Bytes
  pub unseal : Bytes → Bytes → Option Bytes
  pub unseal-seal :
      (nonce plaintext ciphertext : Bytes)
      → seal nonce plaintext ≡ some ciphertext
      → unseal nonce ciphertext ≡ some plaintext
  pub as_bytes : String → Bytes
  pub from_utf8 : Bytes → Option String
  pub from_utf8-as_bytes : (s : String) → from_utf8 (as_bytes s) ≡ some s

-- The JSON of `AuthMetadata`.
pub record MetadataJson (Metadata : Type 0) : Type 0 where
  pub to_string : Metadata → Option String
  pub from_str : String → Option Metadata
  pub from_str-to_string :
      (m : Metadata) (json : String) → to_string m ≡ some json → from_str json ≡ some m

pub record StoredToken : Type 0 where
  pub access_token : String
  pub expires_at : Option ℤ
  pub refresh_token : Option String

pub record StoredClient (Metadata : Type 0) : Type 0 where
  pub client_id : String
  pub client_secret : Option String
  pub metadata : Metadata
  pub redirect_uri : String

pub record TokenRow : Type 0 where
  pub access_token_enc : Bytes
  pub created_at : ℤ
  pub expires_at : Option ℤ
  pub refresh_token_enc : Option Bytes
  pub server_name : String
  pub updated_at : ℤ
  pub user_id : String

pub record ClientRow : Type 0 where
  pub client_id : String
  pub client_secret_enc : Option Bytes
  pub metadata_json : String
  pub redirect_uri : String
  pub registered_at : ℤ
  pub server_name : String

pub record Tables : Type 0 where
  pub tokens : List TokenRow
  pub clients : List ClientRow

-- `blob.get(..12)`, with what stands behind it.
abbrev pub split_nonce : ℕ → Bytes → Option (Bytes × Bytes)
split_nonce zero blob = some ([], blob)
split_nonce (suc n) [] = none
split_nonce (suc n) (b ∷ blob) = elim (split_nonce n blob) [
  | none ↦ none
  | some (nonce, rest) ↦ some (b ∷ nonce, rest)
]

abbrev pub nonce_bytes : ℕ
nonce_bytes = 12

-- `Option<Result>::transpose`.
abbrev pub transpose : {A : Type 0} → Option (Result McpError A) → Result McpError (Option A)
transpose none = ok none
transpose (some (ok a)) = ok (some a)
transpose (some (err e)) = err e

abbrev pub map_option : {A B : Type 0} → (A → B) → Option A → Option B
map_option f none = none
map_option f (some a) = some (f a)

-- The primary key of the tokens.
abbrev pub of_user : String → String → TokenRow → Bool
of_user server user row = row.server_name == server && row.user_id == user

abbrev pub of_server : String → ClientRow → Bool
of_server server row = row.server_name == server

-- `INSERT … ON CONFLICT DO UPDATE`: the row with the key is updated, or the new one is added.
abbrev pub upsert : {R : Type 0} → (R → Bool) → (R → R) → R → List R → List R
upsert has_key update new [] = new ∷ []
upsert has_key update new (row ∷ rows) =
    if has_key row then update row ∷ rows else row ∷ upsert has_key update new rows

module _ (crypto : Crypto) where
  unfoldable pub encrypt_text : String → Bytes → String → Result McpError Bytes
  encrypt_text server nonce plaintext =
      ok_or (crypto.seal nonce (crypto.as_bytes plaintext)) (encrypt server) >>= λ ciphertext.
      ok (nonce ++ ciphertext)

  abbrev pub unseal_parts : String → Option (Bytes × Bytes) → Result McpError Bytes
  unseal_parts server none = err (decrypt server)
  unseal_parts server (some (nonce, ciphertext)) =
      ok_or (crypto.unseal nonce ciphertext) (decrypt server)

  unfoldable pub decrypt_text : String → Bytes → Result McpError String
  decrypt_text server blob = unseal_parts server (split_nonce nonce_bytes blob) >>= λ plaintext.
      ok_or (crypto.from_utf8 plaintext) (decrypted_not_utf8 server)

  unfoldable pub delete_token : String → String → List TokenRow → List TokenRow
  delete_token server user tokens = delete_where (of_user server user) tokens

  abbrev pub read_token : String → TokenRow → Result McpError (Option StoredToken)
  read_token server row = decrypt_text server row.access_token_enc >>= λ access_token.
      transpose (map_option (decrypt_text server) row.refresh_token_enc) >>= λ refresh_token. ok (
        some (record {
          access_token = access_token;
          expires_at = row.expires_at;
          refresh_token = refresh_token;
        }))

  abbrev pub read_found :
      {R A : Type 0} → (R → Result McpError (Option A)) → Option R → Result McpError (Option A)
  read_found read none = ok none
  read_found read (some row) = read row

  unfoldable pub get_token : String → String → List TokenRow → Result McpError (Option StoredToken)
  get_token server user tokens = read_found (read_token server) (find (of_user server user) tokens)

  -- The row that `upsert_token` inserts, and its update of the row with the key.
  abbrev pub token_row : String → String → ℕ → Option ℤ → Bytes → Option Bytes → TokenRow
  token_row server user now_secs expires_at access_enc refresh_enc = record {
    access_token_enc = access_enc;
    created_at = u64_to_i64 now_secs;
    expires_at = expires_at;
    refresh_token_enc = refresh_enc;
    server_name = server;
    updated_at = u64_to_i64 now_secs;
    user_id = user;
  }

  abbrev pub update_row : TokenRow → TokenRow → TokenRow
  update_row new row = record row {
    access_token_enc = new.access_token_enc;
    expires_at = new.expires_at;
    refresh_token_enc = new.refresh_token_enc;
    updated_at = new.updated_at;
  }

  -- `access_nonce` and `refresh_nonce` are those that the two encryptions draw.
  unfoldable pub upsert_token :
      (access_nonce refresh_nonce : Bytes)
      → ℕ
      → String
      → String
      → StoredToken
      → List TokenRow
      → Result McpError (List TokenRow)
  upsert_token access_nonce refresh_nonce now_secs server user token tokens =
      encrypt_text server access_nonce token.access_token >>= λ access_enc.
      transpose (map_option (encrypt_text server refresh_nonce) token.refresh_token)
      >>= λ refresh_enc.
          let new = token_row server user now_secs token.expires_at access_enc refresh_enc in
          ok (upsert (of_user server user) (update_row new) new tokens)

  module _ {Metadata : Type 0} (json : MetadataJson Metadata) where
    abbrev pub read_client : String → ClientRow → Result McpError (Option (StoredClient Metadata))
    read_client server row =
        transpose (map_option (decrypt_text server) row.client_secret_enc) >>= λ client_secret.
        ok_or (json.from_str row.metadata_json) (client_metadata server) >>= λ metadata. ok (
          some (record {
            client_id = row.client_id;
            client_secret = client_secret;
            metadata = metadata;
            redirect_uri = row.redirect_uri;
          }))

    unfoldable pub get_client :
        String → List ClientRow → Result McpError (Option (StoredClient Metadata))
    get_client server clients = read_found (read_client server) (find (of_server server) clients)

    unfoldable pub upsert_client :
        Bytes
        → ℕ
        → String
        → StoredClient Metadata
        → List ClientRow
        → Result McpError (List ClientRow)
    upsert_client nonce now_secs server client clients =
        transpose (map_option (encrypt_text server nonce) client.client_secret) >>= λ secret_enc.
        ok_or (json.to_string client.metadata) (client_metadata server) >>= λ metadata_json.
        let new : ClientRow = record {
          client_id = client.client_id;
          client_secret_enc = secret_enc;
          metadata_json = metadata_json;
          redirect_uri = client.redirect_uri;
          registered_at = u64_to_i64 now_secs;
          server_name = server;
        } in
        ok (upsert (of_server server) (λ row. new) new clients)
