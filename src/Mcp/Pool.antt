-- ===== src/Mcp/Pool.antt =====
-- crates/mcp/src/pool.rs: `UserMcpPool`, which keeps the sessions of users on the servers that ask
-- for their consent. The cache is a list of keys and sessions. What the `moka` crate drops of it, for
-- its capacity or the idle time, is a parameter where a session is inserted; a call is looked at from
-- the cache that it finds.
pub mod Rules
pub mod Sessions
pub mod Refreshes
pub mod Outcomes
pub mod Tests
use coulisse.Prelude.{
  ℕ, ◌+◌, String, Bool, false, ◌&&◌, Option, none, some, List, [], ◌∷◌, if◌then◌else◌, ◌==◌,
  string_eq, Result, ok, err,
}
use coulisse.Prelude.Int.{ℤ, pos_part, neg_part, pos, sub_ℕ, ltb_ℤ}
use coulisse.Core.{u64_to_i64}
use coulisse.Mcp.Config.{McpServerConfig}
use coulisse.Mcp.Error.{McpError, not_connected, server_not_configured, looks_like_auth_failure}
use coulisse.Mcp.Session.{
  TokenResponse, into_stored_token, Outside, UserMcpSession, connect_session, refresh_token_grant,
}
use coulisse.Mcp.Vault.{StoredToken, StoredClient}
use coulisse.Mcp.Vault.Interface.{Vault}

-- Refresh a token this close to its expiry, in seconds.
abbrev pub expiry_margin_secs : ℕ
expiry_margin_secs = 60

-- What the `moka` crate has in its cache after an insertion, of what it would have without a limit:
-- it keeps to its capacity and to the idle time, and drops the session of any key for that.
pub record SessionCache {Metadata : Type 0} (outside : Outside Metadata) : Type 0 where
  pub retained :
      outside.World
      → List ((String × String) × UserMcpSession outside)
      → List ((String × String) × UserMcpSession outside)

module _ {Metadata : Type 0} (v : Vault Metadata) (outside : Outside Metadata)
    (moka : SessionCache outside) where
  open outside use {World, now_secs, debug}

  abbrev pub Session : Type 0
  Session = UserMcpSession outside

  pub record PoolState : Type 0 where
    pub vault : v.State
    pub cache : List ((String × String) × Session)
    pub world : World

  -- A call that may fail, and leaves a state either way.
  abbrev pub M : Type 0 → Type 0
  M A = PoolState → Result McpError A × PoolState

  abbrev pub hand_on :
      {A B : Type 0} → Result McpError A × PoolState → (A → M B) → Result McpError B × PoolState
  hand_on (ok a, s) k = k a s
  hand_on (err e, s) k = (err e, s)

  infixl 5 ◌>>=◌ ◌>>◌
  abbrev pub ◌>>=◌ : {A B : Type 0} → M A → (A → M B) → M B
  ◌>>=◌ m k s = hand_on (m s) k

  abbrev pub ◌>>◌ : {A B : Type 0} → M A → M B → M B
  m >> k = m >>= λ _. k

  -- `match call { Ok(a) => …, Err(e) => … }`.
  abbrev pub matched :
      {A B : Type 0}
      → Result McpError A × PoolState
      → (A → M B)
      → (McpError → M B)
      → Result McpError B × PoolState
  matched (ok a, s) good bad = good a s
  matched (err e, s) good bad = bad e s

  abbrev pub match_call : {A B : Type 0} → M A → (A → M B) → (McpError → M B) → M B
  match_call m good bad s = matched (m s) good bad

  abbrev pub pure : {A : Type 0} → A → M A
  pure a s = (ok a, s)

  abbrev pub fail : {A : Type 0} → McpError → M A
  fail e s = (err e, s)

  -- `ok_or_else` of what a call returned.
  abbrev pub some_or : {A : Type 0} → McpError → Option A → M A
  some_or e none = fail e
  some_or e (some a) = pure a

  abbrev pub lookup_token : String → String → M (Option StoredToken)
  lookup_token server user s = (v.get_token server user s.vault, s)

  abbrev pub lookup_client : String → M (Option (StoredClient Metadata))
  lookup_client server s = (v.get_client server s.vault, s)

  unfoldable pub store_token : String → String → StoredToken → M (Unit {0})
  store_token server user token s =
      let stored = v.upsert_token server user token s.vault in
      (stored.0, record s { vault = stored.1 })

  unfoldable pub drop_token : String → String → M (Unit {0})
  drop_token server user s = (ok tt, record s { vault = v.delete_token server user s.vault })

  unfoldable pub grant : StoredClient Metadata → String → String → M TokenResponse
  grant client server refresh_token s =
      let granted = refresh_token_grant outside client server refresh_token s.world in
      (granted.0, record s { world = granted.1 })

  unfoldable pub open_session : String → McpServerConfig → String → M Session
  open_session server config access_token s =
      let opened = connect_session outside server config access_token s.world in
      (opened.0, record s { world = opened.1 })

  abbrev pub read_clock : M ℕ
  read_clock s = (ok (now_secs s.world), s)

  unfoldable pub refresh : String → String → String → M StoredToken
  refresh server user refresh_token = do
    found ← lookup_client server
    client ← some_or (not_connected server user) found
    parsed ← grant client server refresh_token
    now ← read_clock
    let fresh = into_stored_token now parsed (some refresh_token)
    store_token server user fresh
    pure fresh

  abbrev pub force_reauth : {A : Type 0} → String → String → M A
  force_reauth server user = drop_token server user >> fail (not_connected server user)

  abbrev pub refresh_with : String → String → Option String → M StoredToken
  refresh_with server user none = force_reauth server user
  refresh_with server user (some refresh_token) =
      match_call (refresh server user refresh_token) pure (λ e. force_reauth server user)

  unfoldable pub refresh_or_force_reauth : String → String → StoredToken → M StoredToken
  refresh_or_force_reauth server user stored = refresh_with server user stored.refresh_token

  -- `now < exp - EXPIRY_MARGIN_SECS`, both signed.
  abbrev pub is_valid_at : ℕ → ℤ → Bool
  is_valid_at now exp =
      ltb_ℤ (u64_to_i64 now) (sub_ℕ (pos_part exp) (neg_part exp + expiry_margin_secs))

  abbrev pub refresh_at : String → String → StoredToken → Option ℤ → M StoredToken
  refresh_at server user stored none = pure stored
  refresh_at server user stored (some exp) = do
    now ← read_clock
    let again = refresh_or_force_reauth server user stored
    if is_valid_at now exp then pure stored else again

  unfoldable pub refresh_if_expiring : String → String → StoredToken → M StoredToken
  refresh_if_expiring server user stored = refresh_at server user stored stored.expires_at

  unfoldable pub reconnect_after_refresh :
      String → String → McpServerConfig → StoredToken → M Session
  reconnect_after_refresh server user config stored = do
    refreshed ← refresh_or_force_reauth server user stored
    match_call (open_session server config refreshed.access_token) pure
        (λ e. force_reauth server user)

  abbrev pub same_key : String × String → String → String → Bool
  same_key (u, s) user server = u == user && s == server

  abbrev pub cached : String → String → List ((String × String) × Session) → Option Session
  cached user server [] = none
  cached user server ((key, session) ∷ entries) =
      if same_key key user server then some session else cached user server entries

  unfoldable pub cache_session : String → String → Session → M Session
  cache_session user server session s =
      (ok session, record s { cache = moka.retained s.world (((user, server), session) ∷ s.cache) })

  abbrev pub configured : String → List (String × McpServerConfig) → Option McpServerConfig
  configured server [] = none
  configured server ((name, config) ∷ configs) =
      if name == server then some config else configured server configs

  -- The guard of the second arm of the `match`.
  abbrev pub after_failed_connect :
      String → String → McpServerConfig → StoredToken → McpError → M Session
  after_failed_connect server user config stored e =
      let again = reconnect_after_refresh server user config stored in
      if looks_like_auth_failure debug e then again else fail e

  unfoldable pub spawn_session : String → String → McpServerConfig → M Session
  spawn_session server user config = do
    found ← lookup_token server user
    stored ← some_or (not_connected server user) found
    fresh ← refresh_if_expiring server user stored
    session ←
        match_call (open_session server config fresh.access_token) pure
          (after_failed_connect server user config fresh)
    cache_session user server session

  abbrev pub spawn_configured : String → String → Option McpServerConfig → M Session
  spawn_configured server user none = fail (server_not_configured "<pool>" server)
  spawn_configured server user (some config) = spawn_session server user config

  abbrev pub spawn_unless :
      String → String → List (String × McpServerConfig) → Option Session → M Session
  spawn_unless server user configs (some session) = pure session
  spawn_unless server user configs none = spawn_configured server user (configured server configs)

  unfoldable pub get_or_spawn : List (String × McpServerConfig) → String → String → M Session
  get_or_spawn configs server user s =
      spawn_unless server user configs (cached user server s.cache) s
