-- ===== src/Mcp/Pool/Sessions.antt =====
-- What a call of `get_or_spawn` of crates/mcp/src/pool.rs leaves in the vault and in the cache.
use coulisse.Prelude.{
  ◌∷◌, String, ◌≡◌, ◌≢◌, ◌⊎◌, inl, inr, refl, ◌∙◌, false, Option, none, some, List, Result,
  Bool-cases, Option-cases, ==_iff, string_eq, arith,
}
use coulisse.Prelude.Int.{ℤ}
use coulisse.Mcp.Config.{McpServerConfig}
use coulisse.Mcp.Error.{McpError, not_connected, looks_like_auth_failure}
use coulisse.Mcp.Vault.{StoredToken, StoredClient}
use coulisse.Mcp.Vault.Interface.{Vault, IsVault}
use coulisse.Mcp.Session.{Outside, UserMcpSession, into_stored_token}
use coulisse.Mcp.Pool.{
  SessionCache, PoolState, match_call, pure, some_or, lookup_token, lookup_client, store_token,
  drop_token, grant, open_session, refresh, force_reauth, refresh_with, refresh_or_force_reauth,
  is_valid_at, refresh_at, refresh_if_expiring, reconnect_after_refresh, same_key, cached,
  cache_session, configured, after_failed_connect, spawn_session, spawn_unless, get_or_spawn,
}
use coulisse.Mcp.Pool.Rules.{OnlyDrops, Keeps, bind-Keeps, match_call-Keeps, some_or-Keeps}

module _ {Metadata : Type 0} (v : Vault Metadata) (outside : Outside Metadata)
    (moka : SessionCache outside) (is_vault : IsVault v) (server user : String) where
  abbrev Session : Type 0
  Session = UserMcpSession outside

  abbrev State : Type 0
  State = PoolState v outside moka

  module _ (P : State → Type 0)
      (stores : (token : StoredToken)
        → Keeps v outside moka P (store_token v outside moka server user token))
      (drops : Keeps v outside moka P (drop_token v outside moka server user))
      (grants : (client : StoredClient Metadata) (refresh_token : String)
        → Keeps v outside moka P (grant v outside moka client server refresh_token))
      (opens : (config : McpServerConfig) (access_token : String)
        → Keeps v outside moka P (open_session v outside moka server config access_token))
      (caches : (session : Session)
        → Keeps v outside moka P (cache_session v outside moka user server session)) where
    refresh-Keeps :
        (refresh_token : String)
        → Keeps v outside moka P (refresh v outside moka server user refresh_token)
    unfolding refresh
    refresh-Keeps refresh_token =
        bind-Keeps v outside moka P (lookup_client v outside moka server) _ (λ s p. p)
          λ found.
            bind-Keeps v outside moka P (some_or v outside moka (not_connected server user) found) _
              (some_or-Keeps v outside moka P (not_connected server user) found)
              λ client.
                bind-Keeps v outside moka P (grant v outside moka client server refresh_token) _
                  (grants client refresh_token)
                  λ parsed s p.
                    let fresh =
                      into_stored_token (outside.now_secs s.world) parsed (some refresh_token) in
                    bind-Keeps v outside moka {B = StoredToken} P
                      (store_token v outside moka server user fresh) _ (stores fresh) (λ _ s p. p) s
                      p

    force_reauth-Keeps :
        (A : Type 0) → Keeps v outside moka P (force_reauth v outside moka {A = A} server user)
    force_reauth-Keeps A =
        bind-Keeps v outside moka {B = A} P (drop_token v outside moka server user) _ drops
          (λ _ s p. p)

    refresh_with-Keeps :
        (o : Option String) → Keeps v outside moka P (refresh_with v outside moka server user o)
    refresh_with-Keeps none = force_reauth-Keeps StoredToken
    refresh_with-Keeps (some refresh_token) =
        match_call-Keeps v outside moka P (refresh v outside moka server user refresh_token)
          (pure v outside moka) _ (refresh-Keeps refresh_token) (λ t s p. p)
          (λ e. force_reauth-Keeps StoredToken)

    refresh_at-Keeps :
        (stored : StoredToken) (o : Option ℤ)
        → Keeps v outside moka P (refresh_at v outside moka server user stored o)
    unfolding refresh_or_force_reauth
    refresh_at-Keeps stored none s p = p
    refresh_at-Keeps stored (some exp) s p =
        elim (Bool-cases (is_valid_at v outside moka (outside.now_secs s.world) exp)) [
          | inl e ↦ rw e p
          | inr e ↦ rw e (refresh_with-Keeps stored.refresh_token s p)
        ]

    reconnect_after_refresh-Keeps :
        (config : McpServerConfig) (stored : StoredToken)
        → Keeps v outside moka P (reconnect_after_refresh v outside moka server user config stored)
    unfolding reconnect_after_refresh refresh_or_force_reauth
    reconnect_after_refresh-Keeps config stored =
        bind-Keeps v outside moka {B = Session} P
          (refresh_with v outside moka server user stored.refresh_token) _
          (refresh_with-Keeps stored.refresh_token)
          λ refreshed.
            match_call-Keeps v outside moka {B = Session} P
              (open_session v outside moka server config refreshed.access_token)
              (pure v outside moka) _ (opens config refreshed.access_token) (λ session s p. p)
              (λ e. force_reauth-Keeps Session)

    after_failed_connect-Keeps :
        (config : McpServerConfig) (stored : StoredToken) (e : McpError)
        → Keeps v outside moka P (after_failed_connect v outside moka server user config stored e)
    after_failed_connect-Keeps config stored e s p =
        elim (Bool-cases (looks_like_auth_failure outside.debug e)) [
          | inl f ↦ rw f (reconnect_after_refresh-Keeps config stored s p)
          | inr f ↦ rw f p
        ]

    spawn_session-Keeps :
        (config : McpServerConfig)
        → Keeps v outside moka P (spawn_session v outside moka server user config)
    unfolding spawn_session refresh_if_expiring
    spawn_session-Keeps config =
        bind-Keeps v outside moka {B = Session} P (lookup_token v outside moka server user) _
          (λ s p. p)
          λ found.
            bind-Keeps v outside moka {B = Session} P
              (some_or v outside moka (not_connected server user) found) _
              (some_or-Keeps v outside moka P (not_connected server user) found)
              λ stored.
                bind-Keeps v outside moka {B = Session} P
                  (refresh_at v outside moka server user stored stored.expires_at) _
                  (refresh_at-Keeps stored stored.expires_at)
                  λ fresh.
                    bind-Keeps v outside moka {B = Session} P
                      (match_call v outside moka
                        (open_session v outside moka server config fresh.access_token)
                        (pure v outside moka)
                        (after_failed_connect v outside moka server user config fresh))
                      _
                      (match_call-Keeps v outside moka {B = Session} P
                        (open_session v outside moka server config fresh.access_token)
                        (pure v outside moka) _ (opens config fresh.access_token) (λ session s p. p)
                        (after_failed_connect-Keeps config fresh))
                      λ session. caches session

    spawn_unless-Keeps :
        (configs : List (String × McpServerConfig)) (found : Option Session)
        → Keeps v outside moka P (spawn_unless v outside moka server user configs found)
    spawn_unless-Keeps configs (some session) s p = p
    spawn_unless-Keeps configs none s p =
        elim (Option-cases (configured v outside moka server configs)) [
          | inl e ↦ rw e p
          | inr (config, e) ↦ rw e (spawn_session-Keeps config s p)
        ]

  -- What another user, or another server, sees in the vault and in the cache.
  abbrev Seen :
      String → String → Result McpError (Option StoredToken) → Option Session → State → Type 0
  Seen s' u' token session s =
      (v.get_token s' u' s.vault ≡ token)
      × ((cached v outside moka u' s' s.cache ≡ none)
          ⊎ (cached v outside moka u' s' s.cache ≡ session))

  -- On a vault that keeps what it stores and a cache that only drops: whatever its result, a call for
  -- a user and a server leaves the stored token of every other user or server as it was, and their
  -- cached session as it was or dropped, but never another one.
  pub get_or_spawn_spares :
      (configs : List (String × McpServerConfig)) (s' u' : String) (s : PoolState v outside moka)
      → OnlyDrops v outside moka
      → (server ≢ s') ⊎ (user ≢ u')
      → let after = (get_or_spawn v outside moka configs server user s).1 in
        (v.get_token s' u' after.vault ≡ v.get_token s' u' s.vault)
        × ((cached v outside moka u' s' after.cache ≡ none)
            ⊎ (cached v outside moka u' s' after.cache ≡ cached v outside moka u' s' s.cache))
  unfolding get_or_spawn store_token drop_token grant open_session cache_session
  get_or_spawn_spares configs s' u' s drops apart =
      spawn_unless-Keeps
        (Seen s' u' (v.get_token s' u' s.vault) (cached v outside moka u' s' s.cache))
        (λ token t p. (is_vault.get-upsert_other server user s' u' token t.vault apart ∙ p.0, p.1))
        (λ t p. (is_vault.get-delete_other server user s' u' t.vault apart ∙ p.0, p.1))
        (λ client refresh_token t p. p) (λ config access_token t p. p)
        (λ session t p. (p.0, inserted session t p.1)) configs
        (cached v outside moka user server s.cache) s (refl, inr refl)
    where
      other_key : same_key v outside moka (user, server) u' s' ≡ false
      other_key = ground (arith, apart, ==_iff user u', ==_iff server s')

      inserted :
          (session : Session) (t : State)
          → (cached v outside moka u' s' t.cache ≡ none)
            ⊎ (cached v outside moka u' s' t.cache ≡ cached v outside moka u' s' s.cache)
          → let kept = moka.retained t.world (((user, server), session) ∷ t.cache) in
            (cached v outside moka u' s' kept ≡ none)
            ⊎ (cached v outside moka u' s' kept ≡ cached v outside moka u' s' s.cache)
      inserted session t seen = elim (drops t.world (((user, server), session) ∷ t.cache) u' s') [
        | inl dropped ↦ inl dropped
        | inr same ↦
            let before = same ∙ rw other_key refl in
            elim seen [ inl gone ↦ inl (before ∙ gone) | inr held ↦ inr (before ∙ held) ]
      ]
