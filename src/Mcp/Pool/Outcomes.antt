-- ===== src/Mcp/Pool/Outcomes.antt =====
-- What a result of `get_or_spawn` of crates/mcp/src/pool.rs says of the vault and the cache after it.
use coulisse.Prelude.{
  String, ◌≡◌, ◌≢◌, ◌⊎◌, inl, inr, refl, sym, ap, subst, ◌∙◌, Option, none, some, List, ◌∷◌, ok,
  err, Bool-cases, Option-cases, Result-cases, ==_iff, string_eq, arith,
}
use coulisse.Mcp.Config.{McpServerConfig}
use coulisse.Mcp.Error.{McpError, not_connected, looks_like_auth_failure}
use coulisse.Mcp.Vault.{StoredToken}
use coulisse.Mcp.Vault.Interface.{Vault, IsVault}
use coulisse.Mcp.Session.{Outside, UserMcpSession, connect_session, connect_session-Other}
use coulisse.Mcp.Pool.{
  SessionCache, PoolState, match_call, pure, some_or, lookup_token, open_session, force_reauth,
  refresh_with, refresh_or_force_reauth, refresh_at, refresh_if_expiring, reconnect_after_refresh,
  cached, cache_session, configured, after_failed_connect, spawn_session, get_or_spawn,
}
use coulisse.Mcp.Pool.Rules.{OnlyDrops, Post, hand_on_lem, matched_lem}
use coulisse.Mcp.Pool.Refreshes

module _ {Metadata : Type 0} (v : Vault Metadata) (outside : Outside Metadata)
    (moka : SessionCache outside) (is_vault : IsVault v) (server user : String) where
  open outside use {World, now_secs}

  abbrev Session : Type 0
  Session = UserMcpSession outside

  abbrev State : Type 0
  State = PoolState v outside moka

  abbrev Gone : State → Type 0
  Gone = Refreshes.Gone v outside moka is_vault server user

  abbrev Held : StoredToken → State → Type 0
  Held = Refreshes.Held v outside moka is_vault server user

  abbrev HeldOrGone : Post v outside moka StoredToken
  HeldOrGone = Refreshes.HeldOrGone v outside moka is_vault server user

  -- The session was opened with the token that the vault has.
  pub record Opened (config : McpServerConfig) (session : Session) (s : State) : Type 0 where
    pub token : StoredToken
    pub world : World
    pub held : Held token s
    pub opened : (connect_session outside server config token.access_token world).0 ≡ ok session

  abbrev IsOther : McpError → Type 0
  IsOther e = (a b : String) → e ≢ not_connected a b

  module _ (config : McpServerConfig) where
    -- What `open_session` leaves, when the vault has the token.
    abbrev Tried : StoredToken → Post v outside moka Session
    Tried token (ok session) s = Opened config session s
    Tried token (err e) s = Held token s × IsOther e

    tried :
        (token : StoredToken) (s : State)
        → Held token s
        → let r = open_session v outside moka server config token.access_token s in
          Tried token r.0 r.1
    unfolding open_session
    tried token s h =
        elim (Result-cases (connect_session outside server config token.access_token s.world).0) [
          | inl (session, f) ↦
              rw (f, open_session) (record { token = token; world = s.world; held = h; opened = f })
          | inr (e, f) ↦
              rw (f, open_session)
                (h, connect_session-Other outside server config token.access_token s.world e f)
        ]

    abbrev OpenedOrGone : Post v outside moka Session
    OpenedOrGone (ok session) s = Opened config session s
    OpenedOrGone (err e) s = IsOther e ⊎ Gone s

    reconnect-OpenedOrGone :
        (stored : StoredToken) (s : State)
        → let r = reconnect_after_refresh v outside moka server user config stored s in
          OpenedOrGone r.0 r.1
    unfolding reconnect_after_refresh refresh_or_force_reauth
    reconnect-OpenedOrGone stored s =
        hand_on_lem v outside moka {B = Session} HeldOrGone OpenedOrGone
          (refresh_with v outside moka server user stored.refresh_token s) _
          (Refreshes.refresh_with-HeldOrGone v outside moka is_vault server user
            stored.refresh_token s)
          (λ token t h.
            matched_lem v outside moka {B = Session} (Tried token) OpenedOrGone
              (open_session v outside moka server config token.access_token t) (pure v outside moka)
              (λ e. force_reauth v outside moka server user) (tried token t h) (λ session t' o. o)
              (λ e t' _.
                Refreshes.reauth v outside moka is_vault server user OpenedOrGone t'
                  (λ t'' g. inr g)))
          (λ e t g. inr g)

    after_failed_connect-OpenedOrGone :
        (stored : StoredToken) (e : McpError) (s : State)
        → IsOther e
        → let r = after_failed_connect v outside moka server user config stored e s in
          OpenedOrGone r.0 r.1
    after_failed_connect-OpenedOrGone stored e s other =
        elim (Bool-cases (looks_like_auth_failure outside.debug e)) [
          | inl f ↦ rw f (reconnect-OpenedOrGone stored s)
          | inr f ↦ rw f (inl other)
        ]

    -- The result of the whole call: the session is also what was put into the cache.
    abbrev Done : Post v outside moka Session
    Done (ok session) s =
        Opened config session s
        × (OnlyDrops v outside moka
            → (cached v outside moka user server s.cache ≡ none)
              ⊎ (cached v outside moka user server s.cache ≡ some session))
    Done (err e) s = IsOther e ⊎ Gone s

    cache_session-Done :
        (session : Session) (s : State)
        → Opened config session s
        → let r = cache_session v outside moka user server session s in Done r.0 r.1
    unfolding cache_session
    cache_session-Done session s o = (
      record { token = o.token; world = o.world; held = o.held; opened = o.opened },
      λ drops.
          let kept = moka.retained s.world (((user, server), session) ∷ s.cache) in
          subst
            (λ found.
              (cached v outside moka user server kept ≡ none)
              ⊎ (cached v outside moka user server kept ≡ found))
            (rw ((==_iff user user).1 refl, (==_iff server server).1 refl) refl)
            (drops s.world (((user, server), session) ∷ s.cache) user server),
    )

    connected-OpenedOrGone :
        (fresh : StoredToken) (s : State)
        → Held fresh s
        → let r =
            match_call v outside moka
              (open_session v outside moka server config fresh.access_token)
              (pure v outside moka)
              (after_failed_connect v outside moka server user config fresh)
              s in
          OpenedOrGone r.0 r.1
    connected-OpenedOrGone fresh s h =
        matched_lem v outside moka {B = Session} (Tried fresh) OpenedOrGone
          (open_session v outside moka server config fresh.access_token s) (pure v outside moka)
          (after_failed_connect v outside moka server user config fresh) (tried fresh s h)
          (λ session t o. o) (λ e t o. after_failed_connect-OpenedOrGone fresh e t o.1)

    -- What the lookup of the token leaves.
    abbrev Read : Post v outside moka (Option StoredToken)
    Read (ok found) s = v.get_token server user s.vault ≡ ok found
    Read (err e) s = IsOther e

    lookup_token-Read :
        (s : State) → let r = lookup_token v outside moka server user s in Read r.0 r.1
    lookup_token-Read s = elim (Result-cases (v.get_token server user s.vault)) [
      | inl (found, f) ↦ subst (λ r. Read r s) (sym f) f
      | inr (e, f) ↦ subst (λ r. Read r s) (sym f) (is_vault.get_errs server user s.vault f)
    ]

    some_or-HeldOrGone :
        (found : Option StoredToken) (s : State)
        → v.get_token server user s.vault ≡ ok found
        → let r = some_or v outside moka (not_connected server user) found s in HeldOrGone r.0 r.1
    some_or-HeldOrGone none s h = h
    some_or-HeldOrGone (some token) s h = h

    spawn_session-Done :
        (s : State) → let r = spawn_session v outside moka server user config s in Done r.0 r.1
    unfolding spawn_session refresh_if_expiring
    spawn_session-Done s =
        hand_on_lem v outside moka {B = Session} Read Done
          (lookup_token v outside moka server user s) _ (lookup_token-Read s)
          (λ found t h.
            hand_on_lem v outside moka {B = Session} HeldOrGone Done
              (some_or v outside moka (not_connected server user) found t) _
              (some_or-HeldOrGone found t h)
              (λ stored t' held.
                hand_on_lem v outside moka {B = Session} HeldOrGone Done
                  (refresh_at v outside moka server user stored stored.expires_at t') _
                  (Refreshes.refresh_at-HeldOrGone v outside moka is_vault server user stored
                    stored.expires_at t' held)
                  (λ fresh w held'.
                    hand_on_lem v outside moka {B = Session} OpenedOrGone Done
                      (match_call v outside moka
                        (open_session v outside moka server config fresh.access_token)
                        (pure v outside moka)
                        (after_failed_connect v outside moka server user config fresh) w)
                      _ (connected-OpenedOrGone fresh w held')
                      (λ session w' o. cache_session-Done session w' o) (λ e w' o. o))
                  (λ e w g. inr g))
              (λ e t' g. inr g))
          (λ e t o. inl o)

  module _ (configs : List (String × McpServerConfig)) (s after : State) where
    -- On a vault that keeps what it stores and a cache that only drops: a call that returns a session
    -- found it in the cache and changed nothing, or the server is configured, the session was opened
    -- on it with the access token that the vault has for the user and the server afterwards, and
    -- the cache has that session for them, or none.
    pub get_or_spawn-Opened :
        OnlyDrops v outside moka
        → (session : Session)
        → get_or_spawn v outside moka configs server user s ≡ (ok session, after)
        → ((cached v outside moka user server s.cache ≡ some session) × (s ≡ after))
          ⊎ ((config : McpServerConfig) × (configured v outside moka server configs ≡ some config)
              × Opened config session after
              × ((cached v outside moka user server after.cache ≡ none)
                  ⊎ (cached v outside moka user server after.cache ≡ some session)))
    unfolding get_or_spawn
    get_or_spawn-Opened drops session h =
        elim (Option-cases (cached v outside moka user server s.cache)) [
          | inr (found, e) ↦
              let g = rw (e, get_or_spawn) at h in
              inl (e ∙ ground (arith, ap (λ r. r.0) g), ap (λ r. r.1) g)
          | inl e ↦ elim (Option-cases (configured v outside moka server configs)) [
            | inl f ↦ absurd (cc (ap (λ r. r.0) (rw (e, get_or_spawn, f) at h)))
            | inr (config, f) ↦
                let g = rw (e, get_or_spawn, f) at h in
                let done = subst (λ r. Done config r.0 r.1) g (spawn_session-Done config s) in
                inr (config, f, done.0, done.1 drops)
          ]
        ]

    -- On a vault that keeps what it stores, a call that fails as "not connected" leaves no token of
    -- the user for the server in the vault.
    pub get_or_spawn-not_connected :
        (a b : String)
        → get_or_spawn v outside moka configs server user s ≡ (err (not_connected a b), after)
        → v.get_token server user after.vault ≡ ok none
    unfolding get_or_spawn
    get_or_spawn-not_connected a b h =
        elim (Option-cases (cached v outside moka user server s.cache)) [
          | inr (found, e) ↦ absurd (cc (ap (λ r. r.0) (rw (e, get_or_spawn) at h)))
          | inl e ↦ elim (Option-cases (configured v outside moka server configs)) [
            | inl f ↦ absurd (ground (arith, ap (λ r. r.0) (rw (e, get_or_spawn, f) at h)))
            | inr (config, f) ↦
                let g = rw (e, get_or_spawn, f) at h in
                elim (subst (λ r. Done config r.0 r.1) g (spawn_session-Done config s)) [
                  | inl other ↦ absurd (other a b refl)
                  | inr gone ↦ gone
                ]
          ]
        ]
