-- ===== src/Mcp/Pool/Refreshes.antt =====
-- What the refreshes of crates/mcp/src/pool.rs leave in the vault: a token, or none.
use coulisse.Prelude.{
  String, ◌≡◌, inl, inr, refl, Option, none, some, ok, err, Bool-cases, string_eq,
}
use coulisse.Prelude.Int.{ℤ}
use coulisse.Mcp.Error.{not_connected}
use coulisse.Mcp.Vault.{StoredToken}
use coulisse.Mcp.Vault.Interface.{Vault, IsVault}
use coulisse.Mcp.Session.{Outside, UserMcpSession, into_stored_token}
use coulisse.Mcp.Pool.{
  SessionCache, PoolState, hand_on, pure, some_or, lookup_client, store_token, drop_token, grant,
  refresh, force_reauth, refresh_with, refresh_or_force_reauth, is_valid_at, refresh_at,
}
use coulisse.Mcp.Pool.Rules.{Post, hand_on_lem, matched_lem}

module _ {Metadata : Type 0} (v : Vault Metadata) (outside : Outside Metadata)
    (moka : SessionCache outside) (is_vault : IsVault v) (server user : String) where
  open outside use {World, now_secs}

  abbrev Session : Type 0
  Session = UserMcpSession outside

  abbrev State : Type 0
  State = PoolState v outside moka

  -- The vault has no token, or this one, for the user and the server.
  abbrev pub Gone : State → Type 0
  Gone s = v.get_token server user s.vault ≡ ok none

  abbrev pub Held : StoredToken → State → Type 0
  Held token s = v.get_token server user s.vault ≡ ok (some token)

  abbrev Always : {A : Type 0} → Post v outside moka A
  Always r s = Unit {0}

  abbrev Fresh : Post v outside moka StoredToken
  Fresh (ok token) s = Held token s
  Fresh (err e) s = Unit {0}

  abbrev pub HeldOrGone : Post v outside moka StoredToken
  HeldOrGone (ok token) s = Held token s
  HeldOrGone (err e) s = Gone s

  store_fresh :
      (fresh : StoredToken) (s : State)
      → let r =
          hand_on v outside moka
            (store_token v outside moka server user fresh s)
            (λ _. pure v outside moka fresh) in
        Fresh r.0 r.1
  unfolding store_token
  store_fresh fresh s =
      hand_on_lem v outside moka {A = Unit {0}} {B = StoredToken} (λ r t. r ≡ ok tt → Held fresh t)
        Fresh (store_token v outside moka server user fresh s) (λ _. pure v outside moka fresh)
        (λ h. is_vault.get-upsert server user fresh s.vault h) (λ u t h. h refl) (λ e t h. tt)

  refresh-Fresh :
      (refresh_token : String) (s : State)
      → Fresh
          (refresh v outside moka server user refresh_token s).0
          (refresh v outside moka server user refresh_token s).1
  unfolding refresh
  refresh-Fresh refresh_token s =
      hand_on_lem v outside moka {B = StoredToken} Always Fresh
        (lookup_client v outside moka server s) _ tt
        (λ found t _.
          hand_on_lem v outside moka {B = StoredToken} Always Fresh
            (some_or v outside moka (not_connected server user) found t) _ tt
            (λ client t' _.
              hand_on_lem v outside moka {B = StoredToken} Always Fresh
                (grant v outside moka client server refresh_token t') _ tt
                (λ parsed w _.
                  store_fresh (into_stored_token (now_secs w.world) parsed (some refresh_token)) w)
                (λ e w _. tt))
            (λ e t' _. tt))
        (λ e t _. tt)

  -- `force_reauth` drops the token and fails.
  pub reauth :
      {A : Type 0} (Q : Post v outside moka A) (s : State)
      → ((t : State) → Gone t → Q (err (not_connected server user)) t)
      → let r = force_reauth v outside moka {A = A} server user s in Q r.0 r.1
  unfolding drop_token
  reauth Q s h = h _ (is_vault.get-delete server user s.vault)

  pub refresh_with-HeldOrGone :
      (o : Option String) (s : State)
      → let r = refresh_with v outside moka server user o s in HeldOrGone r.0 r.1
  refresh_with-HeldOrGone none s = reauth HeldOrGone s (λ t g. g)
  refresh_with-HeldOrGone (some refresh_token) s =
      matched_lem v outside moka {B = StoredToken} Fresh HeldOrGone
        (refresh v outside moka server user refresh_token s) (pure v outside moka)
        (λ e. force_reauth v outside moka server user) (refresh-Fresh refresh_token s)
        (λ token t h. h) (λ e t h. reauth HeldOrGone t (λ t' g. g))

  pub refresh_at-HeldOrGone :
      (stored : StoredToken) (o : Option ℤ) (s : State)
      → Held stored s
      → let r = refresh_at v outside moka server user stored o s in HeldOrGone r.0 r.1
  unfolding refresh_or_force_reauth
  refresh_at-HeldOrGone stored none s h = h
  refresh_at-HeldOrGone stored (some exp) s h =
      elim (Bool-cases (is_valid_at v outside moka (now_secs s.world) exp)) [
        | inl e ↦ rw e h
        | inr e ↦ rw e (refresh_with-HeldOrGone stored.refresh_token s)
      ]
