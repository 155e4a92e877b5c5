-- ===== src/Mcp/Session.antt =====
-- crates/mcp/src/pool.rs: `UserMcpSession::connect`, and the grant for a refresh token at the token
-- endpoint that `StoredClient` names. The `rmcp`, `reqwest` and `tokio` crates act on a world of the
-- caller's, and so does the transport of crates/mcp/src/sse_client.rs, which is not modelled.
use coulisse.Prelude.{
  ℕ, ◌+◌, String, ◌≡◌, ◌≢◌, codes, Bool, ◌&&◌, leb, Option, none, some, List, [], ◌∷◌, ◌++◌, map,
  Result, ok, err, if◌then◌else◌, arith, subst,
}
use coulisse.Prelude.Int.{ℤ}
use coulisse.Core.{u64_to_i64}
use coulisse.Decimal.{print}
use coulisse.Mcp.Config.{McpServerConfig, McpTransport, http, sse, stdio}
use coulisse.Mcp.Error.{
  McpError, connect, discovery, list_tools, not_connected, spawn, token_exchange,
}
use coulisse.Mcp.Vault.{StoredToken, StoredClient}

-- The answer of a token endpoint.
pub record TokenResponse : Type 0 where
  pub access_token : String
  pub expires_in : Option ℕ
  pub refresh_token : Option String

abbrev pub or_else : {A : Type 0} → Option A → Option A → Option A
or_else none b = b
or_else (some a) b = some a

abbrev pub expires_at : ℕ → Option ℕ → Option ℤ
expires_at now_secs none = none
expires_at now_secs (some secs) = some (u64_to_i64 (now_secs + secs))

unfoldable pub into_stored_token : ℕ → TokenResponse → Option String → StoredToken
into_stored_token now_secs response fallback_refresh = record {
  access_token = response.access_token;
  expires_at = expires_at now_secs response.expires_in;
  refresh_token = or_else response.refresh_token fallback_refresh;
}

-- What the sessions use of other code. A call fails with the text of its error; `show` is the debug
-- text of an error of this crate.
pub record Outside (Metadata : Type 0) : Type 1 where
  pub World : Type 0
  pub Service : Type 0
  pub Tool : Type 0
  pub Transport : Type 0
  pub Child : Type 0
  pub Response : Type 0
  pub tool_name : Tool → String
  pub serve_http : (url : String) (auth_header : List ℕ) → World → Result String Service × World
  pub connect_sse :
      (url : String) (auth_header : Option (List ℕ)) → World → Result String Transport × World
  pub serve_sse : Transport → World → Result String Service × World
  pub spawn_process :
      (command : String) (args : List String) (env : List (String × String))
      → World
      → Result String Child × World
  pub serve_process : Child → World → Result String Service × World
  pub list_all_tools : Service → World → Result String (List Tool) × World
  pub token_endpoint : Metadata → String
  pub post_form :
      (url : String) (params : List (String × String)) → World → Result String Response × World
  pub status : Response → ℕ
  pub text : Response → World → Result String (List ℕ) × World
  pub json : Response → World → Result String TokenResponse × World
  pub now_secs : World → ℕ
  pub debug : McpError → List ℕ

-- A call and what follows it, with its error wrapped.
abbrev pub within :
    {W A B : Type 0}
    → (String → McpError)
    → Result String A × W
    → (A → W → Result McpError B × W)
    → Result McpError B × W
within wrap (ok a, w) next = next a w
within wrap (err e, w) next = (err (wrap e), w)

module _ {Metadata : Type 0} (outside : Outside Metadata) where
  open outside use {
    World, Service, Tool, Response, tool_name, serve_http, connect_sse, serve_sse, spawn_process,
    serve_process, list_all_tools, token_endpoint, post_form, status, text, json,
  }

  pub record UserMcpSession : Type 0 where
    pub service : Service
    pub tools : List (String × Tool)

  -- The `match` on the transport, with what follows it.
  abbrev pub serve_transport :
      {B : Type 0}
      → String
      → McpTransport
      → String
      → (Service → World → Result McpError B × World)
      → World
      → Result McpError B × World
  serve_transport name (http url) token next w =
      within (connect name) (serve_http url (codes "Bearer " ++ codes token) w) next
  serve_transport name (sse url) token next w =
      within (connect name) (connect_sse url (some (codes "Bearer " ++ codes token)) w)
        λ transport opened. within (connect name) (serve_sse transport opened) next
  serve_transport name (stdio args command env) token next w =
      within (spawn name) (spawn_process command args (env ++ ("MCP_OAUTH_TOKEN", token) ∷ []) w)
        λ child spawned. within (connect name) (serve_process child spawned) next

  abbrev pub session_of : Service → List Tool → UserMcpSession
  session_of service listed = record {
    service = service;
    tools = map (λ tool. (tool_name tool, tool)) listed;
  }

  abbrev pub open_tools : String → Service → World → Result McpError UserMcpSession × World
  open_tools name service served =
      within (list_tools name) (list_all_tools service served)
        λ listed after. (ok (session_of service listed), after)

  -- `UserMcpSession::connect`.
  unfoldable pub connect_session :
      String → McpServerConfig → String → World → Result McpError UserMcpSession × World
  connect_session name config token = serve_transport name config.transport token (open_tools name)

  abbrev pub client_params : StoredClient Metadata → String → List (String × String)
  client_params client refresh_token =
      ("client_id", client.client_id)
      ∷ ("grant_type", "refresh_token")
      ∷ ("refresh_token", refresh_token)
      ∷ (elim client.client_secret [ none ↦ [] | some secret ↦ ("client_secret", secret) ∷ [] ])

  abbrev pub is_success : Response → Bool
  is_success response = leb 200 (status response) && leb (status response) 299

  -- `unwrap_or_default`.
  abbrev pub or_default : Result String (List ℕ) → List ℕ
  or_default (ok body) = body
  or_default (err e) = []

  abbrev pub refused_grant :
      StoredClient Metadata → Response → World → Result McpError TokenResponse × World
  refused_grant client response w =
      let body = text response w in
      (
        err (
            discovery (token_endpoint client.metadata) (
              codes "refresh failed: HTTP "
              ++ print (status response)
              ++ codes ": "
              ++ or_default body.0)),
        body.1,
      )

  abbrev pub read_json : String → Response → World → Result McpError TokenResponse × World
  read_json server response w =
      within (token_exchange server) (json response w) λ parsed after. (ok parsed, after)

  -- `StoredClient::refresh_token_grant`.
  unfoldable pub refresh_token_grant :
      StoredClient Metadata → String → String → World → Result McpError TokenResponse × World
  refresh_token_grant client server refresh_token w =
      within (token_exchange server)
        (post_form (token_endpoint client.metadata) (client_params client refresh_token) w)
        λ response answered.
          if is_success response
          then read_json server response answered
          else refused_grant client response answered

  abbrev Other : McpError → Type 0
  Other e = (a b : String) → e ≢ not_connected a b

  -- Where no wrapped error is "not connected", and no error of what follows.
  within-Other :
      {A B : Type 0} (wrap : String → McpError) (r : Result String A × World)
      (next : A → World → Result McpError B × World)
      → ((source : String) → Other (wrap source))
      → ((a : A) (w : World) (e : McpError) → (next a w).0 ≡ err e → Other e)
      → (e : McpError) → (within wrap r next).0 ≡ err e
      → Other e
  within-Other wrap (ok a, w) next wrapped later e h = later a w e h
  within-Other wrap (err source, w) next wrapped later e h =
      let same : wrap source ≡ e = ground (arith, h) in subst Other same (wrapped source)

  serve_transport-Other :
      {B : Type 0} (name : String) (transport : McpTransport) (token : String)
      (next : Service → World → Result McpError B × World) (w : World)
      → ((service : Service) (w : World) (e : McpError) → (next service w).0 ≡ err e → Other e)
      → (e : McpError) → (serve_transport name transport token next w).0 ≡ err e
      → Other e
  serve_transport-Other name (http url) token next w later =
      within-Other (connect name) (serve_http url (codes "Bearer " ++ codes token) w) next
        (λ source a b n. cc n) later
  serve_transport-Other name (sse url) token next w later =
      within-Other (connect name) (connect_sse url (some (codes "Bearer " ++ codes token)) w)
        (λ transport opened. within (connect name) (serve_sse transport opened) next)
        (λ source a b n. cc n)
        λ transport opened.
          within-Other (connect name) (serve_sse transport opened) next (λ source a b n. cc n) later
  serve_transport-Other name (stdio args command env) token next w later =
      within-Other (spawn name)
        (spawn_process command args (env ++ ("MCP_OAUTH_TOKEN", token) ∷ []) w)
        (λ child spawned. within (connect name) (serve_process child spawned) next)
        (λ source a b n. cc n)
        λ child spawned.
          within-Other (connect name) (serve_process child spawned) next (λ source a b n. cc n)
            later

  -- A connection does not fail as "not connected".
  pub connect_session-Other :
      (server : String) (config : McpServerConfig) (token : String) (w : World) (e : McpError)
      → (connect_session server config token w).0 ≡ err e
      → (a b : String) → e ≢ not_connected a b
  unfolding connect_session
  connect_session-Other server config token w e h =
      serve_transport-Other server config.transport token (open_tools server) w
        (λ service served.
          within-Other (list_tools server) (list_all_tools service served)
            (λ listed after. (ok (session_of service listed), after)) (λ source a b n. cc n)
            (λ listed after e' k. cc k))
        e h
