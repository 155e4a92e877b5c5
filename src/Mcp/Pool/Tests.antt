-- ===== src/Mcp/Pool/Tests.antt =====
-- A pool on a vault that is a list, before servers that reject the access token "dead".
use coulisse.Prelude.{
  ◌++◌, text_eq, nat_eq, ℕ, String, ◌≡◌, ◌≢◌, ◌⊎◌, inl, inr, refl, ap, Bool, true, false, ◌&&◌,
  Option, none, some, List, [], ◌∷◌, ok, err, if◌then◌else◌, ◌==◌, ==_iff, ==_refl, string_eq,
  codes, contains_text, Bool-cases, arith,
}
use coulisse.Mcp.Config.{McpServerConfig, http}
use coulisse.Mcp.Error.{McpError, connect, discovery, not_connected, looks_like_auth_failure}
use coulisse.Mcp.Vault.{StoredToken, StoredClient}
use coulisse.Mcp.Vault.Interface.{Vault, IsVault}
use coulisse.Mcp.Session.{
  TokenResponse, Outside, UserMcpSession, into_stored_token, connect_session, refresh_token_grant,
}
use coulisse.Mcp.Pool.{
  SessionCache, PoolState, same_key, cached, configured, get_or_spawn, spawn_session,
  refresh_if_expiring, refresh_or_force_reauth, refresh, open_session, grant, store_token,
  drop_token, cache_session, reconnect_after_refresh,
}
use coulisse.Mcp.Pool.Rules.{OnlyDrops}
use coulisse.Mcp.Pool.Sessions.{get_or_spawn_spares}
use coulisse.Mcp.Pool.Outcomes.{Opened, get_or_spawn-Opened, get_or_spawn-not_connected}

abbrev Rows : Type 0
Rows = List ((String × String) × StoredToken)

abbrev has : String → String → String × String → Bool
has server user (s, u) = s == server && u == user

abbrev find_row : String → String → Rows → Option StoredToken
find_row server user [] = none
find_row server user ((key, token) ∷ rows) =
    if has server user key then some token else find_row server user rows

abbrev drop_rows : String → String → Rows → Rows
drop_rows server user [] = []
drop_rows server user ((key, token) ∷ rows) =
    let rest = drop_rows server user rows in
    if has server user key then rest else (key, token) ∷ rest

abbrev client : StoredClient (Unit {0})
client = record { client_id = "c"; client_secret = none; metadata = tt; redirect_uri = "/" }

abbrev list_vault : Vault (Unit {0})
list_vault = record {
  State = Rows;
  get_token = λ server user rows. ok (find_row server user rows);
  get_client = λ server rows. ok (some client);
  upsert_token = λ server user token rows. (ok tt, ((server, user), token) ∷ rows);
  delete_token = drop_rows;
}

has_apart :
    (server user s' u' s u : String)
    → (server ≢ s') ⊎ (user ≢ u')
    → has server user (s, u) ≡ true
    → has s' u' (s, u) ≡ false
has_apart server user s' u' s u apart e =
    ground (arith, ==_iff s server, ==_iff u user, ==_iff s s', ==_iff u u')

has_self : (server user : String) → has server user (server, user) ≡ true
has_self server user = rw (==_refl server, ==_refl user) refl

find-drop :
    (server user : String) (rows : Rows) → find_row server user (drop_rows server user rows) ≡ none
find-drop server user [] = refl
find-drop server user (((s, u), token) ∷ rows) = elim (Bool-cases (has server user (s, u))) [
  | inl e ↦ rw e (find-drop server user rows)
  | inr e ↦ rw (e, e) (find-drop server user rows)
]

find-drop_other :
    (server user s' u' : String) (rows : Rows)
    → (server ≢ s') ⊎ (user ≢ u')
    → find_row s' u' (drop_rows server user rows) ≡ find_row s' u' rows
find-drop_other server user s' u' [] apart = refl
find-drop_other server user s' u' (((s, u), token) ∷ rows) apart =
    elim (Bool-cases (has server user (s, u))) [
      | inl e ↦
          rw (e, has_apart server user s' u' s u apart e)
            (find-drop_other server user s' u' rows apart)
      | inr e ↦ rw e (
          ap (λ found. if has s' u' (s, u) then some token else found)
            (find-drop_other server user s' u' rows apart))
    ]

list_vault-IsVault : IsVault list_vault
list_vault-IsVault = record {
  get-upsert = λ server user token rows h. rw (has_self server user) refl;
  get-upsert_other = λ server user s' u' token rows apart.
      rw (has_apart server user s' u' server user apart (has_self server user)) refl;
  get-delete = λ server user rows. ap ok (find-drop server user rows);
  get-delete_other =
      λ server user s' u' rows apart. ap ok (find-drop_other server user s' u' rows apart);
  get_errs = λ server user rows {e} h. cc h;
}

abbrev debug_text : McpError → List ℕ
debug_text (connect server source) = codes source
debug_text (discovery url source) = source
debug_text _ = []

abbrev grant_of : List (String × String) → String
grant_of [] = ""
grant_of ((name, value) ∷ params) = if name == "refresh_token" then value else grant_of params

abbrev reply : TokenResponse
reply = record { access_token = "fresh"; expires_in = none; refresh_token = none }

-- A service is the header that it was opened with, a response the form that it answers, and the
-- world is the clock.
abbrev servers : Outside (Unit {0})
servers = record {
  World = ℕ;
  Service = List ℕ;
  Tool = String;
  Transport = List ℕ;
  Child = String;
  Response = List (String × String);
  tool_name = λ tool. tool;
  serve_http = λ url auth_header w.
      (if auth_header == codes "Bearer dead" then err "HTTP 401" else ok auth_header, w);
  connect_sse = λ url auth_header w. (err "no event stream", w);
  serve_sse = λ transport w. (ok transport, w);
  spawn_process = λ command args env w. (ok command, w);
  serve_process = λ child w. (ok (codes child), w);
  list_all_tools = λ service w. (ok ("add" ∷ []), w);
  token_endpoint = λ metadata. "https://tokens";
  post_form = λ url params w. (ok params, w);
  status = λ params. if grant_of params == "spent" then 400 else 200;
  text = λ params w. (ok [], w);
  json = λ params w. (ok reply, w);
  now_secs = λ w. w;
  debug = debug_text;
}

-- A cache of one session, the last that was inserted.
abbrev first_entry :
    List ((String × String) × UserMcpSession servers)
    → List ((String × String) × UserMcpSession servers)
first_entry [] = []
first_entry (entry ∷ entries) = entry ∷ []

abbrev one_session : SessionCache servers
one_session = record { retained = λ w cache. first_entry cache }

one_session-OnlyDrops : OnlyDrops list_vault servers one_session
one_session-OnlyDrops w [] user server = inl refl
one_session-OnlyDrops w ((key, session) ∷ entries) user server =
    elim (Bool-cases (same_key list_vault servers one_session key user server)) [
      | inl e ↦ inr (rw e refl)
      | inr e ↦ inl (rw e refl)
    ]

abbrev opened_with : String → UserMcpSession servers
opened_with token = record { service = codes "Bearer " ++ codes token; tools = ("add", "add") ∷ [] }

abbrev State : Type 0
State = PoolState list_vault servers one_session

abbrev todo : McpServerConfig
todo = record { oauth = none; transport = http "https://todo" }

abbrev configs : List (String × McpServerConfig)
configs = ("todo", todo) ∷ []

abbrev rejected : Option String → StoredToken
rejected refresh_token = record {
  access_token = "dead";
  expires_at = none;
  refresh_token = refresh_token;
}

abbrev renewed : StoredToken
renewed = record { access_token = "fresh"; expires_at = none; refresh_token = some "r" }

abbrev before : Option String → State
before refresh_token = record {
  vault = (("todo", "ann"), rejected refresh_token) ∷ [];
  cache = [];
  world = 5;
}

abbrev after_refresh : State
after_refresh = record {
  vault = (("todo", "ann"), renewed) ∷ (("todo", "ann"), rejected (some "r")) ∷ [];
  cache = (("ann", "todo"), opened_with "fresh") ∷ [];
  world = 5;
}

-- A rejected token is refreshed, and the session is opened again.
refreshed :
    get_or_spawn list_vault servers one_session configs "todo" "ann" (before (some "r"))
    ≡ (ok (opened_with "fresh"), after_refresh)
unfolding get_or_spawn spawn_session refresh_if_expiring refresh_or_force_reauth refresh
    open_session grant store_token drop_token cache_session reconnect_after_refresh
    into_stored_token looks_like_auth_failure contains_text connect_session refresh_token_grant
refreshed = refl

-- A refresh token that is spent is dropped with the token.
forgotten :
    get_or_spawn list_vault servers one_session configs "todo" "ann" (before (some "spent"))
    ≡ (err (not_connected "todo" "ann"), record { vault = []; cache = []; world = 5 })
unfolding get_or_spawn spawn_session refresh_if_expiring refresh_or_force_reauth refresh
    open_session grant store_token drop_token cache_session reconnect_after_refresh
    into_stored_token looks_like_auth_failure contains_text connect_session refresh_token_grant
forgotten = refl

get_or_spawn-Opened_example :
    ((cached list_vault servers one_session "ann" "todo" [] ≡ some (opened_with "fresh"))
      × (before (some "r") ≡ after_refresh))
    ⊎ ((config : McpServerConfig) × (configured list_vault servers one_session "todo" configs
          ≡ some config)
        × Opened list_vault servers one_session list_vault-IsVault "todo" "ann" config
            (opened_with "fresh")
            after_refresh
        × ((cached list_vault servers one_session "ann" "todo" after_refresh.cache ≡ none)
            ⊎ (cached list_vault servers one_session "ann" "todo" after_refresh.cache
                ≡ some (opened_with "fresh"))))
get_or_spawn-Opened_example =
    get_or_spawn-Opened list_vault servers one_session list_vault-IsVault "todo" "ann" configs
      (before (some "r")) after_refresh one_session-OnlyDrops (opened_with "fresh") refreshed

get_or_spawn-not_connected_example : list_vault.get_token "todo" "ann" [] ≡ ok none
get_or_spawn-not_connected_example =
    get_or_spawn-not_connected list_vault servers one_session list_vault-IsVault "todo" "ann"
      configs (before (some "spent")) (record { vault = []; cache = []; world = 5 }) "todo" "ann"
      forgotten

bob_apart : ◌≢◌ {A = String} "bob" "ann"
bob_apart e = cc ((==_iff {A = String} "bob" "ann").1 e)

-- Bob connects while the cache has the session of Ann.
abbrev both_users : State
both_users = record {
  vault = (("todo", "bob"), renewed) ∷ (("todo", "ann"), rejected none) ∷ [];
  cache = (("ann", "todo"), opened_with "old") ∷ [];
  world = 5;
}

get_or_spawn_spares_example :
    let after = (get_or_spawn list_vault servers one_session configs "todo" "bob" both_users).1 in
    (list_vault.get_token "todo" "ann" after.vault ≡ ok (some (rejected none)))
    × ((cached list_vault servers one_session "ann" "todo" after.cache ≡ none)
        ⊎ (cached list_vault servers one_session "ann" "todo" after.cache
            ≡ some (opened_with "old")))
get_or_spawn_spares_example =
    get_or_spawn_spares list_vault servers one_session list_vault-IsVault "todo" "bob" configs
      "todo" "ann" both_users one_session-OnlyDrops (inr bob_apart)
