-- ===== src/Mcp/Config.antt =====
-- crates/mcp/src/config.rs: how the entry of a server becomes a transport and an OAuth mode. The
-- deserialized `oauth` value is a parameter of the default: what JSON it was is not looked at here.
pub mod Laws
pub mod Tests
use coulisse.Prelude.{
  ℕ, String, codes, Bool, true, false, Option, none, some, List, [], ◌∷◌, if◌then◌else◌, any, ◌==◌,
  nat_eq, string_eq, text_eq, Result, ok, err, ◌&&◌, leb, ◌+◌, map, is_nil, split_at, split_on,
}

pub data McpOAuthConfig : Type 0 where
  discover : (scopes : List String) → McpOAuthConfig
  static_client :
      (authorization_url client_id client_secret redirect_uri : String) (scopes : List String)
      (token_url : String)
      → McpOAuthConfig

pub data McpTransport : Type 0 where
  http : (url : String) → McpTransport
  sse : (url : String) → McpTransport
  stdio : (args : List String) (command : String) (env : List (String × String)) → McpTransport

pub record McpServerConfig : Type 0 where
  pub oauth : Option McpOAuthConfig
  pub transport : McpTransport

pub record RawTransportPayload : Type 0 where
  pub args : List String
  pub command : Option String
  pub env : List (String × String)
  pub transport : Option String
  pub url : Option String

pub data TransportShapeError : Type 0 where
  empty stdio_with_url url_and_command url_transport_without_url : TransportShapeError
  unknown_tag : String → TransportShapeError

abbrev pub scopes : McpOAuthConfig → List String
scopes (discover listed) = listed
scopes (static_client authorization_url client_id client_secret redirect_uri listed token_url) =
    listed

abbrev pub oidc_scopes : List String
oidc_scopes = "openid" ∷ "email" ∷ "profile" ∷ []

unfoldable pub effective_scopes : McpOAuthConfig → List String → List String
effective_scopes oauth discovered =
    let yaml = scopes oauth in
    if is_nil yaml then if is_nil discovered then oidc_scopes else discovered else yaml

-- `eq_ignore_ascii_case`.
abbrev pub to_ascii_lowercase : ℕ → ℕ
to_ascii_lowercase c = if leb 65 c && leb c 90 then c + 32 else c

abbrev pub eq_ignore_ascii_case : List ℕ → List ℕ → Bool
eq_ignore_ascii_case a b = map to_ascii_lowercase a == map to_ascii_lowercase b

abbrev pub after_or : List ℕ → Option (List ℕ × List ℕ) → List ℕ
after_or other none = other
after_or other (some (before, after)) = after

-- The text before the first `?` or `#`.
abbrev pub before_query : List ℕ → List ℕ
before_query [] = []
before_query (c ∷ cs) =
    let rest = before_query cs in if c == b'?' then [] else if c == b'#' then [] else c ∷ rest

unfoldable pub url_path_includes_sse : String → Bool
url_path_includes_sse url =
    let after_scheme = after_or (codes url) (split_at (codes "://") (codes url)) in
    let path = before_query (after_or [] (split_at (codes "/") after_scheme)) in
    let (segment, segments) = split_on b'/' path in
    any (λ s. eq_ignore_ascii_case s (codes "sse")) (segment ∷ segments)

abbrev pub infer : String → McpTransport
infer url = if url_path_includes_sse url then sse url else http url

-- `McpTransport::try_from`, by the three fields of its `match`: without a tag, with a tag and each
-- of the shapes of the other two.
abbrev pub untagged :
    RawTransportPayload → Option String → Option String → Result TransportShapeError McpTransport
untagged raw none none = err empty
untagged raw none (some command) = ok (stdio raw.args command raw.env)
untagged raw (some url) none = ok (infer url)
untagged raw (some url) (some command) = err url_and_command

abbrev pub tagged :
    RawTransportPayload
    → String
    → Option String
    → Option String
    → Result TransportShapeError McpTransport
tagged raw tag (some url) none =
    if tag == "http"
    then ok (http url)
    else if tag == "sse"
    then ok (sse url)
    else if tag == "stdio"
    then err stdio_with_url
    else err (unknown_tag tag)
tagged raw tag none (some command) =
    if tag == "stdio"
    then ok (stdio raw.args command raw.env)
    else if tag == "http"
    then err url_transport_without_url
    else if tag == "sse"
    then err url_transport_without_url
    else err (unknown_tag tag)
tagged raw tag none none =
    if tag == "http"
    then err url_transport_without_url
    else if tag == "sse"
    then err url_transport_without_url
    else err (unknown_tag tag)
tagged raw tag (some url) (some command) =
    if tag == "stdio" then err stdio_with_url else err (unknown_tag tag)

abbrev pub by_tag :
    RawTransportPayload
    → Option String
    → Option String
    → Option String
    → Result TransportShapeError McpTransport
by_tag raw none url command = untagged raw url command
by_tag raw (some tag) url command = tagged raw tag url command

unfoldable pub try_from : RawTransportPayload → Result TransportShapeError McpTransport
try_from raw = by_tag raw raw.transport raw.url raw.command

abbrev pub transport_is_url : McpTransport → Bool
transport_is_url (http url) = true
transport_is_url (sse url) = true
transport_is_url (stdio args command env) = false

-- The `oauth:` value of an entry: `false`, or what `McpOAuthConfig::deserialize` makes of it.
pub data RawOAuth (E : Type 0) : Type 0 where
  opt_out : RawOAuth E
  deserialized : Result E McpOAuthConfig → RawOAuth E

unfoldable pub resolve_default :
    {E : Type 0} → Option (RawOAuth E) → McpTransport → Result E (Option McpOAuthConfig)
resolve_default none transport =
    ok (if transport_is_url transport then some (discover []) else none)
resolve_default (some opt_out) transport = ok none
resolve_default (some (deserialized (ok oauth))) transport = ok (some oauth)
resolve_default (some (deserialized (err e))) transport = err e
