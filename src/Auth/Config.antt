-- ===== src/Auth/Config.antt =====
-- crates/auth/src/config.rs: the `auth` block and its checks.
pub mod Laws
pub mod Tests
use coulisse.Prelude.{
  ℕ, ◌+◌, String, codes, Bool, true, false, Option, none, some, List, [], ◌∷◌, if◌then◌else◌,
  Result, ok, err, ◌>>◌, ◌>>=◌, is_blank, ◌==◌, string_eq, nat_eq,
}
use coulisse.Validation.{reject_if}

pub data IdentityMode : Type 0 where
  from_credential from_request : IdentityMode

pub record BasicConfig : Type 0 where
  pub password : String
  pub username : String

pub record OidcConfig : Type 0 where
  pub client_id : String
  pub client_secret : Option String
  pub issuer_url : String
  pub redirect_url : String
  pub scopes : List String

-- `tokens: {}` has no fields, so only its presence counts.
pub record ScopeConfig : Type 0 where
  pub basic : Option BasicConfig
  pub identity : IdentityMode
  pub oidc : Option OidcConfig
  pub tokens : Bool

pub record AuthConfig : Type 0 where
  pub admin : Option ScopeConfig
  pub mcp_admin : Option String
  pub mcp_consumer_secret : Option String
  pub proxy : Option ScopeConfig

pub data ConfigError : Type 0 where
  blank_basic_field : (field scope : String) → ConfigError
  blank_mcp_admin_token : ConfigError
  blank_mcp_consumer_secret : ConfigError
  blank_oidc_field : (field scope : String) → ConfigError
  identity_on_admin_scope : ConfigError
  scope_multiple_auth_methods : String → ConfigError
  scope_without_auth : String → ConfigError
  tokens_on_admin_scope : ConfigError

abbrev pub is_some : {A : Type 0} → Option A → Bool
is_some none = false
is_some (some a) = true

-- `usize::from(bool)`.
abbrev pub as_count : Bool → ℕ
as_count true = 1
as_count false = 0

abbrev pub declared : ScopeConfig → ℕ
declared scope =
    as_count (is_some scope.basic) + as_count (is_some scope.oidc) + as_count scope.tokens

-- `match declared { 0 => …, 1 => {}, _ => … }`.
abbrev pub one_method : ℕ → String → Result ConfigError (Unit {0})
one_method n scope =
    if n == 0
    then err (scope_without_auth scope)
    else if n == 1
    then ok tt
    else err (scope_multiple_auth_methods scope)

abbrev pub check_oidc : Option OidcConfig → String → Result ConfigError (Unit {0})
check_oidc none scope = ok tt
check_oidc (some oidc) scope = do
  reject_if (oidc.client_id == "") (blank_oidc_field "client_id" scope)
  reject_if (oidc.issuer_url == "") (blank_oidc_field "issuer_url" scope)
  reject_if (oidc.redirect_url == "") (blank_oidc_field "redirect_url" scope)

abbrev pub check_basic : Option BasicConfig → String → Result ConfigError (Unit {0})
check_basic none scope = ok tt
check_basic (some basic) scope = do
  reject_if (basic.password == "") (blank_basic_field "password" scope)
  reject_if (basic.username == "") (blank_basic_field "username" scope)

-- `ScopeConfig::validate`.
unfoldable pub validate_scope : ScopeConfig → String → Result ConfigError (Unit {0})
validate_scope scope label = do
  one_method (declared scope) label
  check_oidc scope.oidc label
  check_basic scope.basic label

abbrev pub is_credential : IdentityMode → Bool
is_credential from_credential = true
is_credential from_request = false

abbrev pub check_admin : Option ScopeConfig → Result ConfigError (Unit {0})
check_admin none = ok tt
check_admin (some scope) = do
  validate_scope scope "admin"
  reject_if (is_credential scope.identity) identity_on_admin_scope
  reject_if scope.tokens tokens_on_admin_scope

abbrev pub check_secret : Option String → ConfigError → Result ConfigError (Unit {0})
check_secret none e = ok tt
check_secret (some secret) e = reject_if (is_blank secret) e

abbrev pub check_proxy : Option ScopeConfig → Result ConfigError (Unit {0})
check_proxy none = ok tt
check_proxy (some scope) = validate_scope scope "proxy"

-- `Config::validate`.
unfoldable pub validate_auth : AuthConfig → Result ConfigError (Unit {0})
validate_auth config = do
  check_admin config.admin
  check_secret config.mcp_admin blank_mcp_admin_token
  check_proxy config.proxy
  check_secret config.mcp_consumer_secret blank_mcp_consumer_secret
