-- ===== src/Auth/Config/Tests.antt =====
-- The checks of an `auth` block at small blocks.
use coulisse.Prelude.{◌≡◌, refl, false, none, some, err, is_blank, trim}
use coulisse.Auth.Config.{AuthConfig, ScopeConfig, validate_auth, validate_scope}
use coulisse.Auth.Config.IdentityMode.{from_request}
use coulisse.Auth.Config.ConfigError.{scope_without_auth}

abbrev scope : ScopeConfig
scope = record {
  basic = some (record { password = "pw"; username = "ann" });
  identity = from_request;
  oidc = none;
  tokens = false;
}

abbrev sample : AuthConfig
sample = record {
  admin = some scope;
  mcp_admin = some "token";
  mcp_consumer_secret = none;
  proxy = some scope;
}

nothing_declared :
    validate_auth (record sample { proxy = some (record scope { basic = none }) })
    ≡ err (scope_without_auth "proxy")
unfolding validate_auth validate_scope is_blank trim
nothing_declared = refl
