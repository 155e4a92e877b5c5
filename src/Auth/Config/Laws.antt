-- ===== src/Auth/Config/Laws.antt =====
-- Which `auth` blocks crates/auth/src/config.rs accepts.
use coulisse.Prelude.{
  ◌+◌, String, ◌≡◌, ◌≢◌, ◌↔◌, refl, Bool, true, false, Option, none, some, ok, ◌>>◌, is_blank, ◌==◌,
  ==_iff, string_eq, nat_eq, arith,
}
use coulisse.Validation.{reject_if}
use coulisse.Validation.Laws.{>>_iff, reject_if_iff}
use coulisse.Auth.Config.{
  IdentityMode, BasicConfig, OidcConfig, ScopeConfig, AuthConfig, ConfigError, is_some, as_count,
  one_method, check_oidc, check_basic, validate_scope, is_credential, check_admin, check_secret,
  check_proxy, validate_auth,
}
use coulisse.Auth.Config.IdentityMode.{from_credential, from_request}
use coulisse.Auth.Config.ConfigError.{
  blank_basic_field, blank_oidc_field, identity_on_admin_scope, tokens_on_admin_scope,
  blank_mcp_admin_token, blank_mcp_consumer_secret,
}

-- Exactly one way to log in is declared, with its fields filled in.
abbrev pub HasOneMethod : Option BasicConfig → Option OidcConfig → Bool → Type 0
HasOneMethod (some basic) none false = (basic.password ≢ "") × (basic.username ≢ "")
HasOneMethod none (some oidc) false =
    (oidc.client_id ≢ "") × (oidc.issuer_url ≢ "") × (oidc.redirect_url ≢ "")
HasOneMethod none none true = Unit
HasOneMethod none none false = ⊥
HasOneMethod none (some oidc) true = ⊥
HasOneMethod (some basic) none true = ⊥
HasOneMethod (some basic) (some oidc) tokens = ⊥

filled_iff : (s : String) (e : ConfigError) → (reject_if (s == "") e ≡ ok tt) ↔ (s ≢ "")
filled_iff s e = (
  (λ h same. absurd (ground (arith, (==_iff s "").1 same))),
  λ ne. ground (arith, ne, (==_iff s "").0),
)

check_basic_iff :
    (basic : BasicConfig) (label : String)
    → (check_basic (some basic) label ≡ ok tt) ↔ ((basic.password ≢ "") × (basic.username ≢ ""))
check_basic_iff basic label =
    let p = filled_iff basic.password (blank_basic_field "password" label) in
    let u = filled_iff basic.username (blank_basic_field "username" label) in
    let both = >>_iff _ (reject_if (basic.username == "") (blank_basic_field "username" label)) in
    ((λ h. let q = both.0 h in (p.0 q.0, u.0 q.1)), λ h. both.1 (p.1 h.0, u.1 h.1))

check_oidc_iff :
    (oidc : OidcConfig) (label : String)
    → (check_oidc (some oidc) label ≡ ok tt)
      ↔ ((oidc.client_id ≢ "") × (oidc.issuer_url ≢ "") × (oidc.redirect_url ≢ ""))
check_oidc_iff oidc label =
    let c = filled_iff oidc.client_id (blank_oidc_field "client_id" label) in
    let i = filled_iff oidc.issuer_url (blank_oidc_field "issuer_url" label) in
    let r = filled_iff oidc.redirect_url (blank_oidc_field "redirect_url" label) in
    let first = >>_iff (reject_if (oidc.client_id == "") (blank_oidc_field "client_id" label)) _ in
    let second =
      >>_iff (reject_if (oidc.issuer_url == "") (blank_oidc_field "issuer_url" label))
        (reject_if (oidc.redirect_url == "") (blank_oidc_field "redirect_url" label)) in
    (
      (λ h. let q = first.0 h in let t = second.0 q.1 in (c.0 q.0, i.0 t.0, r.0 t.1)),
      λ h. first.1 (c.1 h.0, second.1 (i.1 h.1, r.1 h.2)),
    )

methods_iff :
    (basic : Option BasicConfig) (oidc : Option OidcConfig) (tokens : Bool) (label : String)
    → ((one_method (as_count (is_some basic) + as_count (is_some oidc) + as_count tokens) label
          >> (check_oidc oidc label >> check_basic basic label))
        ≡ ok tt)
      ↔ HasOneMethod basic oidc tokens
methods_iff none none false label = ((λ h. absurd (ground arith)), λ h. absurd h)
methods_iff none none true label = ((λ h. tt), λ h. refl)
methods_iff none (some oidc) true label = ((λ h. absurd (ground arith)), λ h. absurd h)
methods_iff (some basic) none true label = ((λ h. absurd (ground arith)), λ h. absurd h)
methods_iff (some basic) (some oidc) true label = ((λ h. absurd (ground arith)), λ h. absurd h)
methods_iff (some basic) (some oidc) false label = ((λ h. absurd (ground arith)), λ h. absurd h)
methods_iff (some basic) none false label = check_basic_iff basic label
methods_iff none (some oidc) false label = (
  (λ h. (check_oidc_iff oidc label).0 ((>>_iff (check_oidc (some oidc) label) (ok tt)).0 h).0),
  λ h. (>>_iff (check_oidc (some oidc) label) (ok tt)).1 ((check_oidc_iff oidc label).1 h, refl),
)

pub validate_scope_iff :
    (scope : ScopeConfig) (label : String)
    → (validate_scope scope label ≡ ok tt) ↔ HasOneMethod scope.basic scope.oidc scope.tokens
unfolding validate_scope
validate_scope_iff scope label = methods_iff scope.basic scope.oidc scope.tokens label

-- A secret that is set is not blank.
abbrev pub NotBlank : Option String → Type 0
NotBlank none = Unit
NotBlank (some secret) = is_blank secret ≡ false

abbrev pub GoodAdmin : Option ScopeConfig → Type 0
GoodAdmin none = Unit
GoodAdmin (some scope) =
    HasOneMethod scope.basic scope.oidc scope.tokens
    × (scope.identity ≡ from_request)
    × (scope.tokens ≡ false)

abbrev pub GoodProxy : Option ScopeConfig → Type 0
GoodProxy none = Unit
GoodProxy (some scope) = HasOneMethod scope.basic scope.oidc scope.tokens

check_secret_iff :
    (secret : Option String) (e : ConfigError) → (check_secret secret e ≡ ok tt) ↔ NotBlank secret
check_secret_iff none e = ((λ h. tt), λ h. refl)
check_secret_iff (some secret) e = reject_if_iff (is_blank secret) e

pub is_credential_iff : (mode : IdentityMode) → (is_credential mode ≡ false) ↔ (mode ≡ from_request)
is_credential_iff from_credential = ((λ h. absurd (ground arith)), λ h. absurd (ground arith))
is_credential_iff from_request = ((λ h. refl), λ h. refl)

check_admin_iff : (admin : Option ScopeConfig) → (check_admin admin ≡ ok tt) ↔ GoodAdmin admin
check_admin_iff none = ((λ h. tt), λ h. refl)
check_admin_iff (some scope) =
    let first = >>_iff (validate_scope scope "admin") _ in
    let second =
      >>_iff (reject_if (is_credential scope.identity) identity_on_admin_scope)
        (reject_if scope.tokens tokens_on_admin_scope) in
    let m = validate_scope_iff scope "admin" in
    let i = reject_if_iff (is_credential scope.identity) identity_on_admin_scope in
    let c = is_credential_iff scope.identity in
    let t = reject_if_iff scope.tokens tokens_on_admin_scope in
    (
      (λ h. let a = first.0 h in let b = second.0 a.1 in (m.0 a.0, c.0 (i.0 b.0), t.0 b.1)),
      λ h. first.1 (m.1 h.0, second.1 (i.1 (c.1 h.1), t.1 h.2)),
    )

check_proxy_iff : (proxy : Option ScopeConfig) → (check_proxy proxy ≡ ok tt) ↔ GoodProxy proxy
check_proxy_iff none = ((λ h. tt), λ h. refl)
check_proxy_iff (some scope) = validate_scope_iff scope "proxy"

-- An `auth` block is accepted exactly when each scope that is present declares one way to log in
-- with its fields filled in, the admin scope neither binds identity to credentials nor takes
-- tokens, and the secrets that are set are not blank.
pub validate_auth_iff :
    (config : AuthConfig)
    → (validate_auth config ≡ ok tt) ↔ (
        GoodAdmin config.admin
        × NotBlank config.mcp_admin
        × GoodProxy config.proxy
        × NotBlank config.mcp_consumer_secret)
unfolding validate_auth
validate_auth_iff config =
    let first = >>_iff (check_admin config.admin) _ in
    let second = >>_iff (check_secret config.mcp_admin blank_mcp_admin_token) _ in
    let third =
      >>_iff (check_proxy config.proxy)
        (check_secret config.mcp_consumer_secret blank_mcp_consumer_secret) in
    let a = check_admin_iff config.admin in
    let t = check_secret_iff config.mcp_admin blank_mcp_admin_token in
    let p = check_proxy_iff config.proxy in
    let s = check_secret_iff config.mcp_consumer_secret blank_mcp_consumer_secret in
    (
      (λ h.
          let q = first.0 h in
          let r = second.0 q.1 in let u = third.0 r.1 in (a.0 q.0, t.0 r.0, p.0 u.0, s.0 u.1)),
      λ h. first.1 (a.1 h.0, second.1 (t.1 h.1, third.1 (p.1 h.2, s.1 h.3))),
    )
