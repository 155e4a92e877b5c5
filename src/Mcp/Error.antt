-- ===== src/Mcp/Error.antt =====
-- The errors of crates/mcp/src/error.rs that the vault and the sessions of users return. An error
-- that carries one of another crate carries its text here.
use coulisse.Prelude.{ℕ, String, Bool, List, ◌||◌, codes, contains_text}

pub data McpError : Type 0 where
  client_metadata : (server : String) → McpError
  connect : (server source : String) → McpError
  decrypt : (server : String) → McpError
  decrypted_not_utf8 : (server : String) → McpError
  discovery : (url : String) (source : List ℕ) → McpError
  encrypt : (server : String) → McpError
  list_tools : (server source : String) → McpError
  not_connected : (server user_id : String) → McpError
  server_not_configured : (agent server : String) → McpError
  spawn : (server source : String) → McpError
  token_exchange : (server source : String) → McpError

-- `debug` is the derived `{:?}` of the error.
unfoldable pub looks_like_auth_failure : (McpError → List ℕ) → McpError → Bool
looks_like_auth_failure debug e =
    contains_text (codes "AuthRequired") (debug e)
    || contains_text (codes "InsufficientScope") (debug e)
    || contains_text (codes "HTTP 401") (debug e)
    || contains_text (codes "HTTP 403") (debug e)
