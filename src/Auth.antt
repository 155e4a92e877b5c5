-- ===== src/Auth.antt =====
-- crates/auth/src: who may call the server.
pub mod Config
pub mod Tokens
