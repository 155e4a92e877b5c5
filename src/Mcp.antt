-- ===== src/Mcp.antt =====
-- crates/mcp: the servers whose tools the agents use.
pub mod Config
pub mod Error
pub mod Vault
pub mod Session
pub mod Pool
