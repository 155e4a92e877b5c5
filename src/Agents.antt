-- ===== src/Agents.antt =====
-- crates/agents/src/config.rs, with the types of other crates that it names, and the merge of
-- crates/agents/src/merge.rs at this configuration.
use coulisse.Prelude.{ℕ, String, Option, List, string_eq}
use coulisse.Providers.{ProviderKind}
use coulisse.Merge.{Merged, MergeReport, DynamicRow, AdminEntry, merge, admin_view}

-- No list of tools means every tool of the server.
pub record McpToolAccess : Type 0 where
  pub only : Option (List String)
  pub server : String

pub record AgentConfig : Type 0 where
  pub judges : List String
  pub max_turns : Option ℕ
  pub mcp_tools : List McpToolAccess
  pub model : String
  pub name : String
  pub preamble : String
  pub provider : ProviderKind
  pub purpose : Option String
  pub skills : List String
  pub subagents : List String

abbrev pub agents_merge :
    List AgentConfig → List (DynamicRow AgentConfig) → List (Merged AgentConfig) × MergeReport
agents_merge yaml db = merge (λ cfg. cfg.name) yaml db

abbrev pub agents_admin_view :
    List AgentConfig → List (DynamicRow AgentConfig) → List (AdminEntry AgentConfig)
agents_admin_view yaml db = admin_view (λ cfg. cfg.name) yaml db
