-- ===== src/Config.antt =====
-- cli/src/config.rs: the root of coulisse.yaml and what its checks refuse. `Config` has the blocks
-- that its methods read: `memory`, `skills`, `storage`, `telemetry` and the server's settings
-- besides the port are handed on to other crates as they are.

pub mod Strategies
pub mod Validate
pub mod Consistent
pub mod Experiments
pub mod Webhooks
pub mod Blocks
pub mod Accepted
pub mod Resolution
pub mod Expansion
pub mod Loading
pub mod Tests
use coulisse.Prelude.{ℕ, String, Option, List}
use coulisse.Agents.{AgentConfig}
use coulisse.Auth.Config.{AuthConfig}
use coulisse.Auth.Config as Auth
use coulisse.Experiments.{ExperimentConfig}
use coulisse.Judges.{JudgeConfig}
use coulisse.Mcp.Config.{McpServerConfig}
use coulisse.Providers.{ProviderKind, ProviderConfig}
use coulisse.Sidecars.{SidecarConfig}
use coulisse.Smoke.{SmokeTestConfig}
use coulisse.Triggers.{TriggerConfig, TriggerError}

-- `UserKey` and `PublicBaseUrl` are texts; a `HashMap` is the list of its entries in the order it is
-- iterated in.
pub record Config (F32 : Type 0) : Type 0 where
  pub agents : List AgentConfig
  pub auth : AuthConfig
  pub default_user_id : Option String
  pub experiments : List (ExperimentConfig F32)
  pub judges : List (JudgeConfig F32)
  pub mcp : List (String × McpServerConfig)
  pub port : ℕ
  pub providers : List (ProviderKind × ProviderConfig)
  pub public_base_url : Option String
  pub sidecars : List SidecarConfig
  pub smoke_tests : List SmokeTestConfig
  pub triggers : List TriggerConfig
  pub vars : List (String × String)

-- Slices of a text (a metric's judge, a line of the file) are code points or bytes. The errors of the
-- file system and of the YAML parser are not among these.
pub data ConfigError (F32 CronError : Type 0) : Type 0 where
  auth_error : Auth.ConfigError → ConfigError F32 CronError
  bandit_without_metric : String → ConfigError F32 CronError
  blank_default_user_id : ConfigError F32 CronError
  config_var_not_set :
      (line_content : List ℕ) (line_number : ℕ) (path : String) (var : List ℕ)
      → ConfigError F32 CronError
  credential_identity_with_default_user : ConfigError F32 CronError
  duplicate_agent : String → ConfigError F32 CronError
  duplicate_judge : String → ConfigError F32 CronError
  duplicate_sidecar : String → ConfigError F32 CronError
  duplicate_smoke_test : String → ConfigError F32 CronError
  duplicate_subagent : (agent subagent : String) → ConfigError F32 CronError
  duplicate_trigger : String → ConfigError F32 CronError
  env_var_not_set :
      (line_content : List ℕ) (line_number : ℕ) (path : String) (var : List ℕ)
      → ConfigError F32 CronError
  experiment_agent_name_collision : String → ConfigError F32 CronError
  experiment_duplicate_variant : (agent experiment : String) → ConfigError F32 CronError
  experiment_field_strategy_mismatch :
      (experiment field strategy valid_for : String) → ConfigError F32 CronError
  experiment_invalid_epsilon : (experiment : String) (value : F32) → ConfigError F32 CronError
  experiment_invalid_sampling_rate : (experiment : String) (value : F32) → ConfigError F32 CronError
  experiment_invalid_weight : (agent experiment : String) (weight : F32) → ConfigError F32 CronError
  experiment_metric_malformed : (experiment metric : String) → ConfigError F32 CronError
  experiment_metric_unknown_criterion :
      (criterion : List ℕ) (experiment : String) (judge : List ℕ) → ConfigError F32 CronError
  experiment_metric_unknown_judge :
      (experiment : String) (judge : List ℕ) → ConfigError F32 CronError
  experiment_metric_variant_missing_judge :
      (agent experiment : String) (judge : List ℕ) (metric : String) → ConfigError F32 CronError
  experiment_name_collision : String → ConfigError F32 CronError
  experiment_primary_not_variant : (experiment primary : String) → ConfigError F32 CronError
  experiment_unknown_variant : (agent experiment : String) → ConfigError F32 CronError
  experiment_without_variants : String → ConfigError F32 CronError
  invalid_sampling_rate : (judge : String) (value : F32) → ConfigError F32 CronError
  judge_not_configured : (agent judge : String) → ConfigError F32 CronError
  judge_provider_not_configured :
      (judge : String) (provider : ProviderKind) → ConfigError F32 CronError
  judge_unknown_provider : (judge provider : String) → ConfigError F32 CronError
  judge_without_rubrics : String → ConfigError F32 CronError
  mcp_oauth_blank_field : (field server : String) → ConfigError F32 CronError
  mcp_server_not_configured : (agent server : String) → ConfigError F32 CronError
  no_agents : ConfigError F32 CronError
  provider_not_configured : (agent : String) (provider : ProviderKind) → ConfigError F32 CronError
  self_subagent : String → ConfigError F32 CronError
  shadow_without_primary : String → ConfigError F32 CronError
  sidecar_blank_command : String → ConfigError F32 CronError
  smoke_max_turns_zero : String → ConfigError F32 CronError
  smoke_persona_provider_not_configured :
      (provider : ProviderKind) (test : String) → ConfigError F32 CronError
  smoke_persona_unknown_provider : (provider test : String) → ConfigError F32 CronError
  smoke_repetitions_zero : String → ConfigError F32 CronError
  smoke_unknown_target : (target test : String) → ConfigError F32 CronError
  trigger_error : TriggerError CronError → ConfigError F32 CronError
  trigger_unknown_agent : (agent trigger : String) → ConfigError F32 CronError
  trigger_webhook_path_duplicate : (path trigger : String) → ConfigError F32 CronError
  trigger_webhook_path_invalid : (path trigger : String) → ConfigError F32 CronError
  unclosed_env_var :
      (line_content : List ℕ) (line_number : ℕ) (path : String) → ConfigError F32 CronError
  unknown_subagent : (agent subagent : String) → ConfigError F32 CronError
