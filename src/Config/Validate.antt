-- ===== src/Config/Validate.antt =====
-- cli/src/config.rs: `Config::validate`, the checks of every block and of the names between them.
-- A set of names is the list of the names that the loop has passed.
use coulisse.Prelude.{
  ℕ, String, codes, Bool, false, not, ◌&&◌, ◌||◌, Option, none, some, List, [], ◌∷◌, ◌++◌, map, any,
  if◌then◌else◌, Result, ok, err, ◌>>◌, ◌>>=◌, map_err, member, is_nil, is_blank, starts_with,
  contains_text, trim_end_matches, ◌==◌, string_eq, nat_eq,
}
use coulisse.Decimal.{print}
use coulisse.Validation.{reject_if, each, each_distinct, no_check}
use coulisse.Auth.Config.{ScopeConfig, is_some, is_credential, validate_auth}
use coulisse.Agents.{AgentConfig}
use coulisse.Judges.{JudgeConfig}
use coulisse.Mcp.Config.{McpOAuthConfig, McpServerConfig}
use coulisse.Mcp.Config.McpOAuthConfig.{discover, static_client}
use coulisse.Providers.{ProviderKind, parse, kind_eq}
use coulisse.Smoke.{SmokeTestConfig}
use coulisse.Triggers.{TriggerConfig, TriggerKind, CronCrate, validate_all}
use coulisse.Triggers.TriggerKind.{boot, cron, webhook}
use coulisse.Experiments.Routing.{Floats}
use coulisse.Config.{Config, ConfigError}
use coulisse.Config.Strategies.{Checked, in_unit, validate_experiments}
use coulisse.Config.ConfigError.{
  auth_error, blank_default_user_id, credential_identity_with_default_user, duplicate_agent,
  duplicate_judge, duplicate_sidecar, duplicate_smoke_test, duplicate_subagent, duplicate_trigger,
  invalid_sampling_rate, judge_not_configured, judge_provider_not_configured,
  judge_unknown_provider, judge_without_rubrics, mcp_oauth_blank_field, mcp_server_not_configured,
  no_agents, provider_not_configured, self_subagent, sidecar_blank_command, smoke_max_turns_zero,
  smoke_persona_provider_not_configured, smoke_persona_unknown_provider, smoke_repetitions_zero,
  smoke_unknown_target, trigger_error, trigger_unknown_agent, trigger_webhook_path_duplicate,
  trigger_webhook_path_invalid, unknown_subagent,
}

abbrev pub is_templated : String → Bool
is_templated agent = contains_text (codes "{{") (codes agent)

abbrev pub see_path : TriggerKind → List String → List String
see_path boot seen = seen
see_path (cron schedule) seen = seen
see_path (webhook path) seen = path ∷ seen

module _ (f : Floats) (crate : CronCrate) where
  -- `self.providers.contains_key` and `self.mcp.contains_key`.
  abbrev pub has_provider : Config f.F32 → ProviderKind → Bool
  has_provider config kind = member kind (map (λ p. p.0) config.providers)

  abbrev pub has_server : Config f.F32 → String → Bool
  has_server config server = member server (map (λ s. s.0) config.mcp)

  abbrev pub is_target : List String → List String → String → Bool
  is_target agent_names experiment_names name =
      member name agent_names || member name experiment_names

  abbrev pub check_agent : Config f.F32 → List String → AgentConfig → Checked f crate
  check_agent config judge_names agent = do
    reject_if (not (has_provider config agent.provider))
        (provider_not_configured agent.name agent.provider)
    each
        (λ access.
          reject_if (not (has_server config access.server))
            (mcp_server_not_configured agent.name access.server))
        agent.mcp_tools
    each
        (λ judge.
          reject_if (not (member judge judge_names)) (judge_not_configured agent.name judge))
        agent.judges

  unfoldable pub validate_agents :
      Config f.F32 → List String → Result (ConfigError f.F32 crate.CronError) (List String)
  validate_agents config judge_names =
      each_distinct (λ a. a.name) (λ a. duplicate_agent a.name) no_check
        (check_agent config judge_names) [] config.agents
      >> ok (map (λ a. a.name) config.agents)

  abbrev pub check_judge_provider :
      Config f.F32 → JudgeConfig f.F32 → Option ProviderKind → Checked f crate
  check_judge_provider config judge none = err (judge_unknown_provider judge.name judge.provider)
  check_judge_provider config judge (some provider) =
      reject_if (not (has_provider config provider))
        (judge_provider_not_configured judge.name provider)

  abbrev pub check_judge_entry : Config f.F32 → JudgeConfig f.F32 → Checked f crate
  check_judge_entry config judge = do
    reject_if (is_nil judge.rubrics) (judge_without_rubrics judge.name)
    reject_if (not (in_unit f crate judge.sampling_rate))
        (invalid_sampling_rate judge.name judge.sampling_rate)
    check_judge_provider config judge (parse judge.provider)

  unfoldable pub validate_judges :
      Config f.F32 → Result (ConfigError f.F32 crate.CronError) (List String)
  validate_judges config =
      each_distinct (λ j. j.name) (λ j. duplicate_judge j.name) no_check (check_judge_entry config)
        [] config.judges
      >> ok (map (λ j. j.name) config.judges)

  abbrev pub filled : String → String → String → Checked f crate
  filled server field text = reject_if (text == "") (mcp_oauth_blank_field field server)

  abbrev pub check_oauth : String → Option McpOAuthConfig → Checked f crate
  check_oauth name none = ok tt
  check_oauth name (some (discover scopes)) = ok tt
  check_oauth name
        (some
          (static_client authorization_url client_id client_secret redirect_uri scopes token_url)) =
      do
        filled name "authorization_url" authorization_url
        filled name "client_id" client_id
        filled name "client_secret" client_secret
        filled name "redirect_uri" redirect_uri
        filled name "token_url" token_url

  unfoldable pub validate_mcp_oauth : Config f.F32 → Checked f crate
  validate_mcp_oauth config =
      let entries = each (λ s. check_oauth s.0 (McpServerConfig.oauth s.1)) config.mcp in
      if any (λ s. is_some (McpServerConfig.oauth s.1)) config.mcp then entries else ok tt

  unfoldable pub validate_sidecars : Config f.F32 → Checked f crate
  validate_sidecars config =
      each_distinct (λ s. s.name) (λ s. duplicate_sidecar s.name)
        (λ s. reject_if (is_blank s.command) (sidecar_blank_command s.name)) no_check []
        config.sidecars

  abbrev pub check_persona : Config f.F32 → SmokeTestConfig → Option ProviderKind → Checked f crate
  check_persona config test none =
      err (smoke_persona_unknown_provider test.persona.provider test.name)
  check_persona config test (some provider) =
      reject_if (not (has_provider config provider))
        (smoke_persona_provider_not_configured provider test.name)

  abbrev pub check_smoke_test :
      Config f.F32 → List String → List String → SmokeTestConfig → Checked f crate
  check_smoke_test config agent_names experiment_names test = do
    reject_if (test.max_turns == 0) (smoke_max_turns_zero test.name)
    reject_if (test.repetitions == 0) (smoke_repetitions_zero test.name)
    check_persona config test (parse test.persona.provider)
    reject_if (not (is_target agent_names experiment_names test.target))
        (smoke_unknown_target test.target test.name)

  unfoldable pub validate_smoke_tests : Config f.F32 → List String → List String → Checked f crate
  validate_smoke_tests config agent_names experiment_names =
      each_distinct (λ t. t.name) (λ t. duplicate_smoke_test t.name) no_check
        (check_smoke_test config agent_names experiment_names) [] config.smoke_tests

  abbrev pub check_subagent : AgentConfig → List String → List String → String → Checked f crate
  check_subagent agent agent_names experiment_names sub = do
    reject_if (sub == agent.name) (self_subagent agent.name)
    reject_if (not (is_target agent_names experiment_names sub)) (unknown_subagent agent.name sub)

  unfoldable pub validate_subagents : Config f.F32 → List String → List String → Checked f crate
  validate_subagents config agent_names experiment_names =
      each
        (λ agent.
          each_distinct (λ sub. sub) (λ sub. duplicate_subagent agent.name sub)
            (check_subagent agent agent_names experiment_names) no_check [] agent.subagents)
        config.agents

  abbrev pub check_target : List String → List String → TriggerConfig → Checked f crate
  check_target agent_names experiment_names t =
      reject_if (not (is_templated t.agent) && not (is_target agent_names experiment_names t.agent))
        (trigger_unknown_agent t.agent t.name)

  abbrev pub check_path : List String → TriggerConfig → TriggerKind → Checked f crate
  check_path seen_paths t boot = ok tt
  check_path seen_paths t (cron schedule) = ok tt
  check_path seen_paths t (webhook path) = do
    reject_if (not (starts_with (codes "/hooks/") (codes path)))
        (trigger_webhook_path_invalid path t.name)
    reject_if (member path seen_paths) (trigger_webhook_path_duplicate path t.name)

  -- The loop of `validate_triggers`, which inserts into two sets.
  unfoldable pub check_triggers :
      List String → List String → List String → List String → List TriggerConfig → Checked f crate
  check_triggers agent_names experiment_names seen_names seen_paths [] = ok tt
  check_triggers agent_names experiment_names seen_names seen_paths (t ∷ ts) = do
    reject_if (member t.name seen_names) (duplicate_trigger t.name)
    check_target agent_names experiment_names t
    check_path seen_paths t t.kind
    check_triggers agent_names experiment_names (t.name ∷ seen_names) (see_path t.kind seen_paths)
        ts

  unfoldable pub validate_triggers : Config f.F32 → List String → List String → Checked f crate
  validate_triggers config agent_names experiment_names =
      check_triggers agent_names experiment_names [] [] config.triggers
      >> map_err trigger_error (validate_all crate config.triggers)

  abbrev pub check_default_user : Option String → Checked f crate
  check_default_user none = ok tt
  check_default_user (some key) = reject_if (is_blank key) blank_default_user_id

  abbrev pub binds_identity : Option ScopeConfig → Bool
  binds_identity none = false
  binds_identity (some scope) = is_credential scope.identity || scope.tokens

  unfoldable pub validate : Config f.F32 → Checked f crate
  validate config = do
    reject_if (is_nil config.agents) no_agents
    check_default_user config.default_user_id
    map_err auth_error (validate_auth config.auth)
    reject_if (is_some config.default_user_id && binds_identity config.auth.proxy)
        credential_identity_with_default_user
    validate_mcp_oauth config
    judge_names ← validate_judges config
    agent_names ← validate_agents config judge_names
    experiment_names ← validate_experiments f crate config agent_names
    validate_smoke_tests config agent_names experiment_names
    validate_subagents config agent_names experiment_names
    validate_triggers config agent_names experiment_names
    validate_sidecars config

-- `Config::effective_public_base_url`.
unfoldable pub effective_public_base_url : {F32 : Type 0} → Config F32 → List ℕ
effective_public_base_url config = elim config.public_base_url [
  | none ↦ codes "http://localhost:" ++ print config.port
  | some url ↦ trim_end_matches b'/' (codes url)
]
