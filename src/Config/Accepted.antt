-- ===== src/Config/Accepted.antt =====
-- Which configurations `Config::validate` of cli/src/config.rs accepts.
use coulisse.Prelude.{
  ◌≡◌, ◌≢◌, ◌↔◌, [], false, map, filter_map, ok, All, Distinct, is_blank, is_nil_iff, map_err,
}
use coulisse.Validation.Laws.{seq_iff, hand_on_iff, refuse_as, map_err_iff}
use coulisse.Auth.Config.{validate_auth}
use coulisse.Auth.Config.Laws.{GoodAdmin, GoodProxy, NotBlank, validate_auth_iff}
use coulisse.Experiments.{ExperimentConfig}
use coulisse.Experiments.Routing.{Floats}
use coulisse.Mcp.Config.{McpServerConfig}
use coulisse.Sidecars.{SidecarConfig}
use coulisse.Smoke.{SmokeTestConfig}
use coulisse.Triggers.{TriggerConfig, CronCrate, validate_all}
use coulisse.Config.{Config, ConfigError}
use coulisse.Config.ConfigError.{
  no_agents, auth_error, trigger_error, credential_identity_with_default_user,
}
use coulisse.Config.Strategies.{Checked, validate_experiments}
use coulisse.Config.Validate.{validate, validate_agents, validate_judges, validate_triggers}
use coulisse.Config.Consistent.{
  agent_names, experiment_names, judge_names, GoodAgent, GoodSubagents, GoodSmokeTest, GoodTarget,
  GoodPath, GoodSchedule, GoodOAuth, GoodDefaultUser, OneIdentity, GoodJudge, GoodExperiment,
  webhook_path,
}
use coulisse.Config.Experiments.{experiments_loop_iff}
use coulisse.Config.Webhooks.{check_triggers_iff}
use coulisse.Config.Blocks.{
  agents_loop_iff, judges_loop_iff, validate_smoke_tests_iff, validate_subagents_iff,
  validate_sidecars_iff, validate_mcp_oauth_iff, schedules_iff, default_user_iff, identity_iff,
}

-- Every block is well formed, names are distinct and every reference has its target.
pub record IsConsistent (f : Floats) (crate : CronCrate) (config : Config f.F32) : Type 0 where
  pub some_agent : config.agents ≢ []
  pub default_user : GoodDefaultUser config.default_user_id
  pub auth :
      GoodAdmin config.auth.admin
      × NotBlank config.auth.mcp_admin
      × GoodProxy config.auth.proxy
      × NotBlank config.auth.mcp_consumer_secret
  pub one_identity : OneIdentity config.default_user_id config.auth.proxy
  pub oauth : All (λ s. GoodOAuth (McpServerConfig.oauth s.1)) config.mcp
  pub judges_distinct : Distinct (judge_names config)
  pub judges : All (GoodJudge f config) config.judges
  pub agents_distinct : Distinct (agent_names config)
  pub agents : All (GoodAgent config) config.agents
  pub no_collision :
      All (λ e. All (λ n. n ≢ ExperimentConfig.name e) (agent_names config)) config.experiments
  pub experiments_distinct : Distinct (experiment_names config)
  pub experiments : All (GoodExperiment f config) config.experiments
  pub smoke_tests_distinct : Distinct (map (λ t. SmokeTestConfig.name t) config.smoke_tests)
  pub smoke_tests : All (GoodSmokeTest config) config.smoke_tests
  pub subagents : All (GoodSubagents config) config.agents
  pub triggers_distinct : Distinct (map (λ t. TriggerConfig.name t) config.triggers)
  pub triggers : All (λ t. GoodTarget config t × GoodPath t.kind) config.triggers
  pub paths_distinct :
      Distinct (filter_map (λ t. webhook_path (TriggerConfig.kind t)) config.triggers)
  pub schedules : All (λ t. GoodSchedule crate (TriggerConfig.kind t)) config.triggers
  pub sidecars : All (λ s. is_blank (SidecarConfig.command s) ≡ false) config.sidecars
  pub sidecars_distinct : Distinct (map (λ s. SidecarConfig.name s) config.sidecars)

module _ (f : Floats) (crate : CronCrate) (config : Config f.F32) where
  abbrev auth_checked : Checked f crate
  auth_checked = map_err auth_error (validate_auth config.auth)

  abbrev schedules_checked : Checked f crate
  schedules_checked = map_err trigger_error (validate_all crate config.triggers)

  auth_iff : (auth_checked ≡ ok tt) ↔ (
      GoodAdmin config.auth.admin
      × NotBlank config.auth.mcp_admin
      × GoodProxy config.auth.proxy
      × NotBlank config.auth.mcp_consumer_secret)
  auth_iff =
      let a =
        map_err_iff {F = ConfigError f.F32 crate.CronError} auth_error
          (validate_auth config.auth) in
      let b = validate_auth_iff config.auth in ((λ h. b.0 (a.0 h)), λ h. a.1 (b.1 h))

  schedules_as :
      (schedules_checked ≡ ok tt)
      ↔ All (λ t. GoodSchedule crate (TriggerConfig.kind t)) config.triggers
  schedules_as =
      let a =
        map_err_iff {F = ConfigError f.F32 crate.CronError} trigger_error
          (validate_all crate config.triggers) in
      let b = schedules_iff f crate config.triggers in ((λ h. b.0 (a.0 h)), λ h. a.1 (b.1 h))

  -- A configuration is accepted exactly when every block of it is well formed, no name or webhook
  -- path stands twice, and every reference between the blocks has its target.
  pub validate_iff : (validate f crate config ≡ ok tt) ↔ IsConsistent f crate config
  unfolding validate validate_judges validate_agents validate_experiments validate_triggers
  validate_iff =
      let all = seq_iff (refuse_as _ no_agents (is_nil_iff config.agents)) (
        seq_iff (default_user_iff f crate config.default_user_id) (
          seq_iff auth_iff (
            seq_iff
              (refuse_as _ credential_identity_with_default_user
                (identity_iff f crate config.default_user_id config.auth.proxy))
              (seq_iff (validate_mcp_oauth_iff f crate config) (
                hand_on_iff (judge_names config) _ _ (judges_loop_iff f crate config) (
                  hand_on_iff (agent_names config) _ _ (agents_loop_iff f crate config) (
                    hand_on_iff (experiment_names config) _ _ (experiments_loop_iff f crate config)
                      (seq_iff (validate_smoke_tests_iff f crate config) (
                        seq_iff (validate_subagents_iff f crate config) (
                          seq_iff (seq_iff (check_triggers_iff f crate config) schedules_as)
                            (validate_sidecars_iff f crate config))))))))))) in
      (
        (λ h.
            let a = all.0 h in
            let b = a.1.1.1.1 in
            let c = b.1.1.1 in
            let d = c.1.1.1 in
            record {
              some_agent = a.0;
              default_user = a.1.0;
              auth = a.1.1.0;
              one_identity = a.1.1.1.0;
              oauth = b.0;
              judges_distinct = b.1.0.0;
              judges = b.1.0.1;
              agents_distinct = b.1.1.0.0;
              agents = b.1.1.0.1;
              no_collision = c.0.0;
              experiments_distinct = c.0.1;
              experiments = c.0.2;
              smoke_tests_distinct = c.1.0.0;
              smoke_tests = c.1.0.1;
              subagents = c.1.1.0;
              triggers_distinct = d.0.0.0;
              triggers = d.0.0.1;
              paths_distinct = d.0.0.2;
              schedules = d.0.1;
              sidecars = d.1.0;
              sidecars_distinct = d.1.1;
            }),
        λ h. all.1 (
          h.some_agent,
          (
            h.default_user,
            (
              h.auth,
              (
                h.one_identity,
                (
                  h.oauth,
                  (
                    (h.judges_distinct, h.judges),
                    (
                      (h.agents_distinct, h.agents),
                      (
                        (h.no_collision, h.experiments_distinct, h.experiments),
                        (
                          (h.smoke_tests_distinct, h.smoke_tests),
                          (
                            h.subagents,
                            (
                              ((h.triggers_distinct, h.triggers, h.paths_distinct), h.schedules),
                              (h.sidecars, h.sidecars_distinct),
                            ),
                          ),
                        ),
                      ),
                    ),
                  ),
                ),
              ),
            ),
          ),
        ),
      )
