-- ===== src/Config/Blocks.antt =====
-- Which agents, judges, servers, sidecars, smoke tests and users cli/src/config.rs accepts.
use coulisse.Prelude.{
  String, true, false, ◌≡◌, ◌≢◌, ◌↔◌, refl, sym, subst, ◌&&◌, Option, none, some, List, [], ◌∷◌,
  map, any, ok, All, Distinct, member_iff, is_nil_iff, is_blank, ◌==◌, ==_iff, string_eq, nat_eq,
  arith, Bool-cases, inl, inr, Result-cases, Option-cases, PartialEq,
}
use coulisse.Validation.{reject_if, each_distinct, no_check}
use coulisse.Validation.Laws.{
  seq_iff, require_as, refuse_as, reject_if_iff, each_as, each_distinct_after, each_distinct_before,
}
use coulisse.Auth.Config.{ScopeConfig, is_some}
use coulisse.Agents.{AgentConfig, McpToolAccess}
use coulisse.Judges.{JudgeConfig}
use coulisse.Mcp.Config.{McpOAuthConfig, McpServerConfig}
use coulisse.Mcp.Config.McpOAuthConfig.{discover, static_client}
use coulisse.Providers.{ProviderKind, parse, kind_eq}
use coulisse.Sidecars.{SidecarConfig}
use coulisse.Smoke.{SmokeTestConfig}
use coulisse.Triggers.{
  TriggerConfig, TriggerKind, CronCrate, parse_schedule, validate_kind, validate_all,
}
use coulisse.Triggers.TriggerKind.{boot, cron, webhook}
use coulisse.Experiments.Routing.{Floats}
use coulisse.Config.{Config}
use coulisse.Config.ConfigError.{duplicate_agent, duplicate_judge, sidecar_blank_command}
use coulisse.Config.Validate.{
  has_provider, check_agent, check_judge_provider, check_judge_entry, check_oauth,
  validate_mcp_oauth, validate_sidecars, check_persona, check_smoke_test, validate_smoke_tests,
  validate_subagents, check_default_user, binds_identity,
}
use coulisse.Config.Consistent.{
  agent_names, experiment_names, judge_names, IsConfigured, GoodAgent, GoodSubagents, GoodSmokeTest,
  GoodSchedule, GoodOAuth, GoodDefaultUser, OneIdentity, GoodJudge,
}
use coulisse.Config.Experiments.{found_iff, in_unit_iff}
use coulisse.Config.Webhooks.{is_target_iff}
use coulisse.Auth.Config.Laws.{is_credential_iff}

differs_iff :
    {A E : Type 0} ⦃p : PartialEq A⦄ (a b : A) (e : E) → (reject_if (a == b) e ≡ ok tt) ↔ (a ≢ b)
differs_iff a b e = refuse_as (a == b) e (
  (λ h same. absurd (ground (arith, (==_iff a b).1 same))),
  λ ne. elim (Bool-cases (a == b)) [ inl t ↦ absurd (ne ((==_iff a b).0 t)) | inr n ↦ n ],
)

module _ (f : Floats) (crate : CronCrate) where
  module _ (config : Config f.F32) where
    provider_iff :
        (kind : ProviderKind) → (has_provider f crate config kind ≡ true) ↔ IsConfigured config kind
    provider_iff kind = member_iff kind (map (λ p. p.0) config.providers)

    check_agent_iff :
        (a : AgentConfig)
        → (check_agent f crate config (judge_names config) a ≡ ok tt) ↔ GoodAgent config a
    check_agent_iff a = seq_iff (require_as _ _ (provider_iff a.provider)) (
        seq_iff
          (each_as _ a.mcp_tools
            (λ t. require_as _ _ (member_iff (McpToolAccess.server t) (map (λ s. s.0) config.mcp))))
          (each_as _ a.judges (λ j. require_as _ _ (member_iff j (judge_names config)))))

    pub agents_loop_iff :
        (each_distinct
            (λ a. a.name)
            (λ a. duplicate_agent a.name)
            no_check
            (check_agent f crate config (judge_names config))
            []
            config.agents
          ≡ ok tt)
        ↔ (Distinct (agent_names config) × All (GoodAgent config) config.agents)
    agents_loop_iff = each_distinct_after (λ a. a.name) _ _ config.agents check_agent_iff

    judge_provider_iff :
        (j : JudgeConfig f.F32) (o : Option ProviderKind)
        → (check_judge_provider f crate config j o ≡ ok tt)
          ↔ ((kind : ProviderKind) × (o ≡ some kind) × IsConfigured config kind)
    judge_provider_iff j none =
        ((λ h. absurd (ground arith)), λ h. absurd (let n = h.1 in ground arith))
    judge_provider_iff j (some kind) =
        found_iff (IsConfigured config) kind (require_as _ _ (provider_iff kind))

    check_judge_entry_iff :
        (j : JudgeConfig f.F32)
        → (check_judge_entry f crate config j ≡ ok tt) ↔ GoodJudge f config j
    check_judge_entry_iff j = seq_iff (refuse_as _ _ (is_nil_iff j.rubrics)) (
        seq_iff (require_as _ _ (in_unit_iff f crate j.sampling_rate))
          (judge_provider_iff j (parse j.provider)))

    pub judges_loop_iff :
        (each_distinct
            (λ j. j.name)
            (λ j. duplicate_judge j.name)
            no_check
            (check_judge_entry f crate config)
            []
            config.judges
          ≡ ok tt)
        ↔ (Distinct (judge_names config) × All (GoodJudge f config) config.judges)
    judges_loop_iff = each_distinct_after (λ j. j.name) _ _ config.judges check_judge_entry_iff

    persona_iff :
        (t : SmokeTestConfig) (o : Option ProviderKind)
        → (check_persona f crate config t o ≡ ok tt)
          ↔ ((kind : ProviderKind) × (o ≡ some kind) × IsConfigured config kind)
    persona_iff t none = ((λ h. absurd (ground arith)), λ h. absurd (let n = h.1 in ground arith))
    persona_iff t (some kind) =
        found_iff (IsConfigured config) kind (require_as _ _ (provider_iff kind))

    check_smoke_test_iff :
        (t : SmokeTestConfig)
        → (check_smoke_test f crate config (agent_names config) (experiment_names config) t ≡ ok tt)
          ↔ GoodSmokeTest config t
    check_smoke_test_iff t = seq_iff (differs_iff t.max_turns 0 _) (
        seq_iff (differs_iff t.repetitions 0 _) (
          seq_iff (persona_iff t (parse t.persona.provider))
            (require_as _ _ (is_target_iff f crate config t.target))))

    pub validate_smoke_tests_iff :
        (validate_smoke_tests f crate config (agent_names config) (experiment_names config) ≡ ok tt)
        ↔ (Distinct (map (λ t. SmokeTestConfig.name t) config.smoke_tests)
            × All (GoodSmokeTest config) config.smoke_tests)
    unfolding validate_smoke_tests
    validate_smoke_tests_iff =
        each_distinct_after (λ t. SmokeTestConfig.name t) _ _ config.smoke_tests
          check_smoke_test_iff

    pub validate_subagents_iff :
        (validate_subagents f crate config (agent_names config) (experiment_names config) ≡ ok tt)
        ↔ All (GoodSubagents config) config.agents
    unfolding validate_subagents
    validate_subagents_iff = each_as _ config.agents (λ a.
        each_distinct_before (λ sub. sub) _ _ a.subagents
          (λ sub.
            seq_iff (differs_iff sub a.name _) (require_as _ _ (is_target_iff f crate config sub))))

    pub validate_sidecars_iff : (validate_sidecars f crate config ≡ ok tt) ↔ (
        All (λ s. is_blank (SidecarConfig.command s) ≡ false) config.sidecars
        × Distinct (map (λ s. SidecarConfig.name s) config.sidecars))
    unfolding validate_sidecars
    validate_sidecars_iff =
        each_distinct_before (λ s. SidecarConfig.name s) _ _ config.sidecars
          (λ s. reject_if_iff (is_blank s.command) (sidecar_blank_command s.name))

  check_oauth_iff :
      (server : String) (o : Option McpOAuthConfig)
      → (check_oauth f crate server o ≡ ok tt) ↔ GoodOAuth o
  check_oauth_iff server none = ((λ h. tt), λ h. refl)
  check_oauth_iff server (some (discover scopes)) = ((λ h. tt), λ h. refl)
  check_oauth_iff server
        (some
          (static_client authorization_url client_id client_secret redirect_uri scopes token_url)) =
      seq_iff (differs_iff authorization_url "" _) (
        seq_iff (differs_iff client_id "" _) (
          seq_iff (differs_iff client_secret "" _)
            (seq_iff (differs_iff redirect_uri "" _) (differs_iff token_url "" _))))

  -- Without an OAuth block there is none to check.
  no_blocks :
      (mcp : List (String × McpServerConfig))
      → any (λ s. is_some (McpServerConfig.oauth s.1)) mcp ≡ false
      → All (λ s. GoodOAuth (McpServerConfig.oauth s.1)) mcp
  no_blocks [] h = tt
  no_blocks (s ∷ mcp) h = elim (Option-cases (McpServerConfig.oauth s.1)) [
    | inl e ↦ (subst GoodOAuth (sym e) tt, no_blocks mcp (rw e at h))
    | inr (o, e) ↦ absurd (let bad = rw e at h in ground arith)
  ]

  pub validate_mcp_oauth_iff :
      (config : Config f.F32)
      → (validate_mcp_oauth f crate config ≡ ok tt)
        ↔ All (λ s. GoodOAuth (McpServerConfig.oauth s.1)) config.mcp
  unfolding validate_mcp_oauth
  validate_mcp_oauth_iff config =
      let entries =
        each_as (λ s. check_oauth f crate s.0 (McpServerConfig.oauth s.1)) config.mcp
          (λ s. check_oauth_iff s.0 (McpServerConfig.oauth s.1)) in
      elim (Bool-cases (any (λ s. is_some (McpServerConfig.oauth s.1)) config.mcp)) [
        | inl e ↦ rw e entries
        | inr e ↦ rw e ((λ h. no_blocks config.mcp e), λ h. refl)
      ]

  schedule_iff :
      (t : TriggerConfig) (k : TriggerKind)
      → (validate_kind crate t k ≡ ok tt) ↔ GoodSchedule crate k
  schedule_iff t boot = ((λ h. tt), λ h. refl)
  schedule_iff t (webhook path) = ((λ h. tt), λ h. refl)
  schedule_iff t (cron schedule) = (
    (λ h. elim (Result-cases (parse_schedule crate schedule)) [
      | inl r ↦ r
      | inr (e, r) ↦ absurd (let bad = rw r at h in ground arith)
    ]),
    λ h. rw h.1 refl,
  )

  pub schedules_iff :
      (triggers : List TriggerConfig)
      → (validate_all crate triggers ≡ ok tt)
        ↔ All (λ t. GoodSchedule crate (TriggerConfig.kind t)) triggers
  unfolding validate_all
  schedules_iff triggers = each_as _ triggers (λ t. schedule_iff t t.kind)

  pub default_user_iff :
      (o : Option String) → (check_default_user f crate o ≡ ok tt) ↔ GoodDefaultUser o
  default_user_iff none = ((λ h. tt), λ h. refl)
  default_user_iff (some key) = reject_if_iff _ _

  pub identity_iff :
      (key : Option String) (proxy : Option ScopeConfig)
      → ((is_some key && binds_identity f crate proxy) ≡ false) ↔ OneIdentity key proxy
  identity_iff none proxy = ((λ h. tt), λ h. refl)
  identity_iff (some key) none = ((λ h. tt), λ h. refl)
  identity_iff (some key) (some scope) =
      let c = is_credential_iff scope.identity in
      (
        (λ h. (c.0 (ground arith), ground arith)),
        λ h. let e = c.1 h.0 in let t = h.1 in ground arith,
      )
