-- ===== src/Config/Consistent.antt =====
-- What a configuration that cli/src/config.rs accepts is like, block by block.
use mathlib.Core.List.{Memᴰ}
use coulisse.Prelude.{
  ℕ, String, codes, true, false, ◌≡◌, ◌≢◌, ◌⊎◌, Option, none, some, List, [], map, find, All,
  Distinct, is_blank, starts_with, ◌==◌, string_eq, text_eq, ok,
}
use coulisse.Auth.Config.{ScopeConfig}
use coulisse.Auth.Config.IdentityMode.{from_request}
use coulisse.Agents.{AgentConfig, McpToolAccess}
use coulisse.Judges.{JudgeConfig}
use coulisse.Mcp.Config.{McpOAuthConfig}
use coulisse.Mcp.Config.McpOAuthConfig.{discover, static_client}
use coulisse.Providers.{ProviderKind, parse}
use coulisse.Smoke.{SmokeTestConfig}
use coulisse.Experiments.{Strategy, Variant, ExperimentConfig}
use coulisse.Experiments.Strategy.{bandit, shadow, split}
use coulisse.Experiments.Routing.{Floats, split_once}
use coulisse.Triggers.{TriggerConfig, TriggerKind, CronCrate, parse_schedule}
use coulisse.Triggers.TriggerKind.{boot, cron, webhook}
use coulisse.Config.{Config}
use coulisse.Config.Validate.{is_templated}

module _ {F32 : Type 0} (config : Config F32) where
  abbrev pub agent_names : List String
  agent_names = map (λ a. a.name) config.agents

  abbrev pub experiment_names : List String
  experiment_names = map (λ e. e.name) config.experiments

  abbrev pub judge_names : List String
  judge_names = map (λ j. j.name) config.judges

  abbrev pub IsConfigured : ProviderKind → Type 0
  IsConfigured kind = Memᴰ kind (map (λ p. p.0) config.providers)

  abbrev pub NamesProvider : String → Type 0
  NamesProvider word = (kind : ProviderKind) × (parse word ≡ some kind) × IsConfigured kind

  -- The name of an agent or of an experiment.
  abbrev pub IsTarget : String → Type 0
  IsTarget name = Memᴰ name agent_names ⊎ Memᴰ name experiment_names

  abbrev pub GoodAgent : AgentConfig → Type 0
  GoodAgent agent =
      IsConfigured agent.provider
      × (All (λ access. Memᴰ (McpToolAccess.server access) (map (λ s. s.0) config.mcp))
            agent.mcp_tools
          × All (λ judge. Memᴰ judge judge_names) agent.judges)

  abbrev pub GoodSubagents : AgentConfig → Type 0
  GoodSubagents agent =
      All (λ sub. (sub ≢ agent.name) × IsTarget sub) agent.subagents
      × Distinct (map (λ sub. sub) agent.subagents)

  abbrev pub GoodSmokeTest : SmokeTestConfig → Type 0
  GoodSmokeTest test =
      (test.max_turns ≢ 0)
      × ((test.repetitions ≢ 0) × (NamesProvider test.persona.provider × IsTarget test.target))

  abbrev pub GoodTarget : TriggerConfig → Type 0
  GoodTarget t = (is_templated t.agent ≡ true) ⊎ IsTarget t.agent

abbrev pub webhook_path : TriggerKind → Option String
webhook_path boot = none
webhook_path (cron schedule) = none
webhook_path (webhook path) = some path

abbrev pub GoodPath : TriggerKind → Type 0
GoodPath boot = Unit
GoodPath (cron schedule) = Unit
GoodPath (webhook path) = starts_with (codes "/hooks/") (codes path) ≡ true

abbrev pub GoodSchedule : CronCrate → TriggerKind → Type 0
GoodSchedule crate boot = Unit
GoodSchedule crate (cron schedule) = (a : crate.Schedule) × (parse_schedule crate schedule ≡ ok a)
GoodSchedule crate (webhook path) = Unit

abbrev pub GoodOAuth : Option McpOAuthConfig → Type 0
GoodOAuth none = Unit
GoodOAuth (some (discover scopes)) = Unit
GoodOAuth
      (some
        (static_client authorization_url client_id client_secret redirect_uri scopes token_url)) =
    (authorization_url ≢ "")
    × ((client_id ≢ "") × ((client_secret ≢ "") × ((redirect_uri ≢ "") × (token_url ≢ ""))))

abbrev pub GoodDefaultUser : Option String → Type 0
GoodDefaultUser none = Unit
GoodDefaultUser (some key) = is_blank key ≡ false

-- A fallback user and a user that comes from credentials exclude each other.
abbrev pub OneIdentity : Option String → Option ScopeConfig → Type 0
OneIdentity none proxy = Unit
OneIdentity (some key) none = Unit
OneIdentity (some key) (some scope) = (scope.identity ≡ from_request) × (scope.tokens ≡ false)

module _ (f : Floats) where
  abbrev pub InUnit : f.F32 → Type 0
  InUnit rate = (f.at_least rate f.zero ≡ true) × (f.at_least f.one rate ≡ true)

  abbrev pub UnitIfSet : Option f.F32 → Type 0
  UnitIfSet none = Unit
  UnitIfSet (some rate) = InUnit rate

  abbrev pub GoodJudge : Config f.F32 → JudgeConfig f.F32 → Type 0
  GoodJudge config judge =
      (judge.rubrics ≢ []) × (InUnit judge.sampling_rate × NamesProvider config judge.provider)

  abbrev pub GoodWeight : Variant f.F32 → Type 0
  GoodWeight v = (f.at_least f.zero v.weight ≡ false) × (f.is_finite v.weight ≡ true)

  abbrev pub NoShadowFields : ExperimentConfig f.F32 → Type 0
  NoShadowFields e = (e.primary ≡ none) × (e.sampling_rate ≡ none)

  abbrev pub NoBanditFields : ExperimentConfig f.F32 → Type 0
  NoBanditFields e =
      (e.metric ≡ none)
      × (e.epsilon ≡ none)
      × (e.min_samples ≡ none)
      × (e.bandit_window_seconds ≡ none)

  abbrev pub HasJudge : Config f.F32 → List ℕ → String → Type 0
  HasJudge config judge_name name =
      (a : AgentConfig) × (find (λ b. b.name == name) config.agents ≡ some a)
      × Memᴰ judge_name (map codes a.judges)

  abbrev pub NamesCriterion : Config f.F32 → ExperimentConfig f.F32 → List ℕ → List ℕ → Type 0
  NamesCriterion config e judge_name criterion =
      (judge : JudgeConfig f.F32) × (find (λ j. codes j.name == judge_name) config.judges
        ≡ some judge)
      × (Memᴰ criterion (map (λ r. codes r.0) judge.rubrics)
          × (All (λ v. HasJudge config judge_name (Variant.agent v)) e.variants
              × UnitIfSet e.epsilon))

  -- The metric names a judge and one of its criteria, and every variant's agent has that judge.
  abbrev pub GoodMetric : Config f.F32 → ExperimentConfig f.F32 → Option String → Type 0
  GoodMetric config e none = ⊥
  GoodMetric config e (some metric) =
      (parts : List ℕ × List ℕ) × (split_once (codes metric) ≡ some parts)
      × NamesCriterion config e parts.0 parts.1

  abbrev pub GoodPrimary : ExperimentConfig f.F32 → Option String → Type 0
  GoodPrimary e none = ⊥
  GoodPrimary e (some primary) =
      Memᴰ primary (map (λ v. Variant.agent v) e.variants) × UnitIfSet e.sampling_rate

  abbrev pub GoodStrategy : Config f.F32 → ExperimentConfig f.F32 → Strategy → Type 0
  GoodStrategy config e bandit = NoShadowFields e × GoodMetric config e e.metric
  GoodStrategy config e shadow = NoBanditFields e × GoodPrimary e e.primary
  GoodStrategy config e split = NoShadowFields e × NoBanditFields e

  abbrev pub GoodVariants : Config f.F32 → List (Variant f.F32) → Type 0
  GoodVariants config variants =
      All (λ v. Memᴰ (Variant.agent v) (agent_names config)) variants
      × Distinct (map (λ v. Variant.agent v) variants)
      × All GoodWeight variants

  abbrev pub GoodExperiment : Config f.F32 → ExperimentConfig f.F32 → Type 0
  GoodExperiment config e =
      (e.variants ≢ []) × (GoodVariants config e.variants × GoodStrategy config e e.strategy)
