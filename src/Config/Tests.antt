-- ===== src/Config/Tests.antt =====
-- A small configuration, and the theorems on configurations at it.
use mathlib.Core.List.{Memᴰ}
use coulisse.Prelude.{
  ℕ, ◌+◌, String, codes, ◌≡◌, ◌≢◌, ◌↔◌, inr, refl, true, Option, none, some, List, [], ◌∷◌, ok, ltb,
  leb, All, split_at, split_on, is_blank, trim, contains_text,
}
use coulisse.Agents.{AgentConfig}
use coulisse.Auth.Config.{AuthConfig, validate_auth}
use coulisse.Validation.{each, each_distinct}
use coulisse.Experiments.{Variant, ExperimentConfig}
use coulisse.Experiments.Strategy.{shadow}
use coulisse.Experiments.Routing.{Floats, shadow_pick, shadow_variants}
use coulisse.Experiments.Router.{new, resolve_with_scores}
use coulisse.Mcp.Config.{McpServerConfig}
use coulisse.Mcp.Config.McpOAuthConfig.{discover}
use coulisse.Mcp.Config.McpTransport.{http}
use coulisse.Providers.{as_str}
use coulisse.Providers.ProviderKind.{openai}
use coulisse.Triggers.{CronCrate, validate_all, parse_schedule}
use coulisse.Triggers.TriggerKind.{cron, webhook}
use coulisse.Config.{Config}
use coulisse.Config.Validate.{
  validate, validate_mcp_oauth, validate_judges, validate_agents, validate_smoke_tests,
  validate_subagents, validate_triggers, check_triggers, validate_sidecars,
}
use coulisse.Config.Strategies.{
  validate_experiments, check_variants, validate_experiment_strategy_fields, validate_shadow_fields,
}
use coulisse.Config.Consistent.{agent_names}
use coulisse.Config.Accepted.{IsConsistent, validate_iff}
use coulisse.Config.Resolution.{ResolvesTo, resolve-ResolvesTo, accepted-shadow}
use coulisse.Config.Expansion.{
  expand_env_vars_with, expand_config_vars, expand_loop, leading_indent_of_last_line,
}
use coulisse.Config.Loading.{YamlCrate, from_str}

abbrev units : Floats
units = record {
  F32 = ℕ;
  add = λ a b. a + b;
  at_least = λ a b. leb b a;
  default_epsilon = 1;
  is_finite = λ n. true;
  less = ltb;
  lowest = 0;
  mul = λ a b. a + b;
  one = 16;
  sum_start = 0;
  unit = λ seed. 0;
  zero = 0;
}

-- A crate that parses no schedule but an empty one.
abbrev crate : CronCrate
crate = record { CronError = Unit {0}; Schedule = Unit {0}; from_str = λ expr. ok tt }

abbrev agent : String → List String → AgentConfig
agent name subagents = record {
  judges = [];
  max_turns = none;
  mcp_tools = record { only = none; server = "todo" } ∷ [];
  model = "gpt";
  name = name;
  preamble = "";
  provider = openai;
  purpose = none;
  skills = [];
  subagents = subagents;
}

abbrev trial : ExperimentConfig ℕ
trial = record {
  bandit_window_seconds = none;
  epsilon = none;
  metric = none;
  min_samples = none;
  name = "trial";
  primary = some "b";
  purpose = none;
  sampling_rate = some 8;
  sticky_by_user = true;
  strategy = shadow;
  variants = record { agent = "a"; weight = 1 } ∷ record { agent = "b"; weight = 2 } ∷ [];
}

abbrev todo : McpServerConfig
todo = record { oauth = some (discover []); transport = http "https://todo.example" }

abbrev no_auth : AuthConfig
no_auth = record { admin = none; mcp_admin = none; mcp_consumer_secret = none; proxy = none }

abbrev sample : Config ℕ
sample = record {
  agents = agent "a" ("trial" ∷ []) ∷ agent "b" [] ∷ [];
  auth = no_auth;
  default_user_id = some "main";
  experiments = trial ∷ [];
  judges = [];
  mcp = ("todo", todo) ∷ [];
  port = 8421;
  providers = (openai, record { api_key = "key" }) ∷ [];
  public_base_url = none;
  sidecars = [];
  smoke_tests = [];
  triggers =
      record { agent = "trial"; kind = cron "0 9 * * *"; name = "daily"; prompt = "go" }
      ∷ record { agent = "{{who}}"; kind = webhook "/hooks/x"; name = "hook"; prompt = "go" }
      ∷ [];
  vars = [];
}

sample_accepted : validate units crate sample ≡ ok tt
unfolding validate validate_auth validate_mcp_oauth validate_judges validate_agents
    validate_experiments check_variants validate_experiment_strategy_fields validate_shadow_fields
    validate_smoke_tests validate_subagents validate_triggers check_triggers validate_sidecars each
    each_distinct is_blank trim contains_text validate_all parse_schedule as_str
sample_accepted = refl

validate_iff_example : (validate units crate sample ≡ ok tt) ↔ IsConsistent units crate sample
validate_iff_example = validate_iff units crate sample

resolve-ResolvesTo_example :
    ResolvesTo units crate sample "trial"
      (resolve_with_scores units (new (Config.experiments sample)) "trial" (1 ∷ []) []).0
resolve-ResolvesTo_example =
    resolve-ResolvesTo units crate sample "trial" (1 ∷ []) [] sample_accepted (inr (Memᴰ.head refl))

accepted-shadow_example :
    (v : Variant ℕ) × (shadow_pick trial ≡ some v)
    × (ExperimentConfig.primary trial ≡ some v.agent)
    × Memᴰ v.agent (agent_names sample)
    × All (λ w. Variant.agent w ≢ v.agent) (shadow_variants trial)
accepted-shadow_example =
    accepted-shadow units crate sample trial sample_accepted (Memᴰ.head refl) refl

abbrev yaml : YamlCrate ℕ
yaml = record {
  YamlError = Unit {0};
  vars_of = λ text. ok (("who", "Ann") ∷ []);
  config_of = λ text. ok sample;
}

abbrev no_env : List ℕ → Option (List ℕ)
no_env name = none

source_loads :
    from_str units crate yaml no_env (codes "hello ${vars.who}") "coulisse.yaml" ≡ ok sample
unfolding from_str expand_env_vars_with expand_config_vars expand_loop split_at split_on
    leading_indent_of_last_line validate validate_auth validate_mcp_oauth validate_judges
    validate_agents validate_experiments check_variants validate_experiment_strategy_fields
    validate_shadow_fields validate_smoke_tests validate_subagents validate_triggers check_triggers
    validate_sidecars each each_distinct is_blank trim contains_text validate_all parse_schedule
    as_str
source_loads = refl
