-- ===== src/Config/Strategies.antt =====
-- cli/src/config.rs: the checks of an experiment's variants, and of the fields that its strategy
-- owns.
use coulisse.Prelude.{
  ℕ, String, codes, Bool, false, not, ◌&&◌, ◌||◌, Option, none, some, List, [], ◌∷◌, ◌++◌, map, any,
  find, if◌then◌else◌, Result, ok, err, ◌>>◌, member, is_nil, ◌==◌, string_eq, text_eq,
}
use coulisse.Validation.{reject_if, each, each_distinct}
use coulisse.Auth.Config.{is_some}
use coulisse.Agents.{AgentConfig}
use coulisse.Judges.{JudgeConfig}
use coulisse.Experiments.{Strategy, Variant, ExperimentConfig}
use coulisse.Experiments.Strategy.{bandit, shadow, split}
use coulisse.Experiments.Routing.{Floats, split_once}
use coulisse.Triggers.{CronCrate}
use coulisse.Config.{Config, ConfigError}
use coulisse.Config.ConfigError.{
  bandit_without_metric, experiment_agent_name_collision, experiment_duplicate_variant,
  experiment_field_strategy_mismatch, experiment_invalid_epsilon, experiment_invalid_sampling_rate,
  experiment_invalid_weight, experiment_metric_malformed, experiment_metric_unknown_criterion,
  experiment_metric_unknown_judge, experiment_metric_variant_missing_judge,
  experiment_name_collision, experiment_primary_not_variant, experiment_unknown_variant,
  experiment_without_variants, shadow_without_primary,
}

pub record StrategyField : Type 0 where
  pub name : String
  pub valid_for : String

abbrev pub shadow_only : List StrategyField
shadow_only =
    record { name = "primary"; valid_for = "shadow" }
    ∷ record { name = "sampling_rate"; valid_for = "shadow" }
    ∷ []

abbrev pub bandit_only : List StrategyField
bandit_only =
    record { name = "metric"; valid_for = "bandit" }
    ∷ record { name = "epsilon"; valid_for = "bandit" }
    ∷ record { name = "min_samples"; valid_for = "bandit" }
    ∷ record { name = "bandit_window_seconds"; valid_for = "bandit" }
    ∷ []

abbrev pub strategy_word : Strategy → String
strategy_word bandit = "bandit"
strategy_word shadow = "shadow"
strategy_word split = "split"

abbrev pub is_set : {F32 : Type 0} → StrategyField → ExperimentConfig F32 → Bool
is_set field experiment =
    if field.name == "bandit_window_seconds"
    then is_some experiment.bandit_window_seconds
    else if field.name == "epsilon"
    then is_some experiment.epsilon
    else if field.name == "metric"
    then is_some experiment.metric
    else if field.name == "min_samples"
    then is_some experiment.min_samples
    else if field.name == "primary"
    then is_some experiment.primary
    else if field.name == "sampling_rate"
    then is_some experiment.sampling_rate
    else false

module _ (f : Floats) (crate : CronCrate) where
  abbrev pub Checked : Type 0
  Checked = Result (ConfigError f.F32 crate.CronError) (Unit {0})

  abbrev pub reject_on : ExperimentConfig f.F32 → StrategyField → Checked
  reject_on experiment field = reject_if (is_set field experiment) (
      experiment_field_strategy_mismatch experiment.name field.name
        (strategy_word experiment.strategy) field.valid_for)

  -- `(0.0..=1.0).contains(&rate)`.
  abbrev pub in_unit : f.F32 → Bool
  in_unit rate = f.at_least rate f.zero && f.at_least f.one rate

  abbrev pub check_unit : (f.F32 → ConfigError f.F32 crate.CronError) → Option f.F32 → Checked
  check_unit wrong none = ok tt
  check_unit wrong (some rate) = reject_if (not (in_unit rate)) (wrong rate)

  abbrev pub opts_in : AgentConfig → List ℕ → Bool
  opts_in agent judge_name = any (λ j. codes j == judge_name) agent.judges

  -- One turn of the loop over the variants of a bandit experiment.
  abbrev pub check_opt_in :
      ExperimentConfig f.F32 → String → List ℕ → Variant f.F32 → Option AgentConfig → Checked
  check_opt_in experiment metric judge_name variant none =
      err (experiment_unknown_variant variant.agent experiment.name)
  check_opt_in experiment metric judge_name variant (some agent) =
      reject_if (not (opts_in agent judge_name))
        (experiment_metric_variant_missing_judge variant.agent experiment.name judge_name metric)

  abbrev pub check_judge :
      Config f.F32
      → ExperimentConfig f.F32
      → String
      → List ℕ
      → List ℕ
      → Option (JudgeConfig f.F32)
      → Checked
  check_judge config experiment metric judge_name criterion none =
      err (experiment_metric_unknown_judge experiment.name judge_name)
  check_judge config experiment metric judge_name criterion (some judge) = do
    reject_if (not (any (λ r. codes r.0 == criterion) judge.rubrics))
        (experiment_metric_unknown_criterion criterion experiment.name judge_name)
    each
        (λ v.
          check_opt_in experiment metric judge_name v (find (λ a. a.name == v.agent) config.agents))
        experiment.variants
    check_unit (experiment_invalid_epsilon experiment.name) experiment.epsilon

  abbrev pub check_metric :
      Config f.F32 → ExperimentConfig f.F32 → String → Option (List ℕ × List ℕ) → Checked
  check_metric config experiment metric none =
      err (experiment_metric_malformed experiment.name metric)
  check_metric config experiment metric (some (judge_name, criterion)) =
      check_judge config experiment metric judge_name criterion
        (find (λ j. codes j.name == judge_name) config.judges)

  abbrev pub check_metric_set : Config f.F32 → ExperimentConfig f.F32 → Option String → Checked
  check_metric_set config experiment none = err (bandit_without_metric experiment.name)
  check_metric_set config experiment (some metric) =
      check_metric config experiment metric (split_once (codes metric))

  unfoldable pub validate_bandit_fields : Config f.F32 → ExperimentConfig f.F32 → Checked
  validate_bandit_fields config experiment =
      each (reject_on experiment) shadow_only
      >> check_metric_set config experiment experiment.metric

  abbrev pub check_primary : ExperimentConfig f.F32 → Option String → Checked
  check_primary experiment none = err (shadow_without_primary experiment.name)
  check_primary experiment (some primary) = do
    reject_if (not (any (λ v. v.agent == primary) experiment.variants))
        (experiment_primary_not_variant experiment.name primary)
    check_unit (experiment_invalid_sampling_rate experiment.name) experiment.sampling_rate

  unfoldable pub validate_shadow_fields : ExperimentConfig f.F32 → Checked
  validate_shadow_fields experiment =
      each (reject_on experiment) bandit_only >> check_primary experiment experiment.primary

  unfoldable pub validate_split_fields : ExperimentConfig f.F32 → Checked
  validate_split_fields experiment = each (reject_on experiment) (shadow_only ++ bandit_only)

  abbrev pub by_strategy : Config f.F32 → ExperimentConfig f.F32 → Strategy → Checked
  by_strategy config experiment bandit = validate_bandit_fields config experiment
  by_strategy config experiment shadow = validate_shadow_fields experiment
  by_strategy config experiment split = validate_split_fields experiment

  unfoldable pub validate_experiment_strategy_fields :
      Config f.F32 → ExperimentConfig f.F32 → Checked
  validate_experiment_strategy_fields config experiment =
      by_strategy config experiment experiment.strategy

  abbrev pub known_variant : List String → ExperimentConfig f.F32 → Variant f.F32 → Checked
  known_variant agent_names experiment variant =
      reject_if (not (member variant.agent agent_names))
        (experiment_unknown_variant variant.agent experiment.name)

  abbrev pub check_weight : ExperimentConfig f.F32 → Variant f.F32 → Checked
  check_weight experiment variant =
      reject_if (f.at_least f.zero variant.weight || not (f.is_finite variant.weight))
        (experiment_invalid_weight variant.agent experiment.name variant.weight)

  -- The loop over an experiment's variants.
  unfoldable pub check_variants : List String → ExperimentConfig f.F32 → Checked
  check_variants agent_names experiment =
      each_distinct (λ v. v.agent) (λ v. experiment_duplicate_variant v.agent experiment.name)
        (known_variant agent_names experiment) (check_weight experiment) [] experiment.variants

  abbrev pub check_experiment : Config f.F32 → List String → ExperimentConfig f.F32 → Checked
  check_experiment config agent_names experiment = do
    reject_if (is_nil experiment.variants) (experiment_without_variants experiment.name)
    check_variants agent_names experiment
    validate_experiment_strategy_fields config experiment

  abbrev pub no_collision : List String → ExperimentConfig f.F32 → Checked
  no_collision agent_names experiment =
      reject_if (member experiment.name agent_names)
        (experiment_agent_name_collision experiment.name)

  unfoldable pub validate_experiments :
      Config f.F32 → List String → Result (ConfigError f.F32 crate.CronError) (List String)
  validate_experiments config agent_names =
      each_distinct (λ e. e.name) (λ e. experiment_name_collision e.name) (no_collision agent_names)
        (check_experiment config agent_names) [] config.experiments
      >> ok (map (λ e. e.name) config.experiments)
