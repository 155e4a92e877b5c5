-- ===== src/Config/Experiments.antt =====
-- Which experiments cli/src/config.rs accepts.
use mathlib.Core.List.{Memᴰ}
use mathlib.Core.Option.{some-injective}
use coulisse.Prelude.{
  ℕ, String, codes, true, false, ◌≡◌, ◌↔◌, refl, sym, subst, ◌++◌, ◌∙◌, Option, none, some, List,
  [], map, find, ok, All, Distinct, member_iff, not_member_iff, ◌≢◌, any_iff, is_nil_iff, ◌==◌,
  string_eq, text_eq, arith,
}
use coulisse.Validation.{each, each_distinct}
use coulisse.Validation.Laws.{each_iff, seq_iff, require_as, refuse_as, each_as, each_distinct_as}
use coulisse.Auth.Config.{is_some}
use coulisse.Agents.{AgentConfig}
use coulisse.Judges.{JudgeConfig}
use coulisse.Experiments.{Strategy, Variant, ExperimentConfig}
use coulisse.Experiments.Strategy.{bandit, shadow, split}
use coulisse.Experiments.Routing.{Floats, split_once}
use coulisse.Triggers.{CronCrate}
use coulisse.Config.{Config, ConfigError}
use coulisse.Config.ConfigError.{
  experiment_invalid_epsilon, experiment_invalid_sampling_rate, experiment_name_collision,
}
use coulisse.Config.Strategies.{
  StrategyField, shadow_only, bandit_only, is_set, reject_on, in_unit, check_unit, opts_in,
  check_opt_in, check_judge, check_metric, check_metric_set, validate_bandit_fields, check_primary,
  validate_shadow_fields, validate_split_fields, by_strategy, validate_experiment_strategy_fields,
  check_weight, check_variants, check_experiment, no_collision,
}
use coulisse.Config.Consistent.{
  agent_names, HasJudge, NamesCriterion, InUnit, UnitIfSet, GoodWeight, NoShadowFields,
  NoBanditFields, GoodMetric, GoodPrimary, GoodStrategy, GoodVariants, GoodExperiment,
}

-- What a lookup found is what its value satisfies.
pub found_iff :
    {A M : Type 0} (Q : A → Type 0) (a : A) → M ↔ Q a → M ↔ ((b : A) × (some a ≡ some b) × Q b)
found_iff Q a p = ((λ h. (a, refl, p.0 h)), λ h. p.1 (subst Q (sym (some-injective _ _ h.1)) h.2))

pub unset_iff : {A : Type 0} (o : Option A) → (is_some o ≡ false) ↔ (o ≡ none)
unset_iff none = ((λ h. refl), λ h. refl)
unset_iff (some a) = ((λ h. absurd (ground arith)), λ h. absurd (ground arith))

module _ (f : Floats) (crate : CronCrate) where
  pub in_unit_iff : (rate : f.F32) → (in_unit f crate rate ≡ true) ↔ InUnit f rate
  in_unit_iff rate = ground arith

  check_unit_iff :
      (wrong : f.F32 → ConfigError f.F32 crate.CronError) (o : Option f.F32)
      → (check_unit f crate wrong o ≡ ok tt) ↔ UnitIfSet f o
  check_unit_iff wrong none = ((λ h. tt), λ h. refl)
  check_unit_iff wrong (some rate) =
      require_as (in_unit f crate rate) (wrong rate) (in_unit_iff rate)

  reject_on_iff :
      {A : Type 0} (e : ExperimentConfig f.F32) (field : StrategyField) (o : Option A)
      → is_set field e ≡ is_some o
      → (reject_on f crate e field ≡ ok tt) ↔ (o ≡ none)
  reject_on_iff e field o same =
      refuse_as (is_set field e) _
        ((λ h. (unset_iff o).0 (sym same ∙ h)), λ h. same ∙ (unset_iff o).1 h)

  shadow_fields_iff :
      (e : ExperimentConfig f.F32)
      → (each (reject_on f crate e) shadow_only ≡ ok tt) ↔ NoShadowFields f e
  shadow_fields_iff e =
      let all = each_iff (reject_on f crate e) shadow_only in
      let p = reject_on_iff e (record { name = "primary"; valid_for = "shadow" }) e.primary refl in
      let r =
        reject_on_iff e (record { name = "sampling_rate"; valid_for = "shadow" }) e.sampling_rate
          refl in
      ((λ h. let q = all.0 h in (p.0 q.0, r.0 q.1.0)), λ h. all.1 (p.1 h.0, (r.1 h.1, tt)))

  bandit_fields_iff :
      (e : ExperimentConfig f.F32)
      → (each (reject_on f crate e) bandit_only ≡ ok tt) ↔ NoBanditFields f e
  bandit_fields_iff e =
      let all = each_iff (reject_on f crate e) bandit_only in
      let m = reject_on_iff e (record { name = "metric"; valid_for = "bandit" }) e.metric refl in
      let p = reject_on_iff e (record { name = "epsilon"; valid_for = "bandit" }) e.epsilon refl in
      let s =
        reject_on_iff e (record { name = "min_samples"; valid_for = "bandit" }) e.min_samples
          refl in
      let w =
        reject_on_iff e (record { name = "bandit_window_seconds"; valid_for = "bandit" })
          e.bandit_window_seconds refl in
      (
        (λ h. let q = all.0 h in (m.0 q.0, p.0 q.1.0, s.0 q.1.1.0, w.0 q.1.1.1.0)),
        λ h. all.1 (m.1 h.0, (p.1 h.1, (s.1 h.2, (w.1 h.3, tt)))),
      )

  validate_split_fields_iff :
      (e : ExperimentConfig f.F32)
      → (validate_split_fields f crate e ≡ ok tt) ↔ (NoShadowFields f e × NoBanditFields f e)
  unfolding validate_split_fields
  validate_split_fields_iff e =
      let all = each_iff (reject_on f crate e) (shadow_only ++ bandit_only) in
      let s = each_iff (reject_on f crate e) shadow_only in
      let b = each_iff (reject_on f crate e) bandit_only in
      let p = shadow_fields_iff e in
      let q = bandit_fields_iff e in
      (
        (λ h. let a = all.0 h in (p.0 (s.1 (a.0, (a.1.0, tt))), q.0 (b.1 a.1.1))),
        λ h. let a = s.0 (p.1 h.0) in all.1 (a.0, (a.1.0, b.0 (q.1 h.1))),
      )

  check_primary_iff :
      (e : ExperimentConfig f.F32) (o : Option String)
      → (check_primary f crate e o ≡ ok tt) ↔ GoodPrimary f e o
  check_primary_iff e none = ((λ h. absurd (ground arith)), λ h. absurd h)
  check_primary_iff e (some primary) =
      seq_iff (require_as _ _ (any_iff (λ v. v.agent) primary e.variants))
        (check_unit_iff (experiment_invalid_sampling_rate e.name) e.sampling_rate)

  check_opt_in_iff :
      (e : ExperimentConfig f.F32) (metric : String) (judge_name : List ℕ) (v : Variant f.F32)
      (o : Option AgentConfig)
      → (check_opt_in f crate e metric judge_name v o ≡ ok tt)
        ↔ ((a : AgentConfig) × (o ≡ some a) × Memᴰ judge_name (map codes a.judges))
  check_opt_in_iff e metric judge_name v none =
      ((λ h. absurd (ground arith)), λ h. absurd (let n = h.1 in ground arith))
  check_opt_in_iff e metric judge_name v (some a) =
      found_iff (λ b. Memᴰ judge_name (map codes b.judges)) a
        (require_as (opts_in f crate a judge_name) _ (any_iff codes judge_name a.judges))

  check_judge_iff :
      (config : Config f.F32) (e : ExperimentConfig f.F32) (metric : String)
      (judge_name criterion : List ℕ) (o : Option (JudgeConfig f.F32))
      → (check_judge f crate config e metric judge_name criterion o ≡ ok tt) ↔ (
          (judge : JudgeConfig f.F32) × (o ≡ some judge)
          × (Memᴰ criterion (map (λ r. codes r.0) judge.rubrics)
              × (All (λ v. HasJudge f config judge_name (Variant.agent v)) e.variants
                  × UnitIfSet f e.epsilon)))
  check_judge_iff config e metric judge_name criterion none =
      ((λ h. absurd (ground arith)), λ h. absurd (let n = h.1 in ground arith))
  check_judge_iff config e metric judge_name criterion (some judge) =
      found_iff
        (λ j.
          Memᴰ criterion (map (λ r. codes r.0) j.rubrics)
          × (All (λ v. HasJudge f config judge_name (Variant.agent v)) e.variants
              × UnitIfSet f e.epsilon))
        judge
        (seq_iff (require_as _ _ (any_iff (λ r. codes r.0) criterion judge.rubrics)) (
          seq_iff
            (each_as _ e.variants (λ v.
              check_opt_in_iff e metric judge_name v (find (λ a. a.name == v.agent) config.agents)))
            (check_unit_iff (experiment_invalid_epsilon e.name) e.epsilon)))

  check_metric_iff :
      (config : Config f.F32) (e : ExperimentConfig f.F32) (metric : String)
      (o : Option (List ℕ × List ℕ))
      → (check_metric f crate config e metric o ≡ ok tt)
        ↔ ((parts : List ℕ × List ℕ) × (o ≡ some parts) × NamesCriterion f config e parts.0 parts.1)
  check_metric_iff config e metric none =
      ((λ h. absurd (ground arith)), λ h. absurd (let n = h.1 in ground arith))
  check_metric_iff config e metric (some (judge_name, criterion)) =
      found_iff {A = List ℕ × List ℕ} (λ parts. NamesCriterion f config e parts.0 parts.1)
        (judge_name, criterion)
        (check_judge_iff config e metric judge_name criterion
          (find (λ j. codes j.name == judge_name) config.judges))

  check_metric_set_iff :
      (config : Config f.F32) (e : ExperimentConfig f.F32) (o : Option String)
      → (check_metric_set f crate config e o ≡ ok tt) ↔ GoodMetric f config e o
  check_metric_set_iff config e none = ((λ h. absurd (ground arith)), λ h. absurd h)
  check_metric_set_iff config e (some metric) =
      check_metric_iff config e metric (split_once (codes metric))

  by_strategy_iff :
      (config : Config f.F32) (e : ExperimentConfig f.F32) (s : Strategy)
      → (by_strategy f crate config e s ≡ ok tt) ↔ GoodStrategy f config e s
  unfolding validate_bandit_fields validate_shadow_fields
  by_strategy_iff config e bandit =
      seq_iff (shadow_fields_iff e) (check_metric_set_iff config e e.metric)
  by_strategy_iff config e shadow = seq_iff (bandit_fields_iff e) (check_primary_iff e e.primary)
  by_strategy_iff config e split = validate_split_fields_iff e

  check_weight_iff :
      (e : ExperimentConfig f.F32) (v : Variant f.F32)
      → (check_weight f crate e v ≡ ok tt) ↔ GoodWeight f v
  check_weight_iff e v = refuse_as _ _ (ground arith)

  check_variants_iff :
      (config : Config f.F32) (e : ExperimentConfig f.F32)
      → (check_variants f crate (agent_names config) e ≡ ok tt) ↔ GoodVariants f config e.variants
  unfolding check_variants
  check_variants_iff config e =
      each_distinct_as (λ v. v.agent) _ _ _ e.variants
        (λ v. require_as _ _ (member_iff v.agent (agent_names config))) (check_weight_iff e)

  -- An experiment passes exactly when it has variants, which are distinct declared agents of
  -- positive finite weights, and the fields that its strategy wants and no others.
  check_experiment_iff :
      (config : Config f.F32) (e : ExperimentConfig f.F32)
      → (check_experiment f crate config (agent_names config) e ≡ ok tt) ↔ GoodExperiment f config e
  unfolding validate_experiment_strategy_fields
  check_experiment_iff config e =
      seq_iff (refuse_as _ _ (is_nil_iff e.variants))
        (seq_iff (check_variants_iff config e) (by_strategy_iff config e e.strategy))

  pub experiments_loop_iff :
      (config : Config f.F32)
      → (each_distinct
            (λ e. e.name)
            (λ e. experiment_name_collision e.name)
            (no_collision f crate (agent_names config))
            (check_experiment f crate config (agent_names config))
            []
            config.experiments
          ≡ ok tt)
        ↔ (All (λ e. All (λ n. n ≢ ExperimentConfig.name e) (agent_names config)) config.experiments
            × Distinct (map (λ e. ExperimentConfig.name e) config.experiments)
            × All (GoodExperiment f config) config.experiments)
  experiments_loop_iff config =
      each_distinct_as (λ e. e.name) _ _ _ config.experiments
        (λ e. refuse_as _ _ (not_member_iff e.name (agent_names config)))
        (check_experiment_iff config)
