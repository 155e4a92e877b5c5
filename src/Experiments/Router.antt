-- ===== src/Experiments/Router.antt =====
-- `ExperimentRouter` of crates/experiments/src/router.rs: the experiments by name, and the counter
-- of picks, which each pick advances.
use coulisse.Prelude.{
  ℕ, ◌+◌, ◌%◌, ◌^◌, String, Bool, true, false, Option, none, some, List, [], if◌then◌else◌,
}
use coulisse.Merge.{get_by_name}
use coulisse.Experiments.Strategy.{shadow}
use coulisse.Experiments.{Variant, ExperimentConfig, AgentScoreSummary}
use coulisse.Experiments.Seeds.{PickSeed, per_request}
use coulisse.Experiments.Routing.{Floats, ScoreQuery, unwrap_or, pick_variant, bandit_query}

pub record Resolved : Type 0 where
  pub agent : String
  pub experiment : Option String

-- The map is the list that it is collected from: of two experiments of a name the later one counts.
pub record ExperimentRouter (F32 : Type 0) : Type 0 where
  pub by_name : List (ExperimentConfig F32)
  pub draws : ℕ

module _ {F32 : Type 0} where
  abbrev pub new : List (ExperimentConfig F32) → ExperimentRouter F32
  new experiments = record { by_name = experiments; draws = 0 }

  unfoldable pub get : ExperimentRouter F32 → String → Option (ExperimentConfig F32)
  get router name = get_by_name (λ exp. exp.name) name router.by_name

  -- The counter is an `AtomicU64`, whose addition wraps.
  unfoldable pub next_seed : ExperimentRouter F32 → List ℕ → PickSeed × ExperimentRouter F32
  next_seed router user_id = (
    record { draw = router.draws; user_id = user_id },
    record { by_name = router.by_name; draws = (router.draws + 1) % 2 ^ 64 },
  )

  unfoldable pub query_of : ExperimentRouter F32 → String → ℕ → Option ScoreQuery
  query_of router name now_secs = elim (get router name) [
    | none ↦ none
    | some exp ↦ bandit_query exp now_secs
  ]

abbrev pub agent_or : {F32 : Type 0} → String → Option (Variant F32) → String
agent_or name none = name
agent_or name (some v) = v.agent

module _ (f : Floats) where
  unfoldable pub resolve_with_scores :
      ExperimentRouter f.F32
      → String
      → List ℕ
      → List (AgentScoreSummary f.F32)
      → Resolved × ExperimentRouter f.F32
  resolve_with_scores router name user_id scores = elim (get router name) [
    | none ↦ (record { agent = name; experiment = none }, router)
    | some exp ↦
        let (seed, after) = next_seed router user_id in
        (
          record {
            agent = agent_or name (pick_variant f exp scores seed);
            experiment = some exp.name;
          },
          after,
        )
  ]

  abbrev pub resolve : ExperimentRouter f.F32 → String → List ℕ → Resolved × ExperimentRouter f.F32
  resolve router name user_id = resolve_with_scores router name user_id []

  -- A rate of one or more always samples, one of zero or less never; only a rate between draws.
  unfoldable pub shadow_should_sample :
      ExperimentRouter f.F32 → ExperimentConfig f.F32 → List ℕ → Bool × ExperimentRouter f.F32
  shadow_should_sample router exp user_id = elim exp.strategy [
    | shadow ↦
        let rate = unwrap_or f.one exp.sampling_rate in
        if f.at_least rate f.one
        then (true, router)
        else if f.at_least f.zero rate
        then (false, router)
        else let (seed, after) = next_seed router user_id in
          (f.less (f.unit (per_request seed exp.name)) rate, after)
    | _ ↦ (false, router)
  ]
