-- ===== src/Experiments/Tests.antt =====
-- The router's theorems at a small experiment, with numbers in the place of the `f32`s.
use mathlib.Core.List.{Memᴰ}
use coulisse.Prelude.{
  ℕ, ◌+◌, ◌*◌, ◌/◌, ◌^◌, String, codes, ◌≡◌, ◌≢◌, refl, true, false, none, some, List, [], ◌∷◌, ltb,
  leb, arith,
}
use coulisse.Merge.{get_by_name}
use coulisse.Experiments.Strategy.{bandit, shadow, split}
use coulisse.Experiments.{Strategy, Variant, ExperimentConfig, AgentScoreSummary}
use coulisse.Experiments.Seeds.{PickSeed, sticky, write}
use coulisse.Experiments.Routing.{
  Floats, forced, mean_of, bandit_pick, routing_seed, split_once, ScoreQuery, bandit_query, leader,
  max_by,
}
use coulisse.Experiments.Router.{ExperimentRouter, get, resolve_with_scores}
use coulisse.Experiments.Picks.{resolve_with_scores-PicksFrom, resolve_with_scores_sticky}
use coulisse.Experiments.Bandit.{IsLastLeader, bandit_pick-leader}

abbrev numbers : Floats
numbers = record {
  F32 = ℕ;
  add = λ a b. a + b;
  at_least = λ a b. leb b a;
  default_epsilon = 1;
  is_finite = λ n. true;
  less = ltb;
  lowest = 0;
  mul = λ a b. a * b;
  one = 16;
  sum_start = 0;
  unit = λ seed. seed / 2 ^ 60;
  zero = 0;
}

abbrev arm : String → Variant ℕ
arm agent = record { agent = agent; weight = 1 }

abbrev experiment : Strategy → ExperimentConfig ℕ
experiment strategy = record {
  bandit_window_seconds = some 60;
  epsilon = some 0;
  metric = some "quality.tone";
  min_samples = some 2;
  name = "trial";
  primary = some "b";
  purpose = none;
  sampling_rate = none;
  sticky_by_user = true;
  strategy = strategy;
  variants = arm "a" ∷ arm "b" ∷ arm "c" ∷ [];
}

abbrev score : String → ℕ → ℕ → AgentScoreSummary ℕ
score agent mean samples = record { agent_name = agent; mean = mean; samples = samples }

abbrev scores : List (AgentScoreSummary ℕ)
scores = score "a" 7 5 ∷ score "b" 9 5 ∷ score "c" 9 5 ∷ []

abbrev seed : PickSeed
seed = record { draw = 3; user_id = 1 ∷ 2 ∷ 3 ∷ [] }

abbrev router : Strategy → ExperimentRouter ℕ
router strategy = record { by_name = experiment strategy ∷ []; draws = 0 }

some_variants : (strategy : Strategy) → ExperimentConfig.variants (experiment strategy) ≢ []
some_variants strategy e = cc

all_sampled : forced (experiment bandit) scores ≡ []
unfolding forced
all_sampled = refl

no_scores : forced (experiment bandit) [] ≢ []
unfolding forced
no_scores e = cc

exploits : ltb (routing_seed (experiment bandit) seed / 2 ^ 60) 0 ≡ false
exploits = ground arith

known : (strategy : Strategy) → get (router strategy) "trial" ≡ some (experiment strategy)
unfolding get get_by_name
known strategy = refl

-- Of the two arms of mean 9 the leader is the later one.
tie_goes_to_the_last : bandit_pick numbers (experiment bandit) scores seed ≡ some (arm "c")
unfolding bandit_pick forced leader max_by routing_seed sticky write
tie_goes_to_the_last = refl

resolve_with_scores_sticky_example :
    (resolve_with_scores numbers (router split) "trial" (1 ∷ 2 ∷ []) []).0
    ≡ (resolve_with_scores numbers
        (record { by_name = experiment split ∷ []; draws = 41 })
        "trial"
        (1 ∷ 2 ∷ [])
        []).0
resolve_with_scores_sticky_example =
    resolve_with_scores_sticky numbers (router split) "trial" (1 ∷ 2 ∷ []) [] (experiment split) 41
      (known split) refl

resolve_with_scores-PicksFrom_example :
    (v : Variant ℕ) × Memᴰ v (arm "a" ∷ arm "b" ∷ arm "c" ∷ [])
    × ((resolve_with_scores numbers (router bandit) "trial" (1 ∷ 2 ∷ []) scores).0
        ≡ record { agent = v.agent; experiment = some "trial" })
resolve_with_scores-PicksFrom_example =
    resolve_with_scores-PicksFrom numbers (router bandit) "trial" (1 ∷ 2 ∷ []) scores
      (experiment bandit) (known bandit) (some_variants bandit)

bandit_pick-leader_example :
    (v : Variant ℕ) × (bandit_pick numbers (experiment bandit) scores seed ≡ some v)
    × IsLastLeader numbers (mean_of numbers scores) (arm "a" ∷ arm "b" ∷ arm "c" ∷ []) v
bandit_pick-leader_example =
    bandit_pick-leader numbers (experiment bandit) scores seed (λ a b h. ground arith)
      (λ a b c n h k. ground arith) (refl, (refl, (refl, tt))) (some_variants bandit) all_sampled
      exploits

split-ne-shadow : split ≢ shadow
split-ne-shadow e = cc

abbrev tone : ScoreQuery
tone = record { criterion = codes "tone"; judge = codes "quality"; since = 40 }

queries_tone : bandit_query (experiment bandit) 100 ≡ some tone
unfolding bandit_query split_once
queries_tone = refl
