-- ===== src/Experiments/Routing.antt =====
-- crates/experiments/src/router.rs: `ExperimentRouter`, and the picks of an `ExperimentConfig`.
use coulisse.Prelude.{
  ℕ, zero, suc, ◌-◌, ◌*◌, ◌%◌, String, codes, Bool, true, false, not, Option, none, some, List, [],
  ◌∷◌, if◌then◌else◌, ltb, eqb, ◌==◌, string_eq, nat_eq, length, find, keep,
}
use coulisse.Experiments.Strategy.{bandit, shadow, split}
use coulisse.Experiments.{Variant, ExperimentConfig, AgentScoreSummary}
use coulisse.Experiments.Seeds.{PickSeed, sticky, per_request}

-- The operations of `f32` that a pick uses. `unit` is `seed_to_unit_f32`, a quotient of two `f64`s;
-- `at_least` (`>=`) and `less` are false on a NaN; `sum_start` is where `Iterator::sum` starts.
pub record Floats : Type 1 where
  pub F32 : Type 0
  pub add : F32 → F32 → F32
  pub at_least : F32 → F32 → Bool
  pub default_epsilon : F32
  pub is_finite : F32 → Bool
  pub less : F32 → F32 → Bool
  pub lowest : F32
  pub mul : F32 → F32 → F32
  pub one : F32
  pub sum_start : F32
  pub unit : ℕ → F32
  pub zero : F32

abbrev pub get_elem? : {A : Type 0} → List A → ℕ → Option A
get_elem? [] n = none
get_elem? (x ∷ xs) zero = some x
get_elem? (x ∷ xs) (suc n) = get_elem? xs n

abbrev pub first : {A : Type 0} → List A → Option A
first [] = none
first (x ∷ xs) = some x

abbrev pub last : {A : Type 0} → List A → Option A
last [] = none
last (x ∷ []) = some x
last (x ∷ y ∷ xs) = last (y ∷ xs)

-- `Option::unwrap_or`, `Option::or_else` and `Option<&str> == Option<&str>`.
abbrev pub unwrap_or : {A : Type 0} → A → Option A → A
unwrap_or a none = a
unwrap_or a (some b) = b

abbrev pub or_else : {A : Type 0} → Option A → Option A → Option A
or_else none o = o
or_else (some a) o = some a

abbrev pub is_named : Option String → String → Bool
is_named none agent = false
is_named (some name) agent = agent == name

-- `str::split_once('.')`, over code points.
unfoldable pub split_once : List ℕ → Option (List ℕ × List ℕ)
split_once [] = none
split_once (c ∷ cs) =
    if c == b'.'
    then some ([], cs)
    else elim (split_once cs) [ none ↦ none | some (before, after) ↦ some (c ∷ before, after) ]

pub record ScoreQuery : Type 0 where
  pub criterion : List ℕ
  pub judge : List ℕ
  pub since : ℕ

module _ {F32 : Type 0} where
  unfoldable pub uniform_pick : List (Variant F32) → ℕ → Option (Variant F32)
  uniform_pick arms seed = if eqb (length arms) 0 then none else get_elem? arms (seed % length arms)

  unfoldable pub shadow_pick : ExperimentConfig F32 → Option (Variant F32)
  shadow_pick exp =
      or_else (find (λ v. is_named exp.primary v.agent) exp.variants) (first exp.variants)

  unfoldable pub routing_seed : ExperimentConfig F32 → PickSeed → ℕ
  routing_seed exp seed =
      if exp.sticky_by_user then sticky seed exp.name else per_request seed exp.name

  abbrev pub score_of : List (AgentScoreSummary F32) → Variant F32 → Option (AgentScoreSummary F32)
  score_of scores v = find (λ s. s.agent_name == v.agent) scores

  -- The variants that a shadow experiment runs beside the one it serves.
  abbrev pub primary_of : ExperimentConfig F32 → Option String
  primary_of exp = elim exp.strategy [ shadow ↦ exp.primary | _ ↦ none ]

  unfoldable pub shadow_variants : ExperimentConfig F32 → List (Variant F32)
  shadow_variants exp = keep (λ v. not (is_named (primary_of exp) v.agent)) exp.variants

  abbrev pub undersampled : ℕ → Option (AgentScoreSummary F32) → Bool
  undersampled min_samples none = true
  undersampled min_samples (some s) = ltb s.samples min_samples

  unfoldable pub forced : ExperimentConfig F32 → List (AgentScoreSummary F32) → List (Variant F32)
  forced exp scores =
      keep (λ v. undersampled (unwrap_or 30 exp.min_samples) (score_of scores v)) exp.variants

  unfoldable pub bandit_query : ExperimentConfig F32 → ℕ → Option ScoreQuery
  bandit_query exp now_secs = elim exp.strategy [
    | bandit ↦ elim exp.metric [
      | none ↦ none
      | some metric ↦ elim (split_once (codes metric)) [
        | none ↦ none
        | some (judge, criterion) ↦ some (record {
          criterion = criterion;
          judge = judge;
          since = now_secs - unwrap_or (7 * 24 * 60 * 60) exp.bandit_window_seconds;
        })
      ]
    ]
    | _ ↦ none
  ]

module _ (f : Floats) where
  abbrev pub mean_of : List (AgentScoreSummary f.F32) → Variant f.F32 → f.F32
  mean_of scores v = elim (score_of scores v) [ none ↦ f.lowest | some s ↦ s.mean ]

  -- `Iterator::max_by`: of two equal elements the later one stays, and means that do not compare
  -- are equal.
  unfoldable pub max_by :
      (Variant f.F32 → f.F32) → Variant f.F32 → List (Variant f.F32) → Variant f.F32
  max_by mean best [] = best
  max_by mean best (v ∷ vs) = max_by mean (if f.less (mean v) (mean best) then best else v) vs

  unfoldable pub leader : (Variant f.F32 → f.F32) → List (Variant f.F32) → Option (Variant f.F32)
  leader mean [] = none
  leader mean (v ∷ vs) = some (max_by mean v vs)

  unfoldable pub bandit_pick :
      ExperimentConfig f.F32 → List (AgentScoreSummary f.F32) → PickSeed → Option (Variant f.F32)
  bandit_pick exp scores seed = elim (forced exp scores) [
    | [] ↦
        if f.less (f.unit (routing_seed exp seed)) (unwrap_or f.default_epsilon exp.epsilon)
        then uniform_pick exp.variants (sticky seed exp.name)
        else leader (mean_of scores) exp.variants
    | ◌∷◌ arm arms ↦ uniform_pick (arm ∷ arms) (sticky seed exp.name)
  ]

  abbrev pub sum_weights : f.F32 → List (Variant f.F32) → f.F32
  sum_weights acc [] = acc
  sum_weights acc (v ∷ vs) = sum_weights (f.add acc v.weight) vs

  -- The loop of `weighted_pick`: the first variant whose cumulated weight is above the target.
  unfoldable pub cumulated_pick : f.F32 → f.F32 → List (Variant f.F32) → Option (Variant f.F32)
  cumulated_pick target acc [] = none
  cumulated_pick target acc (v ∷ vs) =
      let rest = cumulated_pick target (f.add acc v.weight) vs in
      if f.less target (f.add acc v.weight) then some v else rest

  unfoldable pub weighted_pick : ExperimentConfig f.F32 → PickSeed → Option (Variant f.F32)
  weighted_pick exp seed =
      or_else
        (cumulated_pick
          (f.mul (f.unit (routing_seed exp seed)) (sum_weights f.sum_start exp.variants)) f.zero
          exp.variants)
        (last exp.variants)

  unfoldable pub pick_variant :
      ExperimentConfig f.F32 → List (AgentScoreSummary f.F32) → PickSeed → Option (Variant f.F32)
  pick_variant exp scores seed = elim exp.strategy [
    | bandit ↦ bandit_pick exp scores seed
    | shadow ↦ shadow_pick exp
    | split ↦ weighted_pick exp seed
  ]
