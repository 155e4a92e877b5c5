-- ===== src/Experiments/Picks.antt =====
-- What every pick of crates/experiments/src/router.rs keeps to: the experiment's own variants, and
-- for a sticky experiment the user's.
use mathlib.Core.List.{Memᴰ}
use mathlib.Core.Option.{some-injective}
use coulisse.Prelude.{
  subst, ℕ, zero, suc, ◌%◌, ◌<◌, String, ◌≡◌, ◌≢◌, refl, sym, ap, true, false, Option, none, some,
  List, [], ◌∷◌, eqb, length, find, arith, Bool-cases, inl, inr, ◌⊎◌, find-some, mem-keep,
}
use coulisse.Experiments.Strategy.{bandit, shadow, split}
use coulisse.Experiments.{Strategy, Variant, ExperimentConfig, AgentScoreSummary}
use coulisse.Experiments.Seeds.{PickSeed, sticky}
use coulisse.Experiments.Routing.{
  unwrap_or, Floats, get_elem?, first, last, or_else, uniform_pick, shadow_pick, routing_seed,
  forced, mean_of, max_by, leader, bandit_pick, cumulated_pick, weighted_pick, pick_variant,
  is_named,
}
use coulisse.Experiments.Router.{ExperimentRouter, get, agent_or, resolve_with_scores, next_seed}

Strategy-cases : (s : Strategy) → (s ≡ bandit) ⊎ ((s ≡ shadow) ⊎ (s ≡ split))
Strategy-cases bandit = inl refl
Strategy-cases shadow = inr (inl refl)
Strategy-cases split = inr (inr refl)

-- A pick out of `xs`.
abbrev pub PicksFrom : {A : Type 0} → List A → Option A → Type 0
PicksFrom {A} xs o = (a : A) × (o ≡ some a) × Memᴰ a xs

get_elem?-PicksFrom :
    {A : Type 0} (xs : List A) (n : ℕ) → n < length xs → PicksFrom xs (get_elem? xs n)
get_elem?-PicksFrom [] n h = absurd (omega (arith, h))
get_elem?-PicksFrom (x ∷ xs) zero h = (x, refl, Memᴰ.head refl)
get_elem?-PicksFrom (x ∷ xs) (suc n) h =
    let r = get_elem?-PicksFrom xs n (omega (arith, h)) in (r.0, r.1, Memᴰ.tail r.2)

last-PicksFrom : {A : Type 0} (x : A) (xs : List A) → PicksFrom (x ∷ xs) (last (x ∷ xs))
last-PicksFrom x [] = (x, refl, Memᴰ.head refl)
last-PicksFrom x (y ∷ ys) = let r = last-PicksFrom y ys in (r.0, r.1, Memᴰ.tail r.2)

first-PicksFrom : {A : Type 0} (xs : List A) → xs ≢ [] → PicksFrom xs (first xs)
first-PicksFrom [] ne = absurd (ne refl)
first-PicksFrom (x ∷ xs) ne = (x, refl, Memᴰ.head refl)

last_of-PicksFrom : {A : Type 0} (xs : List A) → xs ≢ [] → PicksFrom xs (last xs)
last_of-PicksFrom [] ne = absurd (ne refl)
last_of-PicksFrom (x ∷ xs) ne = last-PicksFrom x xs

after_head : {A : Type 0} (x y : A) (xs : List A) {a : A} → Memᴰ a (x ∷ xs) → Memᴰ a (x ∷ y ∷ xs)
after_head x y xs (Memᴰ.head e) = Memᴰ.head e
after_head x y xs (Memᴰ.tail m) = Memᴰ.tail (Memᴰ.tail m)

pub List-cases :
    {A : Type 0} (xs : List A) → (xs ≡ []) ⊎ ((a : A) × (rest : List A) × (xs ≡ a ∷ rest))
List-cases [] = inl refl
List-cases (x ∷ xs) = inr (x, xs, refl)

or_else-PicksFrom :
    {A : Type 0} (xs : List A) (o other : Option A)
    → ((a : A) → o ≡ some a → Memᴰ a xs)
    → PicksFrom xs other
    → PicksFrom xs (or_else o other)
or_else-PicksFrom xs none other h k = k
or_else-PicksFrom xs (some a) other h k = (a, refl, h a refl)

module _ {F32 : Type 0} where
  pub uniform_pick-PicksFrom :
      (arms : List (Variant F32)) (seed : ℕ) → arms ≢ [] → PicksFrom arms (uniform_pick arms seed)
  unfolding uniform_pick
  uniform_pick-PicksFrom [] seed ne = absurd (ne refl)
  uniform_pick-PicksFrom (arm ∷ arms) seed ne =
      let some_arm : eqb (length (arm ∷ arms)) 0 ≡ false = ground arith in
      rw some_arm (get_elem?-PicksFrom (arm ∷ arms) (seed % length (arm ∷ arms)) (omega arith))

  shadow_pick-PicksFrom :
      (exp : ExperimentConfig F32) → exp.variants ≢ [] → PicksFrom exp.variants (shadow_pick exp)
  unfolding shadow_pick
  shadow_pick-PicksFrom exp ne =
      or_else-PicksFrom exp.variants (find (λ v. is_named exp.primary v.agent) exp.variants) _
        (λ a e. (find-some (λ v. is_named exp.primary v.agent) exp.variants {a = a} e).0)
        (first-PicksFrom exp.variants ne)

  forced-PicksFrom :
      (exp : ExperimentConfig F32) (scores : List (AgentScoreSummary F32)) (n : ℕ)
      (arm : Variant F32) (arms : List (Variant F32))
      → forced exp scores ≡ arm ∷ arms
      → PicksFrom exp.variants (uniform_pick (arm ∷ arms) n)
  unfolding forced
  forced-PicksFrom exp scores n arm arms e =
      let r = uniform_pick-PicksFrom (arm ∷ arms) n (λ h. cc) in
      (r.0, r.1, (mem-keep _ exp.variants {a = r.0} (subst (Memᴰ r.0) (sym e) r.2)).0)

module _ (f : Floats) where
  max_by-mem :
      (mean : Variant f.F32 → f.F32) (best : Variant f.F32) (vs : List (Variant f.F32))
      → Memᴰ (max_by f mean best vs) (best ∷ vs)
  unfolding max_by
  max_by-mem mean best [] = Memᴰ.head refl
  max_by-mem mean best (v ∷ vs) = elim (Bool-cases (f.less (mean v) (mean best))) [
    | inl e ↦ rw e (after_head best v vs (max_by-mem mean best vs))
    | inr e ↦ rw e (Memᴰ.tail (max_by-mem mean v vs))
  ]

  leader-PicksFrom :
      (mean : Variant f.F32 → f.F32) (vs : List (Variant f.F32))
      → vs ≢ []
      → PicksFrom vs (leader f mean vs)
  unfolding leader
  leader-PicksFrom mean [] ne = absurd (ne refl)
  leader-PicksFrom mean (v ∷ vs) ne = (max_by f mean v vs, refl, max_by-mem mean v vs)

  bandit_pick-PicksFrom :
      (exp : ExperimentConfig f.F32) (scores : List (AgentScoreSummary f.F32)) (seed : PickSeed)
      → exp.variants ≢ []
      → PicksFrom exp.variants (bandit_pick f exp scores seed)
  unfolding bandit_pick
  bandit_pick-PicksFrom exp scores seed ne = elim (List-cases (forced exp scores)) [
    | inl e ↦
        rw (e, bandit_pick)
          elim (Bool-cases
            (f.less (f.unit (routing_seed exp seed)) (unwrap_or f.default_epsilon exp.epsilon))) [
              | inl h ↦ rw h (uniform_pick-PicksFrom exp.variants (sticky seed exp.name) ne)
              | inr h ↦ rw h (leader-PicksFrom (mean_of f scores) exp.variants ne)
            ]
    | inr (arm, arms, e) ↦
        rw (e, bandit_pick) (forced-PicksFrom exp scores (sticky seed exp.name) arm arms e)
  ]

  cumulated_pick-mem :
      (target acc : f.F32) (vs : List (Variant f.F32)) (v : Variant f.F32)
      → cumulated_pick f target acc vs ≡ some v
      → Memᴰ v vs
  unfolding cumulated_pick
  cumulated_pick-mem target acc [] v e = absurd (ground arith)
  cumulated_pick-mem target acc (w ∷ vs) v e =
      elim (Bool-cases (f.less target (f.add acc w.weight))) [
        | inl h ↦ Memᴰ.head (sym (some-injective _ _ (rw h at e)))
        | inr h ↦ Memᴰ.tail (cumulated_pick-mem target (f.add acc w.weight) vs v (rw h at e))
      ]

  weighted_pick-PicksFrom :
      (exp : ExperimentConfig f.F32) (seed : PickSeed)
      → exp.variants ≢ []
      → PicksFrom exp.variants (weighted_pick f exp seed)
  unfolding weighted_pick
  weighted_pick-PicksFrom exp seed ne =
      or_else-PicksFrom exp.variants (cumulated_pick f _ f.zero exp.variants) _
        (cumulated_pick-mem _ f.zero exp.variants) (last_of-PicksFrom exp.variants ne)

  pick_variant-PicksFrom :
      (exp : ExperimentConfig f.F32) (scores : List (AgentScoreSummary f.F32)) (seed : PickSeed)
      → exp.variants ≢ []
      → PicksFrom exp.variants (pick_variant f exp scores seed)
  unfolding pick_variant bandit_pick routing_seed forced shadow_pick weighted_pick
  pick_variant-PicksFrom exp scores seed ne = elim (Strategy-cases exp.strategy) [
    | inl e ↦ rw e (bandit_pick-PicksFrom exp scores seed ne)
    | inr (inl e) ↦ rw e (shadow_pick-PicksFrom exp ne)
    | inr (inr e) ↦ rw e (weighted_pick-PicksFrom exp seed ne)
  ]

  -- A request for an experiment that declares variants is routed to the agent of one of them, under
  -- the experiment's name, whatever the strategy, the scores and the seed.
  pub resolve_with_scores-PicksFrom :
      (router : ExperimentRouter f.F32) (name : String) (user_id : List ℕ)
      (scores : List (AgentScoreSummary f.F32)) (exp : ExperimentConfig f.F32)
      → get router name ≡ some exp
      → exp.variants ≢ []
      → (v : Variant f.F32) × Memᴰ v exp.variants
        × ((resolve_with_scores f router name user_id scores).0
            ≡ record { agent = v.agent; experiment = some exp.name })
  unfolding resolve_with_scores
  resolve_with_scores-PicksFrom router name user_id scores exp e ne =
      let (seed, after) = next_seed router user_id in
      let pick = pick_variant-PicksFrom exp scores seed ne in
      (pick.0, pick.2, rw (e, resolve_with_scores) rw pick.1 refl)

  pick_variant_sticky :
      (exp : ExperimentConfig f.F32) (scores : List (AgentScoreSummary f.F32)) (user_id : List ℕ)
      (draw later : ℕ)
      → exp.sticky_by_user ≡ true
      → pick_variant f exp scores (record { draw = draw; user_id = user_id })
        ≡ pick_variant f exp scores (record { draw = later; user_id = user_id })
  unfolding pick_variant bandit_pick weighted_pick routing_seed sticky
  pick_variant_sticky exp scores user_id draw later h = rw h refl

  get-draws :
      (router : ExperimentRouter f.F32) (name : String) (later : ℕ) {exp : ExperimentConfig f.F32}
      → get router name ≡ some exp
      → get (record { by_name = router.by_name; draws = later }) name ≡ some exp
  unfolding get
  get-draws router name later e = e

  -- A user's request for a sticky experiment resolves to the same agent at every later count of
  -- picks, as long as the scores are the same.
  pub resolve_with_scores_sticky :
      (router : ExperimentRouter f.F32) (name : String) (user_id : List ℕ)
      (scores : List (AgentScoreSummary f.F32)) (exp : ExperimentConfig f.F32) (later : ℕ)
      → get router name ≡ some exp
      → exp.sticky_by_user ≡ true
      → (resolve_with_scores f router name user_id scores).0
        ≡ (resolve_with_scores f
            (record { by_name = router.by_name; draws = later })
            name
            user_id
            scores).0
  unfolding resolve_with_scores next_seed
  resolve_with_scores_sticky router name user_id scores exp later e h =
      rw (e, resolve_with_scores) rw (get-draws router name later e, resolve_with_scores)
        (ap (λ o. record { agent = agent_or name o; experiment = some exp.name })
          (pick_variant_sticky exp scores user_id router.draws later h))
