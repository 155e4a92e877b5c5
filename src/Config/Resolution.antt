-- ===== src/Config/Resolution.antt =====
-- What an accepted configuration (cli/src/config.rs) gives the router of
-- crates/experiments/src/router.rs.
use mathlib.Core.List.{Memᴰ}
use coulisse.Prelude.{
  ℕ, String, ◌≡◌, ◌≢◌, inl, inr, refl, sym, ap, ◌∙◌, true, Option, none, some, List, [], ◌∷◌, map,
  ok, All, All-map, All-mem, arith, ◌==◌, ==_iff, string_eq, Bool-cases, Option-cases, subst, any,
  any_iff,
}
use coulisse.Merge.{get_by_name}
use coulisse.Merge.Agreement.{get_by_name-some}
use coulisse.Experiments.{Variant, ExperimentConfig, AgentScoreSummary}
use coulisse.Experiments.Strategy.{shadow}
use coulisse.Experiments.Routing.{Floats, shadow_pick, shadow_variants}
use coulisse.Experiments.Router.{new, get, resolve_with_scores, Resolved}
use coulisse.Experiments.Picks.{resolve_with_scores-PicksFrom}
use coulisse.Experiments.Shadow.{shadow_variants-primary}
use coulisse.Triggers.{CronCrate}
use coulisse.Config.{Config}
use coulisse.Config.Validate.{validate}
use coulisse.Config.Consistent.{agent_names, IsTarget, GoodExperiment, GoodStrategy, GoodPrimary}
use coulisse.Config.Accepted.{IsConsistent, validate_iff}

get_by_name-none :
    {R : Type 0} (key : R → String) (name : String) (rows : List R)
    → get_by_name key name rows ≡ none
    → All (λ r. name ≢ key r) rows
unfolding get_by_name
get_by_name-none key name [] h = tt
get_by_name-none key name (r ∷ rows) h = elim (Option-cases (get_by_name key name rows)) [
  | inl e ↦ elim (Bool-cases (key r == name)) [
    | inl t ↦ absurd (let bad = rw t at (rw e at h) in ground arith)
    | inr n ↦ (
      (λ same. absurd (ground (arith, (==_iff (key r) name).1 (sym same)))),
      get_by_name-none key name rows e,
    )
  ]
  | inr (later, e) ↦ absurd (let bad = rw e at h in ground arith)
]

none-get_by_name :
    {R : Type 0} (key : R → String) (name : String) (rows : List R)
    → All (λ r. name ≢ key r) rows
    → get_by_name key name rows ≡ none
unfolding get_by_name
none-get_by_name key name [] h = refl
none-get_by_name key name (r ∷ rows) h = elim (Bool-cases (key r == name)) [
  | inl t ↦ absurd (h.0 (sym ((==_iff (key r) name).0 t)))
  | inr n ↦ rw (none-get_by_name key name rows h.1) rw n refl
]

not_in_map :
    {A : Type 0} (key : A → String) (name : String) (xs : List A)
    → All (λ x. name ≢ key x) xs
    → Memᴰ name (map key xs)
    → ⊥
not_in_map key name [] h m = elim m [ ]
not_in_map key name (x ∷ xs) h (Memᴰ.head e) = h.0 e
not_in_map key name (x ∷ xs) h (Memᴰ.tail m) = not_in_map key name xs h.1 m

module _ (f : Floats) (crate : CronCrate) (config : Config f.F32) where
  -- What a request for `name` resolves to: the agent of that name, or a declared agent that is a
  -- variant of the experiment of that name.
  pub data ResolvesTo (name : String) (resolved : Resolved) : Type 0 where
    to_agent :
        Memᴰ name (agent_names config)
        → resolved ≡ record { agent = name; experiment = none }
        → ResolvesTo name resolved
    to_variant :
        {exp : ExperimentConfig f.F32} {v : Variant f.F32}
        → Memᴰ exp config.experiments
        → exp.name ≡ name
        → Memᴰ v exp.variants
        → Memᴰ v.agent (agent_names config)
        → resolved ≡ record { agent = v.agent; experiment = some name }
        → ResolvesTo name resolved

  module _ (consistent : IsConsistent f crate config) (name : String) (user_id : List ℕ)
      (scores : List (AgentScoreSummary f.F32)) where
    agent-ResolvesTo :
        Memᴰ name (agent_names config)
        → ResolvesTo name (resolve_with_scores f (new config.experiments) name user_id scores).0
    unfolding resolve_with_scores get
    agent-ResolvesTo m =
        let none_named =
          none-get_by_name (λ e. ExperimentConfig.name e) name config.experiments
            (All-map _ _ config.experiments (λ e h. All-mem (λ n. n ≢ e.name) h m)
              consistent.no_collision) in
        to_agent m (rw (none_named, resolve_with_scores) refl)

    experiment-ResolvesTo :
        {exp : ExperimentConfig f.F32}
        → get (new config.experiments) name ≡ some exp
        → ResolvesTo name (resolve_with_scores f (new config.experiments) name user_id scores).0
    unfolding get
    experiment-ResolvesTo {exp} e =
        let found =
          get_by_name-some (λ x. ExperimentConfig.name x) name config.experiments {r = exp} e in
        let good = All-mem (GoodExperiment f config) consistent.experiments found.0 in
        let pick =
          resolve_with_scores-PicksFrom f (new config.experiments) name user_id scores exp e
            good.0 in
        to_variant found.0 found.1 pick.1
          (All-mem (λ v. Memᴰ (Variant.agent v) (agent_names config)) good.1.0.0 pick.1)
          (pick.2 ∙ ap (λ n. record { agent = Variant.agent pick.0; experiment = some n }) found.1)

    target-ResolvesTo :
        IsTarget config name
        → ResolvesTo name (resolve_with_scores f (new config.experiments) name user_id scores).0
    unfolding get
    target-ResolvesTo (inl m) = agent-ResolvesTo m
    target-ResolvesTo (inr m) = elim (Option-cases (get (new config.experiments) name)) [
      | inl e ↦ absurd (
          not_in_map (λ x. ExperimentConfig.name x) name config.experiments
            (get_by_name-none _ name config.experiments e) m)
      | inr (exp, e) ↦ experiment-ResolvesTo e
    ]

  -- With an accepted configuration, the router resolves the name of each agent to that agent, and
  -- the name of each experiment to a declared agent that is one of its variants.
  pub resolve-ResolvesTo :
      (name : String) (user_id : List ℕ) (scores : List (AgentScoreSummary f.F32))
      → validate f crate config ≡ ok tt
      → IsTarget config name
      → ResolvesTo name (resolve_with_scores f (new config.experiments) name user_id scores).0
  resolve-ResolvesTo name user_id scores h =
      target-ResolvesTo ((validate_iff f crate config).0 h) name user_id scores

  named_declared :
      (names : List String) (vs : List (Variant f.F32)) (p : String)
      → All (λ v. Memᴰ (Variant.agent v) names) vs
      → Memᴰ p (map (λ v. Variant.agent v) vs)
      → Memᴰ p names
  named_declared names [] p h m = elim m [ ]
  named_declared names (v ∷ vs) p h (Memᴰ.head e) = subst (λ s. Memᴰ s names) (sym e) h.0
  named_declared names (v ∷ vs) p h (Memᴰ.tail m) = named_declared names vs p h.1 m

  named_primary :
      (exp : ExperimentConfig f.F32) (o : Option String)
      → exp.primary ≡ o
      → GoodPrimary f exp o
      → (p : String) × (exp.primary ≡ some p)
        × (any (λ v. Variant.agent v == p) exp.variants ≡ true)
  named_primary exp none e h = absurd h
  named_primary exp (some p) e h = (p, e, (any_iff (λ v. Variant.agent v) p exp.variants).1 h.0)

  -- With an accepted configuration, a shadow experiment serves the user with its primary, which is a
  -- declared agent, and never runs the primary beside it.
  pub accepted-shadow :
      (exp : ExperimentConfig f.F32)
      → validate f crate config ≡ ok tt
      → Memᴰ exp config.experiments
      → exp.strategy ≡ shadow
      → (v : Variant f.F32) × (shadow_pick exp ≡ some v)
        × (exp.primary ≡ some v.agent)
        × Memᴰ v.agent (agent_names config)
        × All (λ w. Variant.agent w ≢ v.agent) (shadow_variants exp)
  accepted-shadow exp h m e =
      let good =
        All-mem (GoodExperiment f config) ((validate_iff f crate config).0 h).experiments m in
      let fields = subst (GoodStrategy f config exp) e good.1.1 in
      let named = named_primary exp exp.primary refl fields.1 in
      let pick = shadow_variants-primary exp named.0 e named.1 named.2 in
      let declared =
        named_declared (agent_names config) exp.variants named.0 good.1.0.0
          ((any_iff (λ v. Variant.agent v) named.0 exp.variants).0 named.2) in
      (
        pick.0,
        pick.1,
        named.1 ∙ ap some (sym pick.2),
        subst (λ s. Memᴰ s (agent_names config)) (sym pick.2) declared,
        subst (λ s. All (λ w. Variant.agent w ≢ s) (shadow_variants exp)) (sym pick.2) pick.3,
      )
