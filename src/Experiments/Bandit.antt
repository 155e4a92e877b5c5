-- ===== src/Experiments/Bandit.antt =====
-- The bandit of crates/experiments/src/router.rs: arms that lack samples come first, and the leader
-- is an arm of the highest mean, of equal ones the last.
use mathlib.Core.List.{Memᴰ, append_assoc, append-nil}
use coulisse.Prelude.{
  ◌≡◌, ◌≢◌, refl, sym, subst, true, false, some, List, [], ◌∷◌, ◌++◌, All, All-append, All-map,
  Bool-cases, inl, inr, mem-keep,
}
use coulisse.Experiments.{Variant, ExperimentConfig, AgentScoreSummary}
use coulisse.Experiments.Seeds.{PickSeed, sticky}
use coulisse.Experiments.Routing.{
  Floats, unwrap_or, score_of, undersampled, forced, mean_of, max_by, leader, bandit_pick,
  routing_seed,
}
use coulisse.Experiments.Picks.{List-cases, uniform_pick-PicksFrom}

-- A float that is no NaN compares with itself.
abbrev pub IsNumber : (f : Floats) → f.F32 → Type 0
IsNumber f a = f.at_least a a ≡ true

module _ (f : Floats) where
  -- No arm before `v` has a higher mean, and every arm after it has a lower one.
  pub record IsLastLeader (mean : Variant f.F32 → f.F32) (arms : List (Variant f.F32))
      (v : Variant f.F32) : Type 0 where
    pub before : List (Variant f.F32)
    pub after : List (Variant f.F32)
    pub split : arms ≡ before ++ v ∷ after
    pub not_above : All (λ w. f.less (mean v) (mean w) ≡ false) before
    pub below : All (λ w. f.less (mean w) (mean v) ≡ true) after

  forced-undersampled :
      (exp : ExperimentConfig f.F32) (scores : List (AgentScoreSummary f.F32)) (v : Variant f.F32)
      → Memᴰ v (forced exp scores)
      → Memᴰ v exp.variants
        × (undersampled (unwrap_or 30 exp.min_samples) (score_of scores v) ≡ true)
  unfolding forced
  forced-undersampled exp scores v m = mem-keep _ exp.variants {a = v} m

  -- While an arm lacks samples, the pick is an arm that lacks samples, whatever the rate of
  -- exploration.
  pub bandit_pick-forced :
      (exp : ExperimentConfig f.F32) (scores : List (AgentScoreSummary f.F32)) (seed : PickSeed)
      → forced exp scores ≢ []
      → (v : Variant f.F32) × (bandit_pick f exp scores seed ≡ some v)
        × Memᴰ v exp.variants
        × (undersampled (unwrap_or 30 exp.min_samples) (score_of scores v) ≡ true)
  unfolding bandit_pick
  bandit_pick-forced exp scores seed ne = elim (List-cases (forced exp scores)) [
    | inl e ↦ absurd (ne e)
    | inr (arm, arms, e) ↦
        let r = uniform_pick-PicksFrom (arm ∷ arms) (sticky seed exp.name) (λ h. cc) in
        let kept = forced-undersampled exp scores r.0 (subst (Memᴰ r.0) (sym e) r.2) in
        (r.0, rw (e, bandit_pick) r.1, kept.0, kept.1)
  ]

  module _ (mean : Variant f.F32 → f.F32)
      (asym : (a b : f.F32) → f.less a b ≡ true → f.less b a ≡ false)
      (not_less-trans : (a b c : f.F32)
        → IsNumber f b
        → f.less a b ≡ false
        → f.less b c ≡ false
        → f.less a c ≡ false) where
    keeps_best :
        (seen : List (Variant f.F32)) (best v : Variant f.F32)
        → f.less (mean v) (mean best) ≡ true
        → IsLastLeader mean seen best
        → IsLastLeader mean (seen ++ v ∷ []) best
    keeps_best seen best v h l = record {
      before = l.before;
      after = l.after ++ v ∷ [];
      split =
          subst (λ arms. (arms ++ (v ∷ [])) ≡ (l.before ++ (best ∷ (l.after ++ (v ∷ [])))))
            (sym l.split) (append_assoc l.before (best ∷ l.after) (v ∷ []));
      not_above = l.not_above;
      below = All-append (λ w. f.less (mean w) (mean best) ≡ true) l.after (v ∷ []) l.below (h, tt);
    }

    takes_new :
        (seen : List (Variant f.F32)) (best v : Variant f.F32)
        → IsNumber f (mean best)
        → f.less (mean v) (mean best) ≡ false
        → IsLastLeader mean seen best
        → IsLastLeader mean (seen ++ v ∷ []) v
    takes_new seen best v n h l = record {
      before = seen;
      after = [];
      split = refl;
      not_above = subst (All (λ w. f.less (mean v) (mean w) ≡ false)) (sym l.split) (
          All-append (λ w. f.less (mean v) (mean w) ≡ false) l.before (best ∷ l.after)
            (All-map _ _ l.before (λ w k. not_less-trans (mean v) (mean best) (mean w) n h k)
              l.not_above)
            (
              h,
              All-map _ _ l.after
                  (λ w k. not_less-trans (mean v) (mean best) (mean w) n h (asym _ _ k)) l.below,
            ));
      below = tt;
    }

    max_by-IsLastLeader :
        (seen : List (Variant f.F32)) (best : Variant f.F32) (vs : List (Variant f.F32))
        → IsNumber f (mean best)
        → All (λ w. IsNumber f (mean w)) vs
        → IsLastLeader mean seen best
        → IsLastLeader mean (seen ++ vs) (max_by f mean best vs)
    unfolding max_by
    max_by-IsLastLeader seen best [] n ns l =
        subst (λ arms. IsLastLeader mean arms best) (sym (append-nil seen)) l
    max_by-IsLastLeader seen best (v ∷ vs) n ns l =
        elim (Bool-cases (f.less (mean v) (mean best))) [
          | inl h ↦ rw h (
              subst (λ arms. IsLastLeader mean arms (max_by f mean best vs))
                (append_assoc seen (v ∷ []) vs)
                (max_by-IsLastLeader (seen ++ v ∷ []) best vs n ns.1 (keeps_best seen best v h l)))
          | inr h ↦ rw h (
              subst (λ arms. IsLastLeader mean arms (max_by f mean v vs))
                (append_assoc seen (v ∷ []) vs)
                (max_by-IsLastLeader (seen ++ v ∷ []) v vs ns.0 ns.1 (takes_new seen best v n h l)))
        ]

    leader-IsLastLeader :
        (vs : List (Variant f.F32))
        → vs ≢ []
        → All (λ w. IsNumber f (mean w)) vs
        → (v : Variant f.F32) × (leader f mean vs ≡ some v) × IsLastLeader mean vs v
    unfolding leader
    leader-IsLastLeader [] ne ns = absurd (ne refl)
    leader-IsLastLeader (v ∷ vs) ne ns = (
      max_by f mean v vs,
      refl,
      max_by-IsLastLeader (v ∷ []) v vs ns.0 ns.1
          (record { before = []; after = []; split = refl; not_above = tt; below = tt }),
    )

  -- For floats where `<` is asymmetric and where not being below is transitive through a float that
  -- is no NaN: when every arm has its samples, the request does not explore and no arm's mean is a
  -- NaN, the pick is an arm of the highest mean, and the last one of those.
  pub bandit_pick-leader :
      (exp : ExperimentConfig f.F32) (scores : List (AgentScoreSummary f.F32)) (seed : PickSeed)
      → ((a b : f.F32) → f.less a b ≡ true → f.less b a ≡ false)
      → ((a b c : f.F32)
          → IsNumber f b
          → f.less a b ≡ false
          → f.less b c ≡ false
          → f.less a c ≡ false)
      → All (λ v. IsNumber f (mean_of f scores v)) exp.variants
      → exp.variants ≢ []
      → forced exp scores ≡ []
      → f.less (f.unit (routing_seed exp seed)) (unwrap_or f.default_epsilon exp.epsilon) ≡ false
      → (v : Variant f.F32) × (bandit_pick f exp scores seed ≡ some v)
        × IsLastLeader (mean_of f scores) exp.variants v
  unfolding bandit_pick
  bandit_pick-leader exp scores seed asym not_less-trans numbers ne sampled exploits =
      let l = leader-IsLastLeader (mean_of f scores) asym not_less-trans exp.variants ne numbers in
      (l.0, rw (sampled, bandit_pick) rw exploits l.1, l.2)
