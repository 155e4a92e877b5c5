-- ===== src/Experiments/Shadow.antt =====
-- The shadow strategy and the bandit's score query of crates/experiments/src/router.rs.
use mathlib.Core.Option.{some-injective, none-ne-some}
use coulisse.Prelude.{
  ℕ, ◌-◌, String, codes, ◌≡◌, ◌≢◌, refl, sym, ap, subst, ◌∙◌, Bool, true, not, Option, none, some,
  List, [], ◌∷◌, ◌++◌, ◌==◌, ==_iff, string_eq, nat_eq, any, find, keep, All, All-keep, Bool-cases,
  Option-cases, inl, inr, arith,
}
use coulisse.Experiments.Strategy.{bandit, shadow, split}
use coulisse.Experiments.{Strategy, Variant, ExperimentConfig}
use coulisse.Experiments.Routing.{
  is_named, primary_of, shadow_pick, shadow_variants, split_once, ScoreQuery, bandit_query,
  unwrap_or,
}

not_named : (p agent : String) → not (agent == p) ≡ true → agent ≢ p
not_named p agent e same = absurd (ground (arith, (==_iff agent p).1 same))

keep-all : {A : Type 0} (p : A → Bool) (xs : List A) → ((a : A) → p a ≡ true) → keep p xs ≡ xs
keep-all p [] h = refl
keep-all p (x ∷ xs) h = rw (h x) (ap (λ ys. x ∷ ys) (keep-all p xs h))

module _ {F32 : Type 0} where
  any-find :
      (p : String) (vs : List (Variant F32))
      → any (λ v. v.agent == p) vs ≡ true
      → (v : Variant F32) × (find (λ w. is_named (some p) w.agent) vs ≡ some v) × (v.agent ≡ p)
  any-find p [] e = absurd (ground arith)
  any-find p (v ∷ vs) e = elim (Bool-cases (v.agent == p)) [
    | inl h ↦ (v, rw h refl, (==_iff v.agent p).0 h)
    | inr h ↦ let r = any-find p vs (rw h at e) in (r.0, rw h r.1, r.2)
  ]

  primary_of-shadow :
      (exp : ExperimentConfig F32) {o : Option String}
      → exp.strategy ≡ shadow
      → exp.primary ≡ o
      → primary_of exp ≡ o
  primary_of-shadow exp e named = rw e named

  primary_of-others :
      (exp : ExperimentConfig F32) (s : Strategy)
      → exp.strategy ≡ s
      → s ≢ shadow
      → primary_of exp ≡ none
  primary_of-others exp bandit e ne = rw e refl
  primary_of-others exp shadow e ne = absurd (ne refl)
  primary_of-others exp split e ne = rw e refl

  -- A shadow experiment whose primary is one of its variants serves the user with the primary, and
  -- no variant that it runs beside it is the primary.
  pub shadow_variants-primary :
      (exp : ExperimentConfig F32) (p : String)
      → exp.strategy ≡ shadow
      → exp.primary ≡ some p
      → any (λ v. v.agent == p) exp.variants ≡ true
      → (v : Variant F32) × (shadow_pick exp ≡ some v)
        × (v.agent ≡ p)
        × All (λ w. w.agent ≢ p) (shadow_variants exp)
  unfolding shadow_pick shadow_variants
  shadow_variants-primary exp p e named declared =
      let r = any-find p exp.variants declared in
      (
        r.0,
        rw named rw r.1 refl,
        r.2,
        subst (λ o. All (λ w. w.agent ≢ p) (keep (λ v. not (is_named o v.agent)) exp.variants))
            (sym (primary_of-shadow exp {o = some p} e named))
            (All-keep (λ w. w.agent ≢ p) (λ v. not (v.agent == p)) exp.variants
              (λ w _ h. not_named p w.agent h)),
      )

  -- A strategy other than shadow has every variant among those to run beside the one served.
  pub shadow_variants-others :
      (exp : ExperimentConfig F32) → exp.strategy ≢ shadow → shadow_variants exp ≡ exp.variants
  unfolding shadow_variants
  shadow_variants-others exp ne =
      subst (λ o. keep (λ v. not (is_named o v.agent)) exp.variants ≡ exp.variants)
        (sym (primary_of-others exp exp.strategy refl ne))
        (keep-all (λ v. not (is_named none v.agent)) exp.variants (λ v. refl))

-- What `split_once` may return of a text.
abbrev IsSplit : List ℕ → List ℕ × List ℕ → Type 0
IsSplit text (before, after) = (text ≡ before ++ b'.' ∷ after) × All (λ c. c ≢ b'.') before

IsSplit-cons :
    (c : ℕ) (cs : List ℕ) (q : List ℕ × List ℕ)
    → c ≢ b'.'
    → IsSplit cs q
    → IsSplit (c ∷ cs) (c ∷ q.0, q.1)
IsSplit-cons c cs q ne h = (ap (λ ds. c ∷ ds) h.0, (ne, h.1))

split_once-IsSplit :
    (text : List ℕ) (q : List ℕ × List ℕ) → split_once text ≡ some q → IsSplit text q
unfolding split_once
split_once-IsSplit [] q e = absurd (ground arith)
split_once-IsSplit (c ∷ cs) q e = elim (Bool-cases (c == b'.')) [
  | inl h ↦
      subst (IsSplit (c ∷ cs)) (some-injective _ _ (rw h at e))
        (ap (λ d. d ∷ cs) ((==_iff c b'.').0 h), tt)
  | inr h ↦ elim (Option-cases (split_once cs)) [
    | inl n ↦ absurd (ground arith)
    | inr (r, n) ↦ subst (IsSplit (c ∷ cs)) (some-injective _ _ (rw n at (rw h at e))) (
        IsSplit-cons c cs r (λ same. ground (arith, (==_iff c b'.').1 same))
          (split_once-IsSplit cs r n))
  ]
]

abbrev query_at :
    {F32 : Type 0} → ExperimentConfig F32 → ℕ → Option (List ℕ × List ℕ) → Option ScoreQuery
query_at exp now_secs none = none
query_at exp now_secs (some q) = some (record {
  criterion = q.1;
  judge = q.0;
  since = now_secs - unwrap_or 604800 exp.bandit_window_seconds;
})

bandit_query-query_at :
    {F32 : Type 0} (exp : ExperimentConfig F32) (now_secs : ℕ) {metric : String}
    (o : Option (List ℕ × List ℕ))
    → exp.strategy ≡ bandit
    → exp.metric ≡ some metric
    → split_once (codes metric) ≡ o
    → bandit_query exp now_secs ≡ query_at exp now_secs o
unfolding bandit_query
bandit_query-query_at exp now_secs none e m n = rw (e, bandit_query) rw m rw n refl
bandit_query-query_at exp now_secs (some (before, after)) e m n =
    rw (e, bandit_query) rw m rw n refl

-- A bandit's score query names the judge before the metric's first dot and the criterion after it,
-- over the experiment's window, a week unless it says otherwise.
pub bandit_query-metric :
    {F32 : Type 0} (exp : ExperimentConfig F32) (now_secs : ℕ) (metric : String)
    (query : ScoreQuery)
    → exp.strategy ≡ bandit
    → exp.metric ≡ some metric
    → bandit_query exp now_secs ≡ some query
    → (codes metric ≡ query.judge ++ b'.' ∷ query.criterion)
      × All (λ c. c ≢ b'.') query.judge
      × (query.since ≡ now_secs - unwrap_or 604800 exp.bandit_window_seconds)
bandit_query-metric exp now_secs metric query e m h =
    elim (Option-cases (split_once (codes metric))) [
      | inl n ↦ absurd (none-ne-some _ (sym (bandit_query-query_at exp now_secs none e m n) ∙ h))
      | inr (q, n) ↦
          let same =
            some-injective _ _ (sym (bandit_query-query_at exp now_secs (some q) e m n) ∙ h) in
          let split = split_once-IsSplit (codes metric) q n in
          subst
            (λ found.
              (codes metric ≡ found.judge ++ b'.' ∷ found.criterion)
              × All (λ c. c ≢ b'.') found.judge
              × (found.since ≡ now_secs - unwrap_or 604800 exp.bandit_window_seconds))
            same (split.0, split.1, refl)
    ]
