-- ===== src/Triggers/Cron.antt =====
-- What `validate_all` of crates/triggers/src/cron.rs promises to `spawn_cron`.
use coulisse.Prelude.{
  String, ◌≡◌, ◌⊎◌, inl, inr, refl, ap, Bool, true, false, List, [], ◌∷◌, map, keep, ok, All, arith,
  Result-cases,
}
use coulisse.Validation.Laws.{each_iff}
use coulisse.Triggers.{
  TriggerKind, TriggerConfig, CronCrate, parse_schedule, validate_kind, validate_all,
  cron_from_config, armed, arm, cron_of_kind,
}
use coulisse.Triggers.TriggerKind.{boot, cron, webhook}

abbrev pub is_cron_kind : TriggerKind → Bool
is_cron_kind boot = false
is_cron_kind (cron schedule) = true
is_cron_kind (webhook path) = false

abbrev pub is_cron : TriggerConfig → Bool
is_cron t = is_cron_kind t.kind

Kind-cases :
    (k : TriggerKind)
    → (k ≡ boot) ⊎ (((s : String) × (k ≡ cron s)) ⊎ ((p : String) × (k ≡ webhook p)))
Kind-cases boot = inl refl
Kind-cases (cron s) = inr (inl (s, refl))
Kind-cases (webhook p) = inr (inr (p, refl))

module _ (crate : CronCrate) {UserId : Type 0} (user_id : UserId) where
  validate_kind-parses :
      (t : TriggerConfig) (s : String)
      → validate_kind crate t (cron s) ≡ ok tt
      → (a : crate.Schedule) × (parse_schedule crate s ≡ ok a)
  validate_kind-parses t s h = elim (Result-cases (parse_schedule crate s)) [
    | inl r ↦ r
    | inr (e, r) ↦ absurd (let bad = rw r at h in ground arith)
  ]

  armed-each :
      (triggers : List TriggerConfig)
      → All (λ t. validate_kind crate t t.kind ≡ ok tt) triggers
      → map (λ c. c.name) (armed crate triggers user_id) ≡ map (λ t. t.name) (keep is_cron triggers)
  unfolding armed cron_from_config
  armed-each [] h = refl
  armed-each (t ∷ ts) h = elim (Kind-cases t.kind) [
    | inl e ↦ rw e (armed-each ts h.1)
    | inr (inl (s, e)) ↦
        let parsed = validate_kind-parses t s (rw e at h.0) in
        rw (e, cron_of_kind) rw (parsed.1, arm) (ap (λ names. t.name ∷ names) (armed-each ts h.1))
    | inr (inr (p, e)) ↦ rw e (armed-each ts h.1)
  ]

  -- When `validate_all` accepts the triggers, every cron trigger is armed, in order: none is
  -- skipped for a schedule that does not parse.
  pub armed-validate_all :
      (triggers : List TriggerConfig)
      → validate_all crate triggers ≡ ok tt
      → map (λ c. c.name) (armed crate triggers user_id) ≡ map (λ t. t.name) (keep is_cron triggers)
  unfolding validate_all
  armed-validate_all triggers h =
      armed-each triggers ((each_iff (λ t. validate_kind crate t t.kind) triggers).0 h)
