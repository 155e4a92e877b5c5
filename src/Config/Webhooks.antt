-- ===== src/Config/Webhooks.antt =====
-- The loop over the triggers in cli/src/config.rs is the two loops that it does in one: over the
-- names, and over the webhooks' paths.
use coulisse.Prelude.{
  String, codes, not, ◌≡◌, ◌↔◌, refl, sym, ap, subst, All-intro, List, [], ◌∷◌, map, filter_map,
  cons_option, ok, ◌>>◌, All, Distinct, member, or_iff, starts_with, inl, inr, true, Bool-cases,
  arith, string_eq, member_iff,
}
use coulisse.Validation.{reject_if, each_distinct, no_check}
use coulisse.Validation.Laws.{seq_iff, require_iff, reject_if_iff, refuse_as, each_distinct_after}
use coulisse.Experiments.Routing.{Floats}
use coulisse.Triggers.{TriggerConfig, TriggerKind, CronCrate}
use coulisse.Triggers.TriggerKind.{boot, cron, webhook}
use coulisse.Config.{Config}
use coulisse.Config.ConfigError.{
  duplicate_trigger, trigger_webhook_path_duplicate, trigger_webhook_path_invalid,
}
use coulisse.Config.Strategies.{Checked}
use coulisse.Config.Validate.{
  is_templated, is_target, check_target, check_path, see_path, check_triggers,
}
use coulisse.Config.Consistent.{
  agent_names, experiment_names, IsTarget, GoodTarget, GoodPath, webhook_path,
}

map_id : {A : Type 0} (xs : List A) → map (λ x. x) xs ≡ xs
map_id [] = refl
map_id (x ∷ xs) = ap (λ ys. x ∷ ys) (map_id xs)

module _ (f : Floats) (crate : CronCrate) where
  abbrev check_prefix : TriggerConfig → TriggerKind → Checked f crate
  check_prefix t boot = ok tt
  check_prefix t (cron schedule) = ok tt
  check_prefix t (webhook path) =
      reject_if (not (starts_with (codes "/hooks/") (codes path)))
        (trigger_webhook_path_invalid path t.name)

  abbrev paths_loop : List String → List String → Checked f crate
  paths_loop seen paths =
      each_distinct (λ s. s) (λ s. trigger_webhook_path_duplicate s s) no_check no_check seen paths

  same : (m : Checked f crate) → (m ≡ ok tt) ↔ (m ≡ ok tt)
  same m = ((λ h. h), λ h. h)

  abbrev passed : Checked f crate
  passed = ok tt

  plain_iff :
      (fresh target rest names paths : Checked f crate)
      → (rest ≡ ok tt) ↔ ((names ≡ ok tt) × (paths ≡ ok tt))
      → ((fresh >> (target >> (passed >> rest))) ≡ ok tt)
        ↔ (((fresh >> ((target >> passed) >> names)) ≡ ok tt) × (paths ≡ ok tt))
  plain_iff fresh target rest names paths ih =
      let left = seq_iff (same fresh) (seq_iff (same target) ih) in
      let n = seq_iff (same fresh) (seq_iff (seq_iff (same target) (same passed)) (same names)) in
      (
        (λ h. let q = left.0 h in (n.1 (q.0, ((q.1.0, refl), q.1.1.0)), q.1.1.1)),
        λ h. let a = n.0 h.0 in left.1 (a.0, (a.1.0.0, (a.1.1, h.1))),
      )

  step_iff :
      (t : TriggerConfig) (k : TriggerKind) (fresh target rest names : Checked f crate)
      (seen paths : List String)
      → (rest ≡ ok tt) ↔ ((names ≡ ok tt) × (paths_loop (see_path k seen) paths ≡ ok tt))
      → ((fresh >> (target >> (check_path f crate seen t k >> rest))) ≡ ok tt) ↔ (
          ((fresh >> ((target >> check_prefix t k) >> names)) ≡ ok tt)
          × (paths_loop seen (cons_option (webhook_path k) paths) ≡ ok tt))
  unfolding each_distinct
  step_iff t boot fresh target rest names seen paths ih =
      plain_iff fresh target rest names (paths_loop seen paths) ih
  step_iff t (cron schedule) fresh target rest names seen paths ih =
      plain_iff fresh target rest names (paths_loop seen paths) ih
  step_iff t (webhook path) fresh target rest names seen paths ih =
      let prefix =
        reject_if_iff (not (starts_with (codes "/hooks/") (codes path)))
          (trigger_webhook_path_invalid path t.name) in
      let new = reject_if_iff (member path seen) (trigger_webhook_path_duplicate path t.name) in
      let left = seq_iff (same fresh) (seq_iff (same target) (seq_iff (seq_iff prefix new) ih)) in
      let n = seq_iff (same fresh) (seq_iff (seq_iff (same target) prefix) (same names)) in
      let p =
        seq_iff (reject_if_iff (member path seen) (trigger_webhook_path_duplicate path path))
          (same (paths_loop (path ∷ seen) paths)) in
      (
        (λ h.
            let q = left.0 h in
            (n.1 (q.0, ((q.1.0, q.1.1.0.0), q.1.1.1.0)), p.1 (q.1.1.0.1, q.1.1.1.1))),
        λ h.
            let a = n.0 h.0 in
            let b = p.0 h.1 in left.1 (a.0, (a.1.0.0, ((a.1.0.1, b.0), (a.1.1, b.1)))),
      )

  abbrev checked : (agents experiments : List String) → TriggerConfig → Checked f crate
  checked agents experiments t = check_target f crate agents experiments t >> check_prefix t t.kind

  loops_iff :
      (agents experiments names seen : List String) (ts : List TriggerConfig)
      → (check_triggers f crate agents experiments names seen ts ≡ ok tt) ↔ (
          (each_distinct
              (λ t. t.name)
              (λ t. duplicate_trigger t.name)
              no_check
              (checked agents experiments)
              names
              ts
            ≡ ok tt)
          × (paths_loop seen (filter_map (λ t. webhook_path t.kind) ts) ≡ ok tt))
  unfolding check_triggers each_distinct
  loops_iff agents experiments names seen [] = ((λ h. (refl, refl)), λ h. refl)
  loops_iff agents experiments names seen (t ∷ ts) =
      step_iff t t.kind _ _ _ _ seen (filter_map (λ u. webhook_path u.kind) ts)
        (loops_iff agents experiments (t.name ∷ names) (see_path t.kind seen) ts)

  prefix_iff : (t : TriggerConfig) (k : TriggerKind) → (check_prefix t k ≡ ok tt) ↔ GoodPath k
  prefix_iff t boot = ((λ h. tt), λ h. refl)
  prefix_iff t (cron schedule) = ((λ h. tt), λ h. refl)
  prefix_iff t (webhook path) = require_iff _ _

  pub is_target_iff :
      (config : Config f.F32) (name : String)
      → (is_target f crate (agent_names config) (experiment_names config) name ≡ true)
        ↔ IsTarget config name
  is_target_iff config name =
      let either =
        or_iff (member name (agent_names config)) (member name (experiment_names config)) in
      let a = member_iff name (agent_names config) in
      let e = member_iff name (experiment_names config) in
      (
        (λ h. elim (either.0 h) [ inl m ↦ inl (a.0 m) | inr m ↦ inr (e.0 m) ]),
        λ h. either.1 (elim h [ inl m ↦ inl (a.1 m) | inr m ↦ inr (e.1 m) ]),
      )

  -- Either the agent's name is a template, or it is the name of an agent or an experiment.
  target_iff :
      (config : Config f.F32) (t : TriggerConfig)
      → (check_target f crate (agent_names config) (experiment_names config) t ≡ ok tt)
        ↔ GoodTarget config t
  target_iff config t =
      let known = is_target_iff config t.agent in
      refuse_as _ _ (
        (λ h. elim (Bool-cases (is_templated t.agent)) [
          | inl e ↦ inl e
          | inr e ↦ inr (known.0 (ground arith))
        ]),
        λ h. elim h [ inl e ↦ rw e refl | inr m ↦ let e = known.1 m in ground arith ],
      )

  fresh_paths_iff : (paths : List String) → (paths_loop [] paths ≡ ok tt) ↔ Distinct paths
  fresh_paths_iff paths =
      let r =
        each_distinct_after {Q = λ s. Unit} (λ s. s) _ no_check paths
          (λ s. ((λ h. tt), λ h. refl)) in
      (
        (λ h. subst Distinct (map_id paths) (r.0 h).0),
        λ h. r.1 (subst Distinct (sym (map_id paths)) h, All-intro (λ s. Unit) paths (λ s. tt)),
      )

  -- The loop succeeds exactly when the names are distinct, each trigger has a target and a path
  -- under /hooks/, and the paths are distinct.
  pub check_triggers_iff :
      (config : Config f.F32)
      → (check_triggers f crate (agent_names config) (experiment_names config) [] [] config.triggers
          ≡ ok tt)
        ↔ (Distinct (map (λ t. TriggerConfig.name t) config.triggers)
            × All (λ t. GoodTarget config t × GoodPath t.kind) config.triggers
            × Distinct (filter_map (λ t. webhook_path t.kind) config.triggers))
  check_triggers_iff config =
      let both = loops_iff (agent_names config) (experiment_names config) [] [] config.triggers in
      let names =
        each_distinct_after (λ t. TriggerConfig.name t) (λ t. duplicate_trigger t.name)
          (checked (agent_names config) (experiment_names config)) config.triggers
          (λ t. seq_iff (target_iff config t) (prefix_iff t t.kind)) in
      let paths = fresh_paths_iff (filter_map (λ t. webhook_path t.kind) config.triggers) in
      (
        (λ h. let b = both.0 h in let n = names.0 b.0 in (n.0, n.1, paths.0 b.1)),
        λ h. both.1 (names.1 (h.0, h.1), paths.1 h.2),
      )
