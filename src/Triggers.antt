-- ===== src/Triggers.antt =====
-- crates/triggers/src: the boot, cron and webhook entries of a configuration, the check of the cron
-- schedules, and what each kind of trigger takes from its entry. The `cron` crate is a parameter.

pub mod Cron
pub mod Webhook
pub mod Templates
pub mod Tests
use coulisse.Prelude.{
  ℕ, String, false, codes, Option, none, some, List, [], ◌∷◌, if◌then◌else◌, Result, ok, err, ◌>>◌,
  ◌>>=◌, map_err, trim, count_fields, ◌==◌, nat_eq, filter_map,
}
use coulisse.Validation.{each}

pub data TriggerKind : Type 0 where
  boot : TriggerKind
  cron : (schedule : String) → TriggerKind
  webhook : (path : String) → TriggerKind

pub record TriggerConfig : Type 0 where
  pub agent : String
  pub kind : TriggerKind
  pub name : String
  pub prompt : String

-- `Schedule::from_str` of the `cron` crate, which reads six or seven fields.
pub record CronCrate : Type 1 where
  pub CronError : Type 0
  pub Schedule : Type 0
  pub from_str : List ℕ → Result CronError Schedule

pub data TriggerError (CronError : Type 0) : Type 0 where
  invalid_cron_schedule : (name schedule : String) (source : CronError) → TriggerError CronError

-- What a boot or a cron trigger keeps of its entry.
pub record BootTrigger (UserId : Type 0) : Type 0 where
  pub agent : String
  pub name : String
  pub prompt : String
  pub user_id : UserId

pub record CronTrigger (Schedule UserId : Type 0) : Type 0 where
  pub agent : String
  pub name : String
  pub prompt : String
  pub schedule : Schedule
  pub user_id : UserId

abbrev pub boot_from_config :
    {UserId : Type 0} → TriggerConfig → UserId → Option (BootTrigger UserId)
boot_from_config config user_id = elim config.kind [
  | boot ↦ some (record {
    agent = config.agent;
    name = config.name;
    prompt = config.prompt;
    user_id = user_id;
  })
  | cron schedule ↦ none
  | webhook path ↦ none
]

-- `0 ` before an expression of five fields.
unfoldable pub normalize : List ℕ → List ℕ
unfolding trim
normalize expr =
    let trimmed = trim expr in
    if count_fields false trimmed == 5 then 48 ∷ 32 ∷ trimmed else trimmed

abbrev pub ok_schedule : {E A : Type 0} → Result E A → Option A
ok_schedule (ok a) = some a
ok_schedule (err e) = none

module _ (crate : CronCrate) where
  -- `CronSchedule::from_str`.
  unfoldable pub parse_schedule : String → Result crate.CronError crate.Schedule
  parse_schedule expr = crate.from_str (normalize (codes expr))

  abbrev pub forget : {E A : Type 0} → Result E A → Result E (Unit {0})
  forget (ok a) = ok tt
  forget (err e) = err e

  abbrev pub validate_kind :
      TriggerConfig → TriggerKind → Result (TriggerError crate.CronError) (Unit {0})
  validate_kind t boot = ok tt
  validate_kind t (webhook path) = ok tt
  validate_kind t (cron schedule) =
      forget (map_err (invalid_cron_schedule t.name schedule) (parse_schedule schedule))

  unfoldable pub validate_all :
      List TriggerConfig → Result (TriggerError crate.CronError) (Unit {0})
  validate_all triggers = each (λ t. validate_kind t t.kind) triggers

  abbrev pub arm :
      {UserId : Type 0}
      → TriggerConfig
      → UserId
      → Result crate.CronError crate.Schedule
      → Option (CronTrigger crate.Schedule UserId)
  arm config user_id (err e) = none
  arm config user_id (ok parsed) = some (record {
    agent = config.agent;
    name = config.name;
    prompt = config.prompt;
    schedule = parsed;
    user_id = user_id;
  })

  abbrev pub cron_of_kind :
      {UserId : Type 0}
      → TriggerConfig
      → TriggerKind
      → UserId
      → Option (CronTrigger crate.Schedule UserId)
  cron_of_kind config boot user_id = none
  cron_of_kind config (webhook path) user_id = none
  cron_of_kind config (cron schedule) user_id = arm config user_id (parse_schedule schedule)

  -- `CronTrigger::from_config`.
  unfoldable pub cron_from_config :
      {UserId : Type 0} → TriggerConfig → UserId → Option (CronTrigger crate.Schedule UserId)
  cron_from_config config user_id = cron_of_kind config config.kind user_id

  -- The triggers that `Triggers::spawn_cron` arms, and those that `fire_boot` fires.
  unfoldable pub armed :
      {UserId : Type 0} → List TriggerConfig → UserId → List (CronTrigger crate.Schedule UserId)
  armed triggers user_id = filter_map (λ t. cron_from_config t user_id) triggers

abbrev pub fired_at_boot :
    {UserId : Type 0} → List TriggerConfig → UserId → List (BootTrigger UserId)
fired_at_boot triggers user_id = filter_map (λ t. boot_from_config t user_id) triggers
