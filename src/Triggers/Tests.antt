-- ===== src/Triggers/Tests.antt =====
-- Triggers, templates and requests at small inputs.
use coulisse.Prelude.{
  ℕ, ◌≡◌, refl, Option, none, some, codes, List, [], ◌∷◌, map, keep, ok, trim, split_at, split_on,
  ◌==◌, text_eq, if◌then◌else◌,
}
use coulisse.Validation.{each}
use coulisse.Triggers.{
  TriggerConfig, CronCrate, CronTrigger, validate_all, parse_schedule, armed, normalize,
}
use coulisse.Triggers.TriggerKind.{boot, cron, webhook}
use coulisse.Triggers.Cron.{is_cron, armed-validate_all}
use coulisse.Triggers.Webhook.{JsonCrate, WebhookTrigger, walk, substitute, substitute_loop}

-- A crate that takes every expression for a schedule.
abbrev any_schedule : CronCrate
any_schedule = record { CronError = Unit {0}; Schedule = List ℕ; from_str = λ expr. ok expr }

abbrev triggers : List TriggerConfig
triggers =
    record { agent = "a"; kind = boot; name = "start"; prompt = "go" }
    ∷ record { agent = "a"; kind = cron "0 9 * * *"; name = "daily"; prompt = "go" }
    ∷ record { agent = "a"; kind = webhook "/hooks/x"; name = "hook"; prompt = "go" }
    ∷ []

triggers_pass : validate_all any_schedule triggers ≡ ok tt
unfolding validate_all each parse_schedule
triggers_pass = refl

abbrev user : ℕ
user = 7

armed-validate_all_example :
    map (λ c. CronTrigger.name c) (armed any_schedule triggers user)
    ≡ map (λ t. TriggerConfig.name t) (keep is_cron triggers)
armed-validate_all_example = armed-validate_all any_schedule user triggers triggers_pass

-- Five fields get the seconds in front.
five_fields : normalize (codes " 0 9 * * * ") ≡ codes "0 0 9 * * *"
unfolding normalize trim
five_fields = refl

-- Objects of one member `who`, or texts.
abbrev flat : JsonCrate
flat = record {
  Value = List ℕ;
  get = λ value key. if key == codes "who" then some (codes "Ann") else none;
  as_str = λ value. some value;
  to_string = λ value. value;
}

fills_in : substitute flat (codes "hi {{ who }}: {{x}}") [] ≡ codes "hi Ann: {{ x }}"
unfolding substitute substitute_loop walk trim split_at split_on
fills_in = refl

abbrev hook : WebhookTrigger ℕ
hook = record {
  agent_template = "{{who}}";
  name = "hook";
  path = "/hooks/x";
  prompt_template = "go";
  user_id = 7;
}

abbrev submit : List ℕ → List ℕ → List ℕ → ℕ → Option ℕ × List ℕ
submit queue agent prompt user_id = (some 1, agent)
