-- ===== src/Triggers/Webhook.antt =====
-- crates/triggers/src/webhook.rs: the templates of a webhook's agent and prompt, and the answer to a
-- request. `serde_json::Value` and the queue are parameters.
use coulisse.Prelude.{
  ℕ, zero, suc, String, codes, ◌||◌, Option, none, some, List, [], ◌∷◌, ◌++◌, if◌then◌else◌, length,
  split_at, split_on, contains_text, trim, is_nil,
}
use coulisse.Triggers.{TriggerConfig}
use coulisse.Triggers.TriggerKind.{boot, cron, webhook}

-- A member of an object, a string's text and the text of any other value.
pub record JsonCrate : Type 1 where
  pub Value : Type 0
  pub get : Value → List ℕ → Option Value
  pub as_str : Value → Option (List ℕ)
  pub to_string : Value → List ℕ

pub record WebhookTrigger (UserId : Type 0) : Type 0 where
  pub agent_template : String
  pub name : String
  pub path : String
  pub prompt_template : String
  pub user_id : UserId

abbrev pub webhook_from_config :
    {UserId : Type 0} → TriggerConfig → UserId → Option (WebhookTrigger UserId)
webhook_from_config config user_id = elim config.kind [
  | boot ↦ none
  | cron schedule ↦ none
  | webhook path ↦ some (record {
    agent_template = config.agent;
    name = config.name;
    path = path;
    prompt_template = config.prompt;
    user_id = user_id;
  })
]

-- `format!("{{{{ {path} }}}}")`.
abbrev pub unresolved : List ℕ → List ℕ
unresolved path = codes "{{ " ++ path ++ codes " }}"

abbrev pub or_unresolved : List ℕ → Option (List ℕ) → List ℕ
or_unresolved path none = unresolved path
or_unresolved path (some value) = value

pub data Reply (TaskId : Type 0) : Type 0 where
  accepted : TaskId → Reply TaskId
  bad_request internal_server_error : Reply TaskId

abbrev pub answer : {TaskId Queue : Type 0} → Option TaskId × Queue → Reply TaskId × Queue
answer (none, after) = (internal_server_error, after)
answer (some task_id, after) = (accepted task_id, after)

module _ (json : JsonCrate) where
  abbrev pub walk_segments : json.Value → List (List ℕ) → Option json.Value
  walk_segments current [] = some current
  walk_segments current (segment ∷ segments) = elim (json.get current segment) [
    | none ↦ none
    | some inner ↦ walk_segments inner segments
  ]

  abbrev pub text_of : json.Value → List ℕ
  text_of current = elim (json.as_str current) [ none ↦ json.to_string current | some s ↦ s ]

  unfoldable pub walk : json.Value → List ℕ → Option (List ℕ)
  walk value path =
      let (segment, segments) = split_on b'.' path in
      elim (walk_segments value (segment ∷ segments)) [
        | none ↦ none
        | some current ↦ some (text_of current)
      ]

  -- The loop of `substitute`. Every turn drops an opener, so the template's length is fuel enough.
  unfoldable pub substitute_loop : json.Value → ℕ → List ℕ → List ℕ → List ℕ
  substitute_loop payload zero out rest = out ++ rest
  substitute_loop payload (suc fuel) out rest = elim (split_at (codes "{{") rest) [
    | none ↦ out ++ rest
    | some (before, after_open) ↦ elim (split_at (codes "}}") after_open) [
      | none ↦ substitute_loop payload fuel (out ++ before ++ codes "{{") after_open
      | some (inner, closed) ↦
          let path = trim inner in
          substitute_loop payload fuel (out ++ before ++ or_unresolved path (walk payload path))
            closed
    ]
  ]

  unfoldable pub substitute : List ℕ → json.Value → List ℕ
  substitute template payload = substitute_loop payload (length template) [] template

  -- The queue's `submit`, on the state that holds the queue.
  unfoldable pub handle :
      {UserId Queue TaskId : Type 0}
      → (Queue → List ℕ → List ℕ → UserId → Option TaskId × Queue)
      → WebhookTrigger UserId
      → json.Value
      → Queue
      → Reply TaskId × Queue
  handle submit trigger payload queue =
      let agent = substitute (codes trigger.agent_template) payload in
      let prompt = substitute (codes trigger.prompt_template) payload in
      if contains_text (codes "{{") agent || is_nil (trim agent)
      then (bad_request, queue)
      else answer (submit queue agent prompt trigger.user_id)
