-- ===== src/Webhooks.antt =====
-- backend/domains/webhooks: registrations of HTTP callbacks, their edits, and the delivery of events to
-- them. The collection is the list of its documents, each stood for by the entity that it reads as;
-- deliveries and audit entries are lists of what is sent and written.
pub mod Delivery
pub mod Steps
pub mod Failures
pub mod Targets
pub mod Documents
mod Tests
use sentora.Prelude.{
  Bool, List, Option, String, [], false, if◌then◌else◌, inl, inr, keep, ltb, none, not, some,
  str_eq, true, ℕ, ◌&&◌, ◌++◌, ◌∷◌, ◌⊎◌,
}
use sentora.Collections.{delete_one, find_one, update_one}
use sentora.Scope.{member}

pub record Webhook : Type 0 where
  pub id : String
  pub name : String
  pub url : String
  pub events : List String
  pub secret : String
  pub enabled : Bool
  pub created_at : String
  pub last_triggered_at : Option String
  pub failure_count : ℕ
  pub last_error : Option String

unfoldable pub valid_events : List String
valid_events =
    "sync.completed" ∷ "sync.failed" ∷ "classification.completed"
    ∷ "classification.anomaly_detected" ∷ "enforcement.check.completed"
    ∷ "enforcement.violation.new" ∷ "enforcement.violation.resolved" ∷ "compliance.check.completed"
    ∷ "compliance.violation.new" ∷ "compliance.violation.resolved" ∷ "compliance.score.degraded"
    ∷ "audit.chain.integrity_failure" ∷ []

pub data WebhookError : Type 0 where
  not_found : String → WebhookError
  invalid_events : List String → WebhookError

-- The response: the entity without its secret.
pub record WebhookResponse : Type 0 where
  pub id : String
  pub name : String
  pub url : String
  pub events : List String
  pub enabled : Bool
  pub created_at : String
  pub last_triggered_at : Option String
  pub failure_count : ℕ
  pub last_error : Option String

abbrev pub webhook_to_response : Webhook → WebhookResponse
webhook_to_response w = record {
  id = w.id;
  name = w.name;
  url = w.url;
  events = w.events;
  enabled = w.enabled;
  created_at = w.created_at;
  last_triggered_at = w.last_triggered_at;
  failure_count = w.failure_count;
  last_error = w.last_error;
}

abbrev pub has_id : String → Webhook → Bool
has_id id w = str_eq w.id id

abbrev pub get_by_id : String → List Webhook → Option Webhook
get_by_id id hooks = find_one (has_id id) hooks

abbrev pub update : String → (Webhook → Webhook) → List Webhook → List Webhook
update id f hooks = update_one (has_id id) f hooks

abbrev pub get_by_event : String → List Webhook → List Webhook
get_by_event event_name hooks = keep (λ w. w.enabled && member event_name w.events) hooks

-- `list(dict.fromkeys(events))`: the first of each, in order.
abbrev pub dedup_after : List String → List String → List String
dedup_after seen [] = []
dedup_after seen (e ∷ es) =
    let rest = dedup_after (e ∷ seen) es in if member e seen then rest else e ∷ rest

abbrev pub dedup : List String → List String
dedup es = dedup_after [] es

abbrev pub invalid : List String → List String
invalid events = keep (λ e. not (member e valid_events)) (dedup events)

pub record CreateRequest : Type 0 where
  pub name : String
  pub url : String
  pub events : List String
  pub secret : String

pub record UpdateRequest : Type 0 where
  pub name : Option String
  pub url : Option String
  pub events : Option (List String)
  pub enabled : Option Bool

-- `id`, `token` and `now` are `str(ObjectId())`, `secrets.token_hex(32)` and the time of the call.
unfoldable pub create_webhook :
    String
    → String
    → String
    → CreateRequest
    → List Webhook
    → (WebhookError ⊎ WebhookResponse) × List Webhook
create_webhook id token now req hooks =
    let webhook : Webhook = record {
      id = id;
      name = req.name;
      url = req.url;
      events = dedup req.events;
      secret = if str_eq req.secret "" then token else req.secret;
      enabled = true;
      created_at = now;
      last_triggered_at = none;
      failure_count = 0;
      last_error = none;
    } in
    elim (invalid req.events) [
      | e ∷ es ↦ (inl (invalid_events (e ∷ es)), hooks)
      | [] ↦ (inr (webhook_to_response webhook), hooks ++ (webhook ∷ []))
    ]

abbrev pub or_keep {ℓ} : {A : Type ℓ} → Option A → A → A
or_keep none a = a
or_keep (some b) a = b

-- The count that the update leaves: re-enabling sets it to zero.
abbrev pub reset_count : Option Bool → Webhook → ℕ → ℕ
reset_count none read n = n
reset_count (some false) read n = n
reset_count (some true) read n = if ltb 0 read.failure_count then 0 else n

-- `updates`, on the stored document; `read` is the entity that the function has read.
abbrev pub updated : UpdateRequest → Webhook → Webhook → Webhook
updated req read w = record w {
  name = or_keep req.name w.name;
  url = or_keep req.url w.url;
  events = elim req.events [ none ↦ w.events | some es ↦ dedup es ];
  enabled = or_keep req.enabled w.enabled;
  failure_count = reset_count req.enabled read w.failure_count;
}

abbrev pub invalid_update : UpdateRequest → List String
invalid_update req = elim req.events [ none ↦ [] | some es ↦ invalid es ]

abbrev pub respond : String → List Webhook → (WebhookError ⊎ WebhookResponse) × List Webhook
respond id hooks = elim (get_by_id id hooks) [
  | none ↦ (inl (not_found id), hooks)
  | some w ↦ (inr (webhook_to_response w), hooks)
]

-- With nothing to update the write is left out; it would change nothing.
unfoldable pub update_webhook :
    String → UpdateRequest → List Webhook → (WebhookError ⊎ WebhookResponse) × List Webhook
update_webhook id req hooks = elim (get_by_id id hooks) [
  | none ↦ (inl (not_found id), hooks)
  | some read ↦ elim (invalid_update req) [
    | e ∷ es ↦ (inl (invalid_events (e ∷ es)), hooks)
    | [] ↦ respond id (update id (updated req read) hooks)
  ]
]

unfoldable pub delete_webhook : String → List Webhook → Option WebhookError × List Webhook
delete_webhook id hooks = elim (get_by_id id hooks) [
  | none ↦ (some (not_found id), hooks)
  | some w ↦ (none, delete_one (has_id id) hooks)
]
