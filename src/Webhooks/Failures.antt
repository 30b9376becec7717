-- ===== src/Webhooks/Failures.antt =====
-- Webhooks that fail (backend/domains/webhooks/service.py): when one is disabled, and where posts go.
use sentora.Prelude.{
  Bool, List, Option, String, [], false, if◌then◌else◌, inl, inr, leb, ltb, min, true, ℕ, ◌+◌, ◌∷◌,
  ◌≡◌, ◌⊎◌,
}
use sentora.Scope.{member}
use sentora.Webhooks.{Webhook}
use sentora.Webhooks.Delivery.{Outside, Post, dispatch_event}
use sentora.Webhooks.Steps.{after, receives}

-- An event, with the state of the world while it is delivered.
pub record Event : Type 0 where
  pub out : Outside
  pub now : String
  pub name : String
  pub payload : String

abbrev pub dispatch_events : List Event → List Webhook → List Webhook
dispatch_events [] hooks = hooks
dispatch_events (e ∷ es) hooks =
    dispatch_events es (dispatch_event e.out e.now e.name e.payload hooks).hooks

abbrev pub is_down : String ⊎ ℕ → Bool
is_down (inl text) = true
is_down (inr status) = leb 400 status

-- An event that a webhook subscribes to while every post fails or is answered by an error. The port in
-- its URL can be read, and the event has a JSON text.
abbrev pub Down : List String → String → Event → Type 0
Down events url e =
    (member e.name events ≡ true)
    × ((p : Post) → is_down (e.out.post p) ≡ true)
    × ((port : Option ℕ) × ((e.out.net.urlparse url).port ≡ inr port))
    × ((body : String) × (e.out.dumps e.name e.now e.payload ≡ inr body))

abbrev step : Event → Webhook → Webhook
step e w = if receives e.name w then after e.out e.now e.name e.payload w else w

abbrev Failed : Webhook → Webhook → Type 0
Failed w v =
    (v.failure_count ≡ w.failure_count + 1)
    × (v.enabled ≡ (if leb 10 (w.failure_count + 1) then false else w.enabled))
    × (v.events ≡ w.events)
    × (v.url ≡ w.url)
    × (v.id ≡ w.id)

follow : List Event → Webhook → Webhook
follow [] w = w
follow (e ∷ es) w = follow es (step e w)

-- The state of a webhook after `n` failures in a row.
abbrev AfterFailures : ℕ → List String → String → Webhook → Type 0
AfterFailures n events url w =
    (w.failure_count ≡ min 10 n) × (w.enabled ≡ ltb n 10) × (w.events ≡ events) × (w.url ≡ url)
