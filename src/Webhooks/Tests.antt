-- ===== src/Webhooks/Tests.antt =====
-- Deliveries to a small set of webhooks, and the witnesses of their properties.
use sentora.Prelude.{
  if◌then◌else◌, inl, str_eq, All, Bool, List, String, [], false, if◌then◌else◌, inr, map, none,
  refl, some, str_eq_iff, true, ℕ, ◌∷◌, ◌≡◌,
}
use sentora.Collections.{Distinct}
use sentora.Ssrf.{Address, Network, resolve_and_validate}
use sentora.Webhooks.{Webhook}
use sentora.Webhooks.Delivery.{Outside, build_pinned_url, deliver, dispatch_event, make_post}
use sentora.Webhooks.Failures.{Event}
use sentora.Webhooks.Steps.{after, dispatch_event-map, id_of, receives}
use sentora.Webhooks.Targets.{IsSent, dispatch_event-IsSent}

abbrev public_address : Address
public_address = record {
  text = "93.184.216.34";
  is_private = false;
  is_loopback = false;
  is_link_local = false;
  is_reserved = false;
}

abbrev net : Network
net = record {
  urlparse = λ url. record {
    scheme = "https";
    hostname = some url;
    port = if str_eq url "bad" then inl "Port out of range 0-65535" else inr (some 8443);
    path = "/hook";
    params = "";
    query = "";
    fragment = "";
  };
  lower = λ s. s;
  getaddrinfo = λ host. inr (public_address ∷ []);
  ip_address = λ s. none;
}

-- A network behind which every endpoint answers with a status.
abbrev world : ℕ → Outside
world status = record {
  net = net;
  urlunparse = λ scheme netloc path params query fragment. netloc;
  post = λ p. inr status;
  sign = λ body secret. secret;
  dumps = λ event now payload. inr payload;
  digits = λ n. "8443";
  first_500 = λ s. s;
}

abbrev hook : String → Bool → Webhook
hook id enabled = record {
  id = id;
  name = "ops";
  url = "hooks.example.com";
  events = "sync.completed" ∷ [];
  secret = "s3cret";
  enabled = enabled;
  created_at = "2024-01-01";
  last_triggered_at = none;
  failure_count = 0;
  last_error = none;
}

abbrev hooks : List Webhook
hooks = hook "w1" true ∷ hook "w2" false ∷ []

-- The request goes to the address, and names the host with its port.
pinned :
    map {B = String × String}
      (λ p. (p.url, p.host_header))
      (dispatch_event (world 200) "now" "sync.completed" "{}" hooks).posts
    ≡ ("93.184.216.34:8443", "hooks.example.com:8443") ∷ []
unfolding dispatch_event deliver resolve_and_validate make_post build_pinned_url
pinned = refl

abbrev w2 : String
w2 = "w2"

hooks_apart : Distinct id_of hooks
hooks_apart = (((λ e. cc ((str_eq_iff w2 "w1").1 e)), tt), (tt, tt))

dispatch_event-map_example :
    (dispatch_event (world 500) "now" "sync.completed" "{}" hooks).hooks
    ≡ map
        (λ w.
          if receives "sync.completed" w
          then after (world 500) "now" "sync.completed" "{}" w
          else w)
        hooks
dispatch_event-map_example =
    dispatch_event-map (world 500) "now" "sync.completed" "{}" hooks hooks_apart

abbrev outage : Event
outage = record { out = world 500; now = "now"; name = "sync.completed"; payload = "{}" }

-- A webhook whose URL has a port out of range is never counted.
bad_port_stays :
    (dispatch_event
      (world 500)
      "now"
      "sync.completed"
      "{}"
      (record (hook "w1" true) { url = "bad" } ∷ [])).hooks
    ≡ record (hook "w1" true) { url = "bad" } ∷ []
unfolding dispatch_event deliver resolve_and_validate make_post build_pinned_url
bad_port_stays = refl

dispatch_event-IsSent_example :
    All
      (IsSent (world 200) "now" "sync.completed" "{}" hooks)
      (dispatch_event (world 200) "now" "sync.completed" "{}" hooks).posts
dispatch_event-IsSent_example = dispatch_event-IsSent (world 200) "now" "sync.completed" "{}" hooks
