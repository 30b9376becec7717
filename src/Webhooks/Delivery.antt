-- ===== src/Webhooks/Delivery.antt =====
-- The delivery of an event, _deliver, dispatch_event and test_webhook of
-- backend/domains/webhooks/service.py. The deliveries of an event are tasks; here each runs whole. The
-- calls of the database do not fail.
use sentora.Prelude.{
  Bool, List, Option, String, [], false, if◌then◌else◌, inl, inr, leb, ltb, none, some, str_eq, ℕ,
  ◌&&◌, ◌++◌, ◌+◌, ◌==◌, ◌||◌, ◌∷◌, ◌⊎◌,
}
use sentora.Ssrf.{Network, resolve_and_validate}
use sentora.Webhooks.{Webhook, get_by_event, get_by_id, update}
use Prim.Native.String.{◌++◌ as ◌⧺◌}

-- What is posted, and where to.
pub record Post : Type 0 where
  pub url : String
  pub host_header : String
  pub signature : String
  pub event : String
  pub body : String

-- What is not of this repository: the network, `urlunparse`, `httpx`'s POST with the text of its
-- exception or the status, the HMAC of a body under a secret, the JSON text of a body with its time, or
-- the text of the exception for a payload that has none, the digits of a number, and Python's `s[:500]`.
pub record Outside : Type 0 where
  pub net : Network
  pub urlunparse : String → String → String → String → String → String → String
  pub post : Post → String ⊎ ℕ
  pub sign : String → String → String
  pub dumps : String → String → String → String ⊎ String
  pub digits : ℕ → String
  pub first_500 : String → String

abbrev pub max_failures : ℕ
max_failures = 10

abbrev pub or_empty : Option String → String
or_empty none = ""
or_empty (some s) = s

-- The port that is written out: one that is not zero and not the default of the scheme.
abbrev pub written_port : String → Option ℕ → Option ℕ
written_port scheme none = none
written_port scheme (some port) =
    if (port == 0)
      || ((str_eq scheme "http" && port == 80) || (str_eq scheme "https" && port == 443))
    then none
    else some port

-- A host, with the port that is written out.
abbrev pub with_port : Outside → String → Option ℕ → String
with_port out host none = host
with_port out host (some port) = host ⧺ (":" ⧺ out.digits port)

-- `_build_pinned_url`: the URL with the address in place of the host name, and the host header. It
-- raises what reading the port raises.
unfoldable pub build_pinned_url : Outside → String → String → String ⊎ (String × String)
build_pinned_url out original_url resolved_ip =
    let parsed = out.net.urlparse original_url in
    elim parsed.port [
      | inl raised ↦ inl raised
      | inr port ↦
          let written = written_port parsed.scheme port in
          inr (
            out.urlunparse parsed.scheme (with_port out resolved_ip written) parsed.path
                parsed.params parsed.query parsed.fragment,
            with_port out (or_empty parsed.hostname) written,
          )
    ]

-- What is to be posted. This runs outside the `try`, and what it raises ends the task.
unfoldable pub make_post : Outside → Webhook → String → String → String → String → String ⊎ Post
make_post out webhook safe_ip event_name now payload =
    elim (build_pinned_url out webhook.url safe_ip) [
      | inl raised ↦ inl raised
      | inr (pinned_url, host_header) ↦ elim (out.dumps event_name now payload) [
        | inl raised ↦ inl raised
        | inr body ↦ inr (record {
          url = pinned_url;
          host_header = host_header;
          signature = out.sign body webhook.secret;
          event = event_name;
          body = body;
        })
      ]
    ]

pub data AuditEntry : Type 0 where
  auto_disabled : String → ℕ → String → AuditEntry

-- What a delivery leaves: the collection, what it posted, and the audit entries.
pub record Delivered : Type 0 where
  pub hooks : List Webhook
  pub posts : List Post
  pub audits : List AuditEntry

abbrev pub count_failure : String → Webhook → Webhook
count_failure text w = record w { failure_count = w.failure_count + 1; last_error = some text }

-- After a refusal by the guard.
abbrev pub block : Outside → Webhook → String → List Webhook → Delivered
block out webhook text hooks =
    let counted = update webhook.id (count_failure ("Blocked: " ⧺ text)) hooks in
    let disabled =
      update webhook.id
        (λ w. record w {
          enabled = false;
          last_error = some ("Auto-disabled after 10 failures: " ⧺ text);
        })
        counted in
    record {
      hooks = elim (get_by_id webhook.id counted) [
        | none ↦ counted
        | some u ↦ if leb max_failures u.failure_count then disabled else counted
      ];
      posts = [];
      audits = [];
    }

-- `updated_wh.failure_count if updated_wh else webhook.failure_count + 1`
abbrev pub count_after : Webhook → List Webhook → ℕ
count_after webhook counted = elim (get_by_id webhook.id counted) [
  | none ↦ webhook.failure_count + 1
  | some u ↦ u.failure_count
]

-- After a post that failed: the count is read again, or computed if the webhook is gone.
abbrev pub fail : Outside → Webhook → String → Post → List Webhook → Delivered
fail out webhook text p hooks =
    let counted = update webhook.id (count_failure (out.first_500 text)) hooks in
    let new_count = count_after webhook counted in
    if leb max_failures new_count
    then record {
      hooks = update webhook.id (λ w. record w { enabled = false }) counted;
      posts = p ∷ [];
      audits = auto_disabled webhook.id new_count text ∷ [];
    }
    else record { hooks = counted; posts = p ∷ []; audits = [] }

abbrev pub succeed : String → Webhook → Post → List Webhook → Delivered
succeed now webhook p hooks = record {
  hooks =
      update webhook.id
        (λ w. record w { failure_count = 0; last_triggered_at = some now; last_error = none })
        hooks;
  posts = p ∷ [];
  audits = [];
}

unfoldable pub deliver : Outside → String → String → String → Webhook → List Webhook → Delivered
deliver out now event_name payload webhook hooks = elim (resolve_and_validate out.net webhook.url) [
  | inl text ↦ block out webhook text hooks
  | inr safe_ip ↦ elim (make_post out webhook safe_ip event_name now payload) [
    | inl raised ↦ record { hooks = hooks; posts = []; audits = [] }
    | inr p ↦ elim (out.post p) [
      | inl text ↦ fail out webhook text p hooks
      | inr status ↦
          if leb 400 status
          then fail out webhook ("Webhook returned " ⧺ out.digits status) p hooks
          else succeed now webhook p hooks
    ]
  ]
]

abbrev pub deliver_all :
    Outside → String → String → String → List Webhook → List Webhook → Delivered
deliver_all out now event_name payload [] hooks = record { hooks = hooks; posts = []; audits = [] }
deliver_all out now event_name payload (w ∷ ws) hooks =
    let d = deliver out now event_name payload w hooks in
    let rest = deliver_all out now event_name payload ws d.hooks in
    record { hooks = rest.hooks; posts = d.posts ++ rest.posts; audits = d.audits ++ rest.audits }

unfoldable pub dispatch_event : Outside → String → String → String → List Webhook → Delivered
dispatch_event out now event_name payload hooks =
    deliver_all out now event_name payload (get_by_event event_name hooks) hooks

-- The result of a test, without the time that it took.
pub record TestResponse : Type 0 where
  pub success : Bool
  pub status_code : Option ℕ

-- A raised exception is its text.
unfoldable pub test_webhook :
    Outside → String → String → List Webhook → String ⊎ (TestResponse × List Post)
test_webhook out now id hooks = elim (get_by_id id hooks) [
  | none ↦ inl ("Webhook '" ⧺ (id ⧺ "' not found"))
  | some webhook ↦ elim (resolve_and_validate out.net webhook.url) [
    | inl text ↦ inr (record { success = false; status_code = none }, [])
    | inr safe_ip ↦
        elim (make_post out webhook safe_ip "webhook.test" now
          "This is a test event from Sentora") [
            | inl raised ↦ inl raised
            | inr p ↦ elim (out.post p) [
              | inl text ↦ inr (record { success = false; status_code = none }, p ∷ [])
              | inr status ↦
                  inr (record { success = ltb status 400; status_code = some status }, p ∷ [])
            ]
          ]
  ]
]
