-- ===== src/Webhooks/Documents.antt =====
-- The converters of backend/domains/webhooks/repository.py between documents and webhooks. The
-- encryption of a field is not of this part: a decryption that raises ValueError is `none`.
use sentora.Prelude.{Option, String, [], none, refl, some, true, ◌∷◌, ◌≡◌}
use sentora.Documents.{
  ◌>>=◌, text_or, Document, field, flag, flag_or, get_text, get_text-text?, number, number_or,
  read_text, text, text?, texts, texts_or,
}
use sentora.Webhooks.{Webhook}

-- `decrypt_field(s) or ""`, and the empty text for a ValueError.
abbrev pub read_secret : (String → Option String) → String → String
read_secret decrypt_field s = elim (decrypt_field s) [ none ↦ "" | some plain ↦ plain ]

unfoldable pub doc_to_webhook : (String → Option String) → Document → Option Webhook
doc_to_webhook decrypt_field doc = do
  id ← read_text (field "_id" doc)
  name ← text_or "" (field "name" doc)
  url ← text_or "" (field "url" doc)
  events ← texts_or [] (field "events" doc)
  secret ← text_or "" (field "secret" doc)
  enabled ← flag_or true (field "enabled" doc)
  created_at ← text_or "" (field "created_at" doc)
  last_triggered_at ← get_text (field "last_triggered_at" doc)
  failure_count ← number_or 0 (field "failure_count" doc)
  last_error ← get_text (field "last_error" doc)
  some (record {
    id = id;
    name = name;
    url = url;
    events = events;
    secret = read_secret decrypt_field secret;
    enabled = enabled;
    created_at = created_at;
    last_triggered_at = last_triggered_at;
    failure_count = failure_count;
    last_error = last_error;
  })

unfoldable pub webhook_to_doc : (String → String) → Webhook → Document
webhook_to_doc encrypt_field w =
    ("_id", text w.id)
    ∷ ("name", text w.name)
    ∷ ("url", text w.url)
    ∷ ("events", texts w.events)
    ∷ ("secret", text (encrypt_field w.secret))
    ∷ ("enabled", flag w.enabled)
    ∷ ("created_at", text w.created_at)
    ∷ ("last_triggered_at", text? w.last_triggered_at)
    ∷ ("failure_count", number w.failure_count)
    ∷ ("last_error", text? w.last_error)
    ∷ []

-- With a decryption that undoes the encryption, a stored webhook is read back as it was.
pub doc_to_webhook-webhook_to_doc :
    (encrypt_field : String → String) (decrypt_field : String → Option String) (w : Webhook)
    → ((s : String) → decrypt_field (encrypt_field s) ≡ some s)
    → doc_to_webhook decrypt_field (webhook_to_doc encrypt_field w) ≡ some w
unfolding doc_to_webhook webhook_to_doc
doc_to_webhook-webhook_to_doc encrypt_field decrypt_field w undone =
    rw
      (
        get_text-text? w.last_triggered_at,
        get_text-text? w.last_error,
        read_secret,
        undone w.secret,
      )
      refl
