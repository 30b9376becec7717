-- ===== src/Webhooks/Steps.antt =====
-- What a delivery makes of the collection (_deliver and dispatch_event of
-- backend/domains/webhooks/service.py), said for each webhook alone.
use sentora.Prelude.{
  All, All-keep, Bool, Bool-cases, List, String, Sum-cases, [], ap, false, if◌then◌else◌, inl, inr,
  keep, leb, map, none, refl, some, str_eq, str_eq_iff, sym, ℕ, ◌&&◌, ◌+◌, ◌∙◌, ◌∷◌, ◌≡◌, ◌≢◌,
}
use sentora.Collections.{Distinct}
use sentora.Collections.Folds.{
  each, each-keep, find_one-update_other, find_one-update_self, update_one-cong,
  update_one-update_one,
}
use sentora.Collections.Uniqueness.{All-map, Distinct-keep}
use sentora.Dicts.{str-ne}
use sentora.Scope.{member}
use sentora.Ssrf.{resolve_and_validate}
use sentora.Webhooks.{Webhook, get_by_id, has_id, update}
use sentora.Webhooks.Delivery.{
  Outside, Post, block, count_after, count_failure, deliver, deliver_all, dispatch_event, fail,
  make_post,
}
use Prim.Native.String.{◌++◌ as ◌⧺◌}
use text.Mathlib.TextPositions.{eq_refl}

-- How an attempt to deliver to a webhook ends.
pub data Ending : Type 0 where
  blocked failed : String → Ending
  died done : Ending

abbrev pub ending : Outside → String → String → String → Webhook → Ending
ending out now event_name payload w = elim (resolve_and_validate out.net w.url) [
  | inl text ↦ blocked text
  | inr ip ↦ elim (make_post out w ip event_name now payload) [
    | inl raised ↦ died
    | inr p ↦ elim (out.post p) [
      | inl text ↦ failed text
      | inr status ↦
          if leb 400 status then failed ("Webhook returned " ⧺ out.digits status) else done
    ]
  ]
]

abbrev pub blocked_text : String → ℕ → String
blocked_text text n =
    if leb 10 n then "Auto-disabled after 10 failures: " ⧺ text else "Blocked: " ⧺ text

-- The webhook after an attempt: a success sets the failures to zero, a failure counts one more and
-- disables the webhook when there are ten, and an attempt that died leaves it as it was.
abbrev pub ended : Outside → String → Webhook → Ending → Webhook
ended out now w (blocked text) = record w {
  enabled = if leb 10 (w.failure_count + 1) then false else w.enabled;
  failure_count = w.failure_count + 1;
  last_error = some (blocked_text text (w.failure_count + 1));
}
ended out now w (failed text) = record w {
  enabled = if leb 10 (w.failure_count + 1) then false else w.enabled;
  failure_count = w.failure_count + 1;
  last_error = some (out.first_500 text);
}
ended out now w died = w
ended out now w done = record w {
  failure_count = 0;
  last_triggered_at = some now;
  last_error = none;
}

abbrev pub after : Outside → String → String → String → Webhook → Webhook
after out now event_name payload w = ended out now w (ending out now event_name payload w)

abbrev pub id_of : Webhook → String
id_of w = w.id

-- What is stored of a webhook, written over it.
update_self :
    (w : Webhook) (hooks : List Webhook)
    → get_by_id w.id hooks ≡ some w
    → hooks ≡ update w.id (λ x. w) hooks
update_self w [] held = cc held
update_self w (x ∷ hooks) held = elim (Bool-cases (str_eq x.id w.id)) [
  | inl y ↦
      let here : some x ≡ some w = rw y at held in
      let same : x ≡ w = cc here in rw y (ap (λ v. v ∷ hooks) same)
  | inr n ↦
      let there : get_by_id w.id hooks ≡ some w = rw n at held in
      rw n (ap (λ vs. x ∷ vs) (update_self w hooks there))
]

module _ (out : Outside) (now event_name payload : String) where
  block-update :
      (w : Webhook) (text : String) (hooks : List Webhook)
      → get_by_id w.id hooks ≡ some w
      → (block out w text hooks).hooks ≡ update w.id (λ x. ended out now w (blocked text)) hooks
  block-update w text hooks held =
      let first = count_failure ("Blocked: " ⧺ text) in
      let found : get_by_id w.id (update w.id first hooks) ≡ some (first w) =
        find_one-update_self (has_id w.id) first hooks held (eq_refl w.id) in
      elim (Bool-cases (leb 10 (w.failure_count + 1))) [
        | inl y ↦
            rw (block, found, y)
              (update_one-update_one (has_id w.id) first _ hooks (λ x. refl)
                ∙ update_one-cong (has_id w.id) _ _ hooks held refl)
        | inr n ↦ rw (block, found, n) (update_one-cong (has_id w.id) _ _ hooks held refl)
      ]

  fail-update :
      (w : Webhook) (text : String) (p : Post) (hooks : List Webhook)
      → get_by_id w.id hooks ≡ some w
      → (fail out w text p hooks).hooks ≡ update w.id (λ x. ended out now w (failed text)) hooks
  fail-update w text p hooks held =
      let first = count_failure (out.first_500 text) in
      let found : get_by_id w.id (update w.id first hooks) ≡ some (first w) =
        find_one-update_self (has_id w.id) first hooks held (eq_refl w.id) in
      let counted = update w.id first hooks in
      let total : count_after w counted ≡ w.failure_count + 1 = rw (count_after, found) refl in
      elim (Bool-cases (leb 10 (w.failure_count + 1))) [
        | inl y ↦
            rw (fail, total, y)
              (update_one-update_one (has_id w.id) first _ hooks (λ x. refl)
                ∙ update_one-cong (has_id w.id) _ _ hooks held refl)
        | inr n ↦ rw (fail, total, n) (update_one-cong (has_id w.id) _ _ hooks held refl)
      ]

  -- A delivery writes the webhook that it was started with, where that is the stored one, and no other.
  pub deliver-update :
      (w : Webhook) (hooks : List Webhook)
      → get_by_id w.id hooks ≡ some w
      → (deliver out now event_name payload w hooks).hooks
        ≡ update w.id (λ x. after out now event_name payload w) hooks
  unfolding deliver
  deliver-update w hooks held = elim (Sum-cases (resolve_and_validate out.net w.url)) [
    | inl (text, refused) ↦ rw (deliver, after, ending, refused) (block-update w text hooks held)
    | inr (ip, passed) ↦ elim (Sum-cases (make_post out w ip event_name now payload)) [
      | inl (text, raised) ↦ rw (deliver, after, ending, passed, raised) (update_self w hooks held)
      | inr (p, made) ↦ elim (Sum-cases (out.post p)) [
        | inl (text, thrown) ↦
            rw (deliver, after, ending, passed, made, thrown) (fail-update w text p hooks held)
        | inr (status, answered) ↦ elim (Bool-cases (leb 400 status)) [
          | inl y ↦
              rw (deliver, after, ending, passed, made, answered, y) (fail-update w _ p hooks held)
          | inr n ↦
              rw (deliver, after, ending, passed, made, answered, n)
                (update_one-cong (has_id w.id) _ _ hooks held refl)
        ]
      ]
    ]
  ]

  -- The stored webhooks of a list that has not been delivered to yet are as they were.
  others_stored :
      (w : Webhook) (f : Webhook → Webhook) (ws hooks : List Webhook)
      → All (λ v. id_of v ≢ w.id) ws
      → ((x : Webhook) → id_of (f x) ≡ id_of x)
      → All (λ v. get_by_id v.id hooks ≡ some v) ws
      → All (λ v. get_by_id v.id (update w.id f hooks) ≡ some v) ws
  others_stored w f [] hooks apart keeps h = tt
  others_stored w f (v ∷ ws) hooks apart keeps h = (
    find_one-update_other (has_id v.id) (has_id w.id) f hooks (λ x t.
          let e : x.id ≡ w.id = (str_eq_iff x.id w.id).0 t in
          (
            str-ne x.id v.id (λ q. apart.0 (sym q ∙ e)),
            str-ne (f x).id v.id (λ q. apart.0 (sym q ∙ (keeps x ∙ e))),
          ))
        ∙ h.0,
    others_stored w f ws hooks apart.1 keeps h.1,
  )

  ended_self :
      (w : Webhook) (e : Ending) → record (ended out now w e) { id = w.id } ≡ ended out now w e
  ended_self w (blocked text) = refl
  ended_self w (failed text) = refl
  ended_self w died = refl
  ended_self w done = refl

  -- What is written over a document when a webhook has been delivered to.
  abbrev written : Webhook → Webhook → Webhook
  written d x = record (after out now event_name payload d) { id = x.id }

  written_self : (w : Webhook) → written w w ≡ after out now event_name payload w
  written_self w = ended_self w (ending out now event_name payload w)

  deliver_all-each :
      (ws hooks : List Webhook)
      → Distinct id_of ws
      → All (λ w. get_by_id w.id hooks ≡ some w) ws
      → (deliver_all out now event_name payload ws hooks).hooks
        ≡ each id_of written (λ d x. refl) ws hooks
  deliver_all-each [] hooks d h = refl
  deliver_all-each (w ∷ ws) hooks d h =
      let first : (deliver out now event_name payload w hooks).hooks
          ≡ update w.id (written w) hooks =
        deliver-update w hooks h.0
        ∙ update_one-cong (has_id w.id) _ (written w) hooks h.0 (sym (written_self w)) in
      ap (λ hs. (deliver_all out now event_name payload ws hs).hooks) first
      ∙ deliver_all-each ws (update w.id (written w) hooks) d.1
          (others_stored w (written w) ws hooks d.0 (λ x. refl) h.1)

-- Whether an event is delivered to a webhook.
abbrev pub receives : String → Webhook → Bool
receives event_name w = w.enabled && member event_name w.events

map-cong :
    (f g : Webhook → Webhook) (ws : List Webhook)
    → ((w : Webhook) → f w ≡ g w)
    → map f ws ≡ map g ws
map-cong f g [] e = refl
map-cong f g (w ∷ ws) e = rw (e w, map-cong f g ws e)

selected_stored :
    (q : Webhook → Bool) (hooks : List Webhook)
    → Distinct id_of hooks
    → All (λ w. get_by_id w.id hooks ≡ some w) (keep q hooks)
selected_stored q hooks d = All-keep (λ w. get_by_id w.id hooks ≡ some w) q hooks (stored hooks d)
  where
    stored : (ws : List Webhook) → Distinct id_of ws → All (λ w. get_by_id w.id ws ≡ some w) ws
    stored [] d = tt
    stored (w ∷ ws) d = (
      rw (eq_refl w.id) refl,
      All-map ws (λ v h. rw (str-ne w.id v.id (λ e. h.0 (sym e))) h.1)
          (both ws d.0 (stored ws d.1)),
    )
      where
        both :
            (vs : List Webhook)
            → All (λ v. id_of v ≢ id_of w) vs
            → All (λ v. get_by_id v.id ws ≡ some v) vs
            → All (λ v. (id_of v ≢ id_of w) × (get_by_id v.id ws ≡ some v)) vs
        both [] a b = tt
        both (v ∷ vs) a b = ((a.0, b.0), both vs a.1 b.1)

-- Where no two webhooks have one id, an event is delivered to the enabled webhooks that subscribe to
-- it, each from what is stored of it alone: a success sets its failures to zero, a failure or a refusal
-- by the guard counts one more and disables it when there are ten, an attempt for which no URL or no body
-- can be made changes nothing, and every other webhook is left as it was.
pub dispatch_event-map :
    (out : Outside) (now event_name payload : String) (hooks : List Webhook)
    → Distinct id_of hooks
    → (dispatch_event out now event_name payload hooks).hooks
      ≡ map (λ w. if receives event_name w then after out now event_name payload w else w) hooks
unfolding dispatch_event
dispatch_event-map out now event_name payload hooks d =
    let q = receives event_name in
    let chosen = Distinct-keep id_of q hooks d in
    deliver_all-each out now event_name payload (keep q hooks) hooks chosen
      (selected_stored q hooks d)
    ∙ (each-keep id_of (written out now event_name payload) (λ d x. refl) q hooks chosen d
        ∙ map-cong _ _ hooks (λ w. rw (written_self out now event_name payload w) refl))
