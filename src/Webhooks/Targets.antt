-- ===== src/Webhooks/Targets.antt =====
-- Where the posts of backend/domains/webhooks/service.py go.
use sentora.Prelude.{
  All, Bool-cases, List, Option, String, Sum-cases, [], inl, inr, keep, leb, refl, sym, ap, ℕ, ◌∙◌,
  ◌⊎◌, true, ◌++◌, ◌∷◌, ◌≡◌,
}
use sentora.Collections.Uniqueness.{All-map}
use sentora.Ssrf.{resolve_and_validate}
use sentora.Ssrf.Guard.{IsOutbound, resolve_and_validate-IsOutbound}
use sentora.Webhooks.{Webhook, update}
use sentora.Webhooks.Delivery.{
  Outside, Post, build_pinned_url, count_after, count_failure, deliver, deliver_all, dispatch_event,
  fail, make_post, or_empty, with_port, written_port,
}
use sentora.Webhooks.Steps.{receives}
use mathlib.Core.List.{Memᴰ}

-- A post that follows from a webhook: its URL has the address that the guard found in the place of the
-- webhook's host, the port, the path and the rest are those of the webhook's URL, and the header names
-- the host.
pub record IsPostOf (out : Outside) (event : String) (w : Webhook) (p : Post) : Type 0 where
  pub address : String
  pub target : IsOutbound out.net w.url address
  pub port : Option ℕ
  pub readable : (out.net.urlparse w.url).port ≡ inr port
  pub url :
      p.url
      ≡ out.urlunparse
          (out.net.urlparse w.url).scheme
          (with_port out address (written_port (out.net.urlparse w.url).scheme port))
          (out.net.urlparse w.url).path
          (out.net.urlparse w.url).params
          (out.net.urlparse w.url).query
          (out.net.urlparse w.url).fragment
  pub header :
      p.host_header ≡ with_port out target.host (written_port (out.net.urlparse w.url).scheme port)
  pub event_sent : p.event ≡ event
  pub signed : p.signature ≡ out.sign p.body w.secret

make_post-IsPostOf :
    (out : Outside) (w : Webhook) (ip event now payload : String) {p : Post}
    → resolve_and_validate out.net w.url ≡ inr ip
    → make_post out w ip event now payload ≡ inr p
    → IsPostOf out event w p
unfolding make_post build_pinned_url
make_post-IsPostOf out w ip event now payload {p} found made =
    let target = resolve_and_validate-IsOutbound out.net w.url found in
    elim (Sum-cases (out.net.urlparse w.url).port) [
      | inl (text, raised) ↦
          let wrong : inl text ≡ inr p = rw (make_post, build_pinned_url, raised) at made in
          cc wrong
      | inr (port, read) ↦ elim (Sum-cases (out.dumps event now payload)) [
        | inl (text, raised) ↦
            let wrong : inl text ≡ inr p = rw (make_post, build_pinned_url, read, raised) at made in
            cc wrong
        | inr (body, dumped) ↦
            let written = written_port (out.net.urlparse w.url).scheme port in
            let parsed = out.net.urlparse w.url in
            let posted : inr (record {
              url =
                  out.urlunparse parsed.scheme (with_port out ip written) parsed.path parsed.params
                    parsed.query parsed.fragment;
              host_header = with_port out (or_empty parsed.hostname) written;
              signature = out.sign body w.secret;
              event = event;
              body = body;
            })
                ≡ inr p =
              rw (make_post, build_pinned_url, read, dumped) at made in
            let same = from_inr posted in
            record {
              address = ip;
              target = target;
              port = port;
              readable = read;
              url = ap (λ (q : Post). q.url) (sym same);
              header =
                  ap (λ (q : Post). q.host_header) (sym same)
                  ∙ ap (λ o. with_port out (or_empty o) written) target.named;
              event_sent = ap (λ (q : Post). q.event) (sym same);
              signed =
                  ap (λ (q : Post). q.signature) (sym same)
                  ∙ ap (λ (q : Post). out.sign q.body w.secret) same;
            }
      ]
    ]
  where
    from_inr : {q r : Post} → ◌≡◌ {A = String ⊎ Post} (inr q) (inr r) → q ≡ r
    from_inr e = cc e

All-append_both {κ} :
    (P : Post → Type κ) (ps qs : List Post) → All P ps → All P qs → All P (ps ++ qs)
All-append_both P [] qs h k = k
All-append_both P (p ∷ ps) qs h k = (h.0, All-append_both P ps qs h.1 k)

module _ (out : Outside) (now event payload : String) where
  deliver-posts :
      (w : Webhook) (hooks : List Webhook)
      → All (IsPostOf out event w) (deliver out now event payload w hooks).posts
  unfolding deliver
  deliver-posts w hooks = elim (Sum-cases (resolve_and_validate out.net w.url)) [
    | inl (text, stopped) ↦ rw (deliver, stopped) tt
    | inr (ip, found) ↦ elim (Sum-cases (make_post out w ip event now payload)) [
      | inl (text, raised) ↦ rw (deliver, found, raised) tt
      | inr (p, made) ↦
          let ok = make_post-IsPostOf out w ip event now payload found made in
          elim (Sum-cases (out.post p)) [
            | inl (text, thrown) ↦ rw (deliver, found, made, thrown) (fail_posts w text p hooks ok)
            | inr (status, answered) ↦ elim (Bool-cases (leb 400 status)) [
              | inl y ↦ rw (deliver, found, made, answered, y) (fail_posts w _ p hooks ok)
              | inr n ↦ rw (deliver, found, made, answered, n) (ok, tt)
            ]
          ]
    ]
  ]
    where
      fail_posts :
          (w : Webhook) (text : String) (p : Post) (hooks : List Webhook)
          → IsPostOf out event w p
          → All (IsPostOf out event w) (fail out w text p hooks).posts
      fail_posts w text p hooks ok =
          let counted = update w.id (count_failure (out.first_500 text)) hooks in
          elim (Bool-cases (leb 10 (count_after w counted))) [
            | inl y ↦ rw (fail, y) (ok, tt)
            | inr n ↦ rw (fail, n) (ok, tt)
          ]

  -- A post on behalf of an enabled webhook of a list, one that subscribes to the event.
  abbrev pub IsSent : List Webhook → Post → Type 0
  IsSent hooks p = (w : Webhook) × Memᴰ w hooks × (receives event w ≡ true) × IsPostOf out event w p

  deliver_all-posts :
      (all ws hooks : List Webhook)
      → All (λ w. Memᴰ w all × (receives event w ≡ true)) ws
      → All (IsSent all) (deliver_all out now event payload ws hooks).posts
  deliver_all-posts all [] hooks h = tt
  deliver_all-posts all (w ∷ ws) hooks h =
      let d = deliver out now event payload w hooks in
      All-append_both (IsSent all) d.posts (deliver_all out now event payload ws d.hooks).posts
        (All-map d.posts (λ p ok. (w, h.0.0, h.0.1, ok)) (deliver-posts w hooks))
        (deliver_all-posts all ws d.hooks h.1)

  kept_members :
      (all hooks : List Webhook)
      → All (λ w. Memᴰ w all) hooks
      → All (λ w. Memᴰ w all × (receives event w ≡ true)) (keep (receives event) hooks)
  kept_members all [] h = tt
  kept_members all (w ∷ hooks) h = elim (Bool-cases (receives event w)) [
    | inl y ↦ rw y ((h.0, y), kept_members all hooks h.1)
    | inr n ↦ rw n (kept_members all hooks h.1)
  ]

  members : (hooks : List Webhook) → All (λ w. Memᴰ w hooks) hooks
  members [] = tt
  members (w ∷ hooks) = (Memᴰ.head refl, All-map hooks (λ v m. Memᴰ.tail m) (members hooks))

  -- Every post of an event is on behalf of a stored webhook that is enabled and subscribes to the event;
  -- it goes to the first of the addresses that the guard has just resolved the webhook's host name to,
  -- all of them external, never to a name that could resolve anew; and its body is signed with the
  -- webhook's secret.
  pub dispatch_event-IsSent :
      (hooks : List Webhook) → All (IsSent hooks) (dispatch_event out now event payload hooks).posts
  unfolding dispatch_event
  dispatch_event-IsSent hooks =
      deliver_all-posts hooks (keep (receives event) hooks) hooks
        (kept_members hooks hooks (members hooks))
