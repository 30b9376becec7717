-- ===== src/Ssrf/Guard.antt =====
-- What the guard lets pass (backend/utils/ssrf.py).
use sentora.Prelude.{
  All, Bool-cases, List, Option, Option-cases, String, Sum-cases, [], ap, false, inl, inr, none,
  some, str_eq, subst, true, ◌∙◌, ◌∷◌, ◌≡◌,
}
use sentora.Scope.{member}
use sentora.Ssrf.{
  Address, Network, ParsedUrl, blocked_hosts, check_host, first_safe, is_internal,
  resolve_and_validate, resolve_host, web_scheme,
}

abbrev pub AllExternal : List Address → Type 0
AllExternal = All (λ a. is_internal a ≡ false)

first_safe-external :
    (as' : List Address) (o : Option String) {o' : Option String}
    → first_safe as' o ≡ inr o'
    → AllExternal as'
first_safe-external [] o e = tt
first_safe-external (a ∷ as') o {o'} e = elim (Bool-cases (is_internal a)) [
  | inl y ↦ let wrong : inl _ ≡ inr o' = rw (first_safe, y) at e in cc wrong
  | inr n ↦ (n, first_safe-external as' _ (rw (first_safe, n) at e))
]

first_safe-kept :
    (as' : List Address) (ip : String) {o' : Option String}
    → first_safe as' (some ip) ≡ inr o'
    → o' ≡ some ip
first_safe-kept [] ip e = cc e
first_safe-kept (a ∷ as') ip {o'} e = elim (Bool-cases (is_internal a)) [
  | inl y ↦ let wrong : inl _ ≡ inr o' = rw (first_safe, y) at e in cc wrong
  | inr n ↦ first_safe-kept as' ip (rw (first_safe, n) at e)
]

-- The host name of a URL that passes the first checks, and the addresses that it has.
pub record IsOutbound (net : Network) (url ip : String) : Type 0 where
  pub scheme : web_scheme (net.urlparse url).scheme ≡ true
  pub host : String
  pub named : (net.urlparse url).hostname ≡ some host
  pub listed : member (net.lower host) blocked_hosts ≡ false
  pub first : Address
  pub others : List Address
  pub resolved : net.getaddrinfo host ≡ inr (first ∷ others)
  pub external : AllExternal (first ∷ others)
  pub pinned : ip ≡ first.text

check_host-ok :
    (net : Network) (parsed : ParsedUrl) {host : String}
    → check_host net parsed ≡ inr host
    → (web_scheme parsed.scheme ≡ true)
      × (parsed.hostname ≡ some host)
      × (member (net.lower host) blocked_hosts ≡ false)
check_host-ok net parsed {host} e = elim (Bool-cases (web_scheme parsed.scheme)) [
  | inr n ↦ let wrong : inl _ ≡ inr host = rw (check_host, n) at e in cc wrong
  | inl y ↦ elim (Option-cases parsed.hostname) [
    | inl gone ↦ let wrong : inl _ ≡ inr host = rw (check_host, y, gone) at e in cc wrong
    | inr (h, named) ↦ elim (Bool-cases (str_eq h "")) [
      | inl z ↦ let wrong : inl _ ≡ inr host = rw (check_host, y, named, z) at e in cc wrong
      | inr z ↦ elim (Bool-cases (member (net.lower h) blocked_hosts)) [
        | inl m ↦ let wrong : inl _ ≡ inr host = rw (check_host, y, named, z, m) at e in cc wrong
        | inr m ↦
            let same : inr h ≡ inr host = rw (check_host, y, named, z, m) at e in
            let here : h ≡ host = cc same in
            (
              y,
              named ∙ ap some here,
              subst (λ k. member (net.lower k) blocked_hosts ≡ false) here m,
            )
      ]
    ]
  ]
]

abbrev Found : Network → String → String → Type 0
Found net host ip =
    (first : Address) × (others : List Address) × (net.getaddrinfo host ≡ inr (first ∷ others))
    × AllExternal (first ∷ others)
    × (ip ≡ first.text)

resolve_host-ok :
    (net : Network) (host : String) {ip : String}
    → resolve_host net host ≡ inr ip
    → Found net host ip
resolve_host-ok net host {ip} e = elim (Sum-cases (net.getaddrinfo host)) [
  | inl (text, raised) ↦ let wrong : inl text ≡ inr ip = rw (resolve_host, raised) at e in cc wrong
  | inr ([], addrs) ↦ let wrong : inl _ ≡ inr ip = rw (resolve_host, addrs) at e in cc wrong
  | inr (a ∷ as', addrs) ↦ elim (Sum-cases (first_safe (a ∷ as') none)) [
    | inl (text, blocked) ↦
        let wrong : inl text ≡ inr ip = rw (resolve_host, addrs, blocked) at e in cc wrong
    | inr (none, safe) ↦
        let out = first_safe-external (a ∷ as') none safe in
        let rest : first_safe as' (some a.text) ≡ inr none = rw (first_safe, out.0) at safe in
        let wrong = first_safe-kept as' a.text rest in cc wrong
    | inr (some jp, safe) ↦
        let out = first_safe-external (a ∷ as') none safe in
        let rest : first_safe as' (some a.text) ≡ inr (some jp) = rw (first_safe, out.0) at safe in
        let kept = first_safe-kept as' a.text rest in
        let same : inr jp ≡ inr ip = rw (resolve_host, addrs, safe) at e in
        (a, as', addrs, out, cc (kept, same))
  ]
]

-- A URL that the guard lets pass has the scheme http or https and a host name that is not on the list
-- of blocked hosts; the name resolves, to external addresses only; and the address to connect to is the
-- first of them.
pub resolve_and_validate-IsOutbound :
    (net : Network) (url : String) {ip : String}
    → resolve_and_validate net url ≡ inr ip
    → IsOutbound net url ip
unfolding resolve_and_validate
resolve_and_validate-IsOutbound net url {ip} e =
    elim (Sum-cases (check_host net (net.urlparse url))) [
      | inl (text, refused) ↦
          let wrong : inl text ≡ inr ip = rw (resolve_and_validate, refused) at e in cc wrong
      | inr (h, passed) ↦
          let (scheme, named, listed) = check_host-ok net (net.urlparse url) passed in
          let found : resolve_host net h ≡ inr ip = rw (resolve_and_validate, passed) at e in
          let (first, others, resolved, external, pinned) = resolve_host-ok net h found in
          record {
            scheme = scheme;
            host = h;
            named = named;
            listed = listed;
            first = first;
            others = others;
            resolved = resolved;
            external = external;
            pinned = pinned;
          }
    ]
