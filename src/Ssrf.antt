-- ===== src/Ssrf.antt =====
-- The guard of outbound requests, backend/utils/ssrf.py. A raised ValueError is its text.
pub mod Guard
use sentora.Prelude.{
  Bool, List, Option, String, [], false, if◌then◌else◌, inl, inr, none, not, some, str_eq, ℕ, ◌||◌,
  ◌∷◌, ◌⊎◌,
}
use sentora.Scope.{member}
use Prim.Native.String.{◌++◌ as ◌⧺◌}

-- The parts of `urlparse(url)`. The property `port` raises a ValueError for one that is no number or is
-- out of range, and is `none` where there is none.
pub record ParsedUrl : Type 0 where
  pub scheme : String
  pub hostname : Option String
  pub port : String ⊎ Option ℕ
  pub path : String
  pub params : String
  pub query : String
  pub fragment : String

-- `ipaddress.ip_address`, with what its properties answer.
pub record Address : Type 0 where
  pub text : String
  pub is_private : Bool
  pub is_loopback : Bool
  pub is_link_local : Bool
  pub is_reserved : Bool

-- What is not of this repository: `urlparse`, `str.lower`, the addresses that `getaddrinfo` gives or the
-- text of its exception, and `ip_address` of a text, which is `none` for a ValueError.
pub record Network : Type 0 where
  pub urlparse : String → ParsedUrl
  pub lower : String → String
  pub getaddrinfo : String → String ⊎ List Address
  pub ip_address : String → Option Address

abbrev pub blocked_hosts : List String
blocked_hosts = "localhost" ∷ "127.0.0.1" ∷ "::1" ∷ "0.0.0.0" ∷ "metadata.google.internal" ∷ []

abbrev pub is_internal : Address → Bool
is_internal a = a.is_private || (a.is_loopback || (a.is_link_local || a.is_reserved))

unfoldable pub is_private_ip : Network → String → Bool
is_private_ip net addr_str = elim (net.ip_address addr_str) [
  | none ↦ false
  | some a ↦ is_internal a
]

abbrev pub web_scheme : String → Bool
web_scheme s = str_eq s "http" || str_eq s "https"

-- The checks of the URL itself: the host name that may be looked up.
abbrev pub check_host : Network → ParsedUrl → String ⊎ String
check_host net parsed =
    if not (web_scheme parsed.scheme)
    then inl ("URL scheme '" ⧺ (parsed.scheme ⧺ "' is not allowed — only http and https"))
    else elim parsed.hostname [
      | none ↦ inl "No hostname in URL"
      | some hostname ↦
          if str_eq hostname ""
          then inl "No hostname in URL"
          else if member (net.lower hostname) blocked_hosts
          then inl ("Delivery blocked: internal host " ⧺ hostname)
          else inr hostname
    ]

abbrev pub internal_error : Address → String
internal_error a = "Delivery blocked: resolves to internal IP (" ⧺ (a.text ⧺ ")")

-- The loop over the addresses that keeps the first.
abbrev pub first_safe : List Address → Option String → String ⊎ Option String
first_safe [] safe_ip = inr safe_ip
first_safe (a ∷ as') safe_ip =
    let rest = first_safe as' (elim safe_ip [ none ↦ some a.text | some ip ↦ some ip ]) in
    if is_internal a then inl (internal_error a) else rest

abbrev pub resolve_host : Network → String → String ⊎ String
resolve_host net hostname = elim (net.getaddrinfo hostname) [
  | inl raised ↦ inl raised
  | inr addrs ↦ elim (first_safe addrs none) [
    | inl blocked ↦ inl blocked
    | inr none ↦ inl ("DNS resolution returned no addresses for " ⧺ hostname)
    | inr (some ip) ↦ inr ip
  ]
]

unfoldable pub resolve_and_validate : Network → String → String ⊎ String
resolve_and_validate net url = elim (check_host net (net.urlparse url)) [
  | inl refused ↦ inl refused
  | inr hostname ↦ resolve_host net hostname
]

-- `validate_url_target` keeps no address, and lets a host without any pass.
unfoldable pub validate_url_target : Network → String → Option String
validate_url_target net url = elim (check_host net (net.urlparse url)) [
  | inl refused ↦ some refused
  | inr hostname ↦ elim (net.getaddrinfo hostname) [
    | inl raised ↦ some raised
    | inr addrs ↦ elim (first_safe addrs none) [ inl blocked ↦ some blocked | inr ip ↦ none ]
  ]
]
