-- ===== src/Net.antt =====
-- podcast_agent/net.py: the guard of outbound requests and the walk over redirects. The parsing of
-- URLs, the public suffix list, name resolution and the HTTP client belong to other packages and
-- are parameters.
pub mod Guard
pub mod Redirects
pub mod Download
pub mod Transfer
pub mod Resume
pub mod Progress
use podcast_digest.Common.{
  ℕ, zero, suc, ◌+◌, String, Bool, true, false, ◌&&◌, ◌||◌, not, Option, none, some, List, [], ◌∷◌,
  ◌==◌, string_eq, nat_eq, if◌then◌else◌, any_of, all_of,
}
use podcast_digest.Errors.{Error, Result, ok, err, url_rejected, ◌>>=◌}

-- What `ipaddress` says of an address.
pub record Address : Type 0 where
  pub is_private : Bool
  pub is_loopback : Bool
  pub is_link_local : Bool
  pub is_reserved : Bool
  pub is_unspecified : Bool
  pub is_multicast : Bool

-- `urlparse(url).scheme` and `.hostname`, `urljoin`, `tldextract`, `str.lower` and
-- `ipaddress.ip_address`.
pub record Urls : Type 0 where
  pub scheme : String → String
  pub hostname : String → Option String
  pub join : String → String → String
  pub registered_domain : String → String
  pub lower : String → String
  pub parse_address : String → Option Address

abbrev pub max_redirects : ℕ
max_redirects = 5

abbrev pub redirect_codes : List ℕ
redirect_codes = 301 ∷ 302 ∷ 303 ∷ 307 ∷ 308 ∷ []

-- As `__init__` leaves it: the domains of `cdn_allowlist` in lower case and without leading dots.
pub record UrlGuard : Type 0 where
  pub enforce : Bool
  pub allowlist : List String

-- Who vets each hop, and how strictly.
pub record FetchPolicy : Type 0 where
  pub guard : UrlGuard
  pub related_to : Option String
  pub allowlist : Bool

-- `loop.getaddrinfo`: addresses, or an `OSError`.
pub data Resolution : Type 0 where
  unresolved : Resolution
  resolves : List String → Resolution

-- An answer to one request: `httpx.InvalidURL`, another exception, or a response.
pub record Response : Type 0 where
  pub status_code : ℕ
  pub location : Option String
  pub content_type : Option String
  pub content_length : Option ℕ

pub data Reply : Type 0 where
  invalid_url : Reply
  breaks : Error → Reply
  responds : Response → Reply

-- `o or None` of a text
abbrev pub truthy : Option String → Option String
truthy none = none
truthy (some text) = if text == "" then none else some text

abbrev pub same_text : Option String → String → Bool
same_text none b = false
same_text (some a) b = b == a

abbrev pub or_empty : Option String → String
or_empty none = ""
or_empty (some text) = text

module _ (urls : Urls) where
  abbrev pub host_of : String → Option String
  host_of url = truthy (urls.hostname url)

  -- `registrable_domain`
  unfoldable pub registrable_domain : String → String
  registrable_domain url =
      let domain = urls.registered_domain (or_empty (urls.hostname url)) in
      if domain == "" then "" else urls.lower domain

  abbrev pub web_scheme : String → Bool
  web_scheme url = urls.scheme url == "http" || urls.scheme url == "https"

  -- `related_to and host == (urlparse(related_to).hostname or None)`
  unfoldable pub same_host : Option String → String → Bool
  same_host related host = elim (truthy related) [
    | none ↦ false
    | some feed ↦ same_text (host_of feed) host
  ]

  -- `related_to and target_domain == registrable_domain(related_to)`
  unfoldable pub same_domain : Option String → String → Bool
  unfolding registrable_domain
  same_domain related target = elim (truthy related) [
    | none ↦ false
    | some feed ↦ target == registrable_domain feed
  ]

  abbrev pub domain_allowed : UrlGuard → Option String → String → String → Result String
  domain_allowed guard related url target =
      if target == ""
      then err url_rejected
      else if same_domain related target
      then ok url
      else if any_of (λ d. target == d) guard.allowlist
      then ok url
      else err url_rejected

  abbrev pub host_allowed : UrlGuard → Option String → Bool → String → String → Result String
  host_allowed guard related allowlist url host =
      if not guard.enforce
      then ok url
      else if same_host related host
      then ok url
      else if not allowlist
      then ok url
      else domain_allowed guard related url (registrable_domain url)

  -- `UrlGuard.check`
  unfoldable pub check : UrlGuard → Option String → Bool → String → Result String
  check guard related allowlist url =
      if web_scheme url
      then elim (host_of url) [
        | none ↦ err url_rejected
        | some host ↦ host_allowed guard related allowlist url host
      ]
      else err url_rejected

  unfoldable pub permits : UrlGuard → Option String → String → Bool
  unfolding check
  permits guard related url = elim (check guard related true url) [ ok u ↦ true | err e ↦ false ]

  -- `_is_reachable_publicly`
  unfoldable pub is_reachable_publicly : String → Bool
  is_reachable_publicly address = elim (urls.parse_address address) [
    | none ↦ false
    | some a ↦ not (
        a.is_private || a.is_loopback || a.is_link_local || a.is_reserved || a.is_unspecified
        || a.is_multicast)
  ]

  abbrev pub all_public : Resolution → Result (Unit {0})
  all_public unresolved = err url_rejected
  all_public (resolves addresses) =
      if all_of is_reachable_publicly addresses then ok tt else err url_rejected

  -- `UrlGuard.check_address`; the name is resolved only where the code does.
  unfoldable pub check_address :
      UrlGuard → Option String → (String → Resolution) → String → Result (Unit {0})
  check_address guard related resolve url =
      if not guard.enforce then ok tt else elim (host_of url) [
        | none ↦ err url_rejected
        | some host ↦ if same_host related host then ok tt else all_public (resolve host)
      ]

  -- `_vet`: with a policy both checks, without one the scheme and the host.
  unfoldable pub vet : Option FetchPolicy → (String → Resolution) → String → Result (Unit {0})
  vet none resolve url =
      if web_scheme url
      then elim (host_of url) [ none ↦ err url_rejected | some host ↦ ok tt ]
      else err url_rejected
  vet (some p) resolve url = do
    checked ← check p.guard p.related_to p.allowlist url
    check_address p.guard p.related_to resolve url

  -- The `for` loop of `_guarded_stream`, with the hops that are left: the response, and the URLs
  -- that were requested. `client n` answers the n-th request, `resolve n` the n-th look-up.
  unfoldable pub follow :
      Option FetchPolicy
      → (ℕ → String → Resolution)
      → (ℕ → String → Reply)
      → (hops n : ℕ) → String
      → Result (Response × String) × List String
  follow policy resolve client zero n current = (err url_rejected, [])
  follow policy resolve client (suc hops) n current = elim (client n current) [
    | invalid_url ↦ (err url_rejected, current ∷ [])
    | breaks e ↦ (err e, current ∷ [])
    | responds r ↦
        if any_of (λ c. c == r.status_code) redirect_codes
        then elim (truthy r.location) [
          | none ↦ (err url_rejected, current ∷ [])
          | some location ↦ elim (vet policy (resolve (suc n)) (urls.join current location)) [
            | err e ↦ (err e, current ∷ [])
            | ok v ↦
                let rest = follow policy resolve client hops (suc n) (urls.join current location) in
                (rest.0, current ∷ rest.1)
          ]
        ]
        else (ok (r, current), current ∷ [])
  ]

  unfoldable pub guarded_stream :
      Option FetchPolicy
      → (ℕ → String → Resolution)
      → (ℕ → String → Reply)
      → String
      → Result (Response × String) × List String
  guarded_stream policy resolve client url = elim (vet policy (resolve 0) url) [
    | err e ↦ (err e, [])
    | ok v ↦ follow policy resolve client (suc max_redirects) 0 url
  ]
