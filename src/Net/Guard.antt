-- ===== src/Net/Guard.antt =====
-- podcast_agent/net.py, `UrlGuard`: which URLs pass.
use podcast_digest.Common.{
  String, Bool, true, false, ◌||◌, Option, none, some, List, [], ◌∷◌, ◌==◌, string_eq, any_of,
  Bool-cases, Option-cases, some_inj, ◌≡◌, refl, sym, ap, ◌∙◌, ◌≢◌, ◌↔◌, ◌⊎◌, inl, inr, arith,
}
use podcast_digest.Errors.{ok, err, url_rejected}
use podcast_digest.Net.{
  Urls, UrlGuard, truthy, host_of, web_scheme, registrable_domain, same_host, same_domain,
  same_text, domain_allowed, host_allowed, check,
}

abbrev pub Listed : String → List String → Type 0
Listed a [] = ⊥
Listed a (x ∷ xs) = (a ≡ x) ⊎ Listed a xs

any_of-Listed : (a : String) (xs : List String) → (any_of (λ x. a == x) xs ≡ true) ↔ Listed a xs
unfolding any_of
any_of-Listed a [] = (λ h. cc, λ h. absurd h)
any_of-Listed a (x ∷ xs) = elim (Bool-cases (a == x)) [
  | inl e ↦ (λ h. inl ((string_eq.same_iff a x).0 e), λ h. rw e refl)
  | inr e ↦ (
    λ h. inr ((any_of-Listed a xs).0 (rw e at h)),
    λ h. rw e (elim h [
      | inl q ↦ absurd (cc (e, (string_eq.same_iff a x).1 q))
      | inr l ↦ (any_of-Listed a xs).1 l
    ]),
  )
]

same_text_iff : (o : Option String) (b : String) → (same_text o b ≡ true) ↔ (o ≡ some b)
same_text_iff none b = (λ h. cc, λ h. cc)
same_text_iff (some a) b = (
  λ h. ap some (sym ((string_eq.same_iff b a).0 h)),
  λ h. (string_eq.same_iff b a).1 (sym (some_inj h)),
)

-- One of two tests.
or_true : (a b : Bool) → (a || b) ≡ true → (a ≡ true) ⊎ (b ≡ true)
or_true true b h = inl refl
or_true false b h = inr h

module _ (urls : Urls) where
  -- The feed that a URL came from is on `host`.
  abbrev pub SameHost : Option String → String → Type 0
  SameHost related host =
      (feed : String) × (truthy related ≡ some feed) × (host_of urls feed ≡ some host)

  abbrev pub SameDomain : Option String → String → Type 0
  SameDomain related target =
      (feed : String) × (truthy related ≡ some feed) × (target ≡ registrable_domain urls feed)

  pub same_host_iff :
      (related : Option String) (host : String)
      → (same_host urls related host ≡ true) ↔ SameHost related host
  unfolding same_host
  same_host_iff related host = elim (Option-cases (truthy related)) [
    | inl e ↦ (λ h. absurd (cc (no_feed e, h)), λ (f, a, b). absurd (cc (e, a)))
    | inr (feed, e) ↦ (
      λ h. (feed, e, (same_text_iff (host_of urls feed) host).0 (sym (of_feed feed e) ∙ h)),
      λ (f, a, b).
          of_feed feed e
          ∙ (same_text_iff (host_of urls feed) host).1
              (ap (host_of urls) (some_inj (sym e ∙ a)) ∙ b),
    )
  ]
    where
      no_feed : truthy related ≡ none → same_host urls related host ≡ false
      no_feed e = rw (e, same_host) refl

      of_feed :
          (feed : String)
          → truthy related ≡ some feed
          → same_host urls related host ≡ same_text (host_of urls feed) host
      of_feed feed e = rw (e, same_host) refl

  same_domain_iff :
      (related : Option String) (target : String)
      → (same_domain urls related target ≡ true) ↔ SameDomain related target
  unfolding same_domain
  same_domain_iff related target = elim (Option-cases (truthy related)) [
    | inl e ↦ (λ h. absurd (cc (no_feed e, h)), λ (f, a, b). absurd (cc (e, a)))
    | inr (feed, e) ↦ (
      λ h. (
        feed,
        e,
        (string_eq.same_iff target (registrable_domain urls feed)).0 (sym (of_feed feed e) ∙ h),
      ),
      λ (f, a, b).
          of_feed feed e
          ∙ (string_eq.same_iff target (registrable_domain urls feed)).1
              (b ∙ ap (registrable_domain urls) (some_inj (sym a ∙ e))),
    )
  ]
    where
      no_feed : truthy related ≡ none → same_domain urls related target ≡ false
      no_feed e = rw (e, same_domain) refl

      of_feed :
          (feed : String)
          → truthy related ≡ some feed
          → same_domain urls related target ≡ (target == registrable_domain urls feed)
      of_feed feed e = rw (e, same_domain) refl

  -- Its own domain is known, and is the feed's or on the list.
  abbrev pub DomainAllowed : UrlGuard → Option String → String → Type 0
  DomainAllowed guard related target =
      (◌≢◌ {A = String} target "") × (SameDomain related target ⊎ Listed target guard.allowlist)

  -- What the guard promises of a URL that it lets pass.
  abbrev pub Allowed : UrlGuard → Option String → Bool → String → Type 0
  Allowed guard related allowlist url =
      ((urls.scheme url ≡ "http") ⊎ (urls.scheme url ≡ "https"))
      × (host : String) × (host_of urls url ≡ some host)
      × ((guard.enforce ≡ false)
          ⊎ (SameHost related host
              ⊎ ((allowlist ≡ false) ⊎ DomainAllowed guard related (registrable_domain urls url))))

  -- `web_scheme` tests the scheme.
  web_scheme_iff :
      (url : String)
      → (web_scheme urls url ≡ true) ↔ ((urls.scheme url ≡ "http") ⊎ (urls.scheme url ≡ "https"))
  web_scheme_iff url = (
    λ h. elim (or_true (urls.scheme url == "http") (urls.scheme url == "https") h) [
      | inl e ↦ inl ((string_eq.same_iff (urls.scheme url) "http").0 e)
      | inr e ↦ inr ((string_eq.same_iff (urls.scheme url) "https").0 e)
    ],
    λ h. elim h [
      | inl e ↦ rw ((string_eq.same_iff (urls.scheme url) "http").1 e) refl
      | inr e ↦ ground (arith, (string_eq.same_iff (urls.scheme url) "https").1 e)
    ],
  )

  domain_allowed_iff :
      (guard : UrlGuard) (related : Option String) (url target : String)
      → (domain_allowed urls guard related url target ≡ ok url) ↔ DomainAllowed guard related target
  domain_allowed_iff guard related url target = elim (Bool-cases (target == "")) [
    | inl blank ↦ (
      λ h. absurd (cc (rw blank at h)),
      λ h. absurd (h.0 ((string_eq.same_iff target "").0 blank)),
    )
    | inr named ↦ elim (Bool-cases (same_domain urls related target)) [
      | inl own ↦ (
        λ h. (apart named, inl ((same_domain_iff related target).0 own)),
        λ h. rw named (rw own refl),
      )
      | inr other ↦ elim (Bool-cases (any_of (λ d. target == d) guard.allowlist)) [
        | inl on ↦ (
          λ h. (apart named, inr ((any_of-Listed target guard.allowlist).0 on)),
          λ h. rw named (rw other (rw on refl)),
        )
        | inr off ↦ (
          λ h.
              let refused : domain_allowed urls guard related url target ≡ err url_rejected =
                rw named (rw other (rw off refl)) in
              absurd (cc (refused, h)),
          λ h. elim h.1 [
            | inl s ↦ absurd (cc (other, (same_domain_iff related target).1 s))
            | inr l ↦ absurd (cc (off, (any_of-Listed target guard.allowlist).1 l))
          ],
        )
      ]
    ]
  ]
    where
      apart : (target == "") ≡ false → ◌≢◌ {A = String} target ""
      apart named e = cc (named, (string_eq.same_iff target "").1 e)

  host_allowed_iff :
      (guard : UrlGuard) (related : Option String) (allowlist : Bool) (url host : String)
      → (host_allowed urls guard related allowlist url host ≡ ok url) ↔ (
          (guard.enforce ≡ false)
          ⊎ (SameHost related host
              ⊎ ((allowlist ≡ false) ⊎ DomainAllowed guard related (registrable_domain urls url))))
  host_allowed_iff guard related allowlist url host = elim (Bool-cases guard.enforce) [
    | inr off ↦ (λ h. inl off, λ h. rw off refl)
    | inl on ↦ elim (Bool-cases (same_host urls related host)) [
      | inl own ↦ (λ h. inr (inl ((same_host_iff related host).0 own)), λ h. rw on (rw own refl))
      | inr other ↦ elim (Bool-cases allowlist) [
        | inr free ↦ (λ h. inr (inr (inl free)), λ h. rw on (rw other (rw free refl)))
        | inl strict ↦ (
          λ h. inr (
              inr (
                inr (
                  (domain_allowed_iff guard related url (registrable_domain urls url)).0
                    (sym (by_domain on other strict) ∙ h)))),
          λ h. elim h [
            | inl e ↦ absurd (cc (on, e))
            | inr (inl s) ↦ absurd (cc (other, (same_host_iff related host).1 s))
            | inr (inr (inl e)) ↦ absurd (cc (strict, e))
            | inr (inr (inr d)) ↦
                by_domain on other strict
                ∙ (domain_allowed_iff guard related url (registrable_domain urls url)).1 d
          ],
        )
      ]
    ]
  ]
    where
      by_domain :
          guard.enforce ≡ true
          → same_host urls related host ≡ false
          → allowlist ≡ true
          → host_allowed urls guard related allowlist url host
            ≡ domain_allowed urls guard related url (registrable_domain urls url)
      by_domain on other strict = rw on (rw other (rw strict refl))

  -- For every guard, feed and URL: `check` lets the URL pass exactly if its scheme is http or https,
  -- it has a host, and the guard is off, or the host is the feed's, or the owner chose the target,
  -- or its registrable domain is known and is the feed's or on the allowlist.
  pub check_iff :
      (guard : UrlGuard) (related : Option String) (allowlist : Bool) (url : String)
      → (check urls guard related allowlist url ≡ ok url) ↔ Allowed guard related allowlist url
  unfolding check
  check_iff guard related allowlist url = elim (Bool-cases (web_scheme urls url)) [
    | inr other ↦
        (λ h. absurd (cc (refused other, h)), λ h. absurd (cc (other, (web_scheme_iff url).1 h.0)))
    | inl web ↦ elim (Option-cases (host_of urls url)) [
      | inl none_of ↦
          (λ h. absurd (cc (no_host web none_of, h)), λ (_, host, e, _). absurd (cc (none_of, e)))
      | inr (host, e) ↦ (
        λ h. (
          (web_scheme_iff url).0 web,
          host,
          e,
          (host_allowed_iff guard related allowlist url host).0 (sym (at_host web host e) ∙ h),
        ),
        λ (_, host', e', a).
            at_host web host' e' ∙ (host_allowed_iff guard related allowlist url host').1 a,
      )
    ]
  ]
    where
      refused :
          web_scheme urls url ≡ false → check urls guard related allowlist url ≡ err url_rejected
      refused other = rw (other, check) refl

      no_host :
          web_scheme urls url ≡ true
          → host_of urls url ≡ none
          → check urls guard related allowlist url ≡ err url_rejected
      no_host web e = rw (web, check) (rw e refl)

      at_host :
          web_scheme urls url ≡ true
          → (host : String) → host_of urls url ≡ some host
          → check urls guard related allowlist url
            ≡ host_allowed urls guard related allowlist url host
      at_host web host e = rw (web, check) (rw e refl)
