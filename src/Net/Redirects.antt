-- ===== src/Net/Redirects.antt =====
-- podcast_agent/net.py, `_guarded_stream`: where requests go.
use podcast_digest.Common.{
  ℕ, zero, suc, ◌≤◌, String, Bool, true, false, Option, some, List, [], ◌∷◌, ◌==◌, string_eq,
  nat_eq, any_of, all_of, All, length, Bool-cases, Option-cases, ◌≡◌, refl, sym, ap, ◌∙◌, ◌⊎◌, inl,
  inr, arith,
}
use podcast_digest.Errors.{Error, Result, ok, err, Result-cases}
use podcast_digest.Net.{
  Urls, UrlGuard, FetchPolicy, Resolution, resolves, unresolved, Response, Reply, invalid_url,
  breaks, responds, Address, truthy, host_of, same_host, check, check_address, all_public,
  is_reachable_publicly, vet, follow, guarded_stream, max_redirects, redirect_codes,
}
use podcast_digest.Net.Guard.{Allowed, SameHost, check_iff, same_host_iff}

all_of-All {ℓ} :
    {A : Type ℓ} (p : A → Bool) (xs : List A) → all_of p xs ≡ true → All (λ x. p x ≡ true) xs
unfolding all_of
all_of-All p [] h = tt
all_of-All p (x ∷ xs) h = elim (Bool-cases (p x)) [
  | inl e ↦ (e, all_of-All p xs (rw e at h))
  | inr e ↦ absurd (cc (rw e at h))
]

Reply-cases :
    (r : Reply)
    → (r ≡ invalid_url) ⊎ ((e : Error) × (r ≡ breaks e)) ⊎ ((x : Response) × (r ≡ responds x))
Reply-cases invalid_url = inl refl
Reply-cases (breaks e) = inr (inl (e, refl))
Reply-cases (responds x) = inr (inr (x, refl))

module _ (urls : Urls) where
  -- An address that `ipaddress` knows, of no special kind.
  abbrev pub IsPublic : String → Type 0
  IsPublic text =
      (a : Address) × (urls.parse_address text ≡ some a)
      × (a.is_private ≡ false)
      × (a.is_loopback ≡ false)
      × (a.is_link_local ≡ false)
      × (a.is_reserved ≡ false)
      × (a.is_unspecified ≡ false)
      × (a.is_multicast ≡ false)

  reachable-IsPublic : (text : String) → is_reachable_publicly urls text ≡ true → IsPublic text
  unfolding is_reachable_publicly
  reachable-IsPublic text h = elim (Option-cases (urls.parse_address text)) [
    | inl e ↦ absurd (ground (arith, e))
    | inr (a, e) ↦
        (a, e, ground arith, ground arith, ground arith, ground arith, ground arith, ground arith)
  ]

  check-same :
      (guard : UrlGuard) (related : Option String) (allowlist : Bool) (url u : String)
      → check urls guard related allowlist url ≡ ok u
      → u ≡ url
  unfolding check
  check-same guard related allowlist url u h = ground arith

  -- Where the name of a URL leads, by one look-up: to public addresses only, unless the guard is off
  -- or the host is the feed's own.
  abbrev pub Addressed : UrlGuard → Option String → (String → Resolution) → String → Type 0
  Addressed guard related resolve url =
      (guard.enforce ≡ false)
      ⊎ ((host : String) × (host_of urls url ≡ some host)
          × (SameHost urls related host
              ⊎ ((addresses : List String) × (resolve host ≡ resolves addresses)
                  × All IsPublic addresses)))

  all_public-IsPublic :
      (r : Resolution)
      → all_public urls r ≡ ok tt
      → (addresses : List String) × (r ≡ resolves addresses) × All IsPublic addresses
  all_public-IsPublic unresolved h = absurd cc
  all_public-IsPublic (resolves addresses) h =
      elim (Bool-cases (all_of (is_reachable_publicly urls) addresses)) [
        | inl e ↦ (
          addresses,
          refl,
          All-map (is_reachable_publicly urls) addresses
              (all_of-All (is_reachable_publicly urls) addresses e),
        )
        | inr e ↦ absurd (cc (rw e at h))
      ]
    where
      All-map :
          (p : String → Bool) (xs : List String)
          → All (λ x. is_reachable_publicly urls x ≡ true) xs
          → All IsPublic xs
      All-map p [] h = tt
      All-map p (x ∷ xs) h = (reachable-IsPublic x h.0, All-map p xs h.1)

  check_address-Addressed :
      (guard : UrlGuard) (related : Option String) (resolve : String → Resolution) (url : String)
      → check_address urls guard related resolve url ≡ ok tt
      → Addressed guard related resolve url
  unfolding check_address
  check_address-Addressed guard related resolve url h = elim (Bool-cases guard.enforce) [
    | inr off ↦ inl off
    | inl on ↦ elim (Option-cases (host_of urls url)) [
      | inl e ↦ absurd (ground (arith, on, e, h))
      | inr (host, e) ↦ elim (Bool-cases (same_host urls related host)) [
        | inl own ↦ inr (host, e, inl ((same_host_iff urls related host).0 own))
        | inr other ↦ inr (
          host,
          e,
          inr (all_public-IsPublic (resolve host) (sym (by_lookup on host e other) ∙ h)),
        )
      ]
    ]
  ]
    where
      by_lookup :
          guard.enforce ≡ true
          → (host : String) → host_of urls url ≡ some host
          → same_host urls related host ≡ false
          → check_address urls guard related resolve url ≡ all_public urls (resolve host)
      by_lookup on host e other = rw (on, check_address) (rw e (rw other refl))

  -- A URL passed the guard, with the look-ups of one moment.
  abbrev pub Permitted : FetchPolicy → (ℕ → String → Resolution) → String → Type 0
  Permitted p resolve url =
      (n : ℕ) × Allowed urls p.guard p.related_to p.allowlist url
      × Addressed p.guard p.related_to (resolve n) url

  vet-Permitted :
      (p : FetchPolicy) (resolve : ℕ → String → Resolution) (n : ℕ) (url : String) (v : Unit {0})
      → vet urls (some p) (resolve n) url ≡ ok v
      → Permitted p resolve url
  unfolding vet
  vet-Permitted p resolve n url v h =
      elim (Result-cases (check urls p.guard p.related_to p.allowlist url)) [
        | inr (e, c) ↦ absurd (cc (c, h))
        | inl (u, c) ↦
            let same : u ≡ url = check-same p.guard p.related_to p.allowlist url u c in
            (
              n,
              (check_iff urls p.guard p.related_to p.allowlist url).0 (c ∙ ap ok same),
              check_address-Addressed p.guard p.related_to (resolve n) url (cc (c, h)),
            )
      ]

  module _ (p : FetchPolicy) (resolve : ℕ → String → Resolution) (client : ℕ → String → Reply) where
    abbrev Walked : ℕ → Result (Response × String) × List String → Type 0
    Walked hops out = All (Permitted p resolve) out.1 × (length out.1 ≤ hops)

    -- A redirect is followed only after its target was vetted.
    onward :
        (hops n : ℕ) (current location : String)
        → Permitted p resolve current
        → (Permitted p resolve (urls.join current location)
            → Walked hops
                (follow urls (some p) resolve client hops (suc n) (urls.join current location)))
        → Walked
            (suc hops)
            (elim (vet urls (some p) (resolve (suc n)) (urls.join current location)) [
              | err e ↦ (err e, current ∷ [])
              | ok v ↦
                  let rest =
                    follow urls (some p) resolve client hops (suc n) (urls.join current location) in
                  (rest.0, current ∷ rest.1)
            ])
    onward hops n current location h rest =
        elim (Result-cases (vet urls (some p) (resolve (suc n)) (urls.join current location))) [
          | inr (e, refused) ↦ rw refused ((h, tt), omega arith)
          | inl (v, passed) ↦
              let (a, b) =
                rest (vet-Permitted p resolve (suc n) (urls.join current location) v passed) in
              rw passed ((h, a), omega arith)
        ]

    follow-Permitted :
        (hops n : ℕ) (current : String)
        → Permitted p resolve current
        → All (Permitted p resolve) (follow urls (some p) resolve client hops n current).1
          × (length (follow urls (some p) resolve client hops n current).1 ≤ hops)
    unfolding follow
    follow-Permitted zero n current h = (tt, omega arith)
    follow-Permitted (suc hops) n current h = elim (Reply-cases (client n current)) [
      | inl e ↦ rw (e, follow) ((h, tt), omega arith)
      | inr (inl (x, e)) ↦ rw (e, follow) ((h, tt), omega arith)
      | inr (inr (r, e)) ↦
          rw (e, follow)
            (elim (Bool-cases (any_of (λ c. c == r.status_code) redirect_codes)) [
              | inr final ↦ rw final ((h, tt), omega arith)
              | inl moved ↦ rw moved (elim (Option-cases (truthy r.location)) [
                | inl absent ↦ rw absent ((h, tt), omega arith)
                | inr (location, there) ↦ rw there (
                    onward hops n current location h
                      (follow-Permitted hops (suc n) (urls.join current location)))
              ])
            ])
    ]

    -- With a policy, whatever the servers answer and however names resolve from one moment to the
    -- next: every URL that `_guarded_stream` requests, the first and each redirect, is one that the guard
    -- allows and whose host resolved to public addresses only, unless the guard is off or the host is the
    -- feed's own; and at most six requests are made.
    pub guarded_stream-Permitted :
        (url : String)
        → All (Permitted p resolve) (guarded_stream urls (some p) resolve client url).1
          × (length (guarded_stream urls (some p) resolve client url).1 ≤ suc max_redirects)
    unfolding guarded_stream
    guarded_stream-Permitted url = elim (Result-cases (vet urls (some p) (resolve 0) url)) [
      | inr (e, refused) ↦ rw (refused, guarded_stream) (tt, omega arith)
      | inl (v, passed) ↦
          rw (passed, guarded_stream)
            (follow-Permitted (suc max_redirects) 0 url (vet-Permitted p resolve 0 url v passed))
    ]
