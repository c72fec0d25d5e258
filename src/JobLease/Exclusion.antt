-- ===== src/JobLease/Exclusion.antt =====
-- podcast_agent/joblock.py: the holders of one lease, over every world that can be reached.
use podcast_digest.Common.{
  ℕ, ◌+◌, ◌≤◌, ◌<◌, String, Bool, true, false, Option, none, some, ◌==◌, nat_eq, string_eq, lookup,
  Bool-cases, Option-cases, some_inj, ◌≡◌, refl, sym, ap, subst, ◌∙◌, ◌⊎◌, inl, inr, arith,
}
use podcast_digest.Errors.{Result, ok, err}
use podcast_digest.Store.{
  Doc, Rev, MemoryStore, Op, deletes, step, get, delete, conflicts, rev_opt_beq,
}
use podcast_digest.Store.Mvcc.{Since, as_read, Since-Change, step-Change}
use podcast_digest.Store.Revisions.{IsSound, step-IsSound, IssuedBefore, Since-fits}
use podcast_digest.JobLease.{Lock, lock_id, release}
use podcast_digest.JobLease.Writes.{Landing, refused, landed, acquire-Landing, renew-Landing}
use podcast_digest.JobLease.World.{
  Pending, idle, acquiring, renewing, releasing, Holder, World, Event, tick, acquires, renews,
  releases, lands, others, set_run, is_won, lease, after_write, land, enter, perform, Possible,
  Reachable, start, next, Holds,
}

abbrev saw : Pending → Option (Doc Lock)
saw idle = none
saw (acquiring seen) = seen
saw (renewing seen) = seen
saw (releasing seen) = seen

set_run-cases {ℓ} :
    (P : ℕ → Holder → Type ℓ) (p : ℕ) (h : Holder) (runs : ℕ → Holder)
    → P p h
    → ((q : ℕ) → (q == p) ≡ false → P q (runs q))
    → (q : ℕ) → P q (set_run p h runs q)
set_run-cases P p h runs base rest q = elim (Bool-cases (q == p)) [
  | inl e ↦ rw e (subst (λ r. P r h) (sym ((nat_eq.same_iff q p).0 e)) base)
  | inr e ↦ rw e (rest q e)
]

is_won-true : (r : Result Bool) → is_won r ≡ true → r ≡ ok true
is_won-true (ok b) h = ap ok h
is_won-true (err e) h = absurd cc

module _ (uuid4 : ℕ → String) (distinct : (m n : ℕ) → uuid4 m ≡ uuid4 n → m ≡ n) (job : String)
    (ttl : ℕ) (owner host : ℕ → String) (pid : ℕ → ℕ)
    (own : (p q : ℕ) → owner p ≡ owner q → p ≡ q) where
  abbrev stored : MemoryStore Lock → Option (Doc Lock)
  stored s = lookup (lock_id job) s.docs

  -- The stored document is of owner `p` and lasts until `until` at least.
  abbrev Backed : ℕ → ℕ → MemoryStore Lock → Type 0
  Backed p until s =
      (d : Doc Lock) × (stored s ≡ some d)
      × (d.body.owner ≡ owner p)
      × (e : ℕ) × (d.body.expires_at ≡ some e)
      × (until ≤ e)

  -- `d` was stored once, and the changes since then are known.
  abbrev Known : Doc Lock → MemoryStore Lock → Type 0
  Known d s = (m : ℕ) × IssuedBefore uuid4 m d × Since uuid4 (lock_id job) (some d) m s

  record IsSafe (w : World) : Type 0 where
    sound : IsSound uuid4 w.store
    backed : (p : ℕ) → Holds w p → Backed p (w.runs p).held_until w.store
    known : (p : ℕ) (d : Doc Lock) → saw (w.runs p).pending ≡ some d → Known d w.store

  Known-step :
      (d : Doc Lock) (s : MemoryStore Lock) (o : Op Lock) → Known d s → Known d (step uuid4 s o)
  Known-step d s o (m, h, k) = (m, h, Since-Change uuid4 k (step-Change uuid4 (lock_id job) s o))

  Known-read :
      (d : Doc Lock) (s : MemoryStore Lock)
      → IsSound uuid4 s
      → get s (lock_id job) ≡ some d
      → Known d s
  unfolding get
  Known-read d s h e = (s.draws, h.issued (lock_id job) d e, as_read e (omega arith))

  Known-fits :
      (d : Doc Lock) (s : MemoryStore Lock)
      → Known d s
      → conflicts (stored s) d.rev ≡ false
      → stored s ≡ some d
  Known-fits d s (m, h, k) c = Since-fits uuid4 distinct (lock_id job) m s d d h k refl c

  -- One run changes, and with it the store.
  replaced :
      (w : World) (p : ℕ) (h : Holder) (s : MemoryStore Lock)
      → IsSafe w
      → IsSound uuid4 s
      → (w.clock < h.held_until → Backed p h.held_until s)
      → ((q : ℕ) → (q == p) ≡ false → Holds w q → Backed q (w.runs q).held_until s)
      → ((d : Doc Lock) → saw h.pending ≡ some d → Known d s)
      → ((d : Doc Lock) → Known d w.store → Known d s)
      → IsSafe (record w { store = s; runs = set_run p h w.runs })
  replaced w p h s safe sound backs_p backs known_p keeps = record {
    sound = sound;
    backed =
        set_run-cases (λ q x. w.clock < x.held_until → Backed q x.held_until s) p h w.runs backs_p
          backs;
    known =
        set_run-cases (λ q x. (d : Doc Lock) → saw x.pending ≡ some d → Known d s) p h w.runs
          known_p (λ q _ d e. keeps d (safe.known q d e));
  }

  -- A run enters a call, or gives its lease up.
  enter-IsSafe :
      (w : World) (p : ℕ) (h : Holder)
      → IsSafe w
      → h.held_until ≤ (w.runs p).held_until
      → ((d : Doc Lock) → saw h.pending ≡ some d → Known d w.store)
      → IsSafe (enter uuid4 job ttl owner host pid w p h)
  enter-IsSafe w p h safe shorter reads =
      replaced w p h w.store safe safe.sound
        (λ live.
          let (d, a, b, e, f, g) = safe.backed p (omega arith) in (d, a, b, e, f, omega arith))
        (λ q _ live. safe.backed q live) reads (λ d k. k)

  after_write-IsSafe :
      (w : World) (p checked now : ℕ) (r : Result Bool × MemoryStore Lock)
      → IsSafe w
      → checked ≤ now
      → now ≤ w.clock
      → Landing uuid4 (lease uuid4 job ttl owner host pid p) checked now w.store r
      → IsSafe (after_write uuid4 job ttl owner host pid w p now r)
  after_write-IsSafe w p checked now r safe early past (refused e lost) =
      elim (Bool-cases (is_won r.0)) [
        | inl won ↦ absurd (lost (is_won-true r.0 won))
        | inr not_won ↦ rw not_won (
            rw e (
              enter-IsSafe w p (record (w.runs p) { pending = idle }) safe (omega arith)
                (λ d h. cc)))
      ]
  after_write-IsSafe w p checked now r safe early past (landed op d won e at ours lasts over) =
      rw (ap is_won won) (
        rw e (
          replaced w p _ (step uuid4 w.store op) safe (step-IsSound uuid4 w.store op safe.sound)
            (λ live. (d, ap stored (sym e) ∙ at, ours, now + ttl, lasts, omega arith))
            (λ q other live.
              let (d0, a, b, x, f, g) = safe.backed q live in
              absurd (elim (over d0 a) [
                | inl mine ↦ cc (other, (nat_eq.same_iff q p).1 (own q p (sym b ∙ mine)))
                | inr late ↦ omega (arith, late x f)
              ]))
            (λ d' h. cc) (λ d' k. Known-step d' w.store op k)))

  -- What the deletion of a release does: nothing, or it removes the document that this run owns.
  Released : ℕ → MemoryStore Lock → MemoryStore Lock → Type 0
  Released p s t =
      (t ≡ s)
      ⊎ ((o : Op Lock) × (t ≡ step uuid4 s o)
          × (d : Doc Lock) × (stored s ≡ some d)
          × (d.body.owner ≡ owner p))

  delete-Released :
      (p : ℕ) (s : MemoryStore Lock) (d : Doc Lock) (r : Rev)
      → Known d s
      → d.rev ≡ some r
      → d.body.owner ≡ owner p
      → Released p s (delete s (lock_id job) r).1
  unfolding Released
  delete-Released p s d r k hr ours = elim (Option-cases (stored s)) [
    | inl absent ↦ inl (unfold delete in rw (absent, delete) refl)
    | inr (d0, e) ↦ elim (Bool-cases (rev_opt_beq d0.rev (some r))) [
      | inr stale ↦ inl (unfold delete in rw (e, delete) (rw stale refl))
      | inl fits ↦ inr (
        deletes (lock_id job) r,
        unfold step in refl,
        d,
        Known-fits d s k (unfold conflicts in rw (e, hr) (rw fits refl)),
        ours,
      )
    ]
  ]

  release-Released :
      (p : ℕ) (s : MemoryStore Lock) (seen : Option (Doc Lock))
      → ((d : Doc Lock) → seen ≡ some d → Known d s)
      → Released p s (release (lease uuid4 job ttl owner host pid p) seen s)
  unfolding release
  release-Released p s none k = unfold Released in inl refl
  release-Released p s (some d) k = elim (Option-cases d.rev) [
    | inl e ↦ unfold Released in rw (e, release) (inl refl)
    | inr (r, e) ↦ elim (Bool-cases (d.body.owner == owner p)) [
      | inr other ↦ unfold Released in rw (e, release) (rw other (inl refl))
      | inl ours ↦
          rw (e, release)
            (rw ours (
              delete-Released p s d r (k d refl) e
                ((string_eq.same_iff d.body.owner (owner p)).0 ours)))
    ]
  ]

  Released-IsSafe :
      (w : World) (p : ℕ) (h : Holder) (t : MemoryStore Lock)
      → IsSafe w
      → h.held_until ≡ 0
      → saw h.pending ≡ none
      → Released p w.store t
      → IsSafe (record w { store = t; runs = set_run p h w.runs })
  unfolding Released
  Released-IsSafe w p h t safe until calls (inl e) =
      rw e (enter-IsSafe w p h safe (omega arith) (λ d x. cc))
  Released-IsSafe w p h t safe until calls (inr (o, e, d, a, ours)) = rw e (
      replaced w p h (step uuid4 w.store o) safe (step-IsSound uuid4 w.store o safe.sound)
        (λ live. absurd (omega arith))
        (λ q other live.
          let (d0, a0, b, _, _, _) = safe.backed q live in
          absurd (
            cc (
              other,
              (nat_eq.same_iff q p).1 (
                  own q p
                    (sym b ∙ ap (λ (x : Doc Lock). x.body.owner) (some_inj (sym a0 ∙ a)) ∙ ours)),
            )))
        (λ d' x. cc) (λ d' k. Known-step d' w.store o k))

  land-IsSafe :
      (w : World) (p checked now : ℕ) (c : Pending)
      → IsSafe w
      → checked ≤ now
      → now ≤ w.clock
      → ((d : Doc Lock) → saw c ≡ some d → Known d w.store)
      → IsSafe (land uuid4 job ttl owner host pid w p checked now c)
  land-IsSafe w p checked now idle safe early past known = safe
  land-IsSafe w p checked now (acquiring seen) safe early past known =
      after_write-IsSafe w p checked now _ safe early past
        (acquire-Landing uuid4 _ checked now w.store seen (λ d e. Known-fits d w.store (known d e)))
  land-IsSafe w p checked now (renewing seen) safe early past known =
      after_write-IsSafe w p checked now _ safe early past
        (renew-Landing uuid4 _ checked now w.store seen (λ d e. Known-fits d w.store (known d e)))
  land-IsSafe w p checked now (releasing seen) safe early past known =
      Released-IsSafe w p _ _ safe refl refl (release-Released p w.store seen known)

  perform-IsSafe :
      (w : World) (e : Event)
      → IsSafe w
      → Possible uuid4 job ttl owner host pid w e
      → IsSafe (perform uuid4 job ttl owner host pid w e)
  unfolding perform
  perform-IsSafe w (tick n) safe h = record {
    sound = safe.sound;
    backed = λ q live. safe.backed q (omega arith);
    known = safe.known;
  }
  perform-IsSafe w (acquires p) safe h = elim (Bool-cases (w.runs p).held) [
    | inl held ↦ rw held safe
    | inr free ↦
        rw free (enter-IsSafe w p _ safe (omega arith) (λ d e. Known-read d w.store safe.sound e))
  ]
  perform-IsSafe w (renews p) safe h =
      enter-IsSafe w p _ safe (omega arith) (λ d e. Known-read d w.store safe.sound e)
  perform-IsSafe w (releases p) safe h = elim (Bool-cases (w.runs p).held) [
    | inr free ↦ rw free safe
    | inl held ↦
        rw held (enter-IsSafe w p _ safe (omega arith) (λ d e. Known-read d w.store safe.sound e))
  ]
  perform-IsSafe w (lands p checked now) safe (early, past) =
      land-IsSafe w p checked now (w.runs p).pending safe early past (safe.known p)
  perform-IsSafe w (others o) safe h = record {
    sound = step-IsSound uuid4 w.store o safe.sound;
    backed = λ q live. let (d, a, b, x, f, g) = safe.backed q live in (d, h ∙ a, b, x, f, g);
    known = λ q d e. Known-step d w.store o (safe.known q d e);
  }

  Reachable-IsSafe : (w : World) → Reachable uuid4 job ttl owner host pid w → IsSafe w
  Reachable-IsSafe w (start s now sound) = record {
    sound = sound;
    backed = λ q live. absurd (omega arith);
    known = λ q d e. absurd cc;
  }
  Reachable-IsSafe w (next {w = v} e before h) = perform-IsSafe v e (Reachable-IsSafe v before) h

  -- Runs with different owner identities, revision tags that are never drawn twice, clocks that do
  -- not go back, and other writers that keep off the lease's document: after any sequence of
  -- acquisitions, renewals, releases and ticks, in which the read and the write of a call may lie
  -- apart and other runs may act between them, at most one run holds a lease that has not expired.
  pub at_most_one_holder :
      (w : World) (p q : ℕ)
      → Reachable uuid4 job ttl owner host pid w
      → Holds w p
      → Holds w q
      → p ≡ q
  at_most_one_holder w p q h live_p live_q =
      let (d, a, b, _, _, _) = (Reachable-IsSafe w h).backed p live_p in
      let (d', a', b', _, _, _) = (Reachable-IsSafe w h).backed q live_q in
      own p q (sym b ∙ ap (λ (x : Doc Lock). x.body.owner) (some_inj (sym a ∙ a')) ∙ b')
