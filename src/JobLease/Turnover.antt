-- ===== src/JobLease/Turnover.antt =====
-- podcast_agent/joblock.py: acquiring and renewing a lease with nobody in between.
use podcast_digest.Common.{
  ℕ, ◌+◌, String, Bool, true, false, Option, none, some, not, ◌==◌, string_eq, lookup, Bool-cases,
  Option-cases, ◌≡◌, refl, ap, ◌∙◌, inl, inr,
}
use Prim.Native.String.{◌++◌ as ◌<>◌}
use text.Mathlib.TextLemmas.{append-eq-nil_iff}
use podcast_digest.Errors.{Result, ok}
use podcast_digest.Store.{Doc, MemoryStore, put, get, create, conflicts}
use podcast_digest.Store.Update.{put_fits}
use podcast_digest.JobLease.Writes.{Landing, refused, landed, acquire-Landing, renew-Landing}
use podcast_digest.JobLease.{
  owned, won, takeover, renewal, Lock, JobLease, lock_id, lease_doc, is_live, acquire, renew,
}

lock_id_named : (job : String) → (lock_id job == "") ≡ false
unfolding lock_id
lock_id_named job = elim (Bool-cases (("control:lock:" <> job) == "")) [
  | inr e ↦ e
  | inl e ↦
      absurd (cc (append-eq-nil_iff.0 ((string_eq.same_iff ("control:lock:" <> job) "").0 e)).0)
]

-- `acquire` finds no live lease.
abbrev pub vacant : Option (Doc Lock) → ℕ → Bool
vacant none checked = true
vacant (some d) checked = not (is_live d.body.expires_at checked)

-- The lease's document is this run's, until its time to live is over.
abbrev pub IsOurs : JobLease → ℕ → MemoryStore Lock → Type 0
IsOurs lease now s =
    (d : Doc Lock) × (get s (lock_id lease.job) ≡ some d)
    × (d.body.owner ≡ lease.owner)
    × (d.body.expires_at ≡ some (now + lease.ttl))

module _ (uuid4 : ℕ → String) (lease : JobLease) (checked now : ℕ) (s : MemoryStore Lock) where
  put-wins :
      (d d' : Doc Lock)
      → get s (lock_id lease.job) ≡ some d
      → d'.id ≡ some (lock_id lease.job)
      → d'.rev ≡ d.rev
      → (won (put uuid4 s d')).0 ≡ ok true
  put-wins d d' g hi hr =
      ap (λ p. (won p).0)
        (put_fits uuid4 (lock_id lease.job) s d d' g hi hr (lock_id_named lease.job))

  create_first :
      lookup (lock_id lease.job) s.docs ≡ none → (create uuid4 s (lease_doc lease now)).0 ≡ ok true
  unfolding create put conflicts lease_doc
  create_first e = rw (lock_id_named lease.job) (rw e refl)

  acquire_answer :
      (acquire uuid4 lease (get s (lock_id lease.job)) checked now s).0
      ≡ ok (vacant (get s (lock_id lease.job)) checked)
  unfolding acquire
  acquire_answer = elim (Option-cases (get s (lock_id lease.job))) [
    | inl e ↦ rw e (create_first (unfold get in e))
    | inr (d, e) ↦ rw e (elim (Bool-cases (is_live d.body.expires_at checked)) [
      | inl live ↦ rw live refl
      | inr over ↦ rw over (
          put-wins d (takeover lease d now) e (unfold takeover lease_doc in refl)
            (unfold takeover in refl))
    ])
  ]

  unlost :
      (d : Doc Lock)
      → get s (lock_id lease.job) ≡ some d
      → conflicts (lookup (lock_id lease.job) s.docs) d.rev ≡ false
      → lookup (lock_id lease.job) s.docs ≡ some d
  unfolding get
  unlost d e c = e

  settled :
      (r : Result Bool × MemoryStore Lock) (b : Bool)
      → r.0 ≡ ok b
      → Landing uuid4 lease checked now s r
      → (b ≡ true → IsOurs lease now r.1) × (b ≡ false → r.1 ≡ s)
  unfolding get
  settled r b e (refused same lost) = (λ h. absurd (lost (e ∙ ap ok h)), λ _. same)
  settled r b e (landed op d won _ at ours lasts _) = (λ _. (d, at, ours, lasts), λ h. absurd cc)

  -- With nobody else writing between its read and its write: `acquire` answers `true` if
  -- there is no lease, or the one found has expired or has no readable expiry, whatever became of
  -- its owner, and the lease's document is then this run's until `now + ttl`; if the lease found is live, it answers `false`
  -- and changes nothing.
  pub acquire_alone :
      ((acquire uuid4 lease (get s (lock_id lease.job)) checked now s).0
        ≡ ok (vacant (get s (lock_id lease.job)) checked))
      × (vacant (get s (lock_id lease.job)) checked ≡ true
          → IsOurs lease now (acquire uuid4 lease (get s (lock_id lease.job)) checked now s).1)
      × (vacant (get s (lock_id lease.job)) checked ≡ false
          → (acquire uuid4 lease (get s (lock_id lease.job)) checked now s).1 ≡ s)
  acquire_alone =
      let (won_it, lost_it) =
        settled _ _ acquire_answer
          (acquire-Landing uuid4 lease checked now s (get s (lock_id lease.job)) unlost) in
      (acquire_answer, won_it, lost_it)

  renew_answer :
      (renew uuid4 lease (get s (lock_id lease.job)) now s).0
      ≡ ok (owned lease (get s (lock_id lease.job)))
  unfolding renew owned
  renew_answer = elim (Option-cases (get s (lock_id lease.job))) [
    | inl e ↦ rw e refl
    | inr (d, e) ↦ rw e (elim (Bool-cases (d.body.owner == lease.owner)) [
      | inr other ↦ rw other refl
      | inl ours ↦ rw ours (
          put-wins d (renewal lease d now) e (unfold renewal lease_doc in refl)
            (unfold renewal in refl))
    ])
  ]

module _ (uuid4 : ℕ → String) (lease : JobLease) (now : ℕ) (s : MemoryStore Lock) where
  -- With nobody else writing between its read and its write: `renew` answers `true`
  -- exactly if the lease's document is this run's, expired or not, and the document then lasts until
  -- `now + ttl`; otherwise it changes nothing.
  pub renew_alone :
      ((renew uuid4 lease (get s (lock_id lease.job)) now s).0
        ≡ ok (owned lease (get s (lock_id lease.job))))
      × (owned lease (get s (lock_id lease.job)) ≡ true
          → IsOurs lease now (renew uuid4 lease (get s (lock_id lease.job)) now s).1)
      × (owned lease (get s (lock_id lease.job)) ≡ false
          → (renew uuid4 lease (get s (lock_id lease.job)) now s).1 ≡ s)
  renew_alone =
      let (won_it, lost_it) =
        settled uuid4 lease now now s _ _ (renew_answer uuid4 lease now now s) (
          renew-Landing uuid4 lease now now s (get s (lock_id lease.job))
            (unlost uuid4 lease now now s)) in
      (renew_answer uuid4 lease now now s, won_it, lost_it)
