-- ===== src/JobLease/Writes.antt =====
-- What the write of each lease operation does to the document of the lease.
use podcast_digest.Common.{
  ℕ, ◌+◌, ◌≤◌, String, Bool, true, false, Option, none, some, ◌==◌, string_eq, lookup,
  lookup-insert_self, Bool-cases, Option-cases, some_inj, ◌≡◌, refl, sym, ap, subst, ◌∙◌, ◌⊎◌, inl,
  inr, arith,
}
use podcast_digest.Errors.{Error, Result, ok, err}
use podcast_digest.Store.{
  Doc, Rev, MemoryStore, Op, puts, step, put, create, write, conflicts, doc_rev, next_rev,
  kept_attachments, created,
}
use podcast_digest.Store.Mvcc.{put_cases}
use podcast_digest.JobLease.{
  Lock, JobLease, lock_id, lease_doc, is_live, won, takeover, renewal, acquire, renew,
}

-- Nobody else can count on the stored document: it is this owner's, or it had expired by `checked`.
abbrev pub Over : JobLease → ℕ → Doc Lock → Type 0
Over lease checked d =
    (d.body.owner ≡ lease.owner) ⊎ ((e : ℕ) → d.body.expires_at ≡ some e → e ≤ checked)

is_live-over : (o : Option ℕ) (checked e : ℕ) → is_live o checked ≡ false → o ≡ some e → e ≤ checked
unfolding is_live
is_live-over none checked e h g = absurd cc
is_live-over (some x) checked e h g = ground arith

-- The write of an operation that says whether the lease is now ours.
pub data Landing (uuid4 : ℕ → String) (lease : JobLease) (checked now : ℕ) (s : MemoryStore Lock)
    (r : Result Bool × MemoryStore Lock) : Type 0 where
  refused : r.1 ≡ s → (r.0 ≡ ok true → ⊥) → Landing uuid4 lease checked now s r
  landed :
      (op : Op Lock) (d : Doc Lock)
      → r.0 ≡ ok true
      → r.1 ≡ step uuid4 s op
      → lookup (lock_id lease.job) r.1.docs ≡ some d
      → d.body.owner ≡ lease.owner
      → d.body.expires_at ≡ some (now + lease.ttl)
      → ((d0 : Doc Lock) → lookup (lock_id lease.job) s.docs ≡ some d0 → Over lease checked d0)
      → Landing uuid4 lease checked now s r

module _ (uuid4 : ℕ → String) (lease : JobLease) (checked now : ℕ) (s : MemoryStore Lock) where
  -- A guarded write of the lease's document, and what the operation answers.
  put-Landing :
      (answer : Result (String × Rev) × MemoryStore Lock → Result Bool × MemoryStore Lock)
      → ((p : Result (String × Rev) × MemoryStore Lock) → (answer p).1 ≡ p.1)
      → ((v : String × Rev) (t : MemoryStore Lock) → (answer (ok v, t)).0 ≡ ok true)
      → ((e : Error) → (answer (err e, s)).0 ≡ ok true → ⊥)
      → (d : Doc Lock) → d.id ≡ some (lock_id lease.job)
      → d.body.owner ≡ lease.owner
      → d.body.expires_at ≡ some (now + lease.ttl)
      → (conflicts (lookup (lock_id lease.job) s.docs) d.rev ≡ false
          → (d0 : Doc Lock) → lookup (lock_id lease.job) s.docs ≡ some d0
          → Over lease checked d0)
      → Landing uuid4 lease checked now s (answer (put uuid4 s d))
  put-Landing answer keeps wins loses d hi ho he over =
      put_cases uuid4 (λ p. p.1 ≡ (put uuid4 s d).1 → Landing uuid4 lease checked now s (answer p))
        s d (λ e _. refused (keeps (err e, s)) (loses e))
        (λ j hj c same.
          let q : j ≡ lock_id lease.job = some_inj (sym hj ∙ hi) in
          landed (puts d) _ (wins _ _) (keeps _ ∙ same ∙ unfold step in refl)
            (ap (λ t. lookup (lock_id lease.job) t.docs) (keeps _)
              ∙ subst
                  (λ k.
                    lookup k (write uuid4 s j d).docs
                    ≡ some (record d {
                      rev = some (next_rev uuid4 (doc_rev (lookup j s.docs)) s.draws);
                      attachments = kept_attachments (lookup j s.docs) d.attachments;
                    }))
                  q (unfold write in lookup-insert_self j _ s.docs))
            ho he (over (subst (λ k. conflicts (lookup k s.docs) d.rev ≡ false) q c)))
        refl

  won-Landing :
      (d : Doc Lock)
      → d.id ≡ some (lock_id lease.job)
      → d.body.owner ≡ lease.owner
      → d.body.expires_at ≡ some (now + lease.ttl)
      → (conflicts (lookup (lock_id lease.job) s.docs) d.rev ≡ false
          → (d0 : Doc Lock) → lookup (lock_id lease.job) s.docs ≡ some d0
          → Over lease checked d0)
      → Landing uuid4 lease checked now s (won (put uuid4 s d))
  won-Landing = put-Landing won (λ p. refl) (λ v t. refl) (λ e h. ground arith)

  create-Landing : Landing uuid4 lease checked now s (create uuid4 s (lease_doc lease now))
  unfolding create lease_doc
  create-Landing = elim (Bool-cases (lock_id lease.job == "")) [
    | inl blank ↦ rw blank (refused refl (λ h. cc))
    | inr named ↦ elim (Option-cases (lookup (lock_id lease.job) s.docs)) [
      | inr (d, e) ↦ rw named (rw e (refused refl (λ h. cc)))
      | inl e ↦ rw named (
          rw e (
            put-Landing (created uuid4) (λ p. refl) (λ v t. refl) (λ x h. cc) _ refl refl refl
              (λ _ d0 f. absurd cc)))
    ]
  ]

  -- What was read is still there when a write with its revision is accepted.
  abbrev Fits : Doc Lock → Type 0
  Fits d =
      conflicts (lookup (lock_id lease.job) s.docs) d.rev ≡ false
      → lookup (lock_id lease.job) s.docs ≡ some d

  pub acquire-Landing :
      (seen : Option (Doc Lock))
      → ((d : Doc Lock) → seen ≡ some d → Fits d)
      → Landing uuid4 lease checked now s (acquire uuid4 lease seen checked now s)
  unfolding acquire takeover lease_doc
  acquire-Landing none fits = create-Landing
  acquire-Landing (some d) fits = elim (Bool-cases (is_live d.body.expires_at checked)) [
    | inl live ↦ rw live (refused refl (λ h. cc))
    | inr over ↦ rw over (
        won-Landing _ refl refl refl λ c d0 f. inr λ e g.
          is_live-over d.body.expires_at checked e over
            (ap (λ (x : Doc Lock). x.body.expires_at) (some_inj (sym (fits d refl c) ∙ f)) ∙ g))
  ]

  pub renew-Landing :
      (seen : Option (Doc Lock))
      → ((d : Doc Lock) → seen ≡ some d → Fits d)
      → Landing uuid4 lease checked now s (renew uuid4 lease seen now s)
  unfolding renew renewal lease_doc
  renew-Landing none fits = refused refl (λ h. cc)
  renew-Landing (some d) fits = elim (Bool-cases (d.body.owner == lease.owner)) [
    | inr other ↦ rw other (refused refl (λ h. cc))
    | inl ours ↦ rw ours (
        won-Landing _ refl refl refl λ c d0 f. inl (
          ap (λ (x : Doc Lock). x.body.owner) (some_inj (sym f ∙ fits d refl c))
          ∙ (string_eq.same_iff d.body.owner lease.owner).0 ours))
  ]
