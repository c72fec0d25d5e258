-- ===== src/Retention/Batches.antt =====
-- podcast_agent/retention.py, `_expire_llm_calls` and the three functions like it: when the loop
-- over batches ends, and what is left then.
use podcast_digest.Common.{
  ◌≤◌, ◌<◌, String, Bool, true, false, ◌&&◌, not, none, some, List, [], ◌∷◌, ◌==◌, string_eq,
  nat_eq, keep_if, length, lookup, remove, lookup-remove, lookup-remove_self, All, All-map,
  Bool-cases, some_inj, ◌≡◌, refl, sym, ap, subst, ◌∙◌, ◌⊎◌, inl, inr, arith, beq_refl,
}
use podcast_digest.Errors.{ok}
use podcast_digest.Store.{Doc, Rev, MemoryStore, delete, drop_attachments, rev_eq}
use podcast_digest.Retention.{Fields, RetentionStats, Entry, delete_record, delete_batch}
use podcast_digest.Retention.Expired.{
  remove-All, remove_absent, keep_if-remove, length-keep_if-remove, removal_counts,
}

-- A document of the store stands under its `_id`, once, and has a revision.
abbrev pub Filed : MemoryStore Fields → Entry → Type 0
Filed s e = (lookup e.0 s.docs ≡ some e.1) × (e.1.id ≡ some e.0) × (r : Rev) × (e.1.rev ≡ some r)

abbrev pub Proper : MemoryStore Fields → Type 0
Proper s = All (Filed s) s.docs

delete_absent :
    (s : MemoryStore Fields) (i : String) (r : Rev)
    → lookup i s.docs ≡ none
    → delete s i r ≡ (ok tt, s)
unfolding delete
delete_absent s i r h = rw (h, delete) refl

delete_found :
    (s : MemoryStore Fields) (i : String) (r : Rev) (d : Doc Fields)
    → lookup i s.docs ≡ some d
    → d.rev ≡ some r
    → delete s i r
      ≡ (ok tt, record s { docs = remove i s.docs; attachments = drop_attachments i s.attachments })
unfolding delete
delete_found s i r d h v = rw (h, delete) (rw v (rw (beq_refl r) refl))

module _ (refuses : String → Bool) (counted : RetentionStats → RetentionStats)
    (selects : Fields → Bool) where
  abbrev pub is_selected : Entry → Bool
  is_selected e = selects e.1.body

  abbrev pub is_refused : Entry → Bool
  is_refused e = is_selected e && refuses e.0

  -- What one deletion does to the documents.
  data Deleted (e : Entry) (s t : MemoryStore Fields) : Type 0 where
    refused : refuses e.0 ≡ true → t ≡ s → Deleted e s t
    removed : refuses e.0 ≡ false → t.docs ≡ remove e.0 s.docs → Deleted e s t

  -- An entry of a batch is as the store has it, or was deleted in between.
  abbrev pub Current : Entry → MemoryStore Fields → Type 0
  Current e s =
      (e.1.id ≡ some e.0)
      × ((r : Rev) × (e.1.rev ≡ some r))
      × ((lookup e.0 s.docs ≡ some e.1) ⊎ (lookup e.0 s.docs ≡ none))

  delete_record-Deleted :
      (e : Entry) (s : MemoryStore Fields) (stats : RetentionStats)
      → Current e s
      → Deleted e s (delete_record refuses counted e.1.id e.1.rev s stats).0
  unfolding delete_record
  delete_record-Deleted e s stats (i, (r, v), there) = elim (Bool-cases (refuses e.0)) [
    | inl x ↦ rw (i, v, delete_record) (rw x (refused x refl))
    | inr x ↦ elim there [
      | inr absent ↦
          rw (i, v, delete_record)
            (rw (x, delete_absent s e.0 r absent)
              (removed x (
                ap (λ o. o.1.docs) (delete_absent s e.0 r absent)
                ∙ sym (remove_absent e.0 s.docs absent))))
      | inl found ↦
          rw (i, v, delete_record)
            (rw (x, delete_found s e.0 r e.1 found v)
              (removed x (ap (λ o. o.1.docs) (delete_found s e.0 r e.1 found v))))
    ]
  ]

  -- What one pass over a batch preserves and achieves.
  pub record Round (batch : List Entry) (s t : MemoryStore Fields) : Type 0 where
    pub proper : Proper t
    pub stubborn_kept : keep_if is_refused t.docs ≡ keep_if is_refused s.docs
    pub others_kept :
        keep_if (λ e. not (is_selected e)) t.docs ≡ keep_if (λ e. not (is_selected e)) s.docs
    pub fewer : length (keep_if is_selected t.docs) ≤ length (keep_if is_selected s.docs)
    pub gone : All (λ e. refuses e.0 ≡ false → lookup e.0 t.docs ≡ none) batch
    pub only_lost : (i : String) → (lookup i t.docs ≡ lookup i s.docs) ⊎ (lookup i t.docs ≡ none)

  Filed-removed :
      (k : String) (s t : MemoryStore Fields) → t.docs ≡ remove k s.docs → Proper s → Proper t
  Filed-removed k s t q h =
      subst (λ l. All (Filed t) l) (sym q)
        (All-map _ (λ e (f, other). (still e.0 other ∙ f.0, f.1, f.2, f.3)) (remove k s.docs)
          (remove-All (Filed s) k s.docs h))
    where
      still : (j : String) → (j == k) ≡ false → lookup j t.docs ≡ lookup j s.docs
      still j other =
          ap (lookup j) q
          ∙ lookup-remove k j s.docs
          ∙ ground (arith, other, string_eq.same_iff j k, string_eq.same_iff k j)

  Deleted-Round :
      (e : Entry) (s t : MemoryStore Fields)
      → Proper s
      → Current e s
      → is_selected e ≡ true
      → Deleted e s t
      → Round (e ∷ []) s t
  Deleted-Round e s t h c y (refused x q) =
      subst (λ u. Round (e ∷ []) s u) (sym q)
        (record {
          proper = h;
          stubborn_kept = refl;
          others_kept = refl;
          fewer = omega arith;
          gone = (λ n. absurd cc, tt);
          only_lost = λ i. inl refl;
        })
  Deleted-Round e s t h (i, (r, v), there) y (removed x q) = record {
    proper = Filed-removed e.0 s t q h;
    stubborn_kept =
        ap (keep_if is_refused) q
        ∙ keep_if-remove is_refused e.0 s.docs (All-map _ spared s.docs h);
    others_kept =
        ap (keep_if (λ e. not (is_selected e))) q
        ∙ keep_if-remove (λ e. not (is_selected e)) e.0 s.docs (All-map _ of_other s.docs h);
    fewer =
        subst (λ l. length (keep_if is_selected l) ≤ length (keep_if is_selected s.docs)) (sym q)
          (length-keep_if-remove is_selected e.0 s.docs);
    gone = (λ n. ap (lookup e.0) q ∙ lookup-remove_self e.0 s.docs, tt);
    only_lost = lost;
  }
    where
      lost : (i : String) → (lookup i t.docs ≡ lookup i s.docs) ⊎ (lookup i t.docs ≡ none)
      lost i = elim (Bool-cases (e.0 == i)) [
        | inl same ↦ inr (ap (lookup i) q ∙ lookup-remove e.0 i s.docs ∙ rw same refl)
        | inr other ↦ inl (ap (lookup i) q ∙ lookup-remove e.0 i s.docs ∙ rw other refl)
      ]

      spared : (o : Entry) → Filed s o → (o.0 == e.0) ≡ true → is_refused o ≡ false
      spared o f same =
          let at : o.0 ≡ e.0 = (string_eq.same_iff o.0 e.0).0 same in
          let free : refuses o.0 ≡ false = ap refuses at ∙ x in ground (arith, free)

      of_other : (o : Entry) → Filed s o → (o.0 == e.0) ≡ true → not (is_selected o) ≡ false
      of_other o f same =
          let at : o.0 ≡ e.0 = (string_eq.same_iff o.0 e.0).0 same in
          let found : lookup e.0 s.docs ≡ some o.1 = ap (λ k. lookup k s.docs) (sym at) ∙ f.0 in
          elim there [
            | inl l ↦ ap (λ d. not (selects d.body)) (some_inj (sym found ∙ l)) ∙ ap not y
            | inr absent ↦ absurd (cc (found, absent))
          ]

  Deleted-Current :
      (e o : Entry) (s t : MemoryStore Fields) → Deleted e s t → Current o s → Current o t
  Deleted-Current e o s t (refused x q) c = subst (Current o) (sym q) c
  Deleted-Current e o s t (removed x q) (i, v, there) = (
    i,
    v,
    elim (Bool-cases (e.0 == o.0)) [
      | inl same ↦ inr (ap (lookup o.0) q ∙ lookup-remove e.0 o.0 s.docs ∙ rw same refl)
      | inr other ↦ elim there [
        | inl l ↦ inl (ap (lookup o.0) q ∙ lookup-remove e.0 o.0 s.docs ∙ rw other l)
        | inr n ↦ inr (ap (lookup o.0) q ∙ lookup-remove e.0 o.0 s.docs ∙ rw other n)
      ]
    ],
  )

  Round-then :
      (e : Entry) (batch : List Entry) (s t u : MemoryStore Fields)
      → Round (e ∷ []) s t
      → Round batch t u
      → Round (e ∷ batch) s u
  Round-then e batch s t u a b = record {
    proper = b.proper;
    stubborn_kept = b.stubborn_kept ∙ a.stubborn_kept;
    others_kept = b.others_kept ∙ a.others_kept;
    fewer = omega (arith, a.fewer, b.fewer);
    gone = (λ n. elim (b.only_lost e.0) [ inl l ↦ l ∙ a.gone.0 n | inr l ↦ l ], b.gone);
    only_lost = λ i. elim (b.only_lost i) [
      | inr l ↦ inr l
      | inl l ↦ elim (a.only_lost i) [ inl m ↦ inl (l ∙ m) | inr m ↦ inr (l ∙ m) ]
    ];
  }

  abbrev pub Fits : MemoryStore Fields → Entry → Type 0
  Fits s e = Current e s × (is_selected e ≡ true)

  pub delete_batch-Round :
      (batch : List Entry) (s : MemoryStore Fields) (stats : RetentionStats)
      → Proper s
      → All (Fits s) batch
      → Round batch s (delete_batch refuses counted batch s stats).0
  unfolding delete_batch
  delete_batch-Round [] s stats h fits = record {
    proper = h;
    stubborn_kept = refl;
    others_kept = refl;
    fewer = omega arith;
    gone = tt;
    only_lost = λ i. inl refl;
  }
  delete_batch-Round (e ∷ batch) s stats h ((c, y), fits) =
      let out : MemoryStore Fields × RetentionStats =
        delete_record refuses counted e.1.id e.1.rev s stats in
      let d : Deleted e s out.0 = delete_record-Deleted e s stats c in
      let first : Round (e ∷ []) s out.0 = Deleted-Round e s out.0 h c y d in
      Round-then e batch s out.0 _ first (
        delete_batch-Round batch out.0 out.1 first.proper
          (All-map _ (λ o f. (Deleted-Current e o s out.0 d f.0, f.1)) batch fits))

  pub current : (s : MemoryStore Fields) (e : Entry) → Filed s e → Current e s
  current s e f = (f.1, (f.2, f.3), inl f.0)

  -- A batch that is not all refused makes the selection smaller.
  pub delete_batch-progress :
      (batch : List Entry) (s : MemoryStore Fields) (stats : RetentionStats)
      → Proper s
      → All (λ e. Filed s e × (is_selected e ≡ true)) batch
      → All (λ e. refuses e.0 ≡ true) batch
        ⊎ (length (keep_if is_selected (delete_batch refuses counted batch s stats).0.docs)
            < length (keep_if is_selected s.docs))
  unfolding delete_batch
  delete_batch-progress [] s stats h fits = inl tt
  delete_batch-progress (e ∷ batch) s stats h ((f, y), fits) =
      let out : MemoryStore Fields × RetentionStats =
        delete_record refuses counted e.1.id e.1.rev s stats in
      let c : Current e s = current s e f in
      let d : Deleted e s out.0 = delete_record-Deleted e s stats c in
      elim d [
        | refused x q ↦
            elim (delete_batch-progress batch out.0 out.1 (subst Proper (sym q) h)
              (subst (λ u. All (λ e. Filed u e × (is_selected e ≡ true)) batch) (sym q) fits)) [
                | inl all ↦ inl (x, all)
                | inr less ↦
                    inr (omega (arith, less, ap (λ u. length (keep_if is_selected u.docs)) q))
              ]
        | removed x q ↦
            let rest : Round batch out.0 (delete_batch refuses counted batch out.0 out.1).0 =
              delete_batch-Round batch out.0 out.1 (Filed-removed e.0 s out.0 q h) (
                All-map _
                  (λ o g. (Deleted-Current e o s out.0 (removed x q) (current s o g.0), g.1)) batch
                  fits) in
            inr (
              omega (
                arith,
                rest.fewer,
                removal_counts is_selected e.0 e.1 s.docs f.0 y,
                ap (λ l. length (keep_if is_selected l)) q,
              ))
      ]
