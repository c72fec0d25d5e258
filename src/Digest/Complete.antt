-- ===== src/Digest/Complete.antt =====
-- podcast_agent/digest/generate.py, `_collect` and `_bucket`: what a digest lists, and where.
use mathlib.Core.List.{
  Perm, perm_middle, append_assoc, append-nil, perm_append_singleton, filter_map,
}
use mathlib.Core.List.Perm
use podcast_digest.Common.{
  ℕ, ◌≤◌, String, Bool, ◌&&◌, not, Option, none, some, List, [], ◌∷◌, ◌++◌, map, string_eq, nat_eq,
  leb, if◌then◌else◌, keep_if, take, length, sort_by, sort_by-perm, length-sort_by, take_all,
  Bool-cases, ◌≡◌, refl, sym, ap, subst, inl, inr, arith,
}
use podcast_digest.Status.{ready_for_digest, digest_direct}
use podcast_digest.Store.{Doc, MemoryStore}
use podcast_digest.Episode.{Episode}
use podcast_digest.Digest.Listing.{
  DigestRules, Period, View, Buckets, collect, collect_limit, documents, in_window, is_pending,
  published_later, has_status, by_score, by_name, place, fill, bucket, summary_view, one_liner_view,
  audit_view,
}

abbrev pub source : View → Doc Episode
source v = v.episode

abbrev views : Buckets → List View
views b = b.top_picks ++ (b.also_relevant ++ (b.maybe_interesting ++ b.everything_else))

-- The episodes that a digest lists, section by section.
abbrev pub listed : Buckets → List (Doc Episode)
listed b = map source (views b)

module _ {ℓ} {A : Type ℓ} where
  -- An element at the end of a section, with others behind it.
  at_end : (v : A) (xs ys : List A) → Perm ((xs ++ (v ∷ [])) ++ ys) (v ∷ (xs ++ ys))
  at_end v xs ys =
      subst (λ l. Perm l (v ∷ (xs ++ ys))) (sym (append_assoc xs (v ∷ []) ys)) (perm_middle xs ys)

  behind :
      (v : A) (ws : List A) {xs ys : List A} → Perm xs (v ∷ ys) → Perm (ws ++ xs) (v ∷ (ws ++ ys))
  behind v ws {ys = ys} p = Perm.trans (Perm.append_left ws p) (perm_middle ws ys)

  abbrev kept : (A → Bool) → A → Option A
  kept p x = if p x then some x else none

  keep_if-filter_map : (p : A → Bool) (xs : List A) → keep_if p xs ≡ filter_map (kept p) xs
  unfolding keep_if filter_map
  keep_if-filter_map p [] = refl
  keep_if-filter_map p (x ∷ xs) = elim (Bool-cases (p x)) [
    | inl e ↦ rw e (ap (λ l. x ∷ l) (keep_if-filter_map p xs))
    | inr e ↦ rw e (keep_if-filter_map p xs)
  ]

  Perm-keep_if : (p : A → Bool) {xs ys : List A} → Perm xs ys → Perm (keep_if p xs) (keep_if p ys)
  Perm-keep_if p {xs} {ys} h =
      subst (λ l. Perm l (keep_if p ys)) (sym (keep_if-filter_map p xs))
        (subst (λ l. Perm (filter_map (kept p) xs) l) (sym (keep_if-filter_map p ys))
          (Perm.filter_map (kept p) h))

  keep_if-both :
      (p q : A → Bool) (xs : List A) → keep_if q (keep_if p xs) ≡ keep_if (λ x. p x && q x) xs
  unfolding keep_if
  keep_if-both p q [] = refl
  keep_if-both p q (x ∷ xs) = elim (Bool-cases (p x)) [
    | inr e ↦ rw e (keep_if-both p q xs)
    | inl e ↦ rw e (elim (Bool-cases (q x)) [
      | inl f ↦ rw f (ap (λ l. x ∷ l) (keep_if-both p q xs))
      | inr f ↦ rw f (keep_if-both p q xs)
    ])
  ]

module _ (inline cell : ℕ → String → String) (rules : DigestRules) where
  place-perm :
      (boundary : ℕ) (d : Doc Episode) (b : Buckets)
      → Perm (listed (place inline cell rules boundary d b)) (d ∷ listed b)
  unfolding place summary_view one_liner_view audit_view
  place-perm boundary d b = elim (Bool-cases (has_status ready_for_digest d.body)) [
    | inl r ↦
        elim (Bool-cases
          (leb rules.top_pick_threshold (summary_view inline cell rules boundary d).score)) [
            | inl t ↦ rw (r, t) (Perm.map source (at_end _ b.top_picks _))
            | inr t ↦
                rw (r, t) (Perm.map source (behind _ b.top_picks (at_end _ b.also_relevant _)))
          ]
    | inr r ↦ elim (Bool-cases (has_status digest_direct d.body)) [
      | inl m ↦
          rw (r, m)
            (Perm.map source
              (behind _ b.top_picks (behind _ b.also_relevant (at_end _ b.maybe_interesting _))))
      | inr m ↦
          rw (r, m)
            (Perm.map source (
              behind _ b.top_picks (
                behind _ b.also_relevant
                  (behind _ b.maybe_interesting (perm_append_singleton _ b.everything_else)))))
    ]
  ]

  fill-perm :
      (boundary : ℕ) (ds : List (Doc Episode)) (b : Buckets)
      → Perm (listed (fill inline cell rules boundary ds b)) (listed b ++ ds)
  unfolding fill
  fill-perm boundary [] b =
      subst (λ l. Perm (listed b) l) (sym (append-nil (listed b))) (Perm.refl (listed b))
  fill-perm boundary (d ∷ ds) b =
      Perm.trans (fill-perm boundary ds (place inline cell rules boundary d b)) (
        Perm.trans (Perm.append_right ds (place-perm boundary d b))
          (Perm.symm (perm_middle (listed b) ds)))

  pub bucket-perm :
      (boundary : ℕ) (ds : List (Doc Episode))
      → Perm (listed (bucket inline cell rules boundary ds)) ds
  unfolding bucket
  bucket-perm boundary ds =
      let b : Buckets = fill inline cell rules boundary ds (record {
        top_picks = [];
        also_relevant = [];
        maybe_interesting = [];
        everything_else = [];
      }) in
      Perm.trans
        (Perm.map source (
          Perm.append (sort_by-perm by_score b.top_picks) (
            Perm.append (sort_by-perm by_score b.also_relevant) (
              Perm.append (sort_by-perm by_score b.maybe_interesting)
                (sort_by-perm by_name b.everything_else)))))
        (fill-perm boundary ds _)

  -- The episodes of the store that a digest is to report: unclaimed, not of an archive, published in
  -- the window or in the time to catch up before its end, and not in the middle of the pipeline.
  abbrev pub due : Period → Doc Episode → Bool
  due period d = in_window rules period d.body && not (is_pending d.body.status)

  -- A digest lists every episode that is due exactly once, in one of its four sections, and nothing
  -- else, if at most a thousand episodes are unclaimed in its window.
  pub bucket-collect :
      (period : Period) (s : MemoryStore Episode)
      → length (keep_if (λ d. in_window rules period d.body) (documents s)) ≤ collect_limit
      → Perm
          (listed (bucket inline cell rules period.from (collect rules period s)))
          (keep_if (due period) (documents s))
  unfolding collect
  bucket-collect period s few =
      let found : List (Doc Episode) = keep_if (λ d. in_window rules period d.body) (documents s) in
      let newest : List (Doc Episode) =
        sort_by (λ a b. published_later a.body.published_at b.body.published_at) found in
      let all_taken : take collect_limit newest ≡ newest = take_all collect_limit newest (
        omega (
          arith,
          few,
          length-sort_by (λ a b. published_later a.body.published_at b.body.published_at) found,
        )) in
      Perm.trans (bucket-perm period.from _) (
        subst
          (λ l.
            Perm (keep_if (λ d. not (is_pending d.body.status)) l)
              (keep_if (due period) (documents s)))
          (sym all_taken)
          (Perm.trans (Perm-keep_if (λ d. not (is_pending d.body.status)) (sort_by-perm _ found)) (
            subst (λ l. Perm l (keep_if (due period) (documents s)))
              (sym (
                keep_if-both (λ d. in_window rules period d.body)
                  (λ d. not (is_pending d.body.status)) (documents s)))
              (Perm.refl _))))
