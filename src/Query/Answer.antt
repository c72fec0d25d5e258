-- ===== src/Query/Answer.antt =====
-- podcast_agent/db/memory.py, `find`: what a query returns.
use mathlib.Core.List.{Perm}
use mathlib.Core.List.Perm
use podcast_digest.Common.{
  ℕ, zero, suc, ◌≤◌, String, Bool, true, false, not, keep_if, Option, List, [], ◌∷◌, ◌==◌,
  string_eq, if◌then◌else◌, take, drop, length, length-take, take_all, sort_by-perm, length-sort_by,
  All-sort_by, All, All-take, Bool-cases, ◌≡◌, refl, sym, ap, subst, ◌∙◌, inl, inr, arith,
}
use podcast_digest.Errors.{Result, ok, err, Result-cases, ◌>>=◌}
use podcast_digest.Query.{
  Selector, Sort, Fields, matches, matched, find, sorted, check_sortable, check_indexable, count,
}

module _ {κ} (P : Fields → Type κ) where
  All-drop : (n : ℕ) (docs : List Fields) → All P docs → All P (drop n docs)
  All-drop zero docs h = h
  All-drop (suc n) [] h = h
  All-drop (suc n) (d ∷ docs) (p, h) = All-drop n docs h

  All-sorted : (sort : Sort) (docs : List Fields) → All P docs → All P (sorted sort docs)
  unfolding sorted
  All-sorted [] docs h = h
  All-sorted ((field, direction) ∷ sort) docs h = elim (Bool-cases (direction == "desc")) [
    | inl e ↦ rw e (All-sort_by P _ (sorted sort docs) (All-sorted sort docs h))
    | inr e ↦ rw e (All-sort_by P _ (sorted sort docs) (All-sorted sort docs h))
  ]

length-sorted : (sort : Sort) (docs : List Fields) → length (sorted sort docs) ≡ length docs
unfolding sorted
length-sorted [] docs = refl
length-sorted ((field, direction) ∷ sort) docs = elim (Bool-cases (direction == "desc")) [
  | inl e ↦ rw e (length-sort_by _ (sorted sort docs) ∙ length-sorted sort docs)
  | inr e ↦ rw e (length-sort_by _ (sorted sort docs) ∙ length-sorted sort docs)
]

sorted-perm : (sort : Sort) (docs : List Fields) → Perm (sorted sort docs) docs
unfolding sorted
sorted-perm [] docs = Perm.refl docs
sorted-perm ((field, direction) ∷ sort) docs = elim (Bool-cases (direction == "desc")) [
  | inl e ↦ rw e (Perm.trans (sort_by-perm _ (sorted sort docs)) (sorted-perm sort docs))
  | inr e ↦ rw e (Perm.trans (sort_by-perm _ (sorted sort docs)) (sorted-perm sort docs))
]

ok_inj : {a b : List Fields} → ok a ≡ ok b → a ≡ b
ok_inj e = cc e

-- The steps of `find` that may raise.
sequence :
    {A B : Type 0} (first : Result A) (hits : Result (List Fields)) (second : Result B)
    (page : List Fields → List Fields) (out : List Fields)
    → (do a ← first; found ← hits; b ← second; ok (page found)) ≡ ok out
    → (found : List Fields) × (hits ≡ ok found) × (page found ≡ out)
sequence (err e) hits second page out h = absurd (cc h)
sequence (ok a) (err e) second page out h = absurd (cc h)
sequence (ok a) (ok found) (err e) page out h = absurd (cc h)
sequence (ok a) (ok found) (ok b) page out h = (found, refl, ok_inj h)

module _ (search : String → String → Bool) (selector : Selector) where
  abbrev pub Hit : Fields → Type 0
  Hit doc = matches search doc selector ≡ ok true

  matched-Hit : (docs hits : List Fields) → matched search selector docs ≡ ok hits → All Hit hits
  unfolding matched
  matched-Hit [] hits h = subst (λ l. All Hit l) (ok_inj h) tt
  matched-Hit (doc ∷ docs) hits h = elim (Result-cases (matches search doc selector)) [
    | inr (e, raised_here) ↦ absurd (cc (rw raised_here at h))
    | inl (hit, e) ↦ elim (Result-cases (matched search selector docs)) [
      | inr (x, raised_there) ↦ absurd (cc (rw (e, raised_there) at h))
      | inl (rest, r) ↦
          let later = matched-Hit docs rest r in
          let got : ok (if hit then doc ∷ rest else rest) ≡ ok hits = rw (e, r) at h in
          subst (λ l. All Hit l) (ok_inj got)
            (elim (Bool-cases hit) [
              | inl taken ↦ rw taken (e ∙ ap ok taken, later)
              | inr passed_over ↦ rw passed_over later
            ])
    ]
  ]

  abbrev pub answer_is : Bool → Result Bool → Bool
  answer_is b (ok c) = if b then c else not c
  answer_is b (err e) = false

  -- The documents of the store that the selector matches.
  unfoldable pub matching : List Fields → List Fields
  matching docs = keep_if (λ doc. answer_is true (matches search doc selector)) docs

  matched-matching :
      (docs hits : List Fields) → matched search selector docs ≡ ok hits → hits ≡ matching docs
  unfolding matched matching keep_if
  matched-matching [] hits h = sym (ok_inj h)
  matched-matching (doc ∷ docs) hits h = elim (Result-cases (matches search doc selector)) [
    | inr (e, raised_here) ↦ absurd (cc (rw raised_here at h))
    | inl (hit, e) ↦ elim (Result-cases (matched search selector docs)) [
      | inr (x, raised_there) ↦ absurd (cc (rw (e, raised_there) at h))
      | inl (rest, r) ↦
          let got : ok (if hit then doc ∷ rest else rest) ≡ ok hits = rw (e, r) at h in
          sym (ok_inj got) ∙ elim (Bool-cases hit) [
            | inl taken ↦ rw (e, taken) (ap (λ l. doc ∷ l) (matched-matching docs rest r))
            | inr passed_over ↦ rw (e, passed_over) (matched-matching docs rest r)
          ]
    ]
  ]

  -- A query that returns: each document that it returns matches the selector, there are no more than the
  -- limit, a limit that is enough, with nothing skipped, gives every document of the store that
  -- matches, each as often as it is stored, and `count` gives their number.
  pub find-Answer :
      (sort : Sort) (limit skip : ℕ) (use_index : Option String) (docs out : List Fields)
      → find search selector sort limit skip use_index docs ≡ ok out
      → All Hit out
        × (length out ≤ limit)
        × (count search selector docs ≡ ok (length (matching docs)))
        × (skip ≡ 0 → length (matching docs) ≤ limit → Perm out (matching docs))
  unfolding find count
  find-Answer sort limit skip use_index docs out h =
      let (hits, found, page) =
        sequence (check_sortable sort) (matched search selector docs)
          (check_indexable selector sort use_index) (λ l. take limit (drop skip (sorted sort l)))
          out h in
      let all : hits ≡ matching docs = matched-matching docs hits found in
      (
        subst (λ l. All Hit l) page
            (All-take Hit limit _
              (All-drop Hit skip _ (All-sorted Hit sort hits (matched-Hit docs hits found)))),
        subst (λ l. length l ≤ limit) page
            (omega (arith, length-take limit (drop skip (sorted sort hits)))),
        ap (λ (r : Result (List Fields)). do l ← r; ok (length l)) found
            ∙ ap (λ (l : List Fields). ok (length l)) all,
        λ none_skipped enough.
            subst (λ l. Perm out l) all
              (subst (λ l. Perm l hits)
                (sym (
                    take_all limit (sorted sort hits) (
                      omega (
                        arith,
                        length-sorted sort hits,
                        enough,
                        ap (λ (l : List Fields). length l) all,
                      )))
                  ∙ ap (λ n. take limit (drop n (sorted sort hits))) (sym none_skipped)
                  ∙ page)
                (sorted-perm sort hits)),
      )
