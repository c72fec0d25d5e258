-- ===== src/Digest/Once.antt =====
-- podcast_agent/digest/generate.py: `_collect` after `_mark_published`.
use podcast_digest.Common.{
  ℕ, String, true, false, Option, none, some, List, ◌==◌, string_eq, All, Option-cases, some_inj,
  ◌≡◌, refl, sym, subst, ◌∙◌, inl, inr,
}
use podcast_digest.Store.{MemoryStore}
use podcast_digest.Episode.{Episode}
use podcast_digest.Digest.{claimed, mark_published}
use podcast_digest.Digest.Marking.{nobody, marked}
use podcast_digest.Digest.Effect.{
  body_at, map_option, listed, IsReady, Marks, mark_published-Marks, claimed-marked,
}
use podcast_digest.Digest.Listing.{DigestRules, Period, in_window}

claimed-in_window :
    (rules : DigestRules) (period : Period) (doc : Episode)
    → claimed doc ≡ true
    → in_window rules period doc ≡ false
unfolding in_window claimed
claimed-in_window rules period doc h = elim (Option-cases doc.digest_id) [
  | inl e ↦ absurd (cc (rw e at h))
  | inr (d, e) ↦ rw e refl
]

claimed_there :
    (digest_id : String) (real : (digest_id == "") ≡ false) (now : ℕ) (o : Option Episode)
    (doc : Episode)
    → map_option (marked digest_id now) o ≡ some doc
    → claimed doc ≡ true
claimed_there digest_id real now none doc h = absurd cc
claimed_there digest_id real now (some d) doc h =
    subst (λ x. claimed x ≡ true) (some_inj h) (claimed-marked digest_id real now d)

module _ (uuid4 : ℕ → String) (digest_id : String) (real : (digest_id == "") ≡ false)
    (now : ℕ) where
  -- With nobody else writing, on a sound store in which every episode has a status, for non-empty ids
  -- and a non-empty digest id: what `_mark_published` was given is in no later digest's selection,
  -- whatever its period and its settings.
  pub mark_published-in_window :
      (ids : List String) (s : MemoryStore Episode)
      → IsReady uuid4 s
      → All (λ i. (i == "") ≡ false) ids
      → (rules : DigestRules) (period : Period) (i : String) (doc : Episode) → listed i ids ≡ true
      → body_at (mark_published uuid4 nobody digest_id now ids s).1 i ≡ some doc
      → in_window rules period doc ≡ false
  mark_published-in_window ids s h named rules period i doc on there =
      let m : Marks uuid4 digest_id real now ids s
          (mark_published uuid4 nobody digest_id now ids s).1 =
        (mark_published-Marks uuid4 digest_id real now ids s h named).2 in
      let marks : map_option (marked digest_id now) (body_at s i) ≡ some doc =
        rw on at (sym (m.bodies i) ∙ there) in
      claimed-in_window rules period doc (claimed_there digest_id real now (body_at s i) doc marks)
