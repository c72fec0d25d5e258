-- ===== src/Status/Machine.antt =====
-- The transition table as a machine: where an episode can go, and what lies on the way.
use podcast_digest.Common.{
  String, Bool, true, false, Option, none, some, List, [], ◌∷◌, ◌&&◌, ◌||◌, if◌then◌else◌, all_of,
  ◌≡◌, refl, sym, ◌∙◌, ap, ◌⊎◌, inl, inr, arith, ◌↔◌, some_inj, string_eq,
}
use podcast_digest.Errors.{ok}
use podcast_digest.Status.{
  with_value, checked, EpisodeStatus, new, triaged, awaiting_transcript, transcribed,
  transcript_failed, summarized, ready_for_digest, digest_direct, scored_low, dropped, published,
  error, value, parse_status, can_transition, assert_transition, is_status, member, statuses,
}

-- The text of a status reads back as that status.
pub parse_status-value : (s : EpisodeStatus) → parse_status (value s) ≡ some s
unfolding parse_status
parse_status-value new = refl
parse_status-value _ = refl

pub value-injective : {s t : EpisodeStatus} → value s ≡ value t → s ≡ t
value-injective {s} {t} e =
    some_inj (sym (parse_status-value s) ∙ ap parse_status e ∙ parse_status-value t)

pub is_status_iff : (s t : EpisodeStatus) → (is_status s t ≡ true) ↔ (s ≡ t)
unfolding is_status
is_status_iff s t = (
  λ h. value-injective ((string_eq.same_iff _ _).0 h),
  λ e. (string_eq.same_iff _ _).1 (ap value e),
)

-- A legal walk, newest status last, with the statuses it enters.
pub data Walk (s : EpisodeStatus) : EpisodeStatus → List EpisodeStatus → Type 0 where
  here : Walk s s []
  goes :
      {t u : EpisodeStatus} {seen : List EpisodeStatus}
      → Walk s t seen
      → can_transition t u ≡ true
      → Walk s u (u ∷ seen)

-- The two judgements that entitle an episode to a place in a digest.
abbrev pub Judged : List EpisodeStatus → Type 0
Judged seen = (member summarized seen ≡ true) ⊎ (member digest_direct seen ≡ true)

-- The statuses of an episode that no stage has judged worth listing yet.
unfoldable pub unjudged : EpisodeStatus → Bool
unjudged summarized = false
unjudged ready_for_digest = false
unjudged digest_direct = false
unjudged scored_low = false
unjudged published = false
unjudged _ = true

-- A table of Booleans over all statuses, and over all pairs of them, is checked by evaluation.
unfoldable pub for_all : (EpisodeStatus → Bool) → Bool
unfolding all_of
for_all p = all_of p statuses

pub for_all_sound : (p : EpisodeStatus → Bool) (s : EpisodeStatus) → for_all p ≡ true → p s ≡ true
unfolding for_all
for_all_sound p new h = ground arith
for_all_sound p _ h = ground arith

pub for_pairs_sound :
    (p : EpisodeStatus → EpisodeStatus → Bool) (s t : EpisodeStatus)
    → for_all (λ a. for_all (p a)) ≡ true
    → p s t ≡ true
for_pairs_sound p s t h = for_all_sound (p s) t (for_all_sound (λ a. for_all (p a)) s h)

abbrev pub implies : Bool → Bool → Bool
implies a b = if a then b else true

abbrev judging : EpisodeStatus → Bool
judging u = is_status u summarized || is_status u digest_direct

unjudged_table :
    for_all
      (λ t. for_all (λ u. implies (can_transition t u && unjudged t) (unjudged u || judging u)))
    ≡ true
unfolding for_all can_transition unjudged
unjudged_table = refl

abbrev Progress : EpisodeStatus → List EpisodeStatus → Type 0
Progress t seen = (unjudged t ≡ true) ⊎ Judged seen

Judged-more : (u : EpisodeStatus) (seen : List EpisodeStatus) → Judged seen → Judged (u ∷ seen)
unfolding member
Judged-more u seen j = ground arith

Judged-judging :
    (u : EpisodeStatus) (seen : List EpisodeStatus) → judging u ≡ true → Judged (u ∷ seen)
unfolding member
Judged-judging u seen h = ground (
  arith,
  is_status_iff u summarized,
  is_status_iff u digest_direct,
  is_status_iff summarized u,
  is_status_iff digest_direct u,
)

Walk-Progress :
    {s t : EpisodeStatus} {seen : List EpisodeStatus}
    → unjudged s ≡ true
    → Walk s t seen
    → Progress t seen
Walk-Progress h here = inl h
Walk-Progress h (goes {t = t} {u = u} {seen = seen} w legal) = elim (Walk-Progress h w) [
  | inr j ↦ inr (Judged-more u seen j)
  | inl k ↦
      step_on (unjudged u) (judging u) refl refl
        (for_pairs_sound
          (λ a b. implies (can_transition a b && unjudged a) (unjudged b || judging b)) t u
          unjudged_table)
        k
]
  where
    step_on :
        (a b : Bool)
        → unjudged u ≡ a
        → judging u ≡ b
        → implies (can_transition t u && unjudged t) (unjudged u || judging u) ≡ true
        → unjudged t ≡ true
        → Progress u (u ∷ seen)
    step_on true b e f p k = inl e
    step_on false true e f p k = inr (Judged-judging u seen f)
    step_on false false e f p k = absurd (ground arith)

-- An episode cannot be published unless a summary was made of it or triage listed it directly.
pub publishing_needs_judgement : {seen : List EpisodeStatus} → Walk new published seen → Judged seen
unfolding unjudged
publishing_needs_judgement w = elim (Walk-Progress refl w) [ inl h ↦ cc | inr j ↦ j ]

-- The last stretch, from any status that can be summarised.
published_from :
    {s : EpisodeStatus} {seen : List EpisodeStatus} (t : EpisodeStatus)
    → Walk s t seen
    → can_transition t summarized ≡ true
    → (seen' : List EpisodeStatus) × Walk s published seen'
unfolding can_transition
published_from t w h = (_, goes {t = ready_for_digest} (goes {t = summarized} (goes w h) refl) refl)

-- No status is a dead end: from each there is a legal walk to a published episode.
pub published_reachable : (s : EpisodeStatus) → (seen : List EpisodeStatus) × Walk s published seen
unfolding can_transition
published_reachable new =
    (_, goes {t = digest_direct} (goes {t = triaged} (goes here refl) refl) refl)
published_reachable triaged = (_, goes {t = digest_direct} (goes here refl) refl)
published_reachable awaiting_transcript = published_from transcribed (goes here refl) refl
published_reachable transcribed = published_from transcribed here refl
published_reachable transcript_failed = published_from transcript_failed here refl
published_reachable summarized = (_, goes {t = ready_for_digest} (goes here refl) refl)
published_reachable published = (_, here)
published_reachable error = published_from transcribed (goes here refl) refl
published_reachable dropped =
    published_from transcribed (goes {t = awaiting_transcript} (goes here refl) refl) refl
published_reachable ready_for_digest = (_, goes here refl)
published_reachable digest_direct = (_, goes here refl)
published_reachable scored_low = (_, goes here refl)

value-with_value :
    (text : String) (l : List EpisodeStatus) (s : EpisodeStatus)
    → with_value text l ≡ some s
    → text ≡ value s
unfolding with_value
value-with_value text [] s h = cc
value-with_value text (x ∷ l) s h =
    ground (arith, string_eq.same_iff text (value x), value-with_value text l s)

pub value-parse_status :
    (text : String) (s : EpisodeStatus) → parse_status text ≡ some s → text ≡ value s
unfolding parse_status
value-parse_status text s = value-with_value text statuses s

checked_ok :
    (t r u : EpisodeStatus)
    → checked (some t) (some r) ≡ ok u
    → (r ≡ u) × (can_transition t r ≡ true)
checked_ok t r u h = ground arith

-- A change is accepted exactly when both texts name statuses and the table has the move.
pub assert_transition_iff :
    (a b : String) (u : EpisodeStatus)
    → (assert_transition a b ≡ ok u)
      ↔ ((t : EpisodeStatus) × (a ≡ value t) × (b ≡ value u) × (can_transition t u ≡ true))
unfolding assert_transition
assert_transition_iff a b u = (
  λ h. accepted (parse_status a) (parse_status b) refl refl h,
  λ (t, p, q, r). rw (p, q, parse_status-value t, parse_status-value u, r),
)
  where
    accepted :
        (o p : Option EpisodeStatus)
        → parse_status a ≡ o
        → parse_status b ≡ p
        → checked o p ≡ ok u
        → (t : EpisodeStatus) × (a ≡ value t) × (b ≡ value u) × (can_transition t u ≡ true)
    accepted (some t) (some r) e f h =
        let (q, c) = checked_ok t r u h in
        (t, value-parse_status a t e, value-parse_status b r f ∙ ap value q, rw (← q) c)
    accepted (some t) none e f h = cc
    accepted none p e f h = cc
