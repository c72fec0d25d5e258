-- ===== src/Digest/Listing.antt =====
-- podcast_agent/digest/generate.py, `_floor`, `_collect` and `_bucket`: which episodes a digest
-- takes, and the section in which it lists each. `inline n` and `cell n` are the escapes of
-- podcast_agent/sanitize.py with their limit; the fields of a view that only the template reads are
-- left out. Instants and time spans are numbers, and an instant is later than any catch-up span.
use Prim.Native.String.{compare}
use Prim.Native.Nat.{Ordering}
use podcast_digest.Common.{
  ℕ, ◌-◌, min, String, Bool, true, false, ◌&&◌, ◌||◌, not, Option, none, some, List, [], ◌∷◌, ◌++◌,
  map, ◌==◌, string_eq, nat_eq, ltb, leb, if◌then◌else◌, keep_if, any_of, take, sort_by,
}
use podcast_digest.Status.{
  EpisodeStatus, value, new, triaged, awaiting_transcript, transcribed, summarized,
  ready_for_digest, digest_direct,
}
use podcast_digest.Store.{Doc, MemoryStore}
use podcast_digest.Episode.{Episode}

-- The settings of the pipeline that a digest reads; the catch-up span as an amount of time.
pub record DigestRules : Type 0 where
  pub catch_up : ℕ
  pub top_pick_threshold : ℕ

pub record Period : Type 0 where
  pub from : ℕ
  pub to : ℕ

abbrev pub floor : DigestRules → Period → ℕ
floor rules period = min period.from (period.to - rules.catch_up)

abbrev pub routine_origin : String
routine_origin = "routine"

abbrev pub collect_limit : ℕ
collect_limit = 1000

abbrev pub within : ℕ → ℕ → Option ℕ → Bool
within low high none = false
within low high (some t) = leb low t && ltb t high

abbrev pub is_unclaimed : Option String → Bool
is_unclaimed none = true
is_unclaimed (some d) = false

-- The selector of `_collect`.
unfoldable pub in_window : DigestRules → Period → Episode → Bool
in_window rules period e =
    is_unclaimed e.digest_id
    && (e.origin == routine_origin && within (floor rules period) period.to e.published_at)

unfoldable pub pending : List String
unfolding value
pending =
    value new
    ∷ value triaged
    ∷ value awaiting_transcript
    ∷ value transcribed
    ∷ value summarized
    ∷ []

unfoldable pub is_pending : Option String → Bool
unfolding pending
is_pending none = false
is_pending (some status) = any_of (λ p. status == p) pending

abbrev pub published_later : Option ℕ → Option ℕ → Bool
published_later none b = false
published_later (some a) none = true
published_later (some a) (some b) = ltb b a

abbrev pub documents : MemoryStore Episode → List (Doc Episode)
documents s = map (λ e. e.1) s.docs

unfoldable pub collect : DigestRules → Period → MemoryStore Episode → List (Doc Episode)
unfolding in_window is_pending
collect rules period s =
    let found = keep_if (λ d. in_window rules period d.body) (documents s) in
    let newest = sort_by (λ a b. published_later a.body.published_at b.body.published_at) found in
    keep_if (λ d. not (is_pending d.body.status)) (take collect_limit newest)

pub record View : Type 0 where
  pub episode : Doc Episode
  pub podcast_name : String
  pub title : String
  pub score : ℕ
  pub carried_over : Bool

pub record Buckets : Type 0 where
  pub top_picks : List View
  pub also_relevant : List View
  pub maybe_interesting : List View
  pub everything_else : List View

abbrev pub text_before : String → String → Bool
text_before a b = elim (compare a b) [ Ordering.lt ↦ true | _ ↦ false ]

-- `key=lambda v: (-v["score"], v["podcast_name"])`
abbrev pub by_score : View → View → Bool
by_score v w =
    ltb w.score v.score || (v.score == w.score && text_before v.podcast_name w.podcast_name)

-- `key=lambda v: (v["podcast_name"], v["title"])`
abbrev pub by_name : View → View → Bool
by_name v w =
    text_before v.podcast_name w.podcast_name
    || (v.podcast_name == w.podcast_name && text_before v.title w.title)

abbrev pub or_text : Option String → String → String
or_text none fallback = fallback
or_text (some text) fallback = if text == "" then fallback else text

-- `bool(boundary and (episode.get("published_at") or "") < boundary)`
abbrev pub carried : ℕ → Option ℕ → Bool
carried boundary none = true
carried boundary (some t) = ltb t boundary

-- The status of a document, `""` for none.
abbrev pub has_status : EpisodeStatus → Episode → Bool
has_status s e = elim e.status [ none ↦ false | some text ↦ text == value s ]

module _ (inline cell : ℕ → String → String) (rules : DigestRules) where
  abbrev pub shown_name : Episode → String
  shown_name e = inline 80 (or_text e.podcast_name e.podcast_slug)

  abbrev pub shown_title : Episode → String
  shown_title e = inline 200 (or_text e.title "(untitled)")

  abbrev pub tier1_score : Episode → ℕ
  tier1_score e = elim e.tier1 [ none ↦ 0 | some t ↦ t.relevance_score ]

  abbrev pub tier0_score : Episode → ℕ
  tier0_score e = elim e.tier0 [ none ↦ 0 | some t ↦ t.relevance_guess ]

  unfoldable pub summary_view : ℕ → Doc Episode → View
  summary_view boundary d = record {
    episode = d;
    podcast_name = shown_name d.body;
    title = shown_title d.body;
    score = tier1_score d.body;
    carried_over = carried boundary d.body.published_at;
  }

  unfoldable pub one_liner_view : ℕ → Doc Episode → View
  one_liner_view boundary d = record {
    episode = d;
    podcast_name = shown_name d.body;
    title = shown_title d.body;
    score = tier0_score d.body;
    carried_over = carried boundary d.body.published_at;
  }

  unfoldable pub audit_view : Doc Episode → View
  audit_view d = record {
    episode = d;
    podcast_name = cell 60 (or_text d.body.podcast_name d.body.podcast_slug);
    title = cell 110 (or_text d.body.title "(untitled)");
    score = 0;
    carried_over = false;
  }

  -- One round of the loop of `_bucket`.
  unfoldable pub place : ℕ → Doc Episode → Buckets → Buckets
  unfolding summary_view one_liner_view audit_view
  place boundary d b =
      let view = summary_view boundary d in
      if has_status ready_for_digest d.body
      then if leb rules.top_pick_threshold view.score
        then record b { top_picks = b.top_picks ++ (view ∷ []) }
        else record b { also_relevant = b.also_relevant ++ (view ∷ []) }
      else if has_status digest_direct d.body
      then record b { maybe_interesting = b.maybe_interesting ++ (one_liner_view boundary d ∷ []) }
      else record b { everything_else = b.everything_else ++ (audit_view d ∷ []) }

  unfoldable pub fill : ℕ → List (Doc Episode) → Buckets → Buckets
  unfolding place
  fill boundary [] b = b
  fill boundary (d ∷ ds) b = fill boundary ds (place boundary d b)

  unfoldable pub bucket : ℕ → List (Doc Episode) → Buckets
  unfolding fill
  bucket boundary episodes =
      let filled = fill boundary episodes (record {
        top_picks = [];
        also_relevant = [];
        maybe_interesting = [];
        everything_else = [];
      }) in
      record {
        top_picks = sort_by by_score filled.top_picks;
        also_relevant = sort_by by_score filled.also_relevant;
        maybe_interesting = sort_by by_score filled.maybe_interesting;
        everything_else = sort_by by_name filled.everything_else;
      }
