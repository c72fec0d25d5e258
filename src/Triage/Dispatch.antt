-- ===== src/Triage/Dispatch.antt =====
-- From a verdict to the next status, in the routine pipeline and in the archive.
use podcast_digest.Common.{
  ℕ, ◌≤◌, ◌<◌, String, Bool, true, false, ◌&&◌, not, none, some, [], ◌≡◌, ◌≢◌, ◌↔◌, ◌⊎◌, refl, ◌∙◌,
  sym, arith, ◌==◌, string_eq,
}
use podcast_digest.Errors.{ok}
use podcast_digest.Episode.Keys.{InterestKeys}
use podcast_digest.Triage.Routes.{route_regions}
use podcast_digest.Status.{
  EpisodeStatus, dropped, digest_direct, awaiting_transcript, new, triaged, value, is_status,
  can_transition,
}
use podcast_digest.Episode.{Episode, status_of, self_transition_ok}
use podcast_digest.Episode.Moves.{moved_to, apply_transition-moves}
use podcast_digest.Triage.{
  Route, drop, direct, escalate, route_value, parse_route, Tier0Result, PipelineConfig,
  decide_route, target, triage, dispatch, record_verdict, downgrade, Podcast, stored_route,
  untouched,
}

parse_route-value : (r : Route) → parse_route (route_value r) ≡ some r
unfolding parse_route route_value
parse_route-value drop = refl
parse_route-value _ = refl

pub target_legal : (r : Route) → can_transition triaged (target r) ≡ true
unfolding target can_transition
target_legal drop = refl
target_legal _ = refl

pub target_leaves :
    (r : Route) → (is_status triaged (target r) && not (self_transition_ok (target r))) ≡ false
unfolding target is_status
target_leaves drop = refl
target_leaves _ = refl

-- The status that the settings call for, given the two numbers of the model's answer.
pub data Due (cfg : PipelineConfig) (always : Bool) (result : Tier0Result)
    : EpisodeStatus → Type 0 where
  irrelevant :
      always ≡ false
      → cfg.t_conf_high ≤ result.confidence
      → result.relevance_guess < cfg.t_rel_low
      → Due cfg always result dropped
  in_between :
      always ≡ false
      → cfg.t_conf_high ≤ result.confidence
      → cfg.t_rel_low ≤ result.relevance_guess
      → result.relevance_guess < cfg.t_rel_high
      → Due cfg always result digest_direct
  relevant_or_unsure :
      (always ≡ true)
        ⊎ ((result.confidence < cfg.t_conf_high)
            ⊎ ((cfg.t_rel_low ≤ result.relevance_guess)
                × (cfg.t_rel_high ≤ result.relevance_guess)))
      → Due cfg always result awaiting_transcript

target-Due :
    (cfg : PipelineConfig) (always : Bool) (result : Tier0Result) (r : Route)
    → (decide_route result cfg always).route ≡ r
    → Due cfg always result (target r)
unfolding target
target-Due cfg always result drop e =
    let (forced, sure, low) = (route_regions result cfg always).0.0 e in irrelevant forced sure low
target-Due cfg always result direct e =
    let (forced, sure, low, high) = (route_regions result cfg always).1.0 e in
    in_between forced sure low high
target-Due cfg always result escalate e =
    relevant_or_unsure ((route_regions result cfg always).2.0 e)

ok_inj : {A : Type 0} {a b : A} → ok a ≡ ok b → a ≡ b
ok_inj h = cc

module _ (cfg : PipelineConfig) (always : Bool) (valid_keys : InterestKeys)
    (profile_version : String) (result : Tier0Result) (now later : ℕ) (doc : Episode)
    (fresh : status_of doc ≡ value new) where
  decided : Route
  decided = (decide_route result cfg always).route

  triaged_doc : Episode
  triaged_doc =
      moved_to triaged
        (record_verdict result (decide_route result cfg always) valid_keys profile_version now) now
        doc

  stored : stored_route triaged_doc.tier0 ≡ ok decided
  unfolding triaged_doc moved_to record_verdict decided
  stored = rw (parse_route-value (decide_route result cfg always).route, stored_route)

  triage-new : triage cfg always valid_keys profile_version result now doc ≡ ok triaged_doc
  unfolding triage triaged_doc is_status can_transition
  triage-new = apply_transition-moves triaged new _ now doc fresh refl refl

  dispatched :
      dispatch later triaged_doc
      ≡ ok (target decided, moved_to (target decided) untouched later triaged_doc)
  unfolding dispatch
  dispatched = rw (
    stored,
    apply_transition-moves (target decided) triaged untouched later triaged_doc
        (unfold triaged_doc moved_to in refl) (target_leaves decided) (target_legal decided),
  )

  -- A new episode is triaged, perhaps the process dies, and a later run dispatches it from what was
  -- stored: it ends DROPPED, DIGEST_DIRECT or AWAITING_TRANSCRIPT as the thresholds call for, given the
  -- model's confidence and its guess of the relevance, whatever route the model suggested, and the
  -- recorded verdict stays as it was.
  pub dispatch-triage :
      (d : Episode)
      → triage cfg always valid_keys profile_version result now doc ≡ ok d
      → (d' : Episode) × (dispatch later d ≡ ok (target (decide_route result cfg always).route, d'))
        × (status_of d' ≡ value (target (decide_route result cfg always).route))
        × Due cfg always result (target (decide_route result cfg always).route)
        × (d'.tier0 ≡ d.tier0)
  unfolding decided
  dispatch-triage d h = rw (← ok_inj (sym triage-new ∙ h)) (
    moved_to (target decided) untouched later triaged_doc,
    dispatched,
    unfold moved_to in refl,
    target-Due cfg always result (decide_route result cfg always).route refl,
    unfold moved_to in refl,
  )

-- What the archive does with a route: it escalates an episode exactly if triage said so, the podcast
-- is not a news podcast, and there is a transcript to be had; a route that it changes becomes an
-- index entry, and only then is a reason given.
pub downgrade_exact :
    (r : Route) (p : Podcast) (doc : Episode)
    → (((downgrade r (some p) doc).0 ≡ escalate) ↔ (
        (r ≡ escalate)
        × ((p.backfill_mode == "tier0_only") ≡ false)
        × ((p.asr_enabled ≡ true) ⊎ (doc.feed_transcripts ≢ []))))
      × (((downgrade r (some p) doc).0 ≡ r) ↔ ((downgrade r (some p) doc).1 ≡ none))
      × (((downgrade r (some p) doc).0 ≡ r) ⊎ ((downgrade r (some p) doc).0 ≡ direct))
unfolding downgrade
downgrade_exact r p doc = ground arith
