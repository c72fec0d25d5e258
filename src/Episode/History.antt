-- ===== src/Episode/History.antt =====
-- What a history of guarded status changes and recorded errors can do to one episode.
use mathlib.Core.List.{append_assoc, append-nil}
use podcast_digest.Common.{
  ℕ, String, Bool, true, false, ◌&&◌, not, List, [], ◌∷◌, ◌++◌, All, All-map, Bool-cases, ◌≡◌, refl,
  sym, ap, ◌∙◌, ◌⊎◌, inl, inr, arith, ◌==◌, string_eq, if◌then◌else◌, subst,
}
use podcast_digest.Errors.{Result, ok, err, Result-cases, ◌>>=◌}
use podcast_digest.Status.{
  EpisodeStatus, new, error, published, summarized, digest_direct, is_status, member, value,
  assert_transition, can_transition,
}
use podcast_digest.Status.Machine.{
  Walk, here, goes, is_status_iff, publishing_needs_judgement, assert_transition_iff,
  value-injective,
}
use podcast_digest.Episode.{Episode, status_of, apply_transition, apply_error, self_transition_ok}

-- What a status change may do to the status: nothing, if it is there already, or a legal move.
pub data Moved (doc doc' : Episode) (s : EpisodeStatus) : Type 0 where
  replayed : status_of doc ≡ value s → status_of doc' ≡ value s → Moved doc doc' s
  moved :
      (t : EpisodeStatus)
      → status_of doc ≡ value t
      → can_transition t s ≡ true
      → status_of doc' ≡ value s
      → Moved doc doc' s

guarded_ok :
    {A C : Type 0} (b : Bool) (r : Result C) (x y z : A)
    → (if b then ok x else (r >>= λ _. ok y)) ≡ ok z
    → ((b ≡ true) × (x ≡ z)) ⊎ ((b ≡ false) × ((c : C) × (r ≡ ok c) × (y ≡ z)))
guarded_ok true r x y z h = inl (refl, ground arith)
guarded_ok false (ok c) x y z h = inr (refl, (c, refl, ground arith))
guarded_ok false (err e) x y z h = cc

and_true : (a b : Bool) → (a && b) ≡ true → a ≡ true
and_true a b h = ground arith

module _ (mutate : Episode → Episode)
    (keeps : (doc : Episode) → (mutate doc).status ≡ doc.status) where
  status_of-mutate : (doc : Episode) → status_of (mutate doc) ≡ status_of doc
  status_of-mutate doc = rw keeps

  pub apply_transition-Moved :
      (s : EpisodeStatus) (now : ℕ) (doc doc' : Episode)
      → apply_transition s mutate now doc ≡ ok doc'
      → Moved doc doc' s
  unfolding apply_transition
  apply_transition-Moved s now doc doc' h =
      elim (guarded_ok (status_of doc == value s && not (self_transition_ok s))
        (assert_transition (status_of doc) (value s)) _ _ doc' h) [
          | inl (same, e) ↦
              let there : status_of doc ≡ value s =
                (string_eq.same_iff _ _).0 (and_true _ _ same) in
              replayed there (ap status_of (sym e) ∙ status_of-mutate doc ∙ there)
          | inr (_, rest) ↦
              let (u, legal, e) = rest in
              let (t, at_t, named, can) =
                (assert_transition_iff (status_of doc) (value s) u).0 legal in
              moved t at_t
                (subst (λ v. can_transition t v ≡ true) (sym (value-injective named)) can)
                (ap status_of (sym e))
        ]

-- Recording a failure moves the episode to ERROR where that is legal, and nowhere else.
pub apply_error-Moved :
    (stage : String) (now : ℕ) (doc : Episode)
    → (status_of (apply_error stage now doc) ≡ status_of doc)
      ⊎ Moved doc (apply_error stage now doc) error
unfolding apply_error
apply_error-Moved stage now doc =
    elim (Result-cases (assert_transition (status_of doc) (value error))) [
      | inr (e, refused) ↦ inl (rw (refused, apply_error))
      | inl (u, legal) ↦
          let (t, at_t, named, can) =
            (assert_transition_iff (status_of doc) (value error) u).0 legal in
          inr (
            moved t at_t (subst (λ v. can_transition t v ≡ true) (sym (value-injective named)) can)
              (rw (legal, apply_error)))
    ]

-- One guarded call on the document of an episode; a call that raises leaves it as it was.
pub data Call : Type 0 where
  transitions :
      EpisodeStatus
      → (mutate : Episode → Episode) → ((doc : Episode) → (mutate doc).status ≡ doc.status)
      → ℕ
      → Call
  fails_in : String → ℕ → Call

abbrev after : Episode → Result Episode → Episode
after doc (ok doc') = doc'
after doc (err e) = doc

unfoldable pub perform : Episode → Call → Episode
perform doc (transitions s mutate _ now) = after doc (apply_transition s mutate now doc)
perform doc (fails_in stage now) = apply_error stage now doc

unfoldable pub perform_all : Episode → List Call → Episode
perform_all doc [] = doc
perform_all doc (c ∷ cs) = perform_all (perform doc c) cs

-- At some point of the history of `cs`, the first or the last included, the episode was at `t`.
pub record Visited (doc : Episode) (cs : List Call) (t : EpisodeStatus) : Type 0 where
  pub before : List Call
  pub behind : List Call
  pub parts : before ++ behind ≡ cs
  pub was_at : status_of (perform_all doc before) ≡ value t

perform_all-append :
    (doc : Episode) (xs ys : List Call)
    → perform_all doc (xs ++ ys) ≡ perform_all (perform_all doc xs) ys
unfolding perform_all
perform_all-append doc [] ys = refl
perform_all-append doc (x ∷ xs) ys = perform_all-append (perform doc x) xs ys

Visited-more :
    (doc : Episode) (cs ds : List Call) (t : EpisodeStatus)
    → Visited doc cs t
    → Visited doc (cs ++ ds) t
Visited-more doc cs ds t v = record {
  before = v.before;
  behind = v.behind ++ ds;
  parts = sym (append_assoc v.before v.behind ds) ∙ ap (λ l. l ++ ds) v.parts;
  was_at = v.was_at;
}

-- The history is a legal walk from NEW, and the episode was at each of its statuses.
pub record Lawful (doc : Episode) (cs : List Call) : Type 0 where
  pub at : EpisodeStatus
  pub seen : List EpisodeStatus
  pub stored : status_of (perform_all doc cs) ≡ value at
  pub walk : Walk new at seen
  pub visited : All (Visited doc cs) seen

module _ (doc : Episode) (cs : List Call) (c : Call) where
  one_more :
      status_of (perform_all doc (cs ++ (c ∷ []))) ≡ status_of (perform (perform_all doc cs) c)
  unfolding perform_all
  one_more = ap status_of (perform_all-append doc cs (c ∷ []))

  still-Visited :
      (seen : List EpisodeStatus)
      → All (Visited doc cs) seen
      → All (Visited doc (cs ++ (c ∷ []))) seen
  still-Visited seen h = All-map (Visited doc cs) (λ t v. Visited-more doc cs (c ∷ []) t v) seen h

  Lawful-same :
      Lawful doc cs
      → status_of (perform (perform_all doc cs) c) ≡ status_of (perform_all doc cs)
      → Lawful doc (cs ++ (c ∷ []))
  Lawful-same l e = record {
    at = l.at;
    seen = l.seen;
    stored = one_more ∙ e ∙ l.stored;
    walk = l.walk;
    visited = still-Visited l.seen l.visited;
  }

  Lawful-Moved :
      (s : EpisodeStatus)
      → Lawful doc cs
      → Moved (perform_all doc cs) (perform (perform_all doc cs) c) s
      → Lawful doc (cs ++ (c ∷ []))
  Lawful-Moved s l (replayed a b) = Lawful-same l (b ∙ sym a)
  Lawful-Moved s l (moved t a can b) = record {
    at = s;
    seen = s ∷ l.seen;
    stored = one_more ∙ b;
    walk =
        goes l.walk
          (subst (λ v. can_transition v s ≡ true) (value-injective (sym a ∙ l.stored)) can);
    visited = (
      record {
        before = cs ++ (c ∷ []);
        behind = [];
        parts = append-nil (cs ++ (c ∷ []));
        was_at = one_more ∙ b;
      },
      still-Visited l.seen l.visited,
    );
  }

perform-Lawful :
    (doc : Episode) (cs : List Call) (c : Call) → Lawful doc cs → Lawful doc (cs ++ (c ∷ []))
perform-Lawful doc cs (transitions s mutate keeps now) l =
    let d = perform_all doc cs in
    elim (Result-cases (apply_transition s mutate now d)) [
      | inr (e, raised) ↦ Lawful-same doc cs _ l (unfold perform in rw raised refl)
      | inl (doc', done) ↦ Lawful-Moved doc cs _ s l (
          subst (λ x. Moved d x s) {x = doc'} (unfold perform in sym (ap (after d) done))
            (apply_transition-Moved mutate keeps s now d doc' done))
    ]
perform-Lawful doc cs (fails_in stage now) l =
    elim (apply_error-Moved stage now (perform_all doc cs)) [
      | inl same ↦ Lawful-same doc cs _ l (unfold perform in same)
      | inr m ↦ Lawful-Moved doc cs _ error l (unfold perform in m)
    ]

perform_all-Lawful : (doc : Episode) (cs ds : List Call) → Lawful doc cs → Lawful doc (cs ++ ds)
perform_all-Lawful doc cs [] l = subst (Lawful doc) (sym (append-nil cs)) l
perform_all-Lawful doc cs (d ∷ ds) l =
    subst (Lawful doc) (append_assoc cs (d ∷ []) ds)
      (perform_all-Lawful doc (cs ++ (d ∷ [])) ds (perform-Lawful doc cs d l))

-- However stages and failures interleave, the statuses of an episode that started as NEW are a legal
-- walk from NEW, and the episode was at each of them in the course of its history.
pub history-Lawful : (doc : Episode) (cs : List Call) → status_of doc ≡ value new → Lawful doc cs
unfolding perform_all
history-Lawful doc cs start =
    perform_all-Lawful doc [] cs
      (record { at = new; seen = []; stored = start; walk = here; visited = tt })

member-Visited :
    (doc : Episode) (cs : List Call) (t : EpisodeStatus) (seen : List EpisodeStatus)
    → All (Visited doc cs) seen
    → member t seen ≡ true
    → Visited doc cs t
unfolding member
member-Visited doc cs t [] v h = absurd cc
member-Visited doc cs t (u ∷ seen) (v, vs) h = elim (Bool-cases (is_status t u)) [
  | inl same ↦ subst (Visited doc cs) (sym ((is_status_iff t u).0 same)) v
  | inr other ↦ member-Visited doc cs t seen vs (rw other at h)
]

-- An episode that started as NEW, and that any sequence of guarded status changes and recorded errors
-- has brought to PUBLISHED: at some point of that sequence it was SUMMARIZED or DIGEST_DIRECT.
pub published_after_judgement :
    (doc : Episode) (cs : List Call)
    → status_of doc ≡ value new
    → status_of (perform_all doc cs) ≡ value published
    → Visited doc cs summarized ⊎ Visited doc cs digest_direct
published_after_judgement doc cs start p =
    let l = history-Lawful doc cs start in
    let w : Walk new published l.seen =
      subst (λ v. Walk new v l.seen) (value-injective (sym l.stored ∙ p)) l.walk in
    elim (publishing_needs_judgement w) [
      | inl h ↦ inl (member-Visited doc cs summarized l.seen l.visited h)
      | inr h ↦ inr (member-Visited doc cs digest_direct l.seen l.visited h)
    ]
