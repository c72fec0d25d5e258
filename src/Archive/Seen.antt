-- ===== src/Archive/Seen.antt =====
-- podcast_agent/backfill/ingest.py, `_ingest_month` and its callers: what of the feed a walk looks at.
use mathlib.Core.List.{Memᴰ}
use podcast_digest.Common.{
  ℕ, zero, suc, ◌+◌, ◌-◌, ◌≤◌, Bool, true, false, ◌||◌, Option, none, some, List, [], ◌∷◌, ◌++◌,
  map, nat_eq, leb, if◌then◌else◌, Bool-cases, Option-cases, some_inj, All, All-map, append-All,
  ◌≡◌, refl, ap, subst, ◌⊎◌, inl, inr, arith,
}
use podcast_digest.Archive.{
  Month, previous_month, earlier, Entry, passed_over, creates, raises, ingest_month, Passed,
  Progress, Run, BackfillConfig, walk, progressed, show_from, backfill_show, backfill_runs,
  floor_from_anchor, or_else,
}

abbrev pub months : List Passed → List Month
months ps = map (λ (p : Passed). p.0) ps

pub months-append : (xs ys : List Passed) → months (xs ++ ys) ≡ months xs ++ months ys
months-append [] ys = refl
months-append (x ∷ xs) ys = ap (λ l. x.0 ∷ l) (months-append xs ys)

abbrev pub created_by : List Entry → ℕ
created_by [] = 0
created_by (creates ∷ es) = suc (created_by es)
created_by (passed_over ∷ es) = created_by es
created_by (raises ∷ es) = created_by es

-- Entries looked at with room for `room` new episodes, up to `unseen`.
pub record Through (entries : List Entry) (room : ℕ) (unseen : List Entry) : Type 0 where
  pub front : List Entry
  pub parts : front ++ unseen ≡ entries
  pub none_raised : All (λ e. (e ≡ passed_over) ⊎ (e ≡ creates)) front
  pub within_budget : created_by front ≤ room
  pub stopped : (unseen ≡ []) ⊎ (created_by front ≡ room)

-- A month that one of the runs has looked through, with no more than its budget.
pub record LookedAt (rs : List Run) (p : Passed) : Type 0 where
  pub run : Run
  pub among : Memᴰ run rs
  pub room : ℕ
  pub within_budget : room ≤ run.budget
  pub through : Through (run.entries p.0) room p.1

-- One round of the loop of `_ingest_month`, before the budget is used up.
round-Through :
    (e : Entry) (es : List Entry) (room budget created : ℕ) (out : ℕ × List Entry)
    → ((room created : ℕ)
        → created + room ≡ budget
        → ingest_month es budget created ≡ some out
        → Through es room out.1)
    → created + room ≡ budget
    → leb budget created ≡ false
    → ◌≡◌ {A = Option (ℕ × List Entry)}
        (elim e [
          | passed_over ↦ ingest_month es budget created
          | creates ↦ ingest_month es budget (suc created)
          | raises ↦ none
        ])
        (some out)
    → Through (e ∷ es) room out.1
round-Through passed_over es room budget created out further h more w =
    let t = further room created h w in
    record {
      front = passed_over ∷ t.front;
      parts = ap (λ l. passed_over ∷ l) t.parts;
      none_raised = (inl refl, t.none_raised);
      within_budget = t.within_budget;
      stopped = t.stopped;
    }
round-Through creates es zero budget created out further h more w = absurd (ground (arith, h, more))
round-Through creates es (suc room) budget created out further h more w =
    let t = further room (suc created) (omega (arith, h)) w in
    record {
      front = creates ∷ t.front;
      parts = ap (λ l. creates ∷ l) t.parts;
      none_raised = (inr refl, t.none_raised);
      within_budget = omega (arith, t.within_budget);
      stopped = elim t.stopped [ inl e ↦ inl e | inr e ↦ inr (ap suc e) ];
    }
round-Through raises es room budget created out further h more w = absurd (cc w)

ingest_month-Through :
    (es : List Entry) (room budget created : ℕ) (out : ℕ × List Entry)
    → created + room ≡ budget
    → ingest_month es budget created ≡ some out
    → Through es room out.1
unfolding ingest_month
ingest_month-Through [] room budget created out h w =
    subst (λ (o : ℕ × List Entry). Through [] room o.1) (some_inj w)
      (record {
        front = [];
        parts = refl;
        none_raised = tt;
        within_budget = omega arith;
        stopped = inl refl;
      })
ingest_month-Through (e ∷ es) room budget created out h w = elim (Bool-cases (leb budget created)) [
  | inl full ↦
      subst (λ (o : ℕ × List Entry). Through (e ∷ es) room o.1)
        (some_inj (rw (full, ingest_month) at w))
        (record {
          front = [];
          parts = refl;
          none_raised = tt;
          within_budget = omega arith;
          stopped = inr (ground (arith, full, h));
        })
  | inr more ↦
      round-Through e es room budget created out
        (λ room created k v. ingest_month-Through es room budget created out k v) h more
        (rw (more, ingest_month) at w)
]

-- What the `for` loop does in one round, where nothing raises.
walk_round :
    (b : Bool) (m : Option (ℕ × List Entry)) (k : ℕ × List Entry → Option (List Passed × ℕ × Month))
    (cursor : Month) (stop out : List Passed × ℕ × Month)
    → ◌≡◌ {A = Option (List Passed × ℕ × Month)}
        (elim b [
          | true ↦ some stop
          | false ↦ elim m [
            | none ↦ none
            | some one ↦ elim (k one) [
              | none ↦ none
              | some rest ↦ some ((cursor, one.1) ∷ rest.0, rest.1, rest.2)
            ]
          ]
        ])
        (some out)
    → (stop ≡ out)
      ⊎ ((b ≡ false)
          × (one : ℕ × List Entry) × (rest : List Passed × ℕ × Month) × (m ≡ some one)
          × (k one ≡ some rest)
          × (((cursor, one.1) ∷ rest.0, rest.1, rest.2) ≡ out))
walk_round true m k cursor stop out w = inl (some_inj w)
walk_round false none k cursor stop out w = absurd (cc w)
walk_round false (some one) k cursor stop out w = elim (Option-cases (k one)) [
  | inl e ↦ absurd (cc (rw e at w))
  | inr (rest, e) ↦ inr (refl, one, rest, refl, e, some_inj (rw e at w))
]

pub walk-round :
    (floor : Month) (r : Run) (n : ℕ) (cursor : Month) (created : ℕ) (out : List Passed × ℕ × Month)
    → walk floor r (suc n) cursor created ≡ some out
    → (([], created, cursor) ≡ out)
      ⊎ (((earlier cursor floor || leb r.budget created) ≡ false)
          × (one : ℕ × List Entry) × (rest : List Passed × ℕ × Month) × (ingest_month
                (r.entries cursor)
                (r.budget - created)
                0
              ≡ some one)
          × (walk floor r n (previous_month cursor) (created + one.0) ≡ some rest)
          × (((cursor, one.1) ∷ rest.0, rest.1, rest.2) ≡ out))
unfolding walk
walk-round floor r n cursor created out w =
    walk_round (earlier cursor floor || leb r.budget created)
      (ingest_month (r.entries cursor) (r.budget - created) 0)
      (λ one. walk floor r n (previous_month cursor) (created + one.0)) cursor ([], created, cursor)
      out w

pub if_fetched :
    {A : Type 0} (b : Bool) (o : Option A) (out : A)
    → (if b then o else none) ≡ some out
    → o ≡ some out
if_fetched true o out h = h
if_fetched false o out h = absurd (cc h)

module _ (rs : List Run) (r : Run) (among : Memᴰ r rs) where
  walk-LookedAt :
      (floor : Month) (n : ℕ) (cursor : Month) (created : ℕ) (out : List Passed × ℕ × Month)
      → walk floor r n cursor created ≡ some out
      → All (LookedAt rs) out.0
  unfolding walk
  walk-LookedAt floor zero cursor created out w =
      subst (λ (o : List Passed × ℕ × Month). All (LookedAt rs) o.0) (some_inj w) tt
  walk-LookedAt floor (suc n) cursor created out w =
      elim (walk-round floor r n cursor created out w) [
        | inl same ↦ subst (λ (o : List Passed × ℕ × Month). All (LookedAt rs) o.0) same tt
        | inr (on, one, rest, got, others, same) ↦
            subst (λ (o : List Passed × ℕ × Month). All (LookedAt rs) o.0) same
              (
                record {
                  run = r;
                  among = among;
                  room = r.budget - created;
                  within_budget = omega arith;
                  through =
                      ingest_month-Through (r.entries cursor) (r.budget - created)
                        (r.budget - created) 0 one (omega arith) got;
                },
                walk-LookedAt floor n (previous_month cursor) (created + one.0) rest others,
              )
      ]

  progressed-LookedAt :
      (p : Progress) (floor cursor anchor : Month) (o : Option (List Passed × ℕ × Month))
      → ((out : List Passed × ℕ × Month) → o ≡ some out → All (LookedAt rs) out.0)
      → All (LookedAt rs) (progressed p floor cursor anchor o).0
  progressed-LookedAt p floor cursor anchor none h = tt
  progressed-LookedAt p floor cursor anchor (some ([], created, c)) h = tt
  progressed-LookedAt p floor cursor anchor (some (m ∷ ms, created, c)) h =
      h (m ∷ ms, created, c) refl

  show_from-LookedAt :
      (cfg : BackfillConfig) (p : Progress) (anchor cursor : Month)
      → All (LookedAt rs) (show_from cfg r p anchor cursor).0
  unfolding show_from
  show_from-LookedAt cfg p anchor cursor =
      elim (Bool-cases (earlier cursor (floor_from_anchor anchor cfg.months))) [
        | inl over ↦ rw over tt
        | inr on ↦ rw on (
            progressed-LookedAt p _ cursor anchor _ λ out w.
              walk-LookedAt _ cfg.months_per_run cursor 0 out (if_fetched r.fetched _ out w))
      ]

LookedAt-later : (r : Run) (rs : List Run) (p : Passed) → LookedAt rs p → LookedAt (r ∷ rs) p
LookedAt-later r rs p l = record {
  run = l.run;
  among = Memᴰ.tail l.among;
  room = l.room;
  within_budget = l.within_budget;
  through = l.through;
}

pub backfill_runs-LookedAt :
    (cfg : BackfillConfig) (rs : List Run) (p : Progress)
    → All (LookedAt rs) (backfill_runs cfg rs p).0
unfolding backfill_runs backfill_show
backfill_runs-LookedAt cfg [] p = tt
backfill_runs-LookedAt cfg (r ∷ rs) p =
    append-All (LookedAt (r ∷ rs)) (backfill_show cfg r p).0 _
      (show_from-LookedAt (r ∷ rs) r (Memᴰ.head refl) cfg p (or_else p.anchor r.now) _)
      (All-map (LookedAt rs) (λ q l. LookedAt-later r rs q l) _
        (backfill_runs-LookedAt cfg rs (backfill_show cfg r p).1))
