-- ===== src/Store/Defs.antt =====
-- podcast_agent/db/memory.py: the document store with MVCC revisions. A document's `_id`, `_rev`
-- and `_attachments` are fields of `Doc`, and everything else is its body, of any type.
-- `uuid4 n` stands for `uuid.uuid4().hex[:16]` at the n-th draw; `draws` counts them.
use podcast_digest.Common.{
  ℕ, suc, ◌+◌, String, Bool, true, false, ◌&&◌, not, Option, none, some, List, [], ◌∷◌, ◌==◌,
  Comparable, string_eq, pair_eq, if◌then◌else◌, Dict, lookup, insert, remove, ◌≡◌, nat_eq, ◌↔◌,
  arith,
}
use podcast_digest.Errors.{Result, ok, err, store_error, conflict_error, not_found_error}

-- `"<generation>-<tag>"`
pub record Rev : Type 0 where
  pub generation : ℕ
  pub tag : String

abbrev rev_beq : Rev → Rev → Bool
rev_beq a b = a.generation == b.generation && a.tag == b.tag

pub rev_beq_iff : (a b : Rev) → (rev_beq a b ≡ true) ↔ (a ≡ b)
rev_beq_iff a b = ground (arith, string_eq.same_iff a.tag b.tag)

instance abbrev pub rev_eq : Comparable Rev
rev_eq = record { same_value = rev_beq; same_iff = rev_beq_iff }

abbrev pub rev_opt_beq : Option Rev → Option Rev → Bool
rev_opt_beq none none = true
rev_opt_beq (some a) (some b) = a == b
rev_opt_beq _ _ = false

pub record Stub : Type 0 where
  pub content_type : String
  pub length : ℕ

pub record Doc {ℓ} (B : Type ℓ) : Type ℓ where
  pub id : Option String
  pub rev : Option Rev
  pub attachments : Option (Dict String Stub)
  pub body : B

-- The bytes of an attachment are opaque: their length and an identity.
pub record Blob : Type 0 where
  pub size : ℕ
  pub content : String

pub record MemoryStore {ℓ} (B : Type ℓ) : Type ℓ where
  pub docs : Dict String (Doc B)
  pub attachments : Dict (String × String) (Blob × String)
  pub draws : ℕ

abbrev pub is_some {ℓ} : {A : Type ℓ} → Option A → Bool
is_some none = false
is_some (some a) = true

abbrev pub doc_rev {ℓ} : {B : Type ℓ} → Option (Doc B) → Option Rev
doc_rev none = none
doc_rev (some d) = d.rev

-- `not doc_id`: missing or empty
abbrev pub falsy_id : Option String → Bool
falsy_id none = true
falsy_id (some i) = i == ""

-- `deepcopy(doc)` with the attachments of the stored version, if it has any
abbrev pub kept_attachments {ℓ} :
    {B : Type ℓ} → Option (Doc B) → Option (Dict String Stub) → Option (Dict String Stub)
kept_attachments none own = own
kept_attachments (some d) own = elim d.attachments [ none ↦ own | some a ↦ some a ]

-- `doc.setdefault("_attachments", {})`
abbrev pub stubs_of {ℓ} : {B : Type ℓ} → Doc B → Dict String Stub
stubs_of d = elim d.attachments [ none ↦ [] | some a ↦ a ]

-- `for key in [k for k in attachments if k[0] == doc_id]: del attachments[key]`
unfoldable pub drop_attachments :
    String → Dict (String × String) (Blob × String) → Dict (String × String) (Blob × String)
drop_attachments i [] = []
drop_attachments i (((j, n), b) ∷ rest) =
    let kept = drop_attachments i rest in if j == i then kept else ((j, n), b) ∷ kept

module _ (uuid4 : ℕ → String) where
  unfoldable pub next_rev : Option Rev → ℕ → Rev
  next_rev none n = record { generation = 1; tag = uuid4 n }
  next_rev (some r) n = record { generation = r.generation + 1; tag = uuid4 n }

module _ {ℓ} {B : Type ℓ} where
  unfoldable pub empty : MemoryStore B
  empty = record { docs = []; attachments = []; draws = 0 }

  unfoldable pub get : MemoryStore B → String → Option (Doc B)
  get s i = lookup i s.docs

  unfoldable pub get_attachment : MemoryStore B → String → String → Option Blob
  get_attachment s i name = elim (lookup (i, name) s.attachments) [
    | none ↦ none
    | some (blob, content_type) ↦ some blob
  ]

  -- The two conflict tests of `put`.
  unfoldable pub conflicts : Option (Doc B) → Option Rev → Bool
  conflicts none r = is_some r
  conflicts (some d) r = not (rev_opt_beq d.rev r)

  unfoldable pub delete : MemoryStore B → String → Rev → Result (Unit {0}) × MemoryStore B
  delete s i rev = elim (lookup i s.docs) [
    | none ↦ (ok tt, s)
    | some d ↦
        if rev_opt_beq d.rev (some rev)
        then (
          ok tt,
          record s { docs = remove i s.docs; attachments = drop_attachments i s.attachments },
        )
        else (err conflict_error, s)
  ]

module _ {ℓ} {B : Type ℓ} (uuid4 : ℕ → String) where
  -- The write itself, once the revision check has passed.
  unfoldable pub write : MemoryStore B → String → Doc B → MemoryStore B
  unfolding next_rev
  write s i doc =
      let existing = lookup i s.docs in
      let stored : Doc B = record {
        id = doc.id;
        rev = some (next_rev uuid4 (doc_rev existing) s.draws);
        attachments = kept_attachments existing doc.attachments;
        body = doc.body;
      } in
      record s { docs = insert i stored s.docs; draws = suc s.draws }

  abbrev pub put_at : MemoryStore B → String → Doc B → Result (String × Rev) × MemoryStore B
  put_at s i doc =
      if conflicts (lookup i s.docs) doc.rev
      then (err conflict_error, s)
      else (ok (i, next_rev uuid4 (doc_rev (lookup i s.docs)) s.draws), write s i doc)

  abbrev pub put_named :
      MemoryStore B → Doc B → Option String → Result (String × Rev) × MemoryStore B
  put_named s doc none = (err store_error, s)
  put_named s doc (some i) = if i == "" then (err store_error, s) else put_at s i doc

  unfoldable pub put : MemoryStore B → Doc B → Result (String × Rev) × MemoryStore B
  put s doc = put_named s doc doc.id

  abbrev pub created : Result (String × Rev) × MemoryStore B → Result Bool × MemoryStore B
  created p = (elim p.0 [ ok r ↦ ok true | err e ↦ err e ], p.1)

  unfoldable pub create : MemoryStore B → Doc B → Result Bool × MemoryStore B
  create s doc = elim doc.id [
    | none ↦ (err store_error, s)
    | some i ↦
        if i == ""
        then (err store_error, s)
        else if is_some doc.rev
        then (err store_error, s)
        else if is_some (lookup i s.docs)
        then (ok false, s)
        else created (put s doc)
  ]

  unfoldable pub put_attachment :
      MemoryStore B → String → String → Blob → String → Result (Unit {0}) × MemoryStore B
  put_attachment s i name blob content_type = elim (lookup i s.docs) [
    | none ↦ (err not_found_error, s)
    | some d ↦
        let stub : Stub = record { content_type = content_type; length = blob.size } in
        let d' : Doc B = record d {
          rev = some (next_rev uuid4 d.rev s.draws);
          attachments = some (insert name stub (stubs_of d));
        } in
        (
          ok tt,
          record s {
            docs = insert i d' s.docs;
            attachments = insert (i, name) (blob, content_type) s.attachments;
            draws = suc s.draws;
          },
        )
  ]

  -- The attachment goes; the document only changes if it listed the name.
  unfoldable pub delete_attachment :
      MemoryStore B → String → String → Result (Unit {0}) × MemoryStore B
  delete_attachment s i name = elim (lookup i s.docs) [
    | none ↦ (err not_found_error, s)
    | some d ↦
        let popped = remove (i, name) s.attachments in
        let d' : Doc B = record d {
          rev = some (next_rev uuid4 d.rev s.draws);
          attachments = some (remove name (stubs_of d));
        } in
        if is_some (lookup name (stubs_of d))
        then (
          ok tt,
          record s { docs = insert i d' s.docs; attachments = popped; draws = suc s.draws },
        )
        else (ok tt, record s { attachments = popped })
  ]

-- The calls that change a store, as another client may make them at any moment.
pub data Op {ℓ} (B : Type ℓ) : Type ℓ where
  puts creates : Doc B → Op B
  deletes : String → Rev → Op B
  attaches : String → String → Blob → String → Op B
  detaches : String → String → Op B

module _ {ℓ} {B : Type ℓ} (uuid4 : ℕ → String) where
  unfoldable pub step : MemoryStore B → Op B → MemoryStore B
  step s (puts d) = (put uuid4 s d).1
  step s (creates d) = (create uuid4 s d).1
  step s (deletes i r) = (delete s i r).1
  step s (attaches i n b c) = (put_attachment uuid4 s i n b c).1
  step s (detaches i n) = (delete_attachment uuid4 s i n).1

  unfoldable pub run : MemoryStore B → List (Op B) → MemoryStore B
  run s [] = s
  run s (o ∷ os) = run (step s o) os
