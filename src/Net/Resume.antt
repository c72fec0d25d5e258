-- ===== src/Net/Resume.antt =====
-- podcast_agent/net.py, `download_to_file`: a whole download, and what resuming it pieces together.
use mathlib.Core.List.{append_assoc, append-nil}
use podcast_digest.Common.{
  ℕ, ◌≤◌, String, Bool, true, false, Option, none, some, List, [], ◌∷◌, ◌++◌, ◌==◌, nat_eq,
  if◌then◌else◌, length, drop, some_inj, ◌≡◌, refl, sym, ap, subst, ◌∙◌, ◌⊎◌, inl, inr, arith,
}
use podcast_digest.Errors.{Error, Result, ok, err, Result-cases}
use podcast_digest.Net.{Response}
use podcast_digest.Net.Download.{Bytes, Body, bytes_of, attempts, download_to_file}
use podcast_digest.Net.Transfer.{
  concat, Kept, continues, restarts, Received, turned_away, received, streamed, streamed_cases,
  Tracked, attempts-keeps,
}

-- A download returns the number of bytes of the file, within the cap, or raises and leaves no file.
abbrev pub Delivered : ℕ → Result ℕ × Option Bytes → Type 0
Delivered max_bytes out =
    ((b : Bytes) × (out ≡ (ok (length b), some b)) × (length b ≤ max_bytes))
    ⊎ ((e : Error) × (out ≡ (err e, none)))

-- A server that has the file `whole`: what follows its headers is a part of what was asked for, and
-- all of that, if the transfer ends without an exception.
pub record Serves (whole : Bytes) (offset : ℕ) (r : Response) (body : Body) : Type 0 where
  pub unsent : Bytes
  pub in_order :
      concat body.chunks ++ unsent ≡ (if r.status_code == 206 then drop offset whole else whole)
  pub complete : body.ending ≡ none → unsent ≡ []

-- What is on disk is the beginning of the file.
abbrev pub Begins : Bytes → Option Bytes → Type 0
Begins whole file = (rest : Bytes) × (bytes_of file ++ rest ≡ whole)

pub drop-append : {A : Type 0} (l r : List A) → drop (length l) (l ++ r) ≡ r
unfolding drop
drop-append [] r = refl
drop-append (x ∷ l) r = drop-append l r

same_branches : {A : Type 0} (b : Bool) (a : A) → (if b then a else a) ≡ a
same_branches true a = refl
same_branches false a = refl

pub append-nothing :
    {A : Type 0} {whole : List A} (l m r : List A)
    → m ≡ []
    → r ≡ []
    → l ++ (m ++ r) ≡ whole
    → l ≡ whole
append-nothing {whole = whole} l m r p q h =
    sym (append-nil l) ∙ subst (λ t. l ++ t ≡ whole) (rw (p, q) refl) h

pub pair_ext : {A B : Type 0} {out : A × B} {a : A} {b : B} → out.0 ≡ a → out.1 ≡ b → out ≡ (a, b)
pair_ext {out = out} {a = a} p q = ap (λ x. (x, out.1)) p ∙ ap (λ y. (a, y)) q

module _ (main_type : String → String) (starts_with : String → String → Bool)
    (allowed : List String) (max_bytes : ℕ) (opened : ℕ → ℕ → Result (Response × String))
    (bodies : ℕ → Body) where
  abbrev Capped : Option Bytes → Type 0
  Capped file = length (bytes_of file) ≤ max_bytes

  abbrev OnDisk : ℕ → Option Bytes → Type 0
  OnDisk n file = (b : Bytes) × (file ≡ some b) × (n ≡ length b) × (length b ≤ max_bytes)

  Received-Capped :
      {total : ℕ} {r : Response} {body : Body} {file : Option Bytes} {out : Result ℕ × Option Bytes}
      → Capped file
      → Received max_bytes total r body file out
      → Capped out.1 × ((n : ℕ) → out.0 ≡ ok n → OnDisk n out.1)
  Received-Capped cap (turned_away e q) =
      subst (λ o. Capped o.1 × ((n : ℕ) → o.0 ≡ ok n → OnDisk n o.1)) (sym q)
        (cap, λ n p. absurd cc)
  Received-Capped cap (received kept wrote from w q) =
      subst (λ o. Capped o.1 × ((n : ℕ) → o.0 ≡ ok n → OnDisk n o.1)) (sym q)
        (w.capped, λ n p. (wrote.1, refl, (w.whole n p).1, w.capped))

  streamed-Capped :
      (k total : ℕ) (file : Option Bytes)
      → Tracked main_type starts_with allowed max_bytes opened bodies total file
      → Capped file
      → (let out = streamed main_type starts_with allowed max_bytes opened bodies k total file in
          Capped out.1 × ((n : ℕ) → out.0 ≡ ok n → OnDisk n out.1))
  streamed-Capped k total file h cap =
      streamed_cases main_type starts_with allowed max_bytes opened bodies
        (λ out. Capped out.1 × ((n : ℕ) → out.0 ≡ ok n → OnDisk n out.1)) k total file h
        (omega (arith, h, cap)) (λ e. (cap, λ n q. absurd cc))
        (λ r url q out got. Received-Capped cap got)

  -- A download that finds no file on disk, or one of at most `max_bytes`: whatever the servers answer,
  -- it returns the length of the file that it leaves, at most `max_bytes`, or it raises and leaves no
  -- file. (A longer file on disk is not within the claim: its bytes are kept and counted.)
  pub download_to_file-Delivered :
      (file : Option Bytes)
      → length (bytes_of file) ≤ max_bytes
      → Delivered max_bytes
          (download_to_file main_type starts_with allowed max_bytes opened bodies file)
  unfolding download_to_file
  download_to_file-Delivered file cap =
      elim (Result-cases
        (attempts main_type starts_with allowed max_bytes opened bodies 4 0 0 file).0) [
          | inr (e, q) ↦ rw (q, download_to_file) (inr (e, refl))
          | inl (n, q) ↦
              let d : OnDisk n
                  (attempts main_type starts_with allowed max_bytes opened bodies 4 0 0 file).1 =
                attempts-keeps main_type starts_with allowed max_bytes opened bodies Capped OnDisk
                  streamed-Capped 4 0 0 file (omega arith) (inl refl) cap n q in
              rw (q, download_to_file) (inl (d.0, pair_ext (q ∙ ap ok d.2) d.1, d.3))
        ]

  module _ (whole : Bytes)
      (honest : (k offset : ℕ) (r : Response) (url : String)
        → opened k offset ≡ ok (r, url)
        → Serves whole offset r (bodies k)) where
    -- What is kept, and the part that is asked for behind it, are the whole.
    Kept-whole :
        {total : ℕ} {r : Response} {file : Option Bytes} {kept : Bytes}
        → Begins whole file
        → Kept total r file kept
        → kept ++ (if r.status_code == 206 then drop total whole else whole) ≡ whole
    Kept-whole {file = file} (rest, p) (continues part long q) =
        rw (part, q, sym long, sym p, drop-append (bytes_of file) rest) refl
    Kept-whole (rest, p) (restarts (inl other) q) = rw (other, q) refl
    Kept-whole {r = r} (rest, p) (restarts (inr start) q) =
        rw (start, q) (same_branches (r.status_code == 206) whole)

    Received-Begins :
        {total : ℕ} {r : Response} {body : Body} {file : Option Bytes}
        {out : Result ℕ × Option Bytes}
        → Serves whole total r body
        → Begins whole file
        → Received max_bytes total r body file out
        → Begins whole out.1 × ((n : ℕ) → out.0 ≡ ok n → out.1 ≡ some whole)
    Received-Begins serves starts (turned_away e q) =
        subst (λ o. Begins whole o.1 × ((n : ℕ) → o.0 ≡ ok n → o.1 ≡ some whole)) (sym q)
          (starts, λ n p. absurd cc)
    Received-Begins serves starts (received kept wrote from w q) =
        subst (λ o. Begins whole o.1 × ((n : ℕ) → o.0 ≡ ok n → o.1 ≡ some whole)) (sym q)
          ((w.rest ++ serves.unsent, pieces), λ n p. ap some (all n p))
      where
        pieces : wrote.1 ++ (w.rest ++ serves.unsent) ≡ whole
        pieces =
            ap (λ l. l ++ (w.rest ++ serves.unsent)) w.grown
            ∙ append_assoc kept w.written (w.rest ++ serves.unsent)
            ∙ ap (λ l. kept ++ l)
                (sym (append_assoc w.written w.rest serves.unsent)
                  ∙ ap (λ l. l ++ serves.unsent) (sym w.of_chunks)
                  ∙ serves.in_order)
            ∙ Kept-whole starts from

        all : (n : ℕ) → wrote.0 ≡ ok n → wrote.1 ≡ whole
        all n p =
            append-nothing wrote.1 w.rest serves.unsent (w.whole n p).0
              (serves.complete (w.whole n p).2) pieces

    streamed-Begins :
        (k total : ℕ) (file : Option Bytes)
        → Tracked main_type starts_with allowed max_bytes opened bodies total file
        → Capped file × Begins whole file
        → (let out = streamed main_type starts_with allowed max_bytes opened bodies k total file in
            (Capped out.1 × Begins whole out.1)
            × ((n : ℕ) → out.0 ≡ ok n → OnDisk n out.1 × (out.1 ≡ some whole)))
    streamed-Begins k total file h (cap, starts) =
        streamed_cases main_type starts_with allowed max_bytes opened bodies
          (λ out.
            (Capped out.1 × Begins whole out.1)
            × ((n : ℕ) → out.0 ≡ ok n → OnDisk n out.1 × (out.1 ≡ some whole)))
          k total file h (omega (arith, h, cap)) (λ e. ((cap, starts), λ n q. absurd cc))
          (λ r url q out got.
            let c : Capped out.1 × ((n : ℕ) → out.0 ≡ ok n → OnDisk n out.1) =
              Received-Capped cap got in
            let b : Begins whole out.1 × ((n : ℕ) → out.0 ≡ ok n → out.1 ≡ some whole) =
              Received-Begins (honest k total r url q) starts got in
            ((c.0, b.0), λ n p. (c.1 n p, b.1 n p)))

    -- Where the servers send what is asked for, and what is on disk at the start is a beginning of
    -- the file, of at most `max_bytes`, as it is where there is none, a download leaves the whole file and returns its
    -- length, or it raises and leaves no file: a transfer that is cut is pieced together from its
    -- parts, in order and without a gap.
    pub download_to_file-whole :
        (file : Option Bytes)
        → length (bytes_of file) ≤ max_bytes
        → Begins whole file
        → (download_to_file main_type starts_with allowed max_bytes opened bodies file
            ≡ (ok (length whole), some whole))
          ⊎ ((e : Error) × (download_to_file main_type starts_with allowed max_bytes opened bodies
                  file
                ≡ (err e, none)))
    unfolding download_to_file
    download_to_file-whole file cap starts =
        elim (Result-cases
          (attempts main_type starts_with allowed max_bytes opened bodies 4 0 0 file).0) [
            | inr (e, q) ↦ rw (q, download_to_file) (inr (e, refl))
            | inl (n, q) ↦
                let d : OnDisk n
                      (attempts main_type starts_with allowed max_bytes opened bodies 4 0 0 file).1
                    × ((attempts main_type starts_with allowed max_bytes opened bodies 4 0 0 file).1
                        ≡ some whole) =
                  attempts-keeps main_type starts_with allowed max_bytes opened bodies
                    (λ f. Capped f × Begins whole f) (λ m f. OnDisk m f × (f ≡ some whole))
                    streamed-Begins 4 0 0 file (omega arith) (inl refl) (cap, starts) n q in
                rw (q, download_to_file)
                  (inl (pair_ext (q ∙ ap ok (d.0.2 ∙ ap length (some_inj (sym d.0.1 ∙ d.1)))) d.1))
          ]
