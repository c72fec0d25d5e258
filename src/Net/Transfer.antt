-- ===== src/Net/Transfer.antt =====
-- podcast_agent/net.py, `download_to_file`: what is on disk when it is done.
use mathlib.Core.List.{append_assoc, append-nil}
use podcast_digest.Common.{
  ℕ, zero, suc, ◌+◌, ◌≤◌, String, Bool, true, false, ◌&&◌, ◌||◌, not, Option, none, some, List, [],
  ◌∷◌, ◌++◌, ◌==◌, string_eq, nat_eq, ltb, leb, length, length-append, Bool-cases, ◌≡◌, refl, sym,
  ap, ◌∙◌, ◌⊎◌, inl, inr, arith,
}
use podcast_digest.Errors.{
  Error, Result, ok, err, url_rejected, download_too_large, download_interrupted, http_error,
  Result-cases,
}
use podcast_digest.Net.{Response}
use podcast_digest.Net.Download.{
  Bytes, Body, bytes_of, declares_more, write_chunks, receive_behind, receive, stream_into,
  attempts, is_success, content_type_ok, is_cut,
}

unfoldable pub concat : List Bytes → Bytes
concat [] = []
concat (c ∷ cs) = c ++ concat cs

-- What the loop over the chunks leaves on disk: what was there, and a part of the chunks; all of
-- them, if it returns.
pub record Wrote (max_bytes : ℕ) (file : Bytes) (chunks : List Bytes) (ending : Option Error)
    (out : Result ℕ × Bytes) : Type 0 where
  pub written : Bytes
  pub rest : Bytes
  pub grown : out.1 ≡ file ++ written
  pub of_chunks : concat chunks ≡ written ++ rest
  pub capped : length out.1 ≤ max_bytes
  pub whole : (n : ℕ) → out.0 ≡ ok n → (rest ≡ []) × (n ≡ length out.1) × (ending ≡ none)

write_chunks-Wrote :
    (max_bytes total : ℕ) (file : Bytes) (chunks : List Bytes) (ending : Option Error)
    → length file ≡ total
    → total ≤ max_bytes
    → Wrote max_bytes file chunks ending (write_chunks max_bytes total file chunks ending)
unfolding write_chunks concat
write_chunks-Wrote max_bytes total file [] none h k = record {
  written = [];
  rest = [];
  grown = sym (append-nil file);
  of_chunks = refl;
  capped = omega arith;
  whole = λ n e. (refl, ground (arith, h, e), refl);
}
write_chunks-Wrote max_bytes total file [] (some x) h k = record {
  written = [];
  rest = [];
  grown = sym (append-nil file);
  of_chunks = refl;
  capped = omega arith;
  whole = λ n e. absurd cc;
}
write_chunks-Wrote max_bytes total file (c ∷ cs) ending h k =
    elim (Bool-cases (ltb max_bytes (total + length c))) [
      | inl over ↦ rw over (record {
        written = [];
        rest = c ++ concat cs;
        grown = sym (append-nil file);
        of_chunks = refl;
        capped = omega arith;
        whole = λ n e. absurd cc;
      })
      | inr within ↦ rw within (
          let w =
            write_chunks-Wrote max_bytes (total + length c) (file ++ c) cs ending
              (omega (arith, length-append file c)) (grind (arith, within)) in
          record {
            written = c ++ w.written;
            rest = w.rest;
            grown = w.grown ∙ append_assoc file c w.written;
            of_chunks = ap (λ l. c ++ l) w.of_chunks ∙ sym (append_assoc c w.written w.rest);
            capped = w.capped;
            whole = w.whole;
          })
    ]

-- What a body is written behind.
pub data Kept (offset : ℕ) (r : Response) (file : Option Bytes) (kept : Bytes) : Type 0 where
  continues :
      (r.status_code == 206) ≡ true
      → length (bytes_of file) ≡ offset
      → kept ≡ bytes_of file
      → Kept offset r file kept
  restarts : ((r.status_code == 206) ≡ false) ⊎ (offset ≡ 0) → kept ≡ [] → Kept offset r file kept

-- The headers are refused and the file is as it was, or the body was written behind what is kept:
-- behind the file, when the answer is a part from its end on, or behind nothing.
pub data Received (max_bytes offset : ℕ) (r : Response) (body : Body) (file : Option Bytes)
    (out : Result ℕ × Option Bytes) : Type 0 where
  turned_away : (e : Error) → out ≡ (err e, file) → Received max_bytes offset r body file out
  received :
      (kept : Bytes) (wrote : Result ℕ × Bytes)
      → Kept offset r file kept
      → Wrote max_bytes kept body.chunks body.ending wrote
      → out ≡ (wrote.0, some wrote.1)
      → Received max_bytes offset r body file out

module _ (main_type : String → String) (starts_with : String → String → Bool)
    (allowed : List String) (max_bytes : ℕ) where
  receive_behind-Received :
      (offset : ℕ) (r : Response) (body : Body) (file : Option Bytes) (total : ℕ) (kept : Bytes)
      → length kept ≡ total
      → total ≤ max_bytes
      → Kept offset r file kept
      → Received max_bytes offset r body file
          (receive_behind main_type starts_with allowed max_bytes total kept r body file)
  receive_behind-Received offset r body file total kept h k from =
      elim (Bool-cases (declares_more max_bytes total r.content_length)) [
        | inl more ↦ rw more (turned_away download_too_large refl)
        | inr fits ↦ rw fits (
            received kept _ from
              (write_chunks-Wrote max_bytes total kept body.chunks body.ending h k) refl)
      ]

  receive-Received :
      (offset : ℕ) (r : Response) (body : Body) (file : Option Bytes)
      → (offset ≡ 0) ⊎ (length (bytes_of file) ≡ offset)
      → offset ≤ max_bytes
      → Received max_bytes offset r body file
          (receive main_type starts_with allowed max_bytes offset r body file)
  unfolding receive
  receive-Received offset r body file h k = elim (Bool-cases (is_success r.status_code)) [
    | inr bad ↦ rw bad (turned_away http_error refl)
    | inl good ↦
        elim (Bool-cases (content_type_ok main_type starts_with allowed max_bytes r.content_type)) [
          | inr odd ↦ rw good (rw odd (turned_away url_rejected refl))
          | inl fine ↦ elim (Bool-cases (not (offset == 0) && r.status_code == 206)) [
            | inl on ↦ rw good (
                rw fine (
                  rw on (
                    receive_behind-Received offset r body file offset (bytes_of file) (long on) k
                      (continues (resumes on) (long on) refl))))
            | inr off ↦ rw good (
                rw fine (
                  rw off (
                    receive_behind-Received offset r body file 0 [] refl (omega arith)
                      (restarts (afresh off) refl))))
          ]
        ]
  ]
    where
      resumes : (not (offset == 0) && r.status_code == 206) ≡ true → (r.status_code == 206) ≡ true
      resumes on = ground arith

      afresh :
          (not (offset == 0) && r.status_code == 206) ≡ false
          → ((r.status_code == 206) ≡ false) ⊎ (offset ≡ 0)
      afresh off = ground arith

      long : (not (offset == 0) && r.status_code == 206) ≡ true → length (bytes_of file) ≡ offset
      long on = ground (arith, h)

  module _ (opened : ℕ → ℕ → Result (Response × String)) (bodies : ℕ → Body) where
    abbrev pub streamed : ℕ → ℕ → Option Bytes → Result ℕ × Option Bytes
    streamed k total file =
        stream_into main_type starts_with allowed max_bytes total (opened k total) (bodies k) file

    -- How one round of the loop ends: with what was streamed, with an exception, or with the next
    -- round, which knows what is on disk.
    attempts_cases {κ} :
        (P : Result ℕ × Option Bytes → Type κ) (left k total : ℕ) (file : Option Bytes)
        → ((n : ℕ) → (streamed k total file).0 ≡ ok n → P (streamed k total file))
        → ((e : Error) (f : Option Bytes) → P (err e, f))
        → (1 ≤ left
            → P (
                attempts main_type starts_with allowed max_bytes opened bodies left
                  (suc k)
                  (length (bytes_of (streamed k total file).1))
                  (streamed k total file).1))
        → P (attempts main_type starts_with allowed max_bytes opened bodies (suc left) k total file)
    unfolding attempts
    attempts_cases P left k total file done failed again =
        elim (Result-cases (streamed k total file).0) [
          | inl (n, e) ↦ rw (e, attempts) (done n e)
          | inr (e, q) ↦ elim (Bool-cases (is_cut e)) [
            | inr other ↦ rw (q, attempts) (rw other (failed e _))
            | inl cut ↦
                elim (Bool-cases
                  (leb (length (bytes_of (streamed k total file).1)) total || left == 0)) [
                    | inl stuck ↦
                        rw (q, attempts) (rw cut (rw stuck (failed download_interrupted _)))
                    | inr grew ↦ rw (q, attempts) (rw cut (rw grew (again (ground (arith, grew)))))
                  ]
          ]
        ]

    -- The bytes that count are on disk.
    abbrev pub Tracked : ℕ → Option Bytes → Type 0
    Tracked total file = (total ≡ 0) ⊎ (length (bytes_of file) ≡ total)

    -- One attempt: it was over before the headers, or it received something.
    pub streamed_cases {κ} :
        (P : Result ℕ × Option Bytes → Type κ) (k total : ℕ) (file : Option Bytes)
        → Tracked total file
        → total ≤ max_bytes
        → ((e : Error) → P (err e, file))
        → ((r : Response) (url : String)
            → opened k total ≡ ok (r, url)
            → (out : Result ℕ × Option Bytes) → Received max_bytes total r (bodies k) file out
            → P out)
        → P (streamed k total file)
    unfolding stream_into
    streamed_cases P k total file h cap away got = elim (Result-cases (opened k total)) [
      | inr (e, q) ↦ rw (q, stream_into) (away e)
      | inl ((r, url), q) ↦
          rw (q, stream_into) (got r url q _ (receive-Received total r (bodies k) file h cap))
    ]

    -- What every attempt preserves, the loop preserves.
    pub attempts-keeps :
        (I : Option Bytes → Type 0) (Q : ℕ → Option Bytes → Type 0)
        → ((k total : ℕ) (file : Option Bytes)
            → Tracked total file
            → I file
            → I (streamed k total file).1
              × ((n : ℕ) → (streamed k total file).0 ≡ ok n → Q n (streamed k total file).1))
        → (left k total : ℕ) (file : Option Bytes) → 1 ≤ left
        → Tracked total file
        → I file
        → (n : ℕ)
        → (attempts main_type starts_with allowed max_bytes opened bodies left k total file).0
          ≡ ok n
        → Q n (attempts main_type starts_with allowed max_bytes opened bodies left k total file).1
    attempts-keeps I Q step zero k total file some_left h i = absurd (omega arith)
    attempts-keeps I Q step (suc left) k total file some_left h i =
        attempts_cases (λ out. (n : ℕ) → out.0 ≡ ok n → Q n out.1) left k total file
          (λ m e n q. (step k total file h i).1 n q) (λ e f n q. absurd cc)
          (λ more.
            attempts-keeps I Q step left (suc k) _ _ more (inr refl) (step k total file h i).0)
