-- ===== src/Net/Progress.antt =====
-- podcast_agent/net.py, `download_to_file`: a transfer that is cut and resumed.
use mathlib.Core.List.{append_assoc, append-nil}
use podcast_digest.Common.{
  ℕ, zero, suc, ◌+◌, ◌≤◌, String, Bool, true, false, ◌&&◌, ◌||◌, not, Option, none, some, List, [],
  ◌∷◌, ◌++◌, ◌==◌, nat_eq, ltb, leb, length, drop, length-append, Bool-cases, ◌≡◌, refl, sym, ap,
  subst, ◌∙◌, inl, inr, arith,
}
use podcast_digest.Errors.{Error, Result, ok, err, transfer_cut}
use podcast_digest.Net.{Response}
use podcast_digest.Net.Download.{
  Bytes, Body, bytes_of, declares_more, write_chunks, receive_behind, receive, stream_into,
  attempts, download_to_file, is_success, content_type_ok, max_resume_attempts,
}
use podcast_digest.Net.Transfer.{concat, streamed}
use podcast_digest.Net.Resume.{drop-append, pair_ext}

-- What a loop over chunks that stays within the cap returns.
abbrev pub ended : ℕ → Option Error → Result ℕ
ended n none = ok n
ended n (some e) = err e

write_chunks-ended :
    (max_bytes total : ℕ) (file : Bytes) (chunks : List Bytes) (ending : Option Error)
    → total + length (concat chunks) ≤ max_bytes
    → write_chunks max_bytes total file chunks ending
      ≡ (ended (total + length (concat chunks)) ending, file ++ concat chunks)
unfolding write_chunks concat
write_chunks-ended max_bytes total file [] none h =
    pair_ext (ap ok (omega arith)) (sym (append-nil file))
write_chunks-ended max_bytes total file [] (some e) h = pair_ext refl (sym (append-nil file))
write_chunks-ended max_bytes total file (c ∷ cs) ending h =
    let within : ltb max_bytes (total + length c) ≡ false =
      ground (arith, h, length-append c (concat cs)) in
    rw within (
      write_chunks-ended max_bytes (total + length c) (file ++ c) cs ending
        (omega (arith, h, length-append c (concat cs)))
      ∙ pair_ext (ap (λ n. ended n ending) (omega (arith, length-append c (concat cs))))
          (append_assoc file c (concat cs)))

no_bytes : (b : Bytes) → length b ≡ 0 → b ≡ []
no_bytes [] h = refl
no_bytes (x ∷ b) h = absurd (omega (arith, h))

module _ (main_type : String → String) (starts_with : String → String → Bool)
    (allowed : List String) (max_bytes : ℕ) (opened : ℕ → ℕ → Result (Response × String))
    (bodies : ℕ → Body) (whole : Bytes) where
  -- The server answers an attempt as asked: with success, an allowed type and no more than the cap,
  -- with a part if a part was asked for, and sends the bytes from the offset on.
  pub record Answers (k offset : ℕ) : Type 0 where
    pub response : Response
    pub url : String
    pub opens : opened k offset ≡ ok (response, url)
    pub succeeds : is_success response.status_code ≡ true
    pub typed : content_type_ok main_type starts_with allowed max_bytes response.content_type ≡ true
    pub in_part : (offset == 0) ≡ false → (response.status_code == 206) ≡ true
    pub declared : declares_more max_bytes offset response.content_length ≡ false
    pub unsent : Bytes
    pub sends : concat (bodies k).chunks ++ unsent ≡ drop offset whole
    pub complete : (bodies k).ending ≡ none → unsent ≡ []

  -- The attempts that are left, from the k-th on, are cut after at least a byte, up to one that is
  -- not cut.
  pub data Finishes : (left k offset : ℕ) → Type 0 where
    uncut :
        {left k offset : ℕ}
        → Answers k offset
        → (bodies k).ending ≡ none
        → Finishes (suc left) k offset
    cut :
        {left k offset : ℕ}
        → Answers k offset
        → (bodies k).ending ≡ some transfer_cut
        → 1 ≤ length (concat (bodies k).chunks)
        → Finishes left (suc k) (offset + length (concat (bodies k).chunks))
        → Finishes (suc left) k offset

  behind :
      (r : Response) (body : Body) (file : Option Bytes) (kept : Bytes) (total : ℕ)
      → declares_more max_bytes total r.content_length ≡ false
      → total + length (concat body.chunks) ≤ max_bytes
      → receive_behind main_type starts_with allowed max_bytes total kept r body file ≡ (
        ended (total + length (concat body.chunks)) body.ending,
        some (kept ++ concat body.chunks),
      )
  behind r body file kept total d h = rw d (
      ap (λ o. (o.0, some o.1)) (write_chunks-ended max_bytes total kept body.chunks body.ending h))

  abbrev sent : ℕ → Bytes
  sent k = concat (bodies k).chunks

  streamed-Answers :
      (k offset : ℕ) (file : Option Bytes) (rest : Bytes)
      → Answers k offset
      → bytes_of file ++ rest ≡ whole
      → length (bytes_of file) ≡ offset
      → length whole ≤ max_bytes
      → streamed main_type starts_with allowed max_bytes opened bodies k offset file
        ≡ (ended (offset + length (sent k)) (bodies k).ending, some (bytes_of file ++ sent k))
  unfolding stream_into receive
  streamed-Answers k offset file rest a p long room = rw (a.opens, stream_into) received_all
    where
      fits : offset + length (sent k) ≤ max_bytes
      fits = omega (
        arith,
        room,
        long,
        ap length p,
        length-append (bytes_of file) rest,
        length-append (sent k) a.unsent,
        ap length (a.sends ∙ behind_offset),
      )
        where
          behind_offset : drop offset whole ≡ rest
          behind_offset = rw (sym p, sym long) (drop-append (bytes_of file) rest)

      received_all :
          receive main_type starts_with allowed max_bytes offset a.response (bodies k) file
          ≡ (ended (offset + length (sent k)) (bodies k).ending, some (bytes_of file ++ sent k))
      received_all = elim (Bool-cases (offset == 0)) [
        | inl start ↦
            let test : (not (offset == 0) && a.response.status_code == 206) ≡ false =
              rw start refl in
            let zero_offset : offset ≡ 0 = ground (arith, start) in
            rw a.succeeds (
              rw a.typed (
                rw test (
                  behind a.response (bodies k) file [] 0
                    (subst (λ n. declares_more max_bytes n a.response.content_length ≡ false)
                      zero_offset a.declared)
                    (omega (arith, fits))
                  ∙ pair_ext (ap (λ n. ended n (bodies k).ending) (omega (arith, zero_offset))) (
                      ap (λ b. some (b ++ sent k))
                        (sym (no_bytes (bytes_of file) (long ∙ zero_offset)))))))
        | inr later ↦
            let test : (not (offset == 0) && a.response.status_code == 206) ≡ true =
              rw (later, a.in_part later) refl in
            rw a.succeeds (
              rw a.typed (
                rw test (behind a.response (bodies k) file (bytes_of file) offset a.declared fits)))
      ]

  -- What an attempt that is answered has written, and what is still to come, are the whole.
  grows :
      (k offset : ℕ) (file : Option Bytes) (rest : Bytes) (a : Answers k offset)
      → bytes_of file ++ rest ≡ whole
      → length (bytes_of file) ≡ offset
      → (bytes_of file ++ sent k) ++ a.unsent ≡ whole
  grows k offset file rest a p long =
      append_assoc (bytes_of file) (sent k) a.unsent
      ∙ ap (λ l. bytes_of file ++ l)
          (a.sends ∙ rw (sym p, sym long) (drop-append (bytes_of file) rest))
      ∙ p

  positive : {left k offset : ℕ} → Finishes left k offset → 1 ≤ left
  positive (uncut a e) = omega arith
  positive (cut a e s f) = omega arith

  attempts-Finishes :
      (left k offset : ℕ) (file : Option Bytes) (rest : Bytes)
      → Finishes left k offset
      → bytes_of file ++ rest ≡ whole
      → length (bytes_of file) ≡ offset
      → length whole ≤ max_bytes
      → attempts main_type starts_with allowed max_bytes opened bodies left k offset file
        ≡ (ok (length whole), some whole)
  unfolding attempts
  attempts-Finishes zero k offset file rest f p long room = elim f [ ]
  attempts-Finishes (suc left) k offset file rest (uncut a e) p long room =
      let s : streamed main_type starts_with allowed max_bytes opened bodies k offset file
          ≡ (ok (offset + length (sent k)), some (bytes_of file ++ sent k)) =
        streamed-Answers k offset file rest a p long room
        ∙ ap (λ x. (ended (offset + length (sent k)) x, some (bytes_of file ++ sent k))) e in
      let all : bytes_of file ++ sent k ≡ whole =
        sym (append-nil (bytes_of file ++ sent k))
        ∙ ap (λ u. (bytes_of file ++ sent k) ++ u) (sym (a.complete e))
        ∙ grows k offset file rest a p long in
      rw (s, attempts)
        (s
          ∙ pair_ext
              (ap ok (omega (arith, long, length-append (bytes_of file) (sent k), ap length all)))
              (ap some all))
  attempts-Finishes (suc left) k offset file rest (cut a e some_bytes f) p long room =
      let s : streamed main_type starts_with allowed max_bytes opened bodies k offset file
          ≡ (err transfer_cut, some (bytes_of file ++ sent k)) =
        streamed-Answers k offset file rest a p long room
        ∙ ap (λ x. (ended (offset + length (sent k)) x, some (bytes_of file ++ sent k))) e in
      let out : Option Bytes =
        (streamed main_type starts_with allowed max_bytes opened bodies k offset file).1 in
      let on_disk : out ≡ some (bytes_of file ++ sent k) = ap (λ o. o.1) s in
      let written : length (bytes_of out) ≡ offset + length (sent k) =
        ap (λ o. length (bytes_of o)) on_disk
        ∙ length-append (bytes_of file) (sent k)
        ∙ ap (λ n. n + length (sent k)) long in
      let some_left : 1 ≤ left = positive f in
      let onward : (leb (length (bytes_of out)) offset || left == 0) ≡ false =
        ground (arith, written, some_left, some_bytes) in
      let rest_of : attempts main_type starts_with allowed max_bytes opened bodies left (suc k)
            (length (bytes_of out)) out
          ≡ (ok (length whole), some whole) =
        attempts-Finishes left (suc k) (length (bytes_of out)) out a.unsent
          (subst (Finishes left (suc k)) (sym written) f)
          (ap (λ o. bytes_of o ++ a.unsent) on_disk ∙ grows k offset file rest a p long) refl
          room in
      rw (s, attempts) (rw onward rest_of)

  -- A download of a file within the cap, with nothing on disk at its start, from a server that
  -- answers each attempt as asked, returns the length of the file and leaves the whole file, if at
  -- most three attempts are cut, each after at least one byte.
  pub download_to_file-Finishes :
      length whole ≤ max_bytes
      → Finishes (suc max_resume_attempts) 0 0
      → download_to_file main_type starts_with allowed max_bytes opened bodies none
        ≡ (ok (length whole), some whole)
  unfolding download_to_file
  download_to_file-Finishes room f =
      let done : attempts main_type starts_with allowed max_bytes opened bodies 4 0 0 none
          ≡ (ok (length whole), some whole) =
        attempts-Finishes 4 0 0 none whole f refl refl room in
      rw (done, download_to_file) done
