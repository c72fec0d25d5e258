-- ===== src/Net/Download.antt =====
-- podcast_agent/net.py, `_stream_into` and `download_to_file`: a download with a byte cap, which
-- goes on where the connection was cut. `transfer_cut` stands for the RESUMABLE_TRANSFER_ERRORS. A
-- file is its bytes. `main_type` cuts and lowers a content type, `starts_with` is `str.startswith`.
use podcast_digest.Common.{
  ℕ, zero, suc, ◌+◌, String, Bool, true, false, ◌&&◌, ◌||◌, not, Option, none, some, List, [], ◌∷◌,
  ◌++◌, ◌==◌, string_eq, nat_eq, ltb, leb, if◌then◌else◌, any_of, length,
}
use podcast_digest.Errors.{
  Error, Result, ok, err, url_rejected, download_too_large, download_interrupted, http_error,
  transfer_cut,
}
use podcast_digest.Net.{Response}

abbrev pub Bytes : Type 0
Bytes = List ℕ

abbrev pub max_resume_attempts : ℕ
max_resume_attempts = 3

abbrev pub audio_content_types : List String
audio_content_types = "audio/" ∷ "application/octet-stream" ∷ []

-- What follows the headers: the chunks, and the exception that ends them, if one does.
pub record Body : Type 0 where
  pub chunks : List Bytes
  pub ending : Option Error

-- `response.raise_for_status()` passes the 2xx.
abbrev pub is_success : ℕ → Bool
is_success status = leb 200 status && ltb status 300

abbrev pub bytes_of : Option Bytes → Bytes
bytes_of none = []
bytes_of (some b) = b

-- `declared and declared.isdigit() and total + int(declared) > max_bytes`
abbrev pub declares_more : ℕ → ℕ → Option ℕ → Bool
declares_more max_bytes total none = false
declares_more max_bytes total (some n) = ltb max_bytes (total + n)

-- The `async for` loop over the chunks: the total, and the bytes in the file.
unfoldable pub write_chunks : ℕ → ℕ → Bytes → List Bytes → Option Error → Result ℕ × Bytes
write_chunks max_bytes total file [] none = (ok total, file)
write_chunks max_bytes total file [] (some e) = (err e, file)
write_chunks max_bytes total file (c ∷ cs) ending =
    let rest = write_chunks max_bytes (total + length c) (file ++ c) cs ending in
    if ltb max_bytes (total + length c) then (err download_too_large, file) else rest

-- `except RESUMABLE_TRANSFER_ERRORS`
abbrev pub is_cut : Error → Bool
is_cut transfer_cut = true
is_cut e = false

module _ (main_type : String → String) (starts_with : String → String → Bool)
    (allowed : List String) (max_bytes : ℕ) where
  -- `_content_type_ok`
  unfoldable pub content_type_ok : Option String → Bool
  content_type_ok none = true
  content_type_ok (some text) =
      if text == "" then true else any_of (λ prefix. starts_with (main_type text) prefix) allowed

  -- The rest of `_stream_into`, with what the file keeps.
  abbrev pub receive_behind : ℕ → Bytes → Response → Body → Option Bytes → Result ℕ × Option Bytes
  receive_behind total kept r body file =
      let out = write_chunks max_bytes total kept body.chunks body.ending in
      if declares_more max_bytes total r.content_length
      then (err download_too_large, file)
      else (out.0, some out.1)

  -- `_stream_into`, behind the headers.
  unfoldable pub receive : ℕ → Response → Body → Option Bytes → Result ℕ × Option Bytes
  receive offset r body file =
      let appended = receive_behind offset (bytes_of file) r body file in
      let rewritten = receive_behind 0 [] r body file in
      if not (is_success r.status_code)
      then (err http_error, file)
      else if not (content_type_ok r.content_type)
      then (err url_rejected, file)
      else if not (offset == 0) && r.status_code == 206
      then appended
      else rewritten

  unfoldable pub stream_into :
      ℕ → Result (Response × String) → Body → Option Bytes → Result ℕ × Option Bytes
  stream_into offset opened body file = elim opened [
    | err e ↦ (err e, file)
    | ok (r, url) ↦ receive offset r body file
  ]

  -- The `for` loop of `download_to_file`, with the attempts that are left and the number of this
  -- one. `opened k offset` is what `_guarded_stream` yields to the k-th attempt, `bodies k` what
  -- follows.
  unfoldable pub attempts :
      (ℕ → ℕ → Result (Response × String))
      → (ℕ → Body)
      → (left k total : ℕ) → Option Bytes
      → Result ℕ × Option Bytes
  attempts opened bodies zero k total file = (ok total, file)
  attempts opened bodies (suc left) k total file =
      let out = stream_into total (opened k total) (bodies k) file in
      let written = length (bytes_of out.1) in
      let resumed = attempts opened bodies left (suc k) written out.1 in
      elim out.0 [
        | ok n ↦ out
        | err e ↦
            if is_cut e
            then if leb written total || left == 0
              then (err download_interrupted, out.1)
              else resumed
            else (err e, out.1)
      ]

  -- `download_to_file`; on any exception the file is removed.
  unfoldable pub download_to_file :
      (ℕ → ℕ → Result (Response × String)) → (ℕ → Body) → Option Bytes → Result ℕ × Option Bytes
  download_to_file opened bodies file =
      let out = attempts opened bodies (suc max_resume_attempts) 0 0 file in
      elim out.0 [ ok n ↦ out | err e ↦ (err e, none) ]
