-- ===== src/Tests/NetTests.antt =====
-- The network guard at concrete inputs: URLs are written as their host, "8.8.8.8" is a public
-- address and every other address a private one; a file of five bytes whose transfer is cut once.
use podcast_digest.Common.{
  ℕ, zero, suc, ◌≤◌, String, Bool, true, false, Option, none, some, List, [], ◌∷◌, ◌==◌, string_eq,
  nat_eq, if◌then◌else◌, All, length, drop, ◌≡◌, refl, ◌⊎◌, inl, inr, ◌↔◌, arith, ap, subst,
}
use podcast_digest.Errors.{Error, Result, ok, err, url_rejected, transfer_cut}
use podcast_digest.Net.{
  Urls, UrlGuard, FetchPolicy, Address, Resolution, resolves, Reply, responds, Response, check,
  guarded_stream, max_redirects, vet, check_address, follow, is_reachable_publicly, same_host,
  same_domain, registrable_domain,
}
use podcast_digest.Net.Redirects.{Permitted, guarded_stream-Permitted}
use podcast_digest.Net.Download.{
  Bytes, Body, download_to_file, attempts, stream_into, receive, write_chunks, content_type_ok,
  audio_content_types,
}
use podcast_digest.Net.Transfer.{concat}
use podcast_digest.Net.Progress.{Answers, Finishes, uncut, cut, download_to_file-Finishes}
use podcast_digest.Net.Resume.{
  Delivered, Serves, download_to_file-Delivered, download_to_file-whole,
}

abbrev address : Bool → Address
address private = record {
  is_private = private;
  is_loopback = false;
  is_link_local = false;
  is_reserved = false;
  is_unspecified = false;
  is_multicast = false;
}

abbrev sample_urls : Urls
sample_urls = record {
  scheme = λ u. "https";
  hostname = λ u. some u;
  join = λ a b. b;
  registered_domain = λ host. host;
  lower = λ text. text;
  parse_address = λ text. some (address (if text == "8.8.8.8" then false else true));
}

abbrev guard : UrlGuard
guard = record { enforce = true; allowlist = "cdn" ∷ [] }

abbrev policy : FetchPolicy
policy = record { guard = guard; related_to = some "feed"; allowlist = true }

abbrev resolve : ℕ → String → Resolution
resolve n host = resolves (if host == "cdn" then "8.8.8.8" ∷ [] else "10.0.0.1" ∷ [])

abbrev answer : ℕ → Option String → Response
answer status location = record {
  status_code = status;
  location = location;
  content_type = none;
  content_length = none;
}

-- The server of "cdn" redirects to a host that nobody allowed.
abbrev client : ℕ → String → Reply
client n url = responds (if url == "cdn" then answer 302 (some "router") else answer 200 none)

redirect_refused :
    guarded_stream sample_urls (some policy) resolve client "cdn" ≡ (err url_rejected, "cdn" ∷ [])
unfolding guarded_stream follow vet check check_address is_reachable_publicly same_host same_domain
    registrable_domain podcast_digest.Common.any_of podcast_digest.Common.all_of
redirect_refused = refl

guarded_stream-Permitted_example :
    All
      (Permitted sample_urls policy resolve)
      (guarded_stream sample_urls (some policy) resolve client "cdn").1
    × (length (guarded_stream sample_urls (some policy) resolve client "cdn").1 ≤ suc max_redirects)
guarded_stream-Permitted_example = guarded_stream-Permitted sample_urls policy resolve client "cdn"

abbrev episode_audio : Bytes
episode_audio = 1 ∷ 2 ∷ 3 ∷ 4 ∷ 5 ∷ []

-- The first attempt gets the whole, the others what is behind two bytes.
abbrev opened : ℕ → ℕ → Result (Response × String)
opened zero zero = ok (answer 200 none, "cdn")
opened zero (suc n) = err url_rejected
opened (suc k) zero = err url_rejected
opened (suc k) (suc zero) = err url_rejected
opened (suc k) (suc (suc zero)) = ok (answer 206 none, "cdn")
opened (suc k) (suc (suc (suc n))) = err url_rejected

abbrev bodies : ℕ → Body
bodies zero = record { chunks = (1 ∷ 2 ∷ []) ∷ []; ending = some transfer_cut }
bodies (suc k) = record { chunks = (3 ∷ []) ∷ (4 ∷ 5 ∷ []) ∷ []; ending = none }

abbrev main_type : String → String
main_type text = text

abbrev starts_with : String → String → Bool
starts_with text prefix = text == prefix

resumed_whole :
    download_to_file main_type starts_with audio_content_types 9 opened bodies none
    ≡ (ok 5, some episode_audio)
unfolding download_to_file attempts stream_into receive write_chunks content_type_ok
resumed_whole = refl

-- What a killed download left behind is taken for the beginning of this one.
stale_resumed :
    download_to_file main_type starts_with audio_content_types 9
      (λ k offset. if k == 0 then err transfer_cut else opened k offset)
      bodies
      (some (9 ∷ 9 ∷ []))
    ≡ (ok 5, some (9 ∷ 9 ∷ 3 ∷ 4 ∷ 5 ∷ []))
unfolding download_to_file attempts stream_into receive write_chunks content_type_ok
stale_resumed = refl

download_to_file-Delivered_example :
    Delivered 4
      (download_to_file main_type starts_with audio_content_types 4 opened bodies (some (7 ∷ [])))
download_to_file-Delivered_example =
    download_to_file-Delivered main_type starts_with audio_content_types 4 opened bodies
      (some (7 ∷ [])) (omega arith)

ok_inj : {a b : Response × String} → ok a ≡ ok b → a ≡ b
ok_inj {b = b} e = ap (λ o. elim o [ ok a ↦ a | err x ↦ b ]) e

honest :
    (k offset : ℕ) (r : Response) (url : String)
    → opened k offset ≡ ok (r, url)
    → Serves episode_audio offset r (bodies k)
unfolding concat
honest zero zero r url e =
    subst (λ x. Serves episode_audio 0 x.0 (bodies 0)) (ok_inj e)
      (record { unsent = 3 ∷ 4 ∷ 5 ∷ []; in_order = refl; complete = λ h. absurd cc })
honest zero (suc n) r url e = absurd cc
honest (suc k) zero r url e = absurd cc
honest (suc k) (suc zero) r url e = absurd cc
honest (suc k) (suc (suc zero)) r url e =
    subst (λ x. Serves episode_audio 2 x.0 (bodies (suc k))) (ok_inj e)
      (record { unsent = []; in_order = refl; complete = λ h. refl })
honest (suc k) (suc (suc (suc n))) r url e = absurd cc

download_to_file-whole_example :
    (download_to_file main_type starts_with audio_content_types 9 opened bodies none
      ≡ (ok 5, some episode_audio))
    ⊎ ((e : Error) × (download_to_file main_type starts_with audio_content_types 9 opened bodies
            none
          ≡ (err e, none)))
download_to_file-whole_example =
    download_to_file-whole main_type starts_with audio_content_types 9 opened bodies episode_audio
      honest none (omega arith) (episode_audio, refl)

first_answer : Answers main_type starts_with audio_content_types 9 opened bodies episode_audio 0 0
unfolding concat content_type_ok
first_answer = record {
  response = answer 200 none;
  url = "cdn";
  opens = refl;
  succeeds = refl;
  typed = refl;
  in_part = λ h. absurd cc;
  declared = refl;
  unsent = 3 ∷ 4 ∷ 5 ∷ [];
  sends = refl;
  complete = λ h. absurd cc;
}

second_answer : Answers main_type starts_with audio_content_types 9 opened bodies episode_audio 1 2
unfolding concat content_type_ok
second_answer = record {
  response = answer 206 none;
  url = "cdn";
  opens = refl;
  succeeds = refl;
  typed = refl;
  in_part = λ h. refl;
  declared = refl;
  unsent = [];
  sends = refl;
  complete = λ h. refl;
}

cut_once : Finishes main_type starts_with audio_content_types 9 opened bodies episode_audio 4 0 0
unfolding concat
cut_once = cut first_answer refl (omega arith) (uncut second_answer refl)

download_to_file-Finishes_example :
    download_to_file main_type starts_with audio_content_types 9 opened bodies none
    ≡ (ok 5, some episode_audio)
download_to_file-Finishes_example =
    download_to_file-Finishes main_type starts_with audio_content_types 9 opened bodies
      episode_audio (omega arith) cut_once
