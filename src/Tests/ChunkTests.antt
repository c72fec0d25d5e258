-- ===== src/Tests/ChunkTests.antt =====
-- Chunking at concrete inputs: two long paragraphs without sentences.
use podcast_digest.Common.{
  ◌*◌, ◌≤◌, max, List, [], ◌∷◌, length, All, keep_if, ◌≡◌, refl, take, drop,
}
use podcast_digest.Chunking.{
  Text, chunk_transcript, chars_per_token, slices, split_oversized, pack, join,
}
use podcast_digest.Chunking.Bound.{chunk_transcript-Fits}

abbrev two_halves : Text → List Text
two_halves text = take 5 text ∷ drop 5 text ∷ []

abbrev one_sentence : Text → List Text
one_sentence text = text ∷ []

abbrev no_strip : Text → Text
no_strip text = text

abbrev nine : Text
nine = 1 ∷ 2 ∷ 3 ∷ 4 ∷ 5 ∷ 6 ∷ 7 ∷ 8 ∷ 9 ∷ []

three_chunks :
    chunk_transcript two_halves one_sentence no_strip nine 1
    ≡ (1 ∷ 2 ∷ 3 ∷ 4 ∷ []) ∷ (5 ∷ []) ∷ (6 ∷ 7 ∷ 8 ∷ 9 ∷ []) ∷ []
unfolding chunk_transcript split_oversized pack slices join keep_if
three_chunks = refl

chunk_transcript-Fits_example :
    All
      (λ c. length c ≤ max 1 (1 * chars_per_token))
      (chunk_transcript two_halves one_sentence no_strip nine 1)
chunk_transcript-Fits_example = chunk_transcript-Fits two_halves one_sentence no_strip nine 1
