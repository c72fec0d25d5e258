-- ===== src/Chunking/Bound.antt =====
-- podcast_agent/summarize/chunking.py: the lengths of the chunks, and the hard split.
use podcast_digest.Common.{
  ℕ, zero, suc, ◌+◌, ◌*◌, ◌≤◌, max, false, ◌&&◌, not, List, [], ◌∷◌, ◌++◌, ltb, take, drop, length,
  length-append, length-take, length-drop, take-append-drop, All, Bool-cases, ◌≡◌, refl, ap, ◌∙◌,
  inl, inr, arith,
}
use podcast_digest.Chunking.{
  Text, join, flush, pack, slices, space, blank_line, or_first, split_oversized, chunk_transcript,
  is_empty, chars_per_token,
}

abbrev Fits : ℕ → Text → Type 0
Fits target text = length text ≤ target

-- Both of two lists fit.
Fits-append :
    (target : ℕ) (xs ys : List Text)
    → All (Fits target) xs
    → All (Fits target) ys
    → All (Fits target) (xs ++ ys)
Fits-append target [] ys h k = k
Fits-append target (x ∷ xs) ys h k = (h.0, Fits-append target xs ys h.1 k)

-- `current_len` of the source: each part and the separator after it.
size : ℕ → List Text → ℕ
size k [] = 0
size k (x ∷ xs) = length x + k + size k xs

size-append :
    (k : ℕ) (xs : List Text) (y : Text) → size k (xs ++ y ∷ []) ≡ size k xs + (length y + k)
unfolding size
size-append k [] y = omega arith
size-append k (x ∷ xs) y = omega (arith, size-append k xs y)

length-join :
    (sep x : Text) (xs : List Text)
    → length (join sep (x ∷ xs)) + length sep ≡ size (length sep) (x ∷ xs)
unfolding join size
length-join sep x [] = omega arith
length-join sep x (y ∷ ys) = omega (
  arith,
  length-join sep y ys,
  length-append x (sep ++ join sep (y ∷ ys)),
  length-append sep (join sep (y ∷ ys)),
)

-- The chunk under way leaves room for no more than the separator.
abbrev Open : ℕ → ℕ → List Text → ℕ → Type 0
Open target k current n = (n ≡ size k current) × (size k current ≤ target + k)

flush-Fits :
    (target : ℕ) (sep : Text) (current : List Text) (n : ℕ)
    → Open target (length sep) current n
    → All (Fits target) (flush sep current)
flush-Fits target sep [] n h = tt
flush-Fits target sep (x ∷ xs) n h = (omega (arith, length-join sep x xs, h.1), tt)

opens : (target k : ℕ) → Open target k [] 0
unfolding size
opens target k = (refl, omega arith)

opens_with :
    (target k : ℕ) (u : Text)
    → ltb target (length u) ≡ false
    → Open target k (u ∷ []) (length u + k)
unfolding size
opens_with target k u short = (omega arith, grind (arith, short))

joins :
    (target k : ℕ) (current : List Text) (n : ℕ) (u : Text)
    → Open target k current n
    → ltb target (length u) ≡ false
    → (not (is_empty current) && ltb target (n + (length u + k))) ≡ false
    → Open target k (current ++ u ∷ []) (n + (length u + k))
unfolding size
joins target k [] n u h short room = (omega (arith, h.0), grind (arith, short))
joins target k (x ∷ xs) n u h short room = (
  omega (arith, h.0, size-append k (x ∷ xs) u),
  grind (arith, h.0, room, size-append k (x ∷ xs) u),
)

module _ (target : ℕ) (sep : Text) (cut : Text → List Text)
    (cuts : (u : Text) → All (Fits target) (cut u)) where
  pack-Fits :
      (units current : List Text) (n : ℕ)
      → Open target (length sep) current n
      → All (Fits target) (pack target sep cut units current n)
  unfolding pack
  pack-Fits [] current n h = flush-Fits target sep current n h
  pack-Fits (u ∷ us) current n h = elim (Bool-cases (ltb target (length u))) [
    | inl long ↦
        rw (long, pack)
          (Fits-append target (flush sep current) _ (flush-Fits target sep current n h)
            (Fits-append target (cut u) _ (cuts u) (pack-Fits us [] 0 (opens target (length sep)))))
    | inr short ↦
        elim (Bool-cases (not (is_empty current) && ltb target (n + (length u + length sep)))) [
          | inl full ↦
              rw (short, pack)
                (rw full (
                  Fits-append target (flush sep current) _ (flush-Fits target sep current n h)
                    (pack-Fits us (u ∷ []) _ (opens_with target (length sep) u short))))
          | inr room ↦
              rw (short, pack)
                (rw room (
                  pack-Fits us (current ++ u ∷ []) _
                    (joins target (length sep) current n u h short room)))
        ]
  ]

slices-Fits : (fuel n : ℕ) (text : Text) → All (Fits n) (slices fuel n text)
unfolding slices
slices-Fits zero n text = tt
slices-Fits (suc fuel) n [] = tt
slices-Fits (suc fuel) n (c ∷ text) =
    (omega (arith, length-take n (c ∷ text)), slices-Fits fuel n (drop n (c ∷ text)))

module _ (paragraphs sentences : Text → List Text) (strip : Text → Text) where
  or_first-Fits :
      (target : ℕ) (text : Text) (pieces : List Text)
      → All (Fits target) pieces
      → All (Fits target) (or_first paragraphs sentences strip pieces target text)
  or_first-Fits target text [] h = (omega (arith, length-take target text), tt)
  or_first-Fits target text (p ∷ ps) h = h

  pub split_oversized-Fits :
      (target : ℕ) (text : Text)
      → All (Fits target) (split_oversized paragraphs sentences strip text target)
  unfolding split_oversized
  split_oversized-Fits target text =
      or_first-Fits target text _
        (pack-Fits target space _ (λ s. slices-Fits (length s) target s) _ [] 0 (opens target 1))

  -- Whatever the two splitters and `strip` return: no chunk of a transcript is longer than the target,
  -- which is four characters for each token asked for, and one character at least.
  pub chunk_transcript-Fits :
      (text : Text) (target_tokens : ℕ)
      → All
          (λ c. length c ≤ max 1 (target_tokens * chars_per_token))
          (chunk_transcript paragraphs sentences strip text target_tokens)
  unfolding chunk_transcript
  chunk_transcript-Fits text target_tokens = elim (Bool-cases (is_empty (strip text))) [
    | inl blank ↦ rw blank tt
    | inr words ↦ rw words (
        pack-Fits (max 1 (target_tokens * chars_per_token)) blank_line _
          (split_oversized-Fits (max 1 (target_tokens * chars_per_token))) _ [] 0 (opens _ 2))
  ]

-- The pieces after one another.
pub concat : List Text → Text
concat [] = []
concat (x ∷ xs) = x ++ concat xs

-- A hard split with a positive width, and at least the text's length as fuel, loses nothing: the
-- pieces after one another are the text.
pub concat-slices :
    (fuel n : ℕ) (text : Text) → 1 ≤ n → length text ≤ fuel → concat (slices fuel n text) ≡ text
unfolding slices concat
concat-slices zero n [] h k = refl
concat-slices zero n (c ∷ text) h k = absurd (omega arith)
concat-slices (suc fuel) n [] h k = refl
concat-slices (suc fuel) n (c ∷ text) h k =
    ap (λ rest. take n (c ∷ text) ++ rest)
      (concat-slices fuel n (drop n (c ∷ text)) h (omega (arith, length-drop n (c ∷ text))))
    ∙ take-append-drop n (c ∷ text)
