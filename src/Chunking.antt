-- ===== src/Chunking.antt =====
-- podcast_agent/summarize/chunking.py: the cutting of a transcript into chunks. A text is the list
-- of its code points. The two regular expressions and `str.strip` are parameters.
pub mod Bound
use podcast_digest.Common.{
  ℕ, zero, suc, ◌+◌, ◌*◌, ◌/◌, max, Bool, true, false, ◌&&◌, not, List, [], ◌∷◌, ◌++◌, map, ltb,
  leb, if◌then◌else◌, take, drop, length, keep_if,
}

abbrev pub Text : Type 0
Text = List ℕ

-- CHARS_PER_TOKEN of podcast_agent/utils.py
abbrev pub chars_per_token : ℕ
chars_per_token = 4

-- podcast_agent/utils.py
unfoldable pub estimate_tokens : Text → ℕ
estimate_tokens text = max 1 (length text / chars_per_token)

unfoldable pub needs_map_reduce : Text → ℕ → Bool
needs_map_reduce text max_input_tokens = ltb max_input_tokens (estimate_tokens text)

abbrev pub is_empty {ℓ} : {A : Type ℓ} → List A → Bool
is_empty [] = true
is_empty (x ∷ xs) = false

-- `sep.join(parts)`
unfoldable pub join : Text → List Text → Text
join sep [] = []
join sep (x ∷ []) = x
join sep (x ∷ y ∷ rest) = x ++ (sep ++ join sep (y ∷ rest))

-- `if current: chunks.append(sep.join(current))`
abbrev pub flush : Text → List Text → List Text
flush sep [] = []
flush sep (x ∷ xs) = join sep (x ∷ xs) ∷ []

-- The loop of both functions: `current` and `current_len` are the chunk under way, `cut` what is
-- done with a unit that is too long by itself.
unfoldable pub pack :
    (target : ℕ) → Text → (Text → List Text) → List Text → List Text → ℕ → List Text
pack target sep cut [] current current_len = flush sep current
pack target sep cut (unit ∷ units) current current_len =
    let room = length unit + length sep in
    let after_cut = pack target sep cut units [] 0 in
    let after_flush = pack target sep cut units (unit ∷ []) room in
    let joined = pack target sep cut units (current ++ unit ∷ []) (current_len + room) in
    if ltb target (length unit)
    then flush sep current ++ (cut unit ++ after_cut)
    else if not (is_empty current) && ltb target (current_len + room)
    then flush sep current ++ after_flush
    else joined

-- `text[i : i + n] for i in range(0, len(text), n)`, with the length of the text as fuel.
unfoldable pub slices : ℕ → ℕ → Text → List Text
slices zero n text = []
slices (suc fuel) n [] = []
slices (suc fuel) n (c ∷ text) = take n (c ∷ text) ∷ slices fuel n (drop n (c ∷ text))

abbrev pub space : Text
space = 32 ∷ []

abbrev pub blank_line : Text
blank_line = 10 ∷ 10 ∷ []

module _ (paragraphs sentences : Text → List Text) (strip : Text → Text) where
  -- `[p.strip() for p in parts if p.strip()]`
  abbrev pub stripped : List Text → List Text
  stripped parts = keep_if (λ p. not (is_empty p)) (map strip parts)

  -- `pieces or [text[:target_chars]]`
  abbrev pub or_first : List Text → ℕ → Text → List Text
  or_first [] target text = take target text ∷ []
  or_first (p ∷ ps) target text = p ∷ ps

  -- `_split_oversized`
  unfoldable pub split_oversized : Text → ℕ → List Text
  split_oversized text target =
      or_first
        (pack target space (λ s. slices (length s) target s) (stripped (sentences text)) [] 0)
        target text

  abbrev pub single : ℕ → List Text → List Text
  single target (u ∷ []) = split_oversized u target
  single target units = units

  unfoldable pub chunk_transcript : Text → ℕ → List Text
  chunk_transcript text target_tokens =
      let target = max 1 (target_tokens * chars_per_token) in
      let units = single target (stripped (paragraphs text)) in
      let chunks = pack target blank_line (λ u. split_oversized u target) units [] 0 in
      if is_empty (strip text) then [] else chunks
