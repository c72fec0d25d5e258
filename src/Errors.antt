-- ===== src/Errors.antt =====
-- The exceptions of the program (db/base.py, state.py, joblock.py, built-in ones), and fallible
-- code: a function that may raise returns a `Result`, a method that may raise and changes a store
-- returns the store beside it.
use podcast_digest.Common.{String, ◌≡◌, refl, ◌⊎◌, inl, inr}

pub data Error : Type 0 where
  store_error conflict_error not_found_error : Error
  value_error key_error : Error
  illegal_transition : String → String → Error
  llm_unavailable asr_unavailable : Error
  url_rejected download_too_large download_interrupted http_error transfer_cut : Error

pub data Result {ℓ} (A : Type ℓ) : Type ℓ where
  ok : A → Result A
  err : Error → Result A

infixl 5 ◌>>=◌
abbrev pub ◌>>=◌ {ℓ κ} : {A : Type ℓ} {B : Type κ} → Result A → (A → Result B) → Result B
ok a >>= f = f a
err e >>= f = err e

-- A computation returned a value or raised.
pub Result-cases {ℓ} :
    {V : Type ℓ} (outcome : Result V)
    → ((v : V) × (outcome ≡ ok v)) ⊎ ((raised : Error) × (outcome ≡ err raised))
Result-cases (ok v) = inl (v, refl)
Result-cases (err raised) = inr (raised, refl)
