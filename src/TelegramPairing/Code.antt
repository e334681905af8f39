-- ===== src/TelegramPairing/Code.antt =====
-- A code that was drawn is read back from the chat.
use paraclaw.Prelude.{
  ℕ, ◌+◌, ◌%◌, ◌/◌, ◌≡◌, refl, true, false, Text, has, trim, trim_start, none, some, List, [], ◌∷◌,
  arith, starts_with, Bool-cases, inl, inr,
}
use paraclaw.TelegramPairing.{pad, generate_code, extract_code, extract_addressed_text, is_digit}

-- The code is one of the draws, and none of the active ones.
pub generate_code_lem :
    (active : List Text) (draws : List ℕ) (code : Text)
    → generate_code active draws ≡ some code
    → ((n : ℕ) × (code ≡ pad n)) × (has active code ≡ false)
unfolding generate_code
generate_code_lem active [] code drawn = cc
generate_code_lem active (n ∷ draws) code drawn = elim (Bool-cases (has active (pad n))) [
  | inl taken ↦ generate_code_lem active draws code (ground (arith, taken, drawn))
  | inr free ↦
      let same : pad n ≡ code = ground (arith, free, drawn) in ((n, rw same refl), rw (← same) free)
]

digits_trim :
    (a b c d : ℕ)
    → is_digit a ≡ true
    → is_digit b ≡ true
    → is_digit c ≡ true
    → is_digit d ≡ true
    → trim (a ∷ b ∷ c ∷ d ∷ []) ≡ a ∷ b ∷ c ∷ d ∷ []
unfolding trim trim_start
digits_trim a b c d ha hb hc hd = ground arith

digit-is_digit : (m : ℕ) → is_digit (48 + m % 10) ≡ true
digit-is_digit m = ground arith

not_addressed :
    (a : ℕ) (t bot : Text)
    → is_digit a ≡ true
    → trim (a ∷ t) ≡ a ∷ t
    → extract_addressed_text (a ∷ t) bot ≡ none
unfolding extract_addressed_text starts_with
not_addressed a t bot ha trimmed = rw trimmed (ground (arith, ha))

extract_code-digits :
    (a b c d : ℕ) (bot : Text)
    → is_digit a ≡ true
    → is_digit b ≡ true
    → is_digit c ≡ true
    → is_digit d ≡ true
    → extract_code (a ∷ b ∷ c ∷ d ∷ []) bot ≡ some (a ∷ b ∷ c ∷ d ∷ [])
unfolding extract_code
extract_code-digits a b c d bot ha hb hc hd =
    let trimmed = digits_trim a b c d ha hb hc hd in
    rw (not_addressed a (b ∷ c ∷ d ∷ []) bot ha trimmed, extract_code)
      (rw trimmed (ground (arith, ha, hb, hc, hd)))

-- A chat that sends a drawn code and nothing else is understood, whatever the bot is called.
pub extract_code-pad : (n : ℕ) (bot : Text) → extract_code (pad n) bot ≡ some (pad n)
extract_code-pad n bot =
    extract_code-digits (48 + n / 1000 % 10) (48 + n / 100 % 10) (48 + n / 10 % 10) (48 + n % 10)
      bot (digit-is_digit (n / 1000)) (digit-is_digit (n / 100)) (digit-is_digit (n / 10))
      (digit-is_digit n)
