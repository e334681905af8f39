-- ===== src/TelegramPairing/Pending.antt =====
-- Which records are open after `createPairing` and after a guess.
use paraclaw.Prelude.{
  ℕ, ◌≤◌, ◌≡◌, refl, false, Text, none, some, List, [], ◌∷◌, ◌++◌, any, update, filter, find?,
  length, take, arith, Option-cases, inl, inr,
}
use paraclaw.TelegramPairing.{
  PairingIntent, PairingRecord, PairingAttempt, ConsumeInput, is_pending, is_open_for, supersede,
  sweep, new_pairing, create_pairing, generate_code, active_codes, consume_code, miss, answers,
  attempt_of,
}

-- How many records are open for the intent.
abbrev pub open_count : PairingIntent → List PairingRecord → ℕ
open_count intent pairings = length (filter (is_open_for intent) pairings)

-- At most one record is open for each intent.
abbrev pub AtMostOne : List PairingRecord → Type 0
AtMostOne pairings = (intent : PairingIntent) → open_count intent pairings ≤ 1

-- What `createPairing` makes when it finds a free code.
abbrev pub Made :
    PairingIntent → ℕ → List ℕ → List PairingRecord → List PairingRecord → PairingRecord → Type 0
Made intent now draws pairings pairings' r =
    let kept = supersede intent (sweep pairings) in
    (code : Text) × (generate_code (active_codes kept) (take 50 draws) ≡ some code)
    × (pairings' ≡ kept ++ new_pairing code intent now ∷ [])
    × (r ≡ new_pairing code intent now)

pub create_pairing-Made :
    (intent : PairingIntent) (now : ℕ) (draws : List ℕ) (pairings pairings' : List PairingRecord)
    (r : PairingRecord)
    → create_pairing intent now draws pairings ≡ some (pairings', r)
    → Made intent now draws pairings pairings' r
unfolding create_pairing
create_pairing-Made intent now draws pairings pairings' r made =
    elim (Option-cases
      (generate_code (active_codes (supersede intent (sweep pairings))) (take 50 draws))) [
        | inl exhausted ↦ absurd (fails (rw (exhausted, create_pairing) refl))
        | inr (code, drawn) ↦
            let result = makes code drawn in
            (code, drawn, ground (arith, made, result), ground (arith, made, result))
      ]
  where
    fails : create_pairing intent now draws pairings ≡ none → ⊥
    fails e = ground (arith, e, made)

    makes :
        (code : Text)
        → generate_code (active_codes (supersede intent (sweep pairings))) (take 50 draws)
          ≡ some code
        → create_pairing intent now draws pairings
          ≡ some (
            supersede intent (sweep pairings) ++ new_pairing code intent now ∷ [],
            new_pairing code intent now,
          )
    makes code drawn = rw (drawn, create_pairing) refl

find?-none :
    (code : Text) (pairings : List PairingRecord)
    → any (answers code) pairings ≡ false
    → find? (answers code) pairings ≡ none
find?-none code [] h = refl
find?-none code (r ∷ pairings) h = ground (arith, find?-none code pairings, h)

no_pending :
    (attempt : PairingAttempt) (pairings : List PairingRecord)
    → any is_pending (update is_pending (miss attempt) pairings) ≡ false
no_pending attempt [] = refl
no_pending attempt (r ∷ pairings) = ground (arith, no_pending attempt pairings)

-- After a code that no open record has, no record is open: one wrong guess ends every pairing, and
-- the guess gets nothing.
pub consume_code-miss :
    (code : Text) (input : ConsumeInput) (now : ℕ) (pairings : List PairingRecord)
    → any (answers code) (sweep pairings) ≡ false
    → (any is_pending (consume_code code input now pairings).0 ≡ false)
      × ((consume_code code input now pairings).1 ≡ none)
unfolding consume_code
consume_code-miss code input now pairings h =
    rw (find?-none code (sweep pairings) h, consume_code)
      (no_pending (attempt_of code input now false) (sweep pairings), refl)
