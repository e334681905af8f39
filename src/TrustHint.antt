-- ===== src/TrustHint.antt =====
-- src/channels/trust-hint.ts: the hint, kept in memory for five minutes, that the operator has just
-- wired a bot. `hints` is the Map, in insertion order; `now` is what `Date.now()` reads.
pub mod Hints
pub mod Use
mod Tests
use paraclaw.Prelude.{
  ℕ, ◌+◌, Bool, true, false, not, Text, text_eq, Option, none, some, List, [], ◌∷◌, ◌++◌, any,
  update, filter, find?, if◌then◌else◌, leb,
}

-- `TTL_MS`
abbrev pub ttl_ms : ℕ
ttl_ms = 300000

abbrev pub Hints : Type 0
Hints = List (Text × ℕ)

-- `key`
unfoldable pub key : Text → Text → Text → Text
key channel_type bot_id operator = channel_type ++ (0 ∷ (bot_id ++ (0 ∷ operator)))

-- `sweep`
unfoldable pub sweep : ℕ → Hints → Hints
sweep now hints = filter (λ h. not (leb h.1 now)) hints

-- `hints.set(k, at)`: a key keeps its place
unfoldable pub set_hint : Text → ℕ → Hints → Hints
set_hint k at hints =
    if any (λ h. text_eq h.0 k) hints
    then update (λ h. text_eq h.0 k) (λ h. (h.0, at)) hints
    else hints ++ ((k, at) ∷ [])

-- `hints.delete(k)`
unfoldable pub delete_hint : Text → Hints → Hints
delete_hint k hints = filter (λ h. not (text_eq h.0 k)) hints

-- `recordTrustHint`
unfoldable pub record_trust_hint : Text → Text → Text → ℕ → Hints → Hints
unfolding key sweep set_hint
record_trust_hint channel_type bot_id [] now hints = hints
record_trust_hint channel_type bot_id (u ∷ operator) now hints =
    set_hint (key channel_type bot_id (u ∷ operator)) (now + ttl_ms) (sweep now hints)

-- `consumeTrustHint`, with the Map that it leaves
unfoldable pub consume_trust_hint : Text → Text → Text → ℕ → Hints → Hints × Bool
unfolding key sweep delete_hint
consume_trust_hint channel_type bot_id [] now hints = (hints, false)
consume_trust_hint channel_type bot_id (u ∷ operator) now hints =
    let k = key channel_type bot_id (u ∷ operator) in
    let live = sweep now hints in
    elim (find? (λ h. text_eq h.0 k) live) [
      | none ↦ (live, false)
      | some h ↦ (delete_hint k live, true)
    ]
