-- ===== src/TrustHint/Use.antt =====
-- A hint is used at most once, in time, and by the operator it names.
use paraclaw.Prelude.{
  ℕ, ◌+◌, ◌≤◌, ◌≡◌, ◌≢◌, refl, sym, ◌∙◌, false, Text, [], ◌∷◌, arith, ltb, Lacks, Option-cases,
  find?, text_eq, inl, inr, is_some,
}
use paraclaw.TrustHint.{Hints, key, ttl_ms, sweep, record_trust_hint, consume_trust_hint}
use paraclaw.TrustHint.Hints.{
  live, live-sweep, live-absent, is_some-find?-sweep, live-delete_hint, live-set_hint,
  live-set_hint_other, key-injective,
}

-- The answer is whether a hint is alive under the key.
consume_trust_hint-answer :
    (c b : Text) (u : ℕ) (op : Text) (now : ℕ) (hints : Hints)
    → (consume_trust_hint c b (u ∷ op) now hints).1 ≡ live now (key c b (u ∷ op)) hints
unfolding consume_trust_hint
consume_trust_hint-answer c b u op now hints =
    let k = key c b (u ∷ op) in fired k ∙ is_some-find?-sweep now k hints
  where
    fired :
        (k : Text)
        → (consume_trust_hint c b (u ∷ op) now hints).1
          ≡ is_some (find? (λ h. text_eq h.0 (key c b (u ∷ op))) (sweep now hints))
    fired k = ground arith

-- Whatever `consumeTrustHint` answers, the Map that it leaves holds no hint under its key.
consume_trust_hint-gone :
    (c b : Text) (u : ℕ) (op : Text) (now later : ℕ) (hints : Hints)
    → live later (key c b (u ∷ op)) (consume_trust_hint c b (u ∷ op) now hints).0 ≡ false
unfolding consume_trust_hint
consume_trust_hint-gone c b u op now later hints =
    let k = key c b (u ∷ op) in
    elim (Option-cases (find? (λ h. text_eq h.0 k) (sweep now hints))) [
      | inl absent ↦ rw (absent, consume_trust_hint) (live-absent later k (sweep now hints) absent)
      | inr (h, found) ↦ rw (found, consume_trust_hint) (live-delete_hint later k (sweep now hints))
    ]

-- A hint is good for one inbound: once `consumeTrustHint` has been asked about a triple, it says no
-- to the same triple at any later moment, until a new hint is recorded.
pub consume_trust_hint_once :
    (c b op : Text) (now later : ℕ) (hints : Hints)
    → (consume_trust_hint c b op later (consume_trust_hint c b op now hints).0).1 ≡ false
unfolding consume_trust_hint
consume_trust_hint_once c b [] now later hints = refl
consume_trust_hint_once c b (u ∷ op) now later hints =
    consume_trust_hint-answer c b u op later (consume_trust_hint c b (u ∷ op) now hints).0
    ∙ consume_trust_hint-gone c b u op now later hints

-- After `recordTrustHint` at `now`, `consumeTrustHint` for the same channel, bot and operator says
-- yes at `later` exactly if five minutes have not passed.
pub consume_trust_hint-record :
    (c b : Text) (u : ℕ) (op : Text) (now later : ℕ) (hints : Hints)
    → (consume_trust_hint c b (u ∷ op) later (record_trust_hint c b (u ∷ op) now hints)).1
      ≡ ltb later (now + ttl_ms)
unfolding record_trust_hint
consume_trust_hint-record c b u op now later hints =
    consume_trust_hint-answer c b u op later (record_trust_hint c b (u ∷ op) now hints)
    ∙ live-set_hint later (now + ttl_ms) (key c b (u ∷ op)) (sweep now hints)

-- A hint recorded for one triple changes no answer for another, if channel and bot ids hold no NUL:
-- a stranger gains nothing from the operator's hint.
pub consume_trust_hint-record_other :
    (c c' b b' : Text) (u : ℕ) (op : Text) (u' : ℕ) (op' : Text) (now later : ℕ) (hints : Hints)
    → Lacks 0 c
    → Lacks 0 c'
    → Lacks 0 b
    → Lacks 0 b'
    → ¬ ((c ≡ c') × (b ≡ b') × (u ∷ op ≡ u' ∷ op'))
    → now ≤ later
    → (consume_trust_hint c' b' (u' ∷ op') later (record_trust_hint c b (u ∷ op) now hints)).1
      ≡ (consume_trust_hint c' b' (u' ∷ op') later hints).1
unfolding record_trust_hint
consume_trust_hint-record_other c c' b b' u op u' op' now later hints hc hc' hb hb' ne le =
    let k = key c b (u ∷ op) in
    let k' = key c' b' (u' ∷ op') in
    consume_trust_hint-answer c' b' u' op' later (record_trust_hint c b (u ∷ op) now hints)
    ∙ (live-set_hint_other later (now + ttl_ms) k k' (sweep now hints) differ
        ∙ (live-sweep now later k' hints le
            ∙ sym (consume_trust_hint-answer c' b' u' op' later hints)))
  where
    differ : key c b (u ∷ op) ≢ key c' b' (u' ∷ op')
    differ same = ne (key-injective c c' b b' (u ∷ op) (u' ∷ op') hc hc' hb hb' same)
