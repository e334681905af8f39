-- ===== src/TrustHint/Tests.antt =====
-- A hint for one operator on one bot.
use paraclaw.Prelude.{ℕ, ◌+◌, ◌≡◌, ◌≢◌, refl, Bool, true, false, Text, lit, [], ◌∷◌, ltb, arith}
use paraclaw.TrustHint.{Hints, record_trust_hint, consume_trust_hint}

abbrev recorded : Hints
recorded = record_trust_hint (lit "telegram") (lit "7") (lit "42") 1000 []

operator_is_trusted :
    (consume_trust_hint (lit "telegram") (lit "7") (lit "42") 2000 recorded).1 ≡ true
unfolding consume_trust_hint record_trust_hint paraclaw.Prelude.text_eq
operator_is_trusted = refl
