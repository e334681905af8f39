-- ===== src/HostSweep/Decide.antt =====
-- When `decideStuckAction` leaves a running container alone, and what it reports.
use paraclaw.Prelude.{
  ℕ, ◌-◌, ◌<◌, ◌≤◌, ◌≡◌, ◌↔◌, ◌⊎◌, inl, inr, refl, Bool, true, false, Text, Option, some, List, [],
  ◌∷◌, All, Any, arith, Bool-cases, Option-cases,
}
use paraclaw.SessionDb.{Ack, ContainerState}
use paraclaw.HostSweep.{
  Clock, fine, kill_claim, widened, absolute_ceiling_ms, claim_stuck_ms, claim_is_stuck,
  first_stuck, decide_stuck_action,
}

-- A claim shows that its container is stuck: it was made longer than the tolerance ago, and the
-- heartbeat is no younger than the claim.
abbrev pub IsStuck : Clock → ℕ → ℕ → Ack → Type 0
IsStuck clock heartbeat tolerance claim =
    (at : ℕ) × (clock.parse claim.status_changed ≡ some at)
    × (tolerance < clock.now - at)
    × (heartbeat ≤ at)

absurd_of : {b : Bool} → b ≡ false → b ≡ true → ⊥
absurd_of p q = cc

claim_is_stuck_iff :
    (clock : Clock) (heartbeat tolerance : ℕ) (claim : Ack)
    → (claim_is_stuck clock heartbeat tolerance claim ≡ true)
      ↔ IsStuck clock heartbeat tolerance claim
unfolding claim_is_stuck
claim_is_stuck_iff clock heartbeat tolerance claim = (
  λ e. elim (Option-cases (clock.parse claim.status_changed)) [
    | inl missing ↦ ground arith
    | inr (at, found) ↦ (at, found, ground arith, ground arith)
  ],
  λ (at, found, old, quiet). ground (arith, found, old, quiet),
)

first_stuck-fine_iff :
    (clock : Clock) (heartbeat tolerance : ℕ) (claims : List Ack)
    → (first_stuck clock heartbeat tolerance claims ≡ fine)
      ↔ All (λ c. ¬ IsStuck clock heartbeat tolerance c) claims
unfolding first_stuck
first_stuck-fine_iff clock heartbeat tolerance [] = ((λ e. tt), λ h. refl)
first_stuck-fine_iff clock heartbeat tolerance (c ∷ claims) =
    elim (Bool-cases (claim_is_stuck clock heartbeat tolerance c)) [
      | inl stuck ↦ (
        λ e. ground (arith, e, stuck),
        λ h. absurd (h.0 ((claim_is_stuck_iff clock heartbeat tolerance c).0 stuck)),
      )
      | inr alive ↦ (
        λ e. (
          λ stuck. absurd_of alive ((claim_is_stuck_iff clock heartbeat tolerance c).1 stuck),
          (first_stuck-fine_iff clock heartbeat tolerance claims).0 (ground (arith, e, alive)),
        ),
        λ h. rw alive ((first_stuck-fine_iff clock heartbeat tolerance claims).1 h.1),
      )
    ]

first_stuck-kill_claim :
    (clock : Clock) (heartbeat tolerance : ℕ) (claims : List Ack) (id : Text) (age limit : ℕ)
    → first_stuck clock heartbeat tolerance claims ≡ kill_claim id age limit
    → Any (λ c. (c.message_id ≡ id) × IsStuck clock heartbeat tolerance c) claims
unfolding first_stuck
first_stuck-kill_claim clock heartbeat tolerance [] id age limit e = cc
first_stuck-kill_claim clock heartbeat tolerance (c ∷ claims) id age limit e =
    elim (Bool-cases (claim_is_stuck clock heartbeat tolerance c)) [
      | inl stuck ↦
          inl (ground (arith, e, stuck), (claim_is_stuck_iff clock heartbeat tolerance c).0 stuck)
      | inr alive ↦ inr (
          first_stuck-kill_claim clock heartbeat tolerance claims id age limit
            (ground (arith, e, alive)))
    ]

-- The container is left alone exactly when there is no heartbeat yet or it is no older than the
-- ceiling, and no claim is older than the tolerance with no heartbeat since; both limits are
-- widened by the declared timeout of a running Bash.
pub decide_stuck_action-eq-fine_iff :
    (clock : Clock) (heartbeat : ℕ) (state : Option ContainerState) (claims : List Ack)
    → (decide_stuck_action clock heartbeat state claims ≡ fine) ↔ (
        ((heartbeat ≡ 0) ⊎ (clock.now - heartbeat ≤ widened absolute_ceiling_ms state))
        × All (λ c. ¬ IsStuck clock heartbeat (widened claim_stuck_ms state) c) claims)
unfolding decide_stuck_action
decide_stuck_action-eq-fine_iff clock heartbeat state claims =
    let loop = first_stuck-fine_iff clock heartbeat (widened claim_stuck_ms state) claims in
    (
      λ e. (ground (arith, e), loop.0 (ground (arith, e))),
      λ h.
          let rest = loop.1 h.1 in
          elim h.0 [
            | inl absent ↦ ground (arith, rest, absent)
            | inr young ↦ ground (arith, rest, young)
          ],
    )

-- A claim is named in a kill only if it is one of the claims and shows that its container is stuck.
pub decide_stuck_action-kill_claim :
    (clock : Clock) (heartbeat : ℕ) (state : Option ContainerState) (claims : List Ack) (id : Text)
    (age tolerance : ℕ)
    → decide_stuck_action clock heartbeat state claims ≡ kill_claim id age tolerance
    → Any
        (λ c. (c.message_id ≡ id) × IsStuck clock heartbeat (widened claim_stuck_ms state) c)
        claims
unfolding decide_stuck_action
decide_stuck_action-kill_claim clock heartbeat state claims id age tolerance e =
    first_stuck-kill_claim clock heartbeat (widened claim_stuck_ms state) claims id age tolerance
      (ground (arith, e))
