-- ===== src/ChannelApproval/Once.antt =====
-- Requests for the same chat that overlap: each waits between its check and its insertion.
use paraclaw.Prelude.{
  ℕ, ◌+◌, ◌≤◌, ◌≡◌, refl, sym, ◌∙◌, ap, Bool, false, Text, text_eq, text_eq_iff, Option, none, some,
  List, [], ◌∷◌, ◌++◌, All, any, filter, length, if◌then◌else◌, Bool-cases, inl, inr, arith,
}
use paraclaw.Inbound.{Inbound}
use paraclaw.Inbound.Wired.{length-filter_last}
use paraclaw.ChannelApproval.{
  Card, Surroundings, Office, Plan, is_for, create_pending_channel_approval,
  has_in_flight_channel_approval, plan_for, prepare, deliver_card, conclude,
}

-- The host with the requests that wait, each with what it has prepared.
pub record Desk : Type 0 where
  pub office : Office
  pub waiting : List Plan

-- One request gets to its wait, or one that waits goes on. The surroundings may change in between.
pub data Step : Desk → Desk → Type 0 where
  begins :
      (around : Surroundings) (group : Text) (inbound : Inbound) (plan : Plan) (d : Desk)
      → prepare around group inbound d.office ≡ some plan
      → Step d (record d { waiting = plan ∷ d.waiting })
  goes_on :
      (around : Surroundings) (plan : Plan) (before after : List Plan) (office : Office)
      → Step
          (record { office = office; waiting = before ++ (plan ∷ after) })
          (record { office = conclude around plan office; waiting = before ++ after })

pub data Reach : Desk → Desk → Type 0 where
  here : {d : Desk} → Reach d d
  onward : {d e f : Desk} → Reach d e → Step e f → Reach d f

abbrev asks : Text → Card → Bool
asks group c = text_eq c.question_id group

-- The cards about a chat, and its pending rows.
abbrev pub cards_for : Text → Office → ℕ
cards_for group office = length (filter (asks group) office.cards)

abbrev pub rows_for : Text → Office → ℕ
rows_for group office = length (filter (is_for group) office.pending)

abbrev Matches : Plan → Type 0
Matches plan = plan.card.question_id ≡ plan.row.messaging_group_id

-- Each card has its pending row, and no chat has two.
record IsOrderly (group : Text) (d : Desk) : Type 0 where
  backed : cards_for group d.office ≤ rows_for group d.office
  single : rows_for group d.office ≤ 1
  matching : All Matches d.waiting

length-filter_other :
    {A : Type 0} (p : A → Bool) (rows : List A) (x : A)
    → p x ≡ false
    → length (filter p (rows ++ (x ∷ []))) ≡ length (filter p rows)
length-filter_other p [] x e = ground arith
length-filter_other p (r ∷ rows) x e = ground (arith, length-filter_other p rows x e)

length-filter_none :
    {A : Type 0} (p : A → Bool) (rows : List A) → any p rows ≡ false → length (filter p rows) ≡ 0
length-filter_none p [] e = refl
length-filter_none p (r ∷ rows) e = ground (arith, length-filter_none p rows)

-- What is prepared asks about its own row.
prepare-Matches :
    (around : Surroundings) (group : Text) (inbound : Inbound) (office : Office) (plan : Plan)
    → prepare around group inbound office ≡ some plan
    → Matches plan
unfolding prepare plan_for has_in_flight_channel_approval
prepare-Matches around group inbound office plan h = ground arith

cards-deliver :
    (group : Text) (adapter : Option (Card → Bool)) (card : Card) (cards : List Card)
    → length (filter (asks group) (deliver_card adapter card cards))
      ≤ length (filter (asks group) cards) + (if asks group card then 1 else 0)
cards-deliver group none card cards = omega arith
cards-deliver group (some takes) card cards = elim (Bool-cases (takes card)) [
  | inr refused ↦ rw refused (omega arith)
  | inl taken ↦ elim (Bool-cases (asks group card)) [
    | inl own ↦ ground (arith, taken, own, length-filter_last (asks group) cards card own)
    | inr other ↦ ground (arith, taken, other, length-filter_other (asks group) cards card other)
  ]
]

All-middle :
    (before : List Plan) (plan : Plan) (after : List Plan)
    → All Matches (before ++ (plan ∷ after))
    → Matches plan × All Matches (before ++ after)
All-middle [] plan after h = h
All-middle (x ∷ before) plan after (p, h) =
    let (own, rest) = All-middle before plan after h in (own, (p, rest))

conclude-IsOrderly :
    (around : Surroundings) (group : Text) (plan : Plan) (before after : List Plan)
    (office : Office)
    → IsOrderly group (record { office = office; waiting = before ++ (plan ∷ after) })
    → IsOrderly group (record { office = conclude around plan office; waiting = before ++ after })
unfolding conclude create_pending_channel_approval
conclude-IsOrderly around group plan before after office h =
    let (own, others) = All-middle before plan after h.matching in
    let mg = plan.row.messaging_group_id in
    elim (Bool-cases (any (is_for mg) office.pending)) [
      | inl taken ↦
          let same : conclude around plan office ≡ office = ground (arith, taken) in
          rw same (record { backed = h.backed; single = h.single; matching = others })
      | inr vacant ↦
          let after_it : conclude around plan office ≡ record office {
            pending = office.pending ++ (plan.row ∷ []);
            cards = deliver_card around.adapter plan.card office.cards;
          } =
            ground (arith, vacant) in
          let more = cards-deliver group around.adapter plan.card office.cards in
          elim (Bool-cases (is_for group plan.row)) [
            | inl mine ↦
                let same = (text_eq_iff mg group).0 mine in
                let none_yet : length (filter (is_for group) office.pending) ≡ 0 =
                  length-filter_none (is_for group) office.pending
                    (ap (λ x. any (is_for x) office.pending) (sym same) ∙ vacant) in
                let one = length-filter_last (is_for group) office.pending plan.row mine in
                rw after_it (record {
                  backed = ground (arith, more, one, none_yet, h.backed);
                  single = omega (arith, one, none_yet);
                  matching = others;
                })
            | inr theirs ↦
                let same = length-filter_other (is_for group) office.pending plan.row theirs in
                let quiet : asks group plan.card ≡ false = rw own theirs in
                rw after_it (record {
                  backed = ground (arith, rw quiet at more, same, h.backed);
                  single = omega (arith, same, h.single);
                  matching = others;
                })
          ]
    ]

Step-IsOrderly : (group : Text) {d e : Desk} → Step d e → IsOrderly group d → IsOrderly group e
Step-IsOrderly group (begins around mg inbound plan d prepared) h = record {
  backed = h.backed;
  single = h.single;
  matching = (prepare-Matches around mg inbound d.office plan prepared, h.matching);
}
Step-IsOrderly group (goes_on around plan before after office) h =
    conclude-IsOrderly around group plan before after office h

Reach-IsOrderly : (group : Text) {d e : Desk} → Reach d e → IsOrderly group d → IsOrderly group e
Reach-IsOrderly group here h = h
Reach-IsOrderly group (onward way step) h = Step-IsOrderly group step (Reach-IsOrderly group way h)

-- An owner gets one card for a chat: from a desk without cards, pending rows and waiting requests,
-- however many `requestChannelApproval` calls about a chat begin, wait and go on, in whatever order
-- and surroundings, at most one card about that chat is delivered, and at most one row is pending.
pub Reach-one_card :
    (group : Text) (office : Office) (d : Desk)
    → office.pending ≡ []
    → office.cards ≡ []
    → Reach (record { office = office; waiting = [] }) d
    → (cards_for group d.office ≤ 1) × (rows_for group d.office ≤ 1)
Reach-one_card group office d no_rows no_cards way =
    let start : IsOrderly group (record { office = office; waiting = [] }) = record {
      backed = rw no_cards (omega arith);
      single = rw no_rows (omega arith);
      matching = tt;
    } in
    let h = Reach-IsOrderly group way start in omega (arith, h.backed, h.single)
