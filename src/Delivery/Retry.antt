-- ===== src/Delivery/Retry.antt =====
-- Failed attempts are counted, and the third gives the message up.
use paraclaw.Prelude.{
  ℕ, ◌+◌, ◌<◌, ◌≡◌, refl, true, Text, text_eq, text_eq_refl, none, List, [], ◌∷◌, ◌++◌, All, any,
  leb, arith, Bool-cases, Option-cases, inl, inr,
}
use paraclaw.SessionDb.{MessageOut, Delivered, gave_up, is_delivered, mark_delivery_failed}
use paraclaw.Delivery.{World, Session, deliver_message}
use paraclaw.Delivery.Drain.{
  Queue, Attempts, max_delivery_attempts, attempts_of, clear_attempts, set_attempts, deliver_one,
  deliver_each,
}

abbrev pub Fails : World → Session → MessageOut → Type 0
Fails w s m = (deliver_message w s m).result ≡ none

attempts_of-clear : (id : Text) (m : Attempts) → attempts_of id (clear_attempts id m) ≡ 0
unfolding attempts_of clear_attempts
attempts_of-clear id [] = refl
attempts_of-clear id ((k, n) ∷ m) = ground (arith, attempts_of-clear id m)

attempts_of-set : (id : Text) (n : ℕ) (m : Attempts) → attempts_of id (set_attempts id n m) ≡ n
unfolding attempts_of set_attempts
attempts_of-set id n m = ground (arith, text_eq_refl id)

-- A failed attempt below the limit is counted and marks nothing.
deliver_one-Fails :
    (w : World) (s : Session) (m : MessageOut) (q : Queue) (n : ℕ)
    → Fails w s m
    → attempts_of m.id q.attempts ≡ n
    → n + 1 < max_delivery_attempts
    → (attempts_of m.id (deliver_one w s m q).attempts ≡ n + 1)
      × ((deliver_one w s m q).delivered ≡ q.delivered)
unfolding deliver_one
deliver_one-Fails w s m q n h e lt =
    (ground (arith, h, e, lt, attempts_of-set m.id (n + 1) q.attempts), ground (arith, h, e, lt))

any-gave_up :
    (id : Text) (rows : List Delivered) → is_delivered (mark_delivery_failed id rows) id ≡ true
unfolding mark_delivery_failed is_delivered
any-gave_up id rows =
    elim (Bool-cases (any (λ (d : Delivered). text_eq d.message_out_id id) rows)) [
      | inl old ↦ ground (arith, old)
      | inr new ↦ ground (arith, new, snoc rows)
    ]
  where
    snoc :
        (rows : List Delivered)
        → any
            (λ (d : Delivered). text_eq d.message_out_id id)
            (rows
              ++ record { message_out_id = id; platform_message_id = none; status = gave_up } ∷ [])
          ≡ true
    snoc [] = ground (arith, text_eq_refl id)
    snoc (r ∷ rows) = ground (arith, snoc rows)

-- A failed attempt that reaches the limit marks the message and forgets its count.
deliver_one-gives_up :
    (w : World) (s : Session) (m : MessageOut) (q : Queue)
    → Fails w s m
    → attempts_of m.id q.attempts + 1 ≡ max_delivery_attempts
    → (attempts_of m.id (deliver_one w s m q).attempts ≡ 0)
      × (is_delivered (deliver_one w s m q).delivered m.id ≡ true)
unfolding deliver_one
deliver_one-gives_up w s m q h e = (
  ground (
    arith,
    h,
    e,
    attempts_of-clear m.id (set_attempts m.id (attempts_of m.id q.attempts + 1) q.attempts),
  ),
  ground (arith, h, e, any-gave_up m.id q.delivered),
)

-- A message whose delivery throws each time, with no attempt counted before, is tried three times:
-- after the first two nothing is marked, and the third marks it, so that no fourth comes.
pub deliver_one_three :
    (w1 w2 w3 : World) (s : Session) (m : MessageOut) (q : Queue)
    → Fails w1 s m
    → Fails w2 s m
    → Fails w3 s m
    → attempts_of m.id q.attempts ≡ 0
    → ((deliver_one w2 s m (deliver_one w1 s m q)).delivered ≡ q.delivered)
      × (is_delivered
            (deliver_one w3 s m (deliver_one w2 s m (deliver_one w1 s m q))).delivered
            m.id
          ≡ true)
      × (attempts_of m.id (deliver_one w3 s m (deliver_one w2 s m (deliver_one w1 s m q))).attempts
          ≡ 0)
deliver_one_three w1 w2 w3 s m q f1 f2 f3 fresh =
    let (count1, same1) = deliver_one-Fails w1 s m q 0 f1 fresh (omega arith) in
    let (count2, same2) =
      deliver_one-Fails w2 s m (deliver_one w1 s m q) 1 f2 (omega (arith, count1)) (omega arith) in
    let (zero3, marked3) =
      deliver_one-gives_up w3 s m (deliver_one w2 s m (deliver_one w1 s m q)) f3
        (omega (arith, count2)) in
    (cc (same1, same2), marked3, zero3)

-- The counts that the map holds are below the limit.
abbrev pub BelowLimit : Attempts → Type 0
BelowLimit = All (λ p. p.1 < max_delivery_attempts)

clear_attempts-BelowLimit :
    (id : Text) (m : Attempts) → BelowLimit m → BelowLimit (clear_attempts id m)
unfolding clear_attempts
clear_attempts-BelowLimit id [] h = tt
clear_attempts-BelowLimit id ((k, n) ∷ m) (p, h) = elim (Bool-cases (text_eq k id)) [
  | inl same ↦ rw same (clear_attempts-BelowLimit id m h)
  | inr other ↦ rw other (p, clear_attempts-BelowLimit id m h)
]

deliver_one-BelowLimit :
    (w : World) (s : Session) (m : MessageOut) (q : Queue)
    → BelowLimit q.attempts
    → BelowLimit (deliver_one w s m q).attempts
unfolding deliver_one set_attempts clear_attempts
deliver_one-BelowLimit w s m q h = elim (Option-cases (deliver_message w s m).result) [
  | inl failed ↦ elim (Bool-cases (leb max_delivery_attempts (attempts_of m.id q.attempts + 1))) [
    | inl last ↦
        rw (failed, deliver_one)
          (rw (last, text_eq_refl m.id)
            (clear_attempts-BelowLimit m.id (clear_attempts m.id q.attempts)
              (clear_attempts-BelowLimit m.id q.attempts h)))
    | inr more ↦
        rw (failed, deliver_one)
          (rw more (ground (arith, more), clear_attempts-BelowLimit m.id q.attempts h))
  ]
  | inr (pid, done) ↦ rw (done, deliver_one) (clear_attempts-BelowLimit m.id q.attempts h)
]

-- Whatever a drain meets, no message has three failed attempts on the books: the third is settled
-- in the attempt itself.
pub deliver_each-BelowLimit :
    (w : World) (s : Session) (ms : List MessageOut) (q : Queue)
    → BelowLimit q.attempts
    → BelowLimit (deliver_each w s ms q).attempts
unfolding deliver_each
deliver_each-BelowLimit w s [] q h = h
deliver_each-BelowLimit w s (m ∷ ms) q h =
    deliver_each-BelowLimit w s ms (deliver_one w s m q) (deliver_one-BelowLimit w s m q h)
