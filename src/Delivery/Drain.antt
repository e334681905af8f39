-- ===== src/Delivery/Drain.antt =====
-- `drainSession` of src/delivery.ts, from where both files are open: the queue of one session, the
-- attempts and the poll.
use paraclaw.Prelude.{
  ℕ, ◌+◌, not, Text, text_eq, Option, none, some, List, [], ◌∷◌, ◌++◌, filter, leb, if◌then◌else◌,
}
use paraclaw.SessionDb.{MessageOut, Delivered, is_delivered, mark_delivered, mark_delivery_failed}
use paraclaw.Delivery.{World, Session, Effect, deliver_message}

abbrev pub max_delivery_attempts : ℕ
max_delivery_attempts = 3

-- `deliveryAttempts`, a Map as the list of its entries
abbrev pub Attempts : Type 0
Attempts = List (Text × ℕ)

unfoldable pub attempts_of : Text → Attempts → ℕ
attempts_of id [] = 0
attempts_of id ((k, n) ∷ m) = if text_eq k id then n else attempts_of id m

unfoldable pub clear_attempts : Text → Attempts → Attempts
clear_attempts id [] = []
clear_attempts id ((k, n) ∷ m) =
    let rest = clear_attempts id m in if text_eq k id then rest else (k, n) ∷ rest

unfoldable pub set_attempts : Text → ℕ → Attempts → Attempts
unfolding clear_attempts
set_attempts id n m = (id, n) ∷ clear_attempts id m

pub record Queue : Type 0 where
  pub delivered : List Delivered
  pub attempts : Attempts
  pub effects : List Effect

-- the `catch` of the loop in `drainSession`
failed_attempt : MessageOut → Queue → Queue
failed_attempt msg q =
    let attempts = attempts_of msg.id q.attempts + 1 in
    if leb max_delivery_attempts attempts
    then record q {
      delivered = mark_delivery_failed msg.id q.delivered;
      attempts = clear_attempts msg.id (set_attempts msg.id attempts q.attempts);
    }
    else record q { attempts = set_attempts msg.id attempts q.attempts }

finish_attempt : MessageOut → Option (Option Text) → Queue → Queue
finish_attempt msg none q = failed_attempt msg q
finish_attempt msg (some id) q = record q {
  delivered = mark_delivered msg.id id q.delivered;
  attempts = clear_attempts msg.id q.attempts;
}

-- one round of the loop in `drainSession`
unfoldable pub deliver_one : World → Session → MessageOut → Queue → Queue
unfolding finish_attempt failed_attempt
deliver_one w session msg q =
    let attempt = deliver_message w session msg in
    finish_attempt msg attempt.result (record q { effects = q.effects ++ attempt.effects })

unfoldable pub deliver_each : World → Session → List MessageOut → Queue → Queue
deliver_each w session [] q = q
deliver_each w session (m ∷ ms) q = deliver_each w session ms (deliver_one w session m q)

-- ORDER BY timestamp ASC
insert_by_time : World → MessageOut → List MessageOut → List MessageOut
insert_by_time w m [] = m ∷ []
insert_by_time w m (n ∷ ns) =
    let later = insert_by_time w m ns in
    if w.is_before n.timestamp m.timestamp then n ∷ later else m ∷ n ∷ ns

order_by_time : World → List MessageOut → List MessageOut
unfolding insert_by_time
order_by_time w [] = []
order_by_time w (m ∷ ms) = insert_by_time w m (order_by_time w ms)

-- `getDueOutboundMessages`
unfoldable pub get_due_outbound_messages : World → List MessageOut → List MessageOut
unfolding order_by_time
get_due_outbound_messages w rows = order_by_time w (filter w.is_due rows)

-- `drainSession`, from where both files are open
unfoldable pub drain_session : World → Session → List MessageOut → Queue → Queue
unfolding deliver_each
drain_session w session rows q =
    deliver_each w session
      (filter (λ m. not (is_delivered q.delivered m.id)) (get_due_outbound_messages w rows)) q
