-- ===== src/ContainerDb/Pending.antt =====
-- What `getPendingMessages` hands to the agent.
use mathlib.Core.List.{reverse_aux}
use paraclaw.Prelude.{
  ℕ, zero, suc, ◌+◌, ◌≤◌, ◌≡◌, refl, ◌∙◌, Bool, true, not, ◌&&◌, ◌||◌, Text, text_eq, text_eq_iff,
  has, List, [], ◌∷◌, ◌++◌, all, filter, take, length, arith,
}
use paraclaw.SessionDb.{MessageIn, Ack, AckStatus, ack_processing}
use paraclaw.ContainerDb.{
  SessionDbs, insert_desc, order_by_seq_desc, is_acked, is_candidate, get_pending_messages,
  replace_ack, mark_acks, mark_processing,
}

module _ (p : MessageIn → Bool) where
  all-reverse_aux : (xs ys : List MessageIn) → all p (reverse_aux xs ys) ≡ all p xs && all p ys
  all-reverse_aux [] ys = refl
  all-reverse_aux (x ∷ xs) ys = ground (arith, all-reverse_aux xs (x ∷ ys))

  pub all-filter :
      (q : MessageIn → Bool) (xs : List MessageIn) → all p xs ≡ true → all p (filter q xs) ≡ true
  all-filter q [] h = refl
  all-filter q (x ∷ xs) h = ground (arith, all-filter q xs, h)

  all-take : (n : ℕ) (xs : List MessageIn) → all p xs ≡ true → all p (take n xs) ≡ true
  all-take zero xs h = refl
  all-take (suc n) [] h = refl
  all-take (suc n) (x ∷ xs) h = ground (arith, all-take n xs, h)

  all-insert_desc :
      (x : MessageIn) (xs : List MessageIn) → all p (insert_desc x xs) ≡ p x && all p xs
  unfolding insert_desc
  all-insert_desc x [] = refl
  all-insert_desc x (y ∷ xs) = ground (arith, all-insert_desc x xs)

  all-order_by_seq_desc :
      (xs : List MessageIn) → all p xs ≡ true → all p (order_by_seq_desc xs) ≡ true
  unfolding order_by_seq_desc
  all-order_by_seq_desc [] h = refl
  all-order_by_seq_desc (x ∷ xs) h =
      ground (arith, all-insert_desc x (order_by_seq_desc xs), all-order_by_seq_desc xs, h)

  all-filtered : (xs : List MessageIn) → all p (filter p xs) ≡ true
  all-filtered [] = refl
  all-filtered (x ∷ xs) = ground (arith, all-filtered xs)

-- What holds of all rows holds of those that are handed out.
pub all-get_pending_messages :
    (p : MessageIn → Bool) (due : Text → Bool) (limit : ℕ) (db : SessionDbs)
    → all p db.messages_in ≡ true
    → all p (get_pending_messages due limit db) ≡ true
unfolding get_pending_messages
all-get_pending_messages p due limit db h =
    let free = λ (r : MessageIn). not (is_acked db.processing_ack r.id) in
    let ordered = order_by_seq_desc (filter (is_candidate due) db.messages_in) in
    let kept = all-filter p free (take limit ordered) (
      all-take p limit ordered (
        all-order_by_seq_desc p (filter (is_candidate due) db.messages_in)
          (all-filter p (is_candidate due) db.messages_in h))) in
    ground (arith, all-reverse_aux p (filter free (take limit ordered)) [], kept)

all-both :
    (p q : MessageIn → Bool) (xs : List MessageIn)
    → all p xs ≡ true
    → all q xs ≡ true
    → all (λ x. p x && q x) xs ≡ true
all-both p q [] h k = refl
all-both p q (x ∷ xs) h k = ground (arith, all-both p q xs, h, k)

all-weaken :
    (p q : MessageIn → Bool) (xs : List MessageIn)
    → ((x : MessageIn) → p x ≡ true → q x ≡ true)
    → all p xs ≡ true
    → all q xs ≡ true
all-weaken p q [] step h = refl
all-weaken p q (x ∷ xs) step h = ground (arith, all-weaken p q xs step, step x, h)

length-reverse_aux : (xs ys : List MessageIn) → length (reverse_aux xs ys) ≡ length xs + length ys
length-reverse_aux [] ys = omega arith
length-reverse_aux (x ∷ xs) ys = omega (arith, length-reverse_aux xs (x ∷ ys))

length-filter : (q : MessageIn → Bool) (xs : List MessageIn) → length (filter q xs) ≤ length xs
length-filter q [] = omega arith
length-filter q (x ∷ xs) = ground (arith, length-filter q xs)

length-take : (n : ℕ) (xs : List MessageIn) → length (take n xs) ≤ n
length-take zero xs = omega arith
length-take (suc n) [] = omega arith
length-take (suc n) (x ∷ xs) = omega (arith, length-take n xs)

abbrev pub is_open : (Text → Bool) → List Ack → MessageIn → Bool
is_open due acks r = is_candidate due r && not (is_acked acks r.id)

-- `getPendingMessages` returns at most as many messages as the limit allows, each of them pending, due
-- and without an acknowledgement.
pub get_pending_messages_lem :
    (due : Text → Bool) (limit : ℕ) (db : SessionDbs)
    → (all (is_open due db.processing_ack) (get_pending_messages due limit db) ≡ true)
      × (length (get_pending_messages due limit db) ≤ limit)
unfolding get_pending_messages
get_pending_messages_lem due limit db =
    let free = λ (r : MessageIn). not (is_acked db.processing_ack r.id) in
    let taken = take limit (order_by_seq_desc (filter (is_candidate due) db.messages_in)) in
    let pending =
      all-take (is_candidate due) limit
        (order_by_seq_desc (filter (is_candidate due) db.messages_in))
        (all-order_by_seq_desc (is_candidate due) (filter (is_candidate due) db.messages_in)
          (all-filtered (is_candidate due) db.messages_in)) in
    let both =
      all-both (is_candidate due) free (filter free taken)
        (all-filter (is_candidate due) free taken pending) (all-filtered free taken) in
    (
      ground (arith, all-reverse_aux (is_open due db.processing_ack) (filter free taken) [], both),
      ground (
        arith,
        length-reverse_aux (filter free taken) [],
        length-filter free taken,
        length-take limit (order_by_seq_desc (filter (is_candidate due) db.messages_in)),
      ),
    )

is_acked-snoc :
    (acks : List Ack) (ack : Ack) (id : Text)
    → is_acked (acks ++ ack ∷ []) id ≡ is_acked acks id || text_eq ack.message_id id
is_acked-snoc [] ack id = ground arith
is_acked-snoc (a ∷ acks) ack id = ground (arith, is_acked-snoc acks ack id)

is_acked-others :
    (acks : List Ack) (key id : Text)
    → is_acked (filter (λ a. not (text_eq a.message_id key)) acks) id || text_eq key id
      ≡ is_acked acks id || text_eq key id
is_acked-others [] key id = refl
is_acked-others (a ∷ acks) key id = ground (
  arith,
  is_acked-others acks key id,
  text_eq_iff a.message_id key,
  text_eq_iff a.message_id id,
  text_eq_iff key id,
)

is_acked-replace_ack :
    (ack : Ack) (acks : List Ack) (id : Text)
    → is_acked (replace_ack ack acks) id ≡ is_acked acks id || text_eq ack.message_id id
unfolding replace_ack
is_acked-replace_ack ack acks id =
    is_acked-snoc (filter (λ a. not (text_eq a.message_id ack.message_id)) acks) ack id
    ∙ is_acked-others acks ack.message_id id

is_acked-mark_acks :
    (status : AckStatus) (now : Text) (ids : List Text) (acks : List Ack) (id : Text)
    → is_acked (mark_acks status now ids acks) id ≡ is_acked acks id || has ids id
unfolding mark_acks
is_acked-mark_acks status now [] acks id = ground arith
is_acked-mark_acks status now (key ∷ ids) acks id =
    let ack : Ack = record { message_id = key; status = status; status_changed = now } in
    ground (
      arith,
      is_acked-mark_acks status now ids (replace_ack ack acks) id,
      is_acked-replace_ack ack acks id,
    )

-- Once `markProcessing` has claimed messages, `getPendingMessages` does not hand any of them out again,
-- whatever the host has written into messages_in in the meantime.
pub get_pending_messages-mark_processing :
    (due : Text → Bool) (limit : ℕ) (now : Text) (ids : List Text) (db : SessionDbs)
    → all
        (λ r. not (has ids r.id))
        (get_pending_messages due limit
          (record db { processing_ack = mark_processing now ids db.processing_ack }))
      ≡ true
unfolding mark_processing
get_pending_messages-mark_processing due limit now ids db =
    let acks = mark_acks ack_processing now ids db.processing_ack in
    let claimed : SessionDbs = record db { processing_ack = acks } in
    all-weaken (is_open due acks) (λ r. not (has ids r.id)) (get_pending_messages due limit claimed)
      (λ r free. unclaimed r free) (get_pending_messages_lem due limit claimed).0
  where
    unclaimed :
        (r : MessageIn)
        → is_open due (mark_acks ack_processing now ids db.processing_ack) r ≡ true
        → not (has ids r.id) ≡ true
    unclaimed r free =
        ground (arith, is_acked-mark_acks ack_processing now ids db.processing_ack r.id, free)
