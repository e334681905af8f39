-- ===== src/ContainerDb.antt =====
-- container/agent-runner/src/db: the container's statements on the two session databases
-- (messages-in.ts, messages-out.ts, the acknowledgements of connection.ts). Tables and errors as in
-- SessionDb.
pub mod Even
pub mod Lookup
pub mod Parity
pub mod Pending
mod Tests
use paraclaw.Prelude.{
  ℕ, ◌+◌, ◌%◌, Bool, true, false, not, ◌&&◌, ◌||◌, Text, lit, text_eq, Option, none, some, get_or,
  is_some, List, [], ◌∷◌, ◌++◌, map, reverse, filter, find?, any, take, max_of, max, ltb, ◌==◌,
  if◌then◌else◌,
}
use paraclaw.SessionDb.{
  MessageIn, MessageOut, Status, status_eq, Ack, AckStatus, ack_processing, ack_completed,
  ack_failed, is_processing, is_due, has_seq, Delivered,
}

-- What one session's two files hold.
pub record SessionDbs : Type 0 where
  pub messages_in : List MessageIn
  pub delivered : List Delivered
  pub messages_out : List MessageOut
  pub processing_ack : List Ack

-- ORDER BY seq DESC
unfoldable pub insert_desc : MessageIn → List MessageIn → List MessageIn
insert_desc row [] = row ∷ []
insert_desc row (r ∷ rows) =
    let later = insert_desc row rows in if ltb r.seq row.seq then row ∷ r ∷ rows else r ∷ later

unfoldable pub order_by_seq_desc : List MessageIn → List MessageIn
unfolding insert_desc
order_by_seq_desc [] = []
order_by_seq_desc (r ∷ rows) = insert_desc r (order_by_seq_desc rows)

abbrev pub is_acked : List Ack → Text → Bool
is_acked acks id = any (λ a. text_eq a.message_id id) acks

-- the rows that the query of `getPendingMessages` selects before its LIMIT
abbrev pub is_candidate : (Text → Bool) → MessageIn → Bool
is_candidate due row = status_eq row.status Status.pending && is_due due row.process_after

-- `getPendingMessages`; the limit is getMaxMessagesPerPrompt()
unfoldable pub get_pending_messages : (Text → Bool) → ℕ → SessionDbs → List MessageIn
unfolding order_by_seq_desc
get_pending_messages due limit db = reverse (
    filter (λ r. not (is_acked db.processing_ack r.id))
      (take limit (order_by_seq_desc (filter (is_candidate due) db.messages_in))))

-- INSERT OR REPLACE INTO processing_ack
unfoldable pub replace_ack : Ack → List Ack → List Ack
replace_ack ack acks = filter (λ a. not (text_eq a.message_id ack.message_id)) acks ++ ack ∷ []

-- the loop of `markProcessing`, `markCompleted` and `markFailed`; `now` is datetime('now')
unfoldable pub mark_acks : AckStatus → Text → List Text → List Ack → List Ack
unfolding replace_ack
mark_acks status now [] acks = acks
mark_acks status now (id ∷ ids) acks =
    mark_acks status now ids
      (replace_ack (record { message_id = id; status = status; status_changed = now }) acks)

-- `markProcessing`
unfoldable pub mark_processing : Text → List Text → List Ack → List Ack
mark_processing = mark_acks ack_processing

-- `markCompleted`
unfoldable pub mark_completed : Text → List Text → List Ack → List Ack
mark_completed = mark_acks ack_completed

-- `markFailed`
unfoldable pub mark_failed : Text → Text → List Ack → List Ack
mark_failed now id = mark_acks ack_failed now (id ∷ [])

-- `clearStaleProcessingAcks`
unfoldable pub clear_stale_processing_acks : List Ack → List Ack
clear_stale_processing_acks acks = filter (λ a. not (is_processing a)) acks

-- The argument of `writeMessageOut`.
pub record WriteMessageOut : Type 0 where
  pub id : Text
  pub in_reply_to : Option Text
  pub deliver_after : Option Text
  pub recurrence : Option Text
  pub kind : Text
  pub platform_id : Option Text
  pub channel_type : Option Text
  pub thread_id : Option Text
  pub content : Text

-- the sequence number that `writeMessageOut` computes
unfoldable pub next_odd_seq : SessionDbs → ℕ
next_odd_seq db =
    let top = max (max_of (λ r. r.seq) db.messages_out) (max_of (λ r. r.seq) db.messages_in) in
    if top % 2 == 0 then top + 1 else top + 2

abbrev pub out_row : WriteMessageOut → ℕ → Text → MessageOut
out_row msg seq now = record {
  id = msg.id;
  seq = seq;
  in_reply_to = msg.in_reply_to;
  timestamp = now;
  deliver_after = msg.deliver_after;
  recurrence = msg.recurrence;
  kind = msg.kind;
  platform_id = msg.platform_id;
  channel_type = msg.channel_type;
  thread_id = msg.thread_id;
  content = msg.content;
}

-- `writeMessageOut`; `none` where the id or the sequence number is taken
unfoldable pub write_message_out : WriteMessageOut → Text → SessionDbs → Option SessionDbs
write_message_out msg now db =
    let seq = next_odd_seq db in
    if any (λ (r : MessageOut). text_eq r.id msg.id) db.messages_out
      || any (λ (r : MessageOut). r.seq == seq) db.messages_out
    then none
    else some (record db { messages_out = db.messages_out ++ out_row msg seq now ∷ [] })

-- `''` is falsy
abbrev pub non_empty : Option Text → Option Text
non_empty (some []) = none
non_empty o = o

platform_id_of : Option Delivered → Option Text
platform_id_of none = none
platform_id_of (some d) = non_empty d.platform_message_id

id_of_out : List Delivered → Option MessageOut → Option Text
unfolding platform_id_of
id_of_out delivered none = none
id_of_out delivered (some row) = some (
    get_or (platform_id_of (find? (λ (d : Delivered). text_eq d.message_out_id row.id) delivered))
      row.id)

-- `getMessageIdBySeq`
unfoldable pub get_message_id_by_seq : ℕ → SessionDbs → Option Text
unfolding id_of_out
get_message_id_by_seq seq db = elim (find? (has_seq seq) db.messages_in) [
  | some row ↦ some row.id
  | none ↦ id_of_out db.delivered (find? (λ (r : MessageOut). r.seq == seq) db.messages_out)
]
