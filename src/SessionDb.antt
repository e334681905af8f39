-- ===== src/SessionDb.antt =====
-- src/db/session-db.ts with INBOUND_SCHEMA and OUTBOUND_SCHEMA of src/db/schema.ts: the two
-- session databases and the host's statements on them. A table is the list of its rows, NULL is
-- `none`, `none` as a result is the error of a violated UNIQUE constraint.
pub mod Seq
pub mod Insert
mod Tests
use paraclaw.Prelude.{
  ℕ, ◌+◌, ◌-◌, ◌%◌, Bool, true, false, not, ◌&&◌, ◌||◌, Text, lit, text_eq, has, Option, none, some,
  get_or, is_some, List, [], ◌∷◌, ◌++◌, map, filter, find?, any, update, max_of, length, ltb, ◌==◌,
  if◌then◌else◌,
}

pub data Status : Type 0 where
  pending processing completed failed paused : Status

abbrev pub status_eq : Status → Status → Bool
status_eq pending pending = true
status_eq processing processing = true
status_eq completed completed = true
status_eq failed failed = true
status_eq paused paused = true
status_eq _ _ = false

-- A row of messages_in.
pub record MessageIn : Type 0 where
  pub id : Text
  pub seq : ℕ
  pub kind : Text
  pub timestamp : Text
  pub status : Status
  pub process_after : Option Text
  pub recurrence : Option Text
  pub series_id : Option Text
  pub tries : ℕ
  pub trigger : ℕ
  pub platform_id : Option Text
  pub channel_type : Option Text
  pub thread_id : Option Text
  pub content : Text

pub data AckStatus : Type 0 where
  ack_processing ack_completed ack_failed : AckStatus

-- A row of processing_ack.
pub record Ack : Type 0 where
  pub message_id : Text
  pub status : AckStatus
  pub status_changed : Text

-- A row of messages_out.
pub record MessageOut : Type 0 where
  pub id : Text
  pub seq : ℕ
  pub in_reply_to : Option Text
  pub timestamp : Text
  pub deliver_after : Option Text
  pub recurrence : Option Text
  pub kind : Text
  pub platform_id : Option Text
  pub channel_type : Option Text
  pub thread_id : Option Text
  pub content : Text

pub data DeliveryStatus : Type 0 where
  sent gave_up : DeliveryStatus

-- A row of delivered; `sent` and `gave_up` are the texts 'delivered' and 'failed'.
pub record Delivered : Type 0 where
  pub message_out_id : Text
  pub platform_message_id : Option Text
  pub status : DeliveryStatus

-- The row of container_state.
pub record ContainerState : Type 0 where
  pub current_tool : Option Text
  pub tool_declared_timeout_ms : Option ℕ

-- `WHERE id = ?`
abbrev pub has_id : Text → MessageIn → Bool
has_id id row = text_eq row.id id

abbrev pub has_seq : ℕ → MessageIn → Bool
has_seq seq row = row.seq == seq

-- `nextEvenSeq`
unfoldable pub next_even_seq : List MessageIn → ℕ
next_even_seq rows =
    let max_seq = max_of (λ r. r.seq) rows in if ltb max_seq 2 then 2 else max_seq + 2 - max_seq % 2

-- INSERT INTO messages_in: the keys `id` and `seq` are unique
unfoldable pub insert_row : MessageIn → List MessageIn → Option (List MessageIn)
insert_row row rows =
    if any (has_id row.id) rows || any (has_seq row.seq) rows then none else some (rows ++ row ∷ [])

-- The argument of `insertMessage`.
pub record NewMessage : Type 0 where
  pub id : Text
  pub kind : Text
  pub timestamp : Text
  pub platform_id : Option Text
  pub channel_type : Option Text
  pub thread_id : Option Text
  pub content : Text
  pub process_after : Option Text
  pub recurrence : Option Text
  pub trigger : Option ℕ

abbrev pub new_row : NewMessage → ℕ → MessageIn
new_row message seq = record {
  id = message.id;
  seq = seq;
  kind = message.kind;
  timestamp = message.timestamp;
  status = pending;
  process_after = message.process_after;
  recurrence = message.recurrence;
  series_id = some message.id;
  tries = 0;
  trigger = get_or message.trigger 1;
  platform_id = message.platform_id;
  channel_type = message.channel_type;
  thread_id = message.thread_id;
  content = message.content;
}

-- `insertMessage`: ON CONFLICT(id) DO NOTHING, then whether a row was inserted
unfoldable pub insert_message : NewMessage → List MessageIn → Option (List MessageIn × Bool)
insert_message message rows =
    if any (has_id message.id) rows
    then some (rows, false)
    else elim (insert_row (new_row message (next_even_seq rows)) rows) [
      | none ↦ none
      | some rows' ↦ some (rows', true)
    ]

-- `process_after IS NULL OR datetime(process_after) <= datetime('now')`; the second test is the
-- parameter.
abbrev pub is_due : (Text → Bool) → Option Text → Bool
is_due due none = true
is_due due (some t) = due t

abbrev pub wakes : (Text → Bool) → MessageIn → Bool
wakes due row = status_eq row.status pending && (row.trigger == 1 && is_due due row.process_after)

-- `countDueMessages`
unfoldable pub count_due_messages : (Text → Bool) → List MessageIn → ℕ
count_due_messages due rows = length (filter (wakes due) rows)

-- `markMessageFailed`
unfoldable pub mark_message_failed : Text → List MessageIn → List MessageIn
mark_message_failed id rows = update (has_id id) (λ r. record r { status = failed }) rows

-- `retryWithBackoff`; `later` is datetime('now', '+N seconds')
unfoldable pub retry_with_backoff : Text → Text → List MessageIn → List MessageIn
retry_with_backoff id later rows =
    update (has_id id) (λ r. record r { tries = r.tries + 1; process_after = some later }) rows

-- `getMessageForRetry`
unfoldable pub get_message_for_retry : Text → Status → List MessageIn → Option MessageIn
get_message_for_retry id status rows =
    find? (λ r. text_eq r.id id && status_eq r.status status) rows

abbrev pub is_finished : Ack → Bool
is_finished ack = elim ack.status [ ack_processing ↦ false | _ ↦ true ]

abbrev pub is_processing : Ack → Bool
is_processing ack = elim ack.status [ ack_processing ↦ true | _ ↦ false ]

-- the loop of `syncProcessingAcks`
unfoldable pub sync_acks : List Ack → List MessageIn → List MessageIn
sync_acks [] rows = rows
sync_acks (ack ∷ acks) rows = sync_acks acks (
    update (λ r. text_eq r.id ack.message_id && not (status_eq r.status completed))
      (λ r. record r { status = completed }) rows)

-- `syncProcessingAcks`
unfoldable pub sync_processing_acks : List Ack → List MessageIn → List MessageIn
unfolding sync_acks
sync_processing_acks acks rows = sync_acks (filter is_finished acks) rows

-- `getProcessingClaims`, `getStuckProcessingIds`
unfoldable pub get_processing_claims : List Ack → List Ack
get_processing_claims acks = filter is_processing acks

-- `getDeliveredIds`, as the test on it
unfoldable pub is_delivered : List Delivered → Text → Bool
is_delivered rows id = any (λ d. text_eq d.message_out_id id) rows

-- INSERT OR IGNORE INTO delivered
insert_delivered : Delivered → List Delivered → List Delivered
unfolding is_delivered
insert_delivered row rows = if is_delivered rows row.message_out_id then rows else rows ++ row ∷ []

-- `markDelivered`
unfoldable pub mark_delivered : Text → Option Text → List Delivered → List Delivered
unfolding insert_delivered
mark_delivered id platform_id =
    insert_delivered
      (record { message_out_id = id; platform_message_id = platform_id; status = sent })

-- `markDeliveryFailed`
unfoldable pub mark_delivery_failed : Text → List Delivered → List Delivered
unfolding insert_delivered
mark_delivery_failed id =
    insert_delivered (record { message_out_id = id; platform_message_id = none; status = gave_up })
