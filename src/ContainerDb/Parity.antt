-- ===== src/ContainerDb/Parity.antt =====
-- Host and container number their messages from disjoint sets, whatever order they write in.
use paraclaw.Prelude.{
  ℕ, ◌+◌, ◌%◌, ◌<◌, ◌≡◌, ◌≢◌, refl, Bool, ◌&&◌, Text, text_eq, none, some, List, [], ◌∷◌, ◌++◌,
  Option, All, All-append, find?, filter, ◌==◌, arith,
}
use paraclaw.SessionDb.{
  MessageIn, MessageOut, NewMessage, insert_message, has_seq, AckStatus, sync_processing_acks,
  mark_message_failed, retry_with_backoff, is_finished, Delivered, status_eq, pending, paused,
  completed, failed, has_id, insert_row, next_even_seq,
}
use paraclaw.SessionDb.Seq.{lt-max_of, next_even_seq_lem}
use paraclaw.Json.{Json}
use paraclaw.Scheduling.{
  NewTask, insert_task, cancel_task, pause_task, resume_task, TaskUpdate, update_task, in_series,
  is_live, next_occurrence, clear_recurrence,
}
use paraclaw.SessionDb.Insert.{insert_message-even}
use paraclaw.ContainerDb.{
  SessionDbs, WriteMessageOut, out_row, next_odd_seq, write_message_out, mark_acks,
  clear_stale_processing_acks, get_message_id_by_seq,
}
use paraclaw.ContainerDb.Even.{
  EvenIn, update-EvenIn, insert_row-EvenIn, update_task-EvenIn, sync_acks-EvenIn,
}

-- The writes of the two processes on one session, each side in its own tables: the host's direct
-- writes into messages_out (Router.Direct) are left out.
pub data Step : SessionDbs → SessionDbs → Type 0 where
  host_inserts :
      (db : SessionDbs) (message : NewMessage) (rows : List MessageIn) (inserted : Bool)
      → insert_message message db.messages_in ≡ some (rows, inserted)
      → Step db (record db { messages_in = rows })
  host_schedules :
      (db : SessionDbs) (task : NewTask) (now : Text) (rows : List MessageIn)
      → insert_task task now db.messages_in ≡ some rows
      → Step db (record db { messages_in = rows })
  host_cancels :
      (db : SessionDbs) (task : Text)
      → Step db (record db { messages_in = cancel_task task db.messages_in })
  host_pauses :
      (db : SessionDbs) (task : Text)
      → Step db (record db { messages_in = pause_task task db.messages_in })
  host_resumes :
      (db : SessionDbs) (task : Text)
      → Step db (record db { messages_in = resume_task task db.messages_in })
  host_updates :
      (db : SessionDbs) (parse : Text → Option Json) (stringify : Json → Text) (task : Text)
      (upd : TaskUpdate) (rows : List MessageIn) (touched : ℕ)
      → update_task parse stringify task upd db.messages_in ≡ some (rows, touched)
      → Step db (record db { messages_in = rows })
  host_recurs :
      (db : SessionDbs) (msg : MessageIn) (id next_run now : Text) (rows : List MessageIn)
      → insert_row
          (next_occurrence msg id next_run now (next_even_seq db.messages_in))
          db.messages_in
        ≡ some rows
      → Step db (record db { messages_in = rows })
  host_clears :
      (db : SessionDbs) (id : Text)
      → Step db (record db { messages_in = clear_recurrence id db.messages_in })
  host_delivers :
      (db : SessionDbs) (delivered : List Delivered) → Step db (record db { delivered = delivered })
  host_syncs :
      (db : SessionDbs)
      → Step db (record db { messages_in = sync_processing_acks db.processing_ack db.messages_in })
  host_fails :
      (db : SessionDbs) (id : Text)
      → Step db (record db { messages_in = mark_message_failed id db.messages_in })
  host_retries :
      (db : SessionDbs) (id later : Text)
      → Step db (record db { messages_in = retry_with_backoff id later db.messages_in })
  container_writes :
      (db db' : SessionDbs) (msg : WriteMessageOut) (now : Text)
      → write_message_out msg now db ≡ some db'
      → Step db db'
  container_acks :
      (db : SessionDbs) (status : AckStatus) (now : Text) (ids : List Text)
      → Step db (record db { processing_ack = mark_acks status now ids db.processing_ack })
  container_restarts :
      (db : SessionDbs)
      → Step db (record db { processing_ack = clear_stale_processing_acks db.processing_ack })

pub data Reach (s : SessionDbs) : SessionDbs → Type 0 where
  here : Reach s s
  next : {t u : SessionDbs} → Reach s t → Step t u → Reach s u

abbrev pub OddOut : MessageOut → Type 0
OddOut r = r.seq % 2 ≡ 1

-- The parity of each side's numbers.
pub record IsSplit (db : SessionDbs) : Type 0 where
  pub ins : All EvenIn db.messages_in
  pub outs : All OddOut db.messages_out

abbrev pub empty_dbs : SessionDbs
empty_dbs = record { messages_in = []; delivered = []; messages_out = []; processing_ack = [] }

pub next_odd_seq-odd : (db : SessionDbs) → next_odd_seq db % 2 ≡ 1
unfolding next_odd_seq
next_odd_seq-odd db = ground arith

-- What a write that succeeds leaves behind.
pub write_message_out-some :
    (msg : WriteMessageOut) (now : Text) (db db' : SessionDbs)
    → write_message_out msg now db ≡ some db'
    → record db { messages_out = db.messages_out ++ out_row msg (next_odd_seq db) now ∷ [] } ≡ db'
unfolding write_message_out
write_message_out-some msg now db db' e = ground arith

Step-IsSplit : {s t : SessionDbs} → Step s t → IsSplit s → IsSplit t
unfolding insert_task cancel_task pause_task resume_task clear_recurrence sync_processing_acks
    mark_message_failed retry_with_backoff
Step-IsSplit (host_inserts db message rows inserted e) h = record {
  ins = insert_message-even message db.messages_in rows inserted h.ins e;
  outs = h.outs;
}
Step-IsSplit (host_schedules db task now rows e) h = record {
  ins = insert_row-EvenIn _ db.messages_in rows (next_even_seq_lem db.messages_in).0 h.ins e;
  outs = h.outs;
}
Step-IsSplit (host_cancels db task) h = record {
  ins =
      update-EvenIn (λ r. in_series task r && is_live r)
        (λ r. record r { status = completed; recurrence = none }) (λ r. refl) db.messages_in h.ins;
  outs = h.outs;
}
Step-IsSplit (host_pauses db task) h = record {
  ins =
      update-EvenIn (λ r. in_series task r && status_eq r.status pending)
        (λ r. record r { status = paused }) (λ r. refl) db.messages_in h.ins;
  outs = h.outs;
}
Step-IsSplit (host_resumes db task) h = record {
  ins =
      update-EvenIn (λ r. in_series task r && status_eq r.status paused)
        (λ r. record r { status = pending }) (λ r. refl) db.messages_in h.ins;
  outs = h.outs;
}
Step-IsSplit (host_updates db parse stringify task upd rows touched e) h = record {
  ins = update_task-EvenIn parse stringify task upd db.messages_in rows touched h.ins e;
  outs = h.outs;
}
Step-IsSplit (host_recurs db msg id next_run now rows e) h = record {
  ins = insert_row-EvenIn _ db.messages_in rows (next_even_seq_lem db.messages_in).0 h.ins e;
  outs = h.outs;
}
Step-IsSplit (host_clears db id) h = record {
  ins =
      update-EvenIn (has_id id) (λ r. record r { recurrence = none }) (λ r. refl) db.messages_in
        h.ins;
  outs = h.outs;
}
Step-IsSplit (host_delivers db delivered) h = record { ins = h.ins; outs = h.outs }
Step-IsSplit (host_syncs db) h = record {
  ins = sync_acks-EvenIn (filter is_finished db.processing_ack) db.messages_in h.ins;
  outs = h.outs;
}
Step-IsSplit (host_fails db id) h = record {
  ins =
      update-EvenIn (has_id id) (λ r. record r { status = failed }) (λ r. refl) db.messages_in
        h.ins;
  outs = h.outs;
}
Step-IsSplit (host_retries db id later) h = record {
  ins =
      update-EvenIn (has_id id) (λ r. record r { tries = r.tries + 1; process_after = some later })
        (λ r. refl) db.messages_in h.ins;
  outs = h.outs;
}
Step-IsSplit (container_writes db db' msg now e) h =
    rw (← write_message_out-some msg now db db' e) (record {
      ins = h.ins;
      outs =
          All-append OddOut db.messages_out (out_row msg (next_odd_seq db) now ∷ []) h.outs
            (next_odd_seq-odd db, tt);
    })
Step-IsSplit (container_acks db status now ids) h = record { ins = h.ins; outs = h.outs }
Step-IsSplit (container_restarts db) h = record { ins = h.ins; outs = h.outs }

pub Reach-IsSplit : {s t : SessionDbs} → IsSplit s → Reach s t → IsSplit t
Reach-IsSplit h here = h
Reach-IsSplit h (next r step) = Step-IsSplit step (Reach-IsSplit h r)

ne_of_parity :
    (rows : List MessageIn) (n : ℕ) → n % 2 ≡ 1 → All EvenIn rows → All (λ r. r.seq ≢ n) rows
ne_of_parity [] n odd h = tt
ne_of_parity (r ∷ rows) n odd (e, h) = (omega arith, ne_of_parity rows n odd h)

seqs_disjoint :
    (ins : List MessageIn) (outs : List MessageOut)
    → All EvenIn ins
    → All OddOut outs
    → All (λ (o : MessageOut). All (λ (r : MessageIn). r.seq ≢ o.seq) ins) outs
seqs_disjoint ins [] h k = tt
seqs_disjoint ins (o ∷ outs) h (p, k) = (ne_of_parity ins o.seq p h, seqs_disjoint ins outs h k)

-- However `insertMessage`, the statements of the scheduling module and of the sweep on messages_in, the
-- marks in delivered and the container's own writes
-- interleave from empty tables, no inbound message has the sequence number of an outbound one.
pub Reach-seqs_disjoint :
    (db : SessionDbs)
    → Reach empty_dbs db
    → All
        (λ (o : MessageOut). All (λ (r : MessageIn). r.seq ≢ o.seq) db.messages_in)
        db.messages_out
Reach-seqs_disjoint db r =
    let split = Reach-IsSplit {s = empty_dbs} (record { ins = tt; outs = tt }) r in
    seqs_disjoint db.messages_in db.messages_out split.ins split.outs

pub find-none :
    (ins : List MessageIn) (n : ℕ) → n % 2 ≡ 1 → All EvenIn ins → find? (has_seq n) ins ≡ none
find-none [] n odd h = refl
find-none (r ∷ ins) n odd (e, h) = ground (arith, find-none ins n odd h)

pub find-last :
    (outs : List MessageOut) (row : MessageOut)
    → All (λ (r : MessageOut). r.seq < row.seq) outs
    → find? (λ (r : MessageOut). r.seq == row.seq) (outs ++ row ∷ []) ≡ some row
find-last [] row h = ground arith
find-last (r ∷ outs) row (p, h) = ground (arith, find-last outs row h)

-- A write fails only where its id is taken: the sequence number is always free.
pub lt-next_odd_seq :
    (db : SessionDbs) → All (λ (r : MessageOut). r.seq < next_odd_seq db) db.messages_out
unfolding next_odd_seq
lt-next_odd_seq db =
    lt-max_of (λ (r : MessageOut). r.seq) db.messages_out (next_odd_seq db) (ground arith)

-- The number that `writeMessageOut` returns resolves, by `getMessageIdBySeq`, to the id of the
-- message just written, and to no inbound message, as long as the host has not recorded a
-- delivery for that id; the numbers of the two sides must have their parities before.
pub get_message_id_by_seq-write :
    (msg : WriteMessageOut) (now : Text) (db db' : SessionDbs)
    → IsSplit db
    → write_message_out msg now db ≡ some db'
    → find? (λ (d : Delivered). text_eq d.message_out_id msg.id) db.delivered ≡ none
    → get_message_id_by_seq (next_odd_seq db) db' ≡ some msg.id
unfolding get_message_id_by_seq
get_message_id_by_seq-write msg now db db' split e new =
    rw (← write_message_out-some msg now db db' e) (
      ground (
        arith,
        find-none db.messages_in (next_odd_seq db) (next_odd_seq-odd db) split.ins,
        find-last db.messages_out (out_row msg (next_odd_seq db) now) (lt-next_odd_seq db),
        new,
      ))
