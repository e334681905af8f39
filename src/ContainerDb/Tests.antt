-- ===== src/ContainerDb/Tests.antt =====
-- One inbound message and the container's answer.
use paraclaw.Prelude.{
  arith, includes, to_lower, false, Text, Bool, true, not, all, has, not, length, ◌≡◌, ◌≢◌, refl,
  true, lit, none, some, [], ◌∷◌, All,
}
use paraclaw.SessionDb.{MessageIn, MessageOut, NewMessage, new_row, insert_message}
use paraclaw.ContainerDb.{
  get_pending_messages, mark_processing, SessionDbs, WriteMessageOut, write_message_out, out_row,
  next_odd_seq, get_message_id_by_seq,
}
use paraclaw.ContainerDb.Lookup.{
  get_routing_by_seq, get_routing_by_seq-write, like, question_key, find_question_response,
  answer_by, find_question_response_lem,
}
use paraclaw.ContainerDb.Pending.{get_pending_messages-mark_processing}
use paraclaw.ContainerDb.Parity.{
  Reach, here, next, host_inserts, container_writes, empty_dbs, Reach-seqs_disjoint,
  get_message_id_by_seq-write,
}

abbrev question : NewMessage
question = record {
  id = lit "a";
  kind = lit "chat";
  timestamp = lit "2026-01-01T00:00:00Z";
  platform_id = none;
  channel_type = none;
  thread_id = none;
  content = lit "{}";
  process_after = none;
  recurrence = none;
  trigger = none;
}

abbrev asked : SessionDbs
asked = record empty_dbs { messages_in = new_row question 2 ∷ [] }

abbrev answer : WriteMessageOut
answer = record {
  id = lit "out";
  in_reply_to = some (lit "a");
  deliver_after = none;
  recurrence = none;
  kind = lit "chat";
  platform_id = none;
  channel_type = none;
  thread_id = none;
  content = lit "{}";
}

abbrev answered : SessionDbs
answered = record asked { messages_out = out_row answer 3 (lit "now") ∷ [] }

answered_is_reached : Reach empty_dbs answered
unfolding insert_message write_message_out paraclaw.SessionDb.insert_row
    paraclaw.SessionDb.next_even_seq next_odd_seq
answered_is_reached =
    next (next here (host_inserts empty_dbs question (new_row question 2 ∷ []) true refl))
      (container_writes asked answered answer (lit "now") refl)

Reach-seqs_disjoint_example :
    All
      (λ (o : MessageOut). All (λ (r : MessageIn). r.seq ≢ o.seq) answered.messages_in)
      answered.messages_out
Reach-seqs_disjoint_example = Reach-seqs_disjoint answered answered_is_reached

get_message_id_by_seq-write_example :
    get_message_id_by_seq (next_odd_seq asked) answered ≡ some (lit "out")
unfolding write_message_out next_odd_seq
get_message_id_by_seq-write_example =
    get_message_id_by_seq-write answer (lit "now") asked answered
      (record { ins = (refl, tt); outs = tt }) refl refl

abbrev always_due : Text → Bool
always_due t = true

question_is_pending : length (get_pending_messages always_due 10 asked) ≡ 1
unfolding get_pending_messages
question_is_pending = refl

get_pending_messages-mark_processing_example :
    all
      (λ r. not (has (lit "a" ∷ []) r.id))
      (get_pending_messages always_due 10
        (record asked { processing_ack = mark_processing (lit "now") (lit "a" ∷ []) [] }))
    ≡ true
get_pending_messages-mark_processing_example =
    get_pending_messages-mark_processing always_due 10 (lit "now") (lit "a" ∷ []) asked

like_reads : like (lit "%B_d%") (lit "a bcD e") ≡ true
unfolding like
like_reads = refl

like_ends : like (lit "%bc") (lit "abcd") ≡ false
unfolding like
like_ends = refl

abbrev reply : NewMessage
reply = record question { content = lit "{\"questionId\":\"q-1\",\"selectedOption\":\"Yes\"}" }

abbrev replied : SessionDbs
replied = record empty_dbs { messages_in = new_row reply 2 ∷ [] }

reply_is_found : find_question_response (lit "q-1") replied ≡ some (new_row reply 2)
unfolding find_question_response
reply_is_found = refl

find_question_response_lem_example :
    find_question_response (lit "q-1") replied
    ≡ answer_by
        (λ content. includes (to_lower content) (to_lower (question_key (lit "q-1"))))
        replied
find_question_response_lem_example = find_question_response_lem (lit "q-1") replied (ground arith)

get_routing_by_seq-write_example :
    get_routing_by_seq (next_odd_seq asked) answered
    ≡ some (record { channel_type = none; platform_id = none; thread_id = none })
unfolding write_message_out next_odd_seq
get_routing_by_seq-write_example =
    get_routing_by_seq-write answer (lit "now") asked answered
      (record { ins = (refl, tt); outs = tt }) refl
