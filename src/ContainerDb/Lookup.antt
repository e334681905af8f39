-- ===== src/ContainerDb/Lookup.antt =====
-- The lookups of container/agent-runner/src/db/messages-in.ts and messages-out.ts: a message by its id,
-- the routing of a sequence number, and the answer to a question, which is found by SQLite's LIKE.
use paraclaw.Prelude.{
  ℕ, ◌≡◌, ◌≢◌, refl, Bool, true, false, ◌&&◌, ◌||◌, Text, lit, text_eq, lower_char, to_lower,
  starts_with, includes, Option, none, some, [], ◌∷◌, ◌++◌, find?, All, All-append, ◌==◌,
  if◌then◌else◌, arith,
}
use paraclaw.SessionDb.{MessageIn, MessageOut, Status, status_eq, has_seq}
use paraclaw.ContainerDb.{
  SessionDbs, is_acked, WriteMessageOut, write_message_out, next_odd_seq, out_row,
}
use paraclaw.ContainerDb.Parity.{
  IsSplit, write_message_out-some, find-none, find-last, next_odd_seq-odd, lt-next_odd_seq,
}

-- `getMessageIn`
unfoldable pub get_message_in : Text → SessionDbs → Option MessageIn
get_message_in id db = find? (λ (r : MessageIn). text_eq r.id id) db.messages_in

pub record Routing : Type 0 where
  pub channel_type : Option Text
  pub platform_id : Option Text
  pub thread_id : Option Text

-- `getRoutingBySeq`
unfoldable pub get_routing_by_seq : ℕ → SessionDbs → Option Routing
get_routing_by_seq seq db = elim (find? (has_seq seq) db.messages_in) [
  | some row ↦ some (record {
    channel_type = row.channel_type;
    platform_id = row.platform_id;
    thread_id = row.thread_id;
  })
  | none ↦ elim (find? (λ (r : MessageOut). r.seq == seq) db.messages_out) [
    | none ↦ none
    | some row ↦ some (record {
      channel_type = row.channel_type;
      platform_id = row.platform_id;
      thread_id = row.thread_id;
    })
  ]
]

-- Does the rest of a pattern match some end of the text?
abbrev any_end : (Text → Bool) → Text → Bool
any_end rest [] = rest []
any_end rest (a ∷ s) = rest (a ∷ s) || any_end rest s

abbrev next_char : (ℕ → Bool) → (Text → Bool) → Text → Bool
next_char fits rest [] = false
next_char fits rest (a ∷ s) = fits a && rest s

-- `text LIKE pattern`: `%` is any text, `_` any character, and letters match in either case.
unfoldable pub like : Text → Text → Bool
like [] [] = true
like [] (a ∷ s) = false
like (c ∷ p) s =
    if c == b'%'
    then any_end (like p) s
    else next_char (λ a. c == b'_' || lower_char a == lower_char c) (like p) s

-- `"questionId":"${questionId}"`
abbrev pub question_key : Text → Text
question_key id = lit "\"questionId\":\"" ++ (id ++ lit "\"")

-- `findQuestionResponse`
unfoldable pub find_question_response : Text → SessionDbs → Option MessageIn
unfolding like
find_question_response id db =
    elim (find?
      (λ (r : MessageIn).
        status_eq r.status Status.pending
        && like (b'%' ∷ (question_key id ++ (b'%' ∷ []))) r.content)
      db.messages_in) [
        | none ↦ none
        | some row ↦ if is_acked db.processing_ack row.id then none else some row
      ]

-- No character of the text has a meaning of its own in LIKE.
abbrev pub HasNoWildcard : Text → Type 0
HasNoWildcard = All (λ c. (c ≢ b'%') × (c ≢ b'_'))

like_any : (s : Text) → like (b'%' ∷ []) s ≡ true
unfolding like
like_any [] = refl
like_any (a ∷ s) = like_any s

-- What is left to show of a `%` in front of a text.
any_end-includes :
    (rest : Text → Bool) (key : Text)
    → ((s : Text) → rest s ≡ starts_with (to_lower s) key)
    → (s : Text) → any_end rest s ≡ includes (to_lower s) key
unfolding includes
any_end-includes rest key h [] = h []
any_end-includes rest key h (a ∷ s) = rw (h (a ∷ s), any_end-includes rest key h s) refl

like-starts_with :
    (key : Text)
    → HasNoWildcard key
    → (s : Text) → like (key ++ (b'%' ∷ [])) s ≡ starts_with (to_lower s) (to_lower key)
unfolding like starts_with
like-starts_with [] h s = like_any s
like-starts_with (c ∷ key) ((p, u), h) [] = ground (arith, p, u)
like-starts_with (c ∷ key) ((p, u), h) (a ∷ s) = ground (arith, p, u, like-starts_with key h s)

like-includes :
    (key : Text)
    → HasNoWildcard key
    → (s : Text) → like (b'%' ∷ (key ++ (b'%' ∷ []))) s ≡ includes (to_lower s) (to_lower key)
unfolding like
like-includes key h s =
    any_end-includes (like (key ++ (b'%' ∷ []))) (to_lower key) (like-starts_with key h) s

question_key-HasNoWildcard : (id : Text) → HasNoWildcard id → HasNoWildcard (question_key id)
question_key-HasNoWildcard id h =
    All-append (λ c. (c ≢ b'%') × (c ≢ b'_')) (lit "\"questionId\":\"") (id ++ lit "\"")
      (ground arith) (All-append (λ c. (c ≢ b'%') × (c ≢ b'_')) id (lit "\"") h (ground arith))

-- The answer by a test of the content: the first pending row that passes, unless it is acknowledged.
abbrev pub answer_by : (Text → Bool) → SessionDbs → Option MessageIn
answer_by fits db =
    elim (find? (λ (r : MessageIn). status_eq r.status Status.pending && fits r.content)
      db.messages_in) [
        | none ↦ none
        | some row ↦ if is_acked db.processing_ack row.id then none else some row
      ]

-- The answer to a question is found by its id: for an id without `%` and `_`, `findQuestionResponse`
-- gives the first pending message whose content includes `"questionId":"<id>"`, up to the case of its
-- letters, unless that message is acknowledged, and nothing else.
pub find_question_response_lem :
    (id : Text) (db : SessionDbs)
    → HasNoWildcard id
    → find_question_response id db
      ≡ answer_by (λ content. includes (to_lower content) (to_lower (question_key id))) db
unfolding find_question_response
find_question_response_lem id db h =
    let key = question_key id in
    λ i. answer_by (λ content. like-includes key (question_key-HasNoWildcard id h) content i) db

-- The number that `writeMessageOut` returns resolves, by `getRoutingBySeq`, to the channel, the platform
-- id and the thread that were written, and to those of no inbound message; the numbers of the two sides
-- must have their parities before.
pub get_routing_by_seq-write :
    (msg : WriteMessageOut) (now : Text) (db db' : SessionDbs)
    → IsSplit db
    → write_message_out msg now db ≡ some db'
    → get_routing_by_seq (next_odd_seq db) db'
      ≡ some (record {
        channel_type = msg.channel_type;
        platform_id = msg.platform_id;
        thread_id = msg.thread_id;
      })
unfolding get_routing_by_seq
get_routing_by_seq-write msg now db db' split e = rw (← write_message_out-some msg now db db' e) (
    ground (
      arith,
      find-none db.messages_in (next_odd_seq db) (next_odd_seq-odd db) split.ins,
      find-last db.messages_out (out_row msg (next_odd_seq db) now) (lt-next_odd_seq db),
    ))
