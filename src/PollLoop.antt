-- ===== src/PollLoop.antt =====
-- container/agent-runner/src/poll-loop.ts with db/session-state.ts and the lookups of destinations.ts: one
-- turn of the loop that feeds an agent and writes what it says. The provider is a parameter: a query
-- throws at once (`none`), or answers with its events, in order, and may end in an error; `tick` stands
-- for the timer that polls while a query runs. The pre-task scripts, JSON.stringify and the clocks are
-- parameters too. A throw that nothing in the loop catches, outside of the `try` or in the timer, ends
-- the process (`crashed`), with the files as they are then. An insert of an answer is taken not to
-- throw: its id is fresh.
pub mod Blocks
pub mod Turn
pub mod Dispatch
mod Tests
use paraclaw.Prelude.{
  bind, select, ℕ, zero, suc, ◌+◌, ◌-◌, Bool, true, false, not, ◌&&◌, ◌||◌, Text, lit, text_eq, has,
  trim, to_lower, Option, none, some, get_or, is_some, List, [], ◌∷◌, ◌++◌, map, filter, find?, any,
  length, ◌==◌, if◌then◌else◌,
}
use paraclaw.ContainerDb.{
  SessionDbs, WriteMessageOut, non_empty, get_pending_messages, mark_processing, mark_completed,
  clear_stale_processing_acks, write_message_out,
}
use paraclaw.SessionDb.{MessageIn}
use paraclaw.Delivery.{TargetType, channel, agent, target_eq}
use paraclaw.Formatter.{
  Reader, RoutingContext, is_chat, is_clear_command, extract_routing, format_messages,
  format_messages_with_commands, join,
}
use paraclaw.PollLoop.Blocks.{Block, blocks, scratchpad_of, strip_internal_tags}

-- A row of the table destinations in inbound.db.
pub record DestRow : Type 0 where
  pub name : Text
  pub type : TargetType
  pub channel_type : Option Text
  pub platform_id : Option Text
  pub agent_group_id : Option Text

-- `findByName`
unfoldable pub find_by_name : Text → List DestRow → Option DestRow
find_by_name name rows = find? (λ d. text_eq d.name name) rows

-- `findByRouting`
unfoldable pub find_by_routing : Option Text → Option Text → List DestRow → Option DestRow
find_by_routing channel_type platform_id rows = elim (non_empty channel_type) [
  | none ↦ none
  | some c ↦ elim (non_empty platform_id) [
    | none ↦ none
    | some p ↦
        if text_eq c (lit "agent")
        then find? (λ d. target_eq d.type agent && text_eq (get_or d.agent_group_id []) p) rows
        else find?
            (λ d.
              target_eq d.type channel
              && (text_eq (get_or d.channel_type []) c && text_eq (get_or d.platform_id []) p))
            rows
  ]
]

-- The rows of session_state.
abbrev pub Values : Type 0
Values = List (Text × Text)

abbrev pub get_value : Text → Values → Option Text
get_value key values = elim (find? (λ v. text_eq v.0 key) values) [
  | none ↦ none
  | some v ↦ some v.1
]

abbrev pub delete_value : Text → Values → Values
delete_value key = filter (λ v. not (text_eq v.0 key))

abbrev pub set_value : Text → Text → Values → Values
set_value key value values = delete_value key values ++ ((key, value) ∷ [])

abbrev pub legacy_key : Text
legacy_key = lit "sdk_session_id"

-- `continuationKey`
unfoldable pub continuation_key : Text → Text
continuation_key provider = lit "continuation:" ++ to_lower provider

unfoldable pub get_continuation : Text → Values → Option Text
unfolding continuation_key
get_continuation provider values = get_value (continuation_key provider) values

unfoldable pub set_continuation : Text → Text → Values → Values
unfolding continuation_key
set_continuation provider id values = set_value (continuation_key provider) id values

unfoldable pub clear_continuation : Text → Values → Values
unfolding continuation_key
clear_continuation provider values = delete_value (continuation_key provider) values

-- `migrateLegacyContinuation`
unfoldable pub migrate_legacy_continuation : Text → Values → Option Text × Values
unfolding continuation_key
migrate_legacy_continuation provider values =
    let current = get_value (continuation_key provider) values in
    elim (get_value legacy_key values) [
      | none ↦ (current, values)
      | some legacy ↦ elim current [
        | some id ↦ (some id, delete_value legacy_key values)
        | none ↦ (
          some legacy,
          set_value (continuation_key provider) legacy (delete_value legacy_key values),
        )
      ]
    ]

pub data ProviderEvent : Type 0 where
  init : Text → ProviderEvent
  result : Option Text → ProviderEvent
  other : ProviderEvent
  tick : ProviderEvent

-- How a query went: its events, and the text of the error it ended with, with the provider's verdict
-- on the continuation (`isSessionInvalid`).
pub record Query : Type 0 where
  pub events : List ProviderEvent
  pub error : Option (Text × Bool)

pub record Config : Type 0 where
  pub reader : Reader
  pub provider_name : Text
  pub native_commands : Bool
  pub query : Text → Option Text → Option Query
  pub skips : MessageIn → Bool
  pub enrich : MessageIn → MessageIn
  pub stringify : Text → Text
  pub fresh_id : SessionDbs → Text
  pub now : Text
  pub due : Text → Bool
  pub limit : ℕ
  pub destinations : List DestRow

-- The two files, the session_state, and the prompts pushed into running queries, in order.
pub record Runner : Type 0 where
  pub dbs : SessionDbs
  pub values : Values
  pub pushed : List Text

-- How a part of the loop ends: by itself, or with the process.
pub data Outcome (A : Type 0) : Type 0 where
  ended : A → Outcome A
  crashed : Runner → Outcome A

abbrev pub chain : {A B : Type 0} → Outcome A → (A → Outcome B) → Outcome B
chain (ended a) f = f a
chain (crashed r) f = crashed r

-- The value, or the end of the process.
abbrev pub or_crash : {A : Type 0} → Runner → Option A → Outcome A
or_crash r none = crashed r
or_crash r (some a) = ended a

-- `writeMessageOut` with a fresh id
unfoldable pub write_out :
    Config → RoutingContext → Option Text → Option Text → Option Text → Text → Runner → Runner
write_out config routing reply platform_id channel_type text r =
    elim (write_message_out
      (record {
        id = config.fresh_id r.dbs;
        in_reply_to = reply;
        deliver_after = none;
        recurrence = none;
        kind = lit "chat";
        platform_id = platform_id;
        channel_type = channel_type;
        thread_id = routing.thread_id;
        content = config.stringify text;
      })
      config.now r.dbs) [ none ↦ r | some dbs ↦ record r { dbs = dbs } ]

-- `sendToDestination`
unfoldable pub send_to_destination : Config → RoutingContext → DestRow → Text → Runner → Runner
unfolding write_out
send_to_destination config routing d body r = elim d.type [
  | channel ↦ write_out config routing routing.in_reply_to d.platform_id d.channel_type body r
  | agent ↦
      write_out config routing routing.in_reply_to d.agent_group_id (some (lit "agent")) body r
]

-- The loop over the blocks: what is sent, and how many.
unfoldable pub send_blocks : Config → RoutingContext → List Block → Runner → Runner × ℕ
unfolding send_to_destination find_by_name
send_blocks config routing [] r = (r, 0)
send_blocks config routing (b ∷ bs) r = elim (find_by_name b.to config.destinations) [
  | none ↦ send_blocks config routing bs r
  | some d ↦
      let (after, sent) =
        send_blocks config routing bs (send_to_destination config routing d (trim b.body) r) in
      (after, suc sent)
]

-- `if (all.length === 1)`
unfoldable pub send_only : Config → RoutingContext → List DestRow → Text → Runner → Runner
unfolding send_to_destination
send_only config routing (d ∷ []) scratchpad r = send_to_destination config routing d scratchpad r
send_only config routing _ scratchpad r = r

-- The answer without blocks: to where the message came from, or to the only destination.
unfoldable pub send_plain : Config → RoutingContext → Text → Runner → Runner
unfolding write_out send_only
send_plain config routing scratchpad r =
    if is_some (non_empty routing.channel_type) && is_some (non_empty routing.platform_id)
    then write_out config routing routing.in_reply_to routing.platform_id routing.channel_type
        scratchpad r
    else send_only config routing config.destinations scratchpad r

-- The shortcut for an answer of which no block was sent.
unfoldable pub fall_back : Config → RoutingContext → ℕ → Text → Runner → Runner
unfolding send_plain
fall_back config routing sent scratchpad r =
    if sent == 0 && is_some (non_empty (some scratchpad))
    then send_plain config routing scratchpad r
    else r

-- `dispatchResultText`
unfoldable pub dispatch_result_text : Config → RoutingContext → Text → Runner → Runner
unfolding send_blocks fall_back
dispatch_result_text config routing text r =
    let (after, sent) = send_blocks config routing (blocks text) r in
    fall_back config routing sent
      (strip_internal_tags
        (scratchpad_of (λ name. is_some (find_by_name name config.destinations)) text))
      after

-- The rows that a running query takes up: neither tool responses nor /clear.
abbrev pub is_follow_up : Reader → MessageIn → Option Bool
is_follow_up reader m =
    if text_eq m.kind (lit "system")
    then some false
    else if is_chat m
    then bind (is_clear_command reader m) (λ clear. some (not clear))
    else some true

abbrev pub complete : Config → List Text → Runner → Runner
complete config ids r = record r {
  dbs = record r.dbs { processing_ack = mark_completed config.now ids r.dbs.processing_ack };
}

-- `markProcessing`
abbrev pub claim : Config → List Text → Runner → Runner
claim config ids r = record r {
  dbs = record r.dbs { processing_ack = mark_processing config.now ids r.dbs.processing_ack };
}

abbrev pub ids_of : List MessageIn → List Text
ids_of = map (λ m. m.id)

-- The rows taken up: claimed, pushed, completed.
unfoldable pub push_rows : Config → List MessageIn → Runner → Outcome Runner
unfolding format_messages
push_rows config [] r = ended r
push_rows config (m ∷ ms) r =
    let claimed = claim config (ids_of (m ∷ ms)) r in
    chain (or_crash claimed (format_messages config.reader (m ∷ ms))) (λ prompt. ended (
      complete config (ids_of (m ∷ ms))
        (record claimed { pushed = claimed.pushed ++ (prompt ∷ []) })))

-- The timer in `processQuery`.
unfoldable pub push_follow_ups : Config → Runner → Outcome Runner
unfolding push_rows is_clear_command
push_follow_ups config r =
    chain
      (or_crash r
        (select (is_follow_up config.reader) (get_pending_messages config.due config.limit r.dbs)))
      (λ rows. push_rows config rows r)

-- `processQuery`: the events in order; the continuation that the last init gave.
unfoldable pub process_events :
    Config
    → RoutingContext
    → List Text
    → Option Text
    → List ProviderEvent
    → Runner
    → Outcome (Runner × Option Text)
unfolding push_follow_ups dispatch_result_text set_continuation
process_events config routing ids continuation [] r = ended (r, continuation)
process_events config routing ids continuation (init id ∷ events) r =
    process_events config routing ids (some id) events
      (record r { values = set_continuation config.provider_name id r.values })
process_events config routing ids continuation (result none ∷ events) r =
    process_events config routing ids continuation events (complete config ids r)
process_events config routing ids continuation (result (some []) ∷ events) r =
    process_events config routing ids continuation events (complete config ids r)
process_events config routing ids continuation (result (some (c ∷ text)) ∷ events) r =
    process_events config routing ids continuation events
      (dispatch_result_text config routing (c ∷ text) (complete config ids r))
process_events config routing ids continuation (other ∷ events) r =
    process_events config routing ids continuation events r
process_events config routing ids continuation (tick ∷ events) r =
    chain (push_follow_ups config r)
      (λ after. process_events config routing ids continuation events after)
