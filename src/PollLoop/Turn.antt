-- ===== src/PollLoop/Turn.antt =====
-- One turn of `runPollLoop`, and what it leaves of the batch it took.
pub mod Acks
pub mod Readable
pub mod Keeps
pub mod Done
use paraclaw.Prelude.{
  bind, get_or, ℕ, Bool, true, false, not, ◌&&◌, ◌||◌, Text, lit, text_eq, has, Option, none, some,
  is_some, List, [], ◌∷◌, ◌++◌, map, filter, any, ◌==◌, if◌then◌else◌,
}
use paraclaw.ContainerDb.{
  non_empty, get_pending_messages, mark_processing, mark_completed, clear_stale_processing_acks,
}
use paraclaw.SessionDb.{MessageIn}
use paraclaw.Formatter.{
  RoutingContext, is_chat, is_clear_command, extract_routing, format_messages_with_commands,
}
use paraclaw.PollLoop.{
  Config, Runner, Outcome, ended, crashed, chain, or_crash, claim, ids_of, Query, Values, complete,
  write_out, process_events, clear_continuation, set_continuation, migrate_legacy_continuation,
}

-- The loop, between two turns: the continuation in memory, and the files.
pub record Loop : Type 0 where
  pub continuation : Option Text
  pub runner : Runner

-- The start of `runPollLoop`.
unfoldable pub start_loop : Config → Runner → Loop
unfolding migrate_legacy_continuation clear_stale_processing_acks
start_loop config r =
    let (continuation, values) = migrate_legacy_continuation config.provider_name r.values in
    record {
      continuation = continuation;
      runner = record r {
        values = values;
        dbs = record r.dbs { processing_ack = clear_stale_processing_acks r.dbs.processing_ack };
      };
    }

-- Is the message a /clear? Only the content of a chat message is read.
unfoldable pub is_clear : Config → MessageIn → Option Bool
unfolding is_clear_command
is_clear config m = if is_chat m then is_clear_command config.reader m else some false

-- The same for a batch that was read through.
abbrev pub clears : Config → MessageIn → Bool
clears config m = get_or (is_clear config m) false

-- What one /clear does.
abbrev pub clear_once : Config → RoutingContext → Loop → Loop
clear_once config routing l = record {
  continuation = none;
  runner =
      write_out config routing none routing.platform_id routing.channel_type
        (lit "Session cleared.")
        (record l.runner { values = clear_continuation config.provider_name l.runner.values });
}

-- The loop over the batch that answers /clear.
unfoldable pub clear_each : Config → RoutingContext → List MessageIn → Loop → Outcome Loop
unfolding is_clear write_out clear_continuation
clear_each config routing [] l = ended l
clear_each config routing (m ∷ ms) l =
    let cleared = clear_each config routing ms (clear_once config routing l) in
    let kept = clear_each config routing ms l in
    chain (or_crash l.runner (is_clear config m)) (λ clear. if clear then cleared else kept)

-- The end of a query without an error: a new continuation is kept.
unfoldable pub keep_continuation : Config → Option Text → Loop → Loop
unfolding set_continuation
keep_continuation config found l = elim (non_empty found) [
  | none ↦ l
  | some id ↦
      if elim l.continuation [ none ↦ false | some old ↦ text_eq old id ] then l else record {
        continuation = some id;
        runner = record l.runner {
          values = set_continuation config.provider_name id l.runner.values;
        };
      }
]

-- The end of a query with an error: a continuation the provider rejects is dropped, the user is told.
unfoldable pub report_error : Config → RoutingContext → Text → Bool → Loop → Loop
unfolding write_out clear_continuation
report_error config routing message invalid l =
    let told = λ (k : Loop). record k {
      runner =
          write_out config routing none routing.platform_id routing.channel_type
            (lit "Error: " ++ message) k.runner;
    } in
    if is_some (non_empty l.continuation) && invalid
    then told (record {
      continuation = none;
      runner = record l.runner { values = clear_continuation config.provider_name l.runner.values };
    })
    else told l

-- What follows the events of a query.
unfoldable pub end_query :
    Config → RoutingContext → Option (Text × Bool) → Option Text → Loop → Loop
unfolding keep_continuation report_error
end_query config routing none found l = keep_continuation config found l
end_query config routing (some (message, invalid)) found l =
    report_error config routing message invalid l

-- The turn from the answer of the provider on: the events, their end, the completion of the batch.
unfoldable pub run_events : Config → RoutingContext → List Text → Query → Loop → Outcome Loop
unfolding process_events end_query
run_events config routing ids query l =
    chain (process_events config routing ids none query.events l.runner) (λ (after, found).
      let k : Loop = end_query config routing query.error found (record l { runner = after }) in
      ended (record k { runner = complete config ids k.runner }))

-- The prompt, the query and what follows it. The prompt is made, and the query started, outside of the
-- `try`.
unfoldable pub run_query :
    Config → RoutingContext → List MessageIn → List Text → Loop → Outcome Loop
unfolding run_events format_messages_with_commands
run_query config routing keep ids l =
    chain
      (or_crash l.runner (
        bind (format_messages_with_commands config.reader config.native_commands keep)
          (λ prompt. config.query prompt l.continuation)))
      (λ query. run_events config routing ids query l)

-- The turn from `keep` on: nothing is left where each task was skipped.
unfoldable pub run_kept : Config → RoutingContext → List Text → List MessageIn → Loop → Outcome Loop
unfolding run_query
run_kept config routing ids [] l = ended l
run_kept config routing ids (m ∷ keep) l =
    run_query config routing (map config.enrich (m ∷ keep)) ids l

-- The turn behind the commands, with the other rows of the batch and their ids.
unfoldable pub take_normal :
    Config → RoutingContext → List Text → List MessageIn → Loop → Outcome Loop
unfolding run_kept
take_normal config routing ids [] l = ended (record l { runner = complete config ids l.runner })
take_normal config routing ids (n ∷ ns) l =
    let skipped = ids_of (filter config.skips (n ∷ ns)) in
    run_kept config routing (filter (λ id. not (has skipped id)) ids)
      (filter (λ m. not (config.skips m)) (n ∷ ns))
      (record l { runner = complete config skipped l.runner })

-- The turn from the claimed batch on.
unfoldable pub take_batch : Config → List MessageIn → Loop → Outcome Loop
unfolding clear_each take_normal extract_routing
take_batch config batch l =
    let routing = extract_routing batch in
    let commands = ids_of (filter (clears config) batch) in
    chain (clear_each config routing batch l) (λ cleared.
      take_normal config routing (filter (λ id. not (has commands id)) (ids_of batch))
        (filter (λ m. not (clears config m)) batch)
        (record cleared { runner = complete config commands cleared.runner }))

-- The rows that a turn looks at.
abbrev pub batch_of : Config → Loop → List MessageIn
batch_of config l =
    filter (λ m. not (text_eq m.kind (lit "system")))
      (get_pending_messages config.due config.limit l.runner.dbs)

-- `markProcessing(ids)`
abbrev pub claim_batch : Config → Loop → Loop
claim_batch config l = record l { runner = claim config (ids_of (batch_of config l)) l.runner }

-- One turn of `runPollLoop`. Without a row of trigger 1 it only sleeps.
unfoldable pub poll_turn : Config → Loop → Outcome Loop
unfolding take_batch mark_processing
poll_turn config l =
    let batch = batch_of config l in
    if not (any (λ m. m.trigger == 1) batch)
    then ended l
    else take_batch config batch (claim_batch config l)
