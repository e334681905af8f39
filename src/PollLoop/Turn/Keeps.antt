-- ===== src/PollLoop/Turn/Keeps.antt =====
-- What the parts of a turn keep, and that they end by themselves.
use paraclaw.Prelude.{
  ◌≡◌, Bool, true, ◌&&◌, Text, lit, has, Option, none, some, is_some, List, [], ◌∷◌, ◌++◌, all,
  select, Bool-cases, inl, inr, arith,
}
use paraclaw.ContainerDb.{non_empty, write_message_out, get_pending_messages}
use paraclaw.ContainerDb.Pending.{all-get_pending_messages}
use paraclaw.SessionDb.{MessageIn}
use paraclaw.Formatter.{RoutingContext, format_messages}
use paraclaw.Formatter.Readable.{is_readable, format_messages-some}
use paraclaw.PollLoop.{
  Config, Runner, ProviderEvent, Query, or_crash, init, result, other, tick, complete, claim,
  ids_of, write_out, dispatch_result_text, is_follow_up, push_rows, push_follow_ups, process_events,
}
use paraclaw.PollLoop.Dispatch.{dispatch_result_text_lem}
use paraclaw.PollLoop.Turn.{
  Loop, is_clear, clear_once, clear_each, keep_continuation, report_error, end_query, run_events,
}
use paraclaw.PollLoop.Turn.Acks.{
  is_done, is_done-mark_completed, is_done-mark_processing, mark_completed-is_done,
}
use paraclaw.PollLoop.Turn.Readable.{
  Ends, Ends-chain, Ends-if, Ends-or_crash, is_clear-some, select-some, all-select,
}

-- Every message can be read.
abbrev pub Readable : Config → Runner → Type 0
Readable config r = all (is_readable config.reader) r.dbs.messages_in ≡ true

-- What the parts of a turn keep: the messages can be read, and, where the message was completed
-- earlier, it is.
module _ (config : Config) (id : Text) (earlier : Type 0) where
  abbrev pub Done : Runner → Type 0
  Done r = Readable config r × (earlier → is_done id r.dbs.processing_ack ≡ true)

  Done-write_out :
      (routing : RoutingContext) (reply platform channel_type : Option Text) (text : Text)
      (r : Runner)
      → Done r
      → Done (write_out config routing reply platform channel_type text r)
  unfolding write_out write_message_out
  Done-write_out routing reply platform channel_type text r (h, k) =
      (ground arith, λ x. ground (arith, k x))

  Done-dispatch_result_text :
      (routing : RoutingContext) (text : Text) (r : Runner)
      → Done r
      → Done (dispatch_result_text config routing text r)
  Done-dispatch_result_text routing text r h =
      let (added, same, _) = dispatch_result_text_lem config routing text r in rw same h

  pub Done-complete : (ids : List Text) (r : Runner) → Done r → Done (complete config ids r)
  Done-complete ids r (h, k) =
      (h, λ x. is_done-mark_completed id config.now ids r.dbs.processing_ack (k x))

  -- Claimed and completed at once.
  Done-complete-claim :
      (ids pushed : List Text) (r : Runner)
      → Done r
      → Done (complete config ids (record (claim config ids r) { pushed = pushed }))
  Done-complete-claim ids pushed r (h, k) = (
    h,
    λ x. elim (Bool-cases (has ids id)) [
      | inl taken ↦ mark_completed-is_done id config.now ids _ taken
      | inr left ↦
          is_done-mark_completed id config.now ids _
            (is_done-mark_processing id config.now ids r.dbs.processing_ack left (k x))
    ],
  )

  Done-push_rows :
      (rows : List MessageIn) (r : Runner)
      → all (is_readable config.reader) rows ≡ true
      → Done r
      → Ends Done (push_rows config rows r)
  unfolding push_rows
  Done-push_rows [] r read h = h
  Done-push_rows (m ∷ ms) r read h =
      let claimed = claim config (ids_of (m ∷ ms)) r in
      Ends-chain (λ (prompt : Text). Done r) Done
        (or_crash claimed (format_messages config.reader (m ∷ ms))) _
        (Ends-or_crash (λ (prompt : Text). Done r) claimed (format_messages config.reader (m ∷ ms))
          (format_messages-some config.reader (m ∷ ms) read) (λ prompt e. h))
        (λ prompt k. Done-complete-claim (ids_of (m ∷ ms)) (r.pushed ++ (prompt ∷ [])) r k)

  Done-push_follow_ups : (r : Runner) → Done r → Ends Done (push_follow_ups config r)
  unfolding push_follow_ups
  Done-push_follow_ups r h =
      let waiting = get_pending_messages config.due config.limit r.dbs in
      let read =
        all-get_pending_messages (is_readable config.reader) config.due config.limit r.dbs h.0 in
      let follow_ups = select (is_follow_up config.reader) waiting in
      Ends-chain (λ rows. all (is_readable config.reader) rows ≡ true) Done (or_crash r follow_ups)
        _
        (Ends-or_crash (λ rows. all (is_readable config.reader) rows ≡ true) r follow_ups
          (select-some config.reader waiting read)
          (λ rows e.
            all-select (is_readable config.reader) (is_follow_up config.reader) waiting rows read
              e))
        (λ rows k. Done-push_rows rows r k h)

  pub Done-process_events :
      (routing : RoutingContext) (ids : List Text) (continuation : Option Text)
      (events : List ProviderEvent) (r : Runner)
      → Done r
      → Ends (λ out. Done out.0) (process_events config routing ids continuation events r)
  unfolding process_events
  Done-process_events routing ids continuation [] r h = h
  Done-process_events routing ids continuation (init c ∷ events) r h =
      Done-process_events routing ids (some c) events _ h
  Done-process_events routing ids continuation (result none ∷ events) r h =
      Done-process_events routing ids continuation events _ (Done-complete ids r h)
  Done-process_events routing ids continuation (result (some []) ∷ events) r h =
      Done-process_events routing ids continuation events _ (Done-complete ids r h)
  Done-process_events routing ids continuation (result (some (c ∷ text)) ∷ events) r h =
      Done-process_events routing ids continuation events _ (
        Done-dispatch_result_text routing (c ∷ text) (complete config ids r)
          (Done-complete ids r h))
  Done-process_events routing ids continuation (other ∷ events) r h =
      Done-process_events routing ids continuation events r h
  Done-process_events routing ids continuation (tick ∷ events) r h =
      Ends-chain Done (λ (out : Runner × Option Text). Done out.0) (push_follow_ups config r) _
        (Done-push_follow_ups r h)
        (λ after k. Done-process_events routing ids continuation events after k)

  Done-clear_once :
      (routing : RoutingContext) (l : Loop)
      → Done l.runner
      → Done (clear_once config routing l).runner
  Done-clear_once routing l h =
      Done-write_out routing none routing.platform_id routing.channel_type (lit "Session cleared.")
        _ h

  pub Done-clear_each :
      (routing : RoutingContext) (ms : List MessageIn) (l : Loop)
      → all (is_readable config.reader) ms ≡ true
      → Done l.runner
      → Ends (λ k. Done k.runner) (clear_each config routing ms l)
  unfolding clear_each
  Done-clear_each routing [] l read h = h
  Done-clear_each routing (m ∷ ms) l read h =
      let own : is_readable config.reader m ≡ true = ground (arith, read) in
      let later : all (is_readable config.reader) ms ≡ true = ground (arith, read) in
      Ends-chain (λ (clear : Bool). Done l.runner) (λ (k : Loop). Done k.runner)
        (or_crash l.runner (is_clear config m)) _
        (Ends-or_crash (λ (clear : Bool). Done l.runner) l.runner (is_clear config m)
          (is_clear-some config m own) (λ clear e. h))
        (λ clear k.
          Ends-if (λ (k : Loop). Done k.runner) clear
            (clear_each config routing ms (clear_once config routing l))
            (clear_each config routing ms l)
            (Done-clear_each routing ms (clear_once config routing l) later
              (Done-clear_once routing l h))
            (Done-clear_each routing ms l later h))

  Done-report_error :
      (routing : RoutingContext) (message : Text) (invalid : Bool) (l : Loop)
      → Done l.runner
      → Done (report_error config routing message invalid l).runner
  unfolding report_error
  Done-report_error routing message invalid l h =
      elim (Bool-cases (is_some (non_empty l.continuation) && invalid)) [
        | inl dropped ↦
            rw (report_error, dropped)
              (Done-write_out routing none routing.platform_id routing.channel_type _ _ h)
        | inr kept ↦
            rw (report_error, kept)
              (Done-write_out routing none routing.platform_id routing.channel_type _ _ h)
      ]

  Done-keep_continuation :
      (found : Option Text) (l : Loop)
      → Done l.runner
      → Done (keep_continuation config found l).runner
  unfolding keep_continuation
  Done-keep_continuation found l (h, k) = (ground (arith, h), λ x. ground (arith, k x))

  pub Done-end_query :
      (routing : RoutingContext) (error : Option (Text × Bool)) (found : Option Text) (l : Loop)
      → Done l.runner
      → Done (end_query config routing error found l).runner
  unfolding end_query
  Done-end_query routing none found l h = Done-keep_continuation found l h
  Done-end_query routing (some (message, invalid)) found l h =
      Done-report_error routing message invalid l h

  -- The end of a query completes its batch.
  pub Done-run_events :
      (routing : RoutingContext) (ids : List Text) (query : Query) (l : Loop)
      → Done l.runner
      → Ends (λ k. Done k.runner) (run_events config routing ids query l)
  unfolding run_events
  Done-run_events routing ids query l h =
      Ends-chain (λ (out : Runner × Option Text). Done out.0) (λ (k : Loop). Done k.runner)
        (process_events config routing ids none query.events l.runner) _
        (Done-process_events routing ids none query.events l.runner h)
        (λ out k.
          Done-complete ids
            (end_query config routing query.error out.1 (record l { runner = out.0 })).runner
            (Done-end_query routing query.error out.1 (record l { runner = out.0 }) k))
