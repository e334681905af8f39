-- ===== src/Router/Fanout.antt =====
-- `deliverToAgent` and the fan-out loop of `routeInbound` in src/router.ts; the event is the one that
-- the adapter's thread policy leaves.
use paraclaw.Prelude.{
  Bool, true, false, not, ◌&&◌, ◌||◌, Text, lit, text_eq, Option, none, some, get_or, List, [], ◌∷◌,
  ◌++◌, if◌then◌else◌,
}
use paraclaw.CommandGate.{GateResult, gate_command}
use paraclaw.SessionDb.{NewMessage}
use paraclaw.Sessions.{get_session, resolve_session}
use paraclaw.Router.{
  Env, Wiring, MessagingGroup, Address, InboundEvent, Host, evaluate_engage, effective_mode,
  message_id_for_agent, put, write_session_message, write_outbound_direct,
}

-- the JSON text of the reply to a denied command
abbrev pub denial : Text → Text
denial command =
    lit "{\"text\":\"Permission denied: " ++ (command ++ lit " requires admin access.\"}")

abbrev pub is_chat : Text → Bool
is_chat kind = text_eq kind (lit "chat") || text_eq kind (lit "chat-sdk")

abbrev pub reply_address : InboundEvent → Address
reply_address event = get_or event.reply_to event.source

-- The message that `deliverToAgent` writes.
abbrev pub routed : Text → Wiring → InboundEvent → Bool → NewMessage
routed generated wiring event wake = record {
  id = message_id_for_agent generated event.message_id wiring.agent_group_id;
  kind = event.kind;
  timestamp = event.timestamp;
  platform_id = some (reply_address event).platform_id;
  channel_type = some (reply_address event).channel_type;
  thread_id = (reply_address event).thread_id;
  content = event.content;
  process_after = none;
  recurrence = none;
  trigger = some (if wake then 1 else 0);
}

-- `wakeContainer(getSession(id))`
abbrev pub wake_session : Text → Host → Host
wake_session id host = elim (get_session id host.sessions) [
  | none ↦ host
  | some s ↦ record host { woken = host.woken ++ s.id ∷ [] }
]

-- `deliverToAgent` after the command gate
unfoldable pub write_and_wake : Env → Wiring → InboundEvent → Bool → Text → Host → Host
unfolding write_session_message
write_and_wake env wiring event wake session host =
    let written =
      write_session_message env session (routed (env.fresh_id host) wiring event wake) host in
    if wake then wake_session session written else written

-- the command gate of `deliverToAgent`
unfoldable pub gated : Env → Wiring → InboundEvent → Option Text → GateResult
gated env wiring event user =
    if is_chat event.kind
    then gate_command env.parse env.roles event.content user wiring.agent_group_id
    else GateResult.pass

-- `deliverToAgent` from the resolved session on
unfoldable pub deliver_to_session :
    Env → Wiring → InboundEvent → Option Text → Bool → Text → Host → Host
unfolding write_and_wake write_outbound_direct
deliver_to_session env wiring event user wake session host = elim (gated env wiring event user) [
  | GateResult.pass ↦ write_and_wake env wiring event wake session host
  | GateResult.filtered ↦ host
  | GateResult.deny command ↦ record host {
    outbox =
        put session
          (write_outbound_direct (lit "deny-" ++ env.fresh_id host) env.timestamp
            (reply_address event) (denial command) (host.outbox session))
          host.outbox;
  }
]

-- `deliverToAgent`
unfoldable pub deliver_to_agent :
    Env → Wiring → MessagingGroup → InboundEvent → Option Text → Bool → Host → Host
unfolding deliver_to_session
deliver_to_agent env wiring group event user wake host =
    let resolved =
      resolve_session (env.fresh_id host) env.now wiring.agent_group_id (some group.id)
        event.source.thread_id (effective_mode env.supports_threads wiring.session_mode group)
        host.sessions in
    deliver_to_session env wiring event user wake resolved.session.id
      (record host { sessions = resolved.sessions })

-- one round of the fan-out loop of `routeInbound`, and whether the agent took the message
unfoldable pub route_to :
    Env → MessagingGroup → InboundEvent → Option Text → Wiring → Host → Host × Bool
unfolding deliver_to_agent
route_to env group event user wiring host =
    if not (env.group_exists wiring.agent_group_id)
    then (host, false)
    else if evaluate_engage env wiring event.text event.is_mention group event.source.thread_id
          host.sessions
        && env.access_ok wiring.agent_group_id
        && env.scope_ok wiring
    then (deliver_to_agent env wiring group event user true host, true)
    else if wiring.accumulates
    then (deliver_to_agent env wiring group event user false host, true)
    else (host, false)

-- the fan-out loop of `routeInbound`; at the end, whether the message was not dropped
unfoldable pub fan_out :
    Env → MessagingGroup → InboundEvent → Option Text → List Wiring → Host → Host × Bool
unfolding route_to
fan_out env group event user [] host = (host, false)
fan_out env group event user (wiring ∷ wirings) host =
    let one = route_to env group event user wiring host in
    let rest = fan_out env group event user wirings one.0 in (rest.0, one.1 || rest.1)
