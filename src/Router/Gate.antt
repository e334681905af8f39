-- ===== src/Router/Gate.antt =====
-- What a refused event cannot do.
use paraclaw.Prelude.{
  ◌≡◌, ◌≢◌, refl, ◌∙◌, ap, Bool, true, false, Text, text_eq_iff, Option, some, List, [], ◌∷◌, All,
  arith, ◌&&◌,
}
use paraclaw.CommandGate.{GateResult}
use paraclaw.SessionDb.{NewMessage}
use paraclaw.Sessions.{resolve_session}
use paraclaw.Router.{
  Env, Wiring, MessagingGroup, InboundEvent, Host, effective_mode, write_session_message,
}
use paraclaw.Router.Fanout.{
  write_and_wake, deliver_to_session, deliver_to_agent, gated, wake_session, route_to, fan_out,
}

write_session_message-woken :
    (env : Env) (session : Text) (message : NewMessage) (host : Host)
    → (write_session_message env session message host).woken ≡ host.woken
unfolding write_session_message
write_session_message-woken env session message host = ground arith

deliver_to_session-woken :
    (env : Env) (wiring : Wiring) (event : InboundEvent) (user : Option Text) (session : Text)
    (host : Host)
    → (deliver_to_session env wiring event user false session host).woken ≡ host.woken
unfolding deliver_to_session write_and_wake
deliver_to_session-woken env wiring event user session host =
    by_gate (gated env wiring event user) refl
  where
    by_gate :
        (g : GateResult)
        → gated env wiring event user ≡ g
        → (deliver_to_session env wiring event user false session host).woken ≡ host.woken
    by_gate GateResult.pass e =
        rw (e, deliver_to_session) (write_session_message-woken env session _ host)
    by_gate GateResult.filtered e = rw (e, deliver_to_session) refl
    by_gate (GateResult.deny command) e = rw (e, deliver_to_session) refl

deliver_to_agent-woken :
    (env : Env) (wiring : Wiring) (group : MessagingGroup) (event : InboundEvent)
    (user : Option Text) (host : Host)
    → (deliver_to_agent env wiring group event user false host).woken ≡ host.woken
unfolding deliver_to_agent
deliver_to_agent-woken env wiring group event user host =
    deliver_to_session-woken env wiring event user _ (record host { sessions = _ })

-- The permissions module lets the sender reach the agent of this wiring.
abbrev pub permits : Env → Wiring → Bool
permits env wiring = env.access_ok wiring.agent_group_id && env.scope_ok wiring

route_to-woken :
    (env : Env) (group : MessagingGroup) (event : InboundEvent) (user : Option Text)
    (wiring : Wiring) (host : Host)
    → permits env wiring ≡ false
    → (route_to env group event user wiring host).0.woken ≡ host.woken
unfolding route_to
route_to-woken env group event user wiring host refused =
    ground (arith, refused, deliver_to_agent-woken env wiring group event user host)

-- A sender whom the access gate or the sender scope refuses for every wired agent wakes no
-- container: after the fan-out the same sessions are woken as before.
pub fan_out-woken :
    (env : Env) (group : MessagingGroup) (event : InboundEvent) (user : Option Text)
    (wirings : List Wiring) (host : Host)
    → All (λ w. permits env w ≡ false) wirings
    → (fan_out env group event user wirings host).0.woken ≡ host.woken
unfolding fan_out
fan_out-woken env group event user [] host refused = refl
fan_out-woken env group event user (w ∷ wirings) host (r, refused) =
    fan_out-woken env group event user wirings (route_to env group event user w host).0 refused
    ∙ route_to-woken env group event user w host r

route_to-refused :
    (env : Env) (group : MessagingGroup) (event : InboundEvent) (user : Option Text)
    (wiring : Wiring) (host : Host)
    → permits env wiring ≡ false
    → wiring.accumulates ≡ false
    → route_to env group event user wiring host ≡ (host, false)
unfolding route_to
route_to-refused env group event user wiring host refused drops = ground (arith, refused, drops)

-- If besides no wiring accumulates ignored messages, the fan-out leaves the host as it was and
-- reports that the message was dropped.
pub fan_out-refused :
    (env : Env) (group : MessagingGroup) (event : InboundEvent) (user : Option Text)
    (wirings : List Wiring) (host : Host)
    → All (λ w. (permits env w ≡ false) × (w.accumulates ≡ false)) wirings
    → fan_out env group event user wirings host ≡ (host, false)
unfolding fan_out
fan_out-refused env group event user [] host refused = refl
fan_out-refused env group event user (w ∷ wirings) host ((r, d), refused) =
    rw (route_to-refused env group event user w host r d)
      (rw (fan_out-refused env group event user wirings host refused) refl)

write_session_message-elsewhere :
    (env : Env) (session : Text) (message : NewMessage) (host : Host) (k : Text)
    → k ≢ session
    → (write_session_message env session message host).inbox k ≡ host.inbox k
unfolding write_session_message
write_session_message-elsewhere env session message host k ne =
    ground (arith, text_eq_iff k session, ne)

wake_session-boxes :
    (id : Text) (host : Host)
    → ((wake_session id host).inbox ≡ host.inbox) × ((wake_session id host).outbox ≡ host.outbox)
wake_session-boxes id host = (ground arith, ground arith)

write_session_message-outbox :
    (env : Env) (session : Text) (message : NewMessage) (host : Host)
    → (write_session_message env session message host).outbox ≡ host.outbox
unfolding write_session_message
write_session_message-outbox env session message host = ground arith

-- Nothing changes for the session `k`.
abbrev pub Untouched : Text → Host → Host → Type 0
Untouched k host after = (after.inbox k ≡ host.inbox k) × (after.outbox k ≡ host.outbox k)

write_and_wake-elsewhere :
    (env : Env) (wiring : Wiring) (event : InboundEvent) (wake : Bool) (session : Text)
    (host : Host) (k : Text)
    → k ≢ session
    → Untouched k host (write_and_wake env wiring event wake session host)
unfolding write_and_wake
write_and_wake-elsewhere env wiring event false session host k ne = (
  write_session_message-elsewhere env session _ host k ne,
  ap (λ box. box k) (write_session_message-outbox env session _ host),
)
write_and_wake-elsewhere env wiring event true session host k ne = (
  ap (λ box. box k) (wake_session-boxes session _).0
      ∙ write_session_message-elsewhere env session _ host k ne,
  ap (λ box. box k) (wake_session-boxes session _).1
      ∙ ap (λ box. box k) (write_session_message-outbox env session _ host),
)

deliver_to_session-elsewhere :
    (env : Env) (wiring : Wiring) (event : InboundEvent) (user : Option Text) (wake : Bool)
    (session : Text) (host : Host) (k : Text)
    → k ≢ session
    → Untouched k host (deliver_to_session env wiring event user wake session host)
unfolding deliver_to_session
deliver_to_session-elsewhere env wiring event user wake session host k ne =
    by_gate (gated env wiring event user) refl
  where
    by_gate :
        (g : GateResult)
        → gated env wiring event user ≡ g
        → Untouched k host (deliver_to_session env wiring event user wake session host)
    by_gate GateResult.pass e =
        rw (e, deliver_to_session)
          (write_and_wake-elsewhere env wiring event wake session host k ne)
    by_gate GateResult.filtered e = rw (e, deliver_to_session) (refl, refl)
    by_gate (GateResult.deny command) e =
        rw (e, deliver_to_session) (refl, ground (arith, text_eq_iff k session, ne))

-- The session that an event of this wiring goes to.
abbrev pub target : Env → Wiring → MessagingGroup → InboundEvent → Host → Text
target env wiring group event host =
    (resolve_session (env.fresh_id host) env.now wiring.agent_group_id (some group.id)
      event.source.thread_id (effective_mode env.supports_threads wiring.session_mode group)
      host.sessions).session.id

-- `deliverToAgent` writes to one session only: in every session but the one that `resolveSession`
-- gives, both databases stay as they are, whatever the gate says and whether or not it wakes.
pub deliver_to_agent-Untouched :
    (env : Env) (wiring : Wiring) (group : MessagingGroup) (event : InboundEvent)
    (user : Option Text) (wake : Bool) (host : Host) (k : Text)
    → k ≢ target env wiring group event host
    → Untouched k host (deliver_to_agent env wiring group event user wake host)
unfolding deliver_to_agent
deliver_to_agent-Untouched env wiring group event user wake host k ne =
    deliver_to_session-elsewhere env wiring event user wake (target env wiring group event host)
      (record host { sessions = _ }) k ne

gated_inbox :
    (env : Env) (wiring : Wiring) (event : InboundEvent) (user : Option Text) (wake : Bool)
    (session : Text) (host : Host)
    → gated env wiring event user ≢ GateResult.pass
    → ((deliver_to_session env wiring event user wake session host).inbox ≡ host.inbox)
      × ((deliver_to_session env wiring event user wake session host).woken ≡ host.woken)
unfolding deliver_to_session
gated_inbox env wiring event user wake session host stopped =
    by_gate (gated env wiring event user) refl
  where
    by_gate :
        (g : GateResult)
        → gated env wiring event user ≡ g
        → ((deliver_to_session env wiring event user wake session host).inbox ≡ host.inbox)
          × ((deliver_to_session env wiring event user wake session host).woken ≡ host.woken)
    by_gate GateResult.pass e = absurd (stopped e)
    by_gate GateResult.filtered e = rw (e, deliver_to_session) (refl, refl)
    by_gate (GateResult.deny command) e = rw (e, deliver_to_session) (refl, refl)

-- A slash command that the gate filters or denies reaches no container: no inbound database
-- changes and no container is woken.
pub deliver_to_agent-gated :
    (env : Env) (wiring : Wiring) (group : MessagingGroup) (event : InboundEvent)
    (user : Option Text) (wake : Bool) (host : Host)
    → gated env wiring event user ≢ GateResult.pass
    → ((deliver_to_agent env wiring group event user wake host).inbox ≡ host.inbox)
      × ((deliver_to_agent env wiring group event user wake host).woken ≡ host.woken)
unfolding deliver_to_agent
deliver_to_agent-gated env wiring group event user wake host stopped =
    gated_inbox env wiring event user wake (target env wiring group event host)
      (record host { sessions = _ }) stopped
