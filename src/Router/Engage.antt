-- ===== src/Router/Engage.antt =====
-- The follow-up rule of `evaluateEngage` against the sessions that `deliverToAgent` leaves.
use paraclaw.Prelude.{
  ℕ, ◌≡◌, ◌≢◌, refl, ◌∙◌, true, false, Text, Option, none, some, List, [], ◌∷◌, is_some, arith,
  Option-cases, inl, inr, ◌⊎◌,
}
use paraclaw.CommandGate.{GateResult}
use paraclaw.SessionDb.{NewMessage, insert_message}
use paraclaw.Sessions.{
  Session, per_thread, find_session_for_agent, touch_session, existing_session, resolve_session,
  get_session,
}
use paraclaw.Sessions.Resolve.{existing-resolve_session}
use paraclaw.Router.{
  Env, Wiring, MessagingGroup, InboundEvent, Host, mention_sticky, evaluate_engage, effective_mode,
  write_session_message,
}
use paraclaw.Router.Fanout.{
  write_and_wake, deliver_to_session, deliver_to_agent, gated, wake_session,
}

find-touch_session :
    (agent group : Text) (thread : Option Text) (id at : Text) (sessions : List Session)
    → is_some (find_session_for_agent agent group thread (touch_session id at sessions))
      ≡ is_some (find_session_for_agent agent group thread sessions)
unfolding find_session_for_agent touch_session
find-touch_session agent group none id at [] = refl
find-touch_session agent group (some t) id at [] = refl
find-touch_session agent group none id at (s ∷ sessions) =
    ground (arith, find-touch_session agent group none id at sessions)
find-touch_session agent group (some []) id at (s ∷ sessions) =
    ground (arith, find-touch_session agent group (some []) id at sessions)
find-touch_session agent group (some (c ∷ t)) id at (s ∷ sessions) =
    ground (arith, find-touch_session agent group (some (c ∷ t)) id at sessions)

-- How `deliverToAgent` leaves the table of sessions: as it was, or with one row touched.
abbrev pub SessionsAfter : Host → Host → Type 0
SessionsAfter host after =
    (after.sessions ≡ host.sessions)
    ⊎ ((id : Text) × (at : Text) × (after.sessions ≡ touch_session id at host.sessions))

write_session_message-sessions :
    (env : Env) (session : Text) (message : NewMessage) (host : Host)
    → SessionsAfter host (write_session_message env session message host)
unfolding write_session_message
write_session_message-sessions env session message host =
    elim (Option-cases (insert_message message (host.inbox session))) [
      | inl failed ↦ inl (rw (failed, write_session_message) refl)
      | inr ((rows, true), done) ↦
          inr (session, env.timestamp, rw (done, write_session_message) refl)
      | inr ((rows, false), done) ↦ inl (rw (done, write_session_message) refl)
    ]

wake_session-sessions : (id : Text) (host : Host) → (wake_session id host).sessions ≡ host.sessions
wake_session-sessions id host = elim (Option-cases (get_session id host.sessions)) [
  | inl missing ↦ ground (arith, missing)
  | inr (s, found) ↦ ground (arith, found)
]

write_and_wake-sessions :
    (env : Env) (wiring : Wiring) (event : InboundEvent) (session : Text) (host : Host)
    → SessionsAfter host (write_and_wake env wiring event false session host)
unfolding write_and_wake
write_and_wake-sessions env wiring event session host =
    write_session_message-sessions env session _ host

pub deliver_to_session-sessions :
    (env : Env) (wiring : Wiring) (event : InboundEvent) (user : Option Text) (session : Text)
    (host : Host)
    → SessionsAfter host (deliver_to_session env wiring event user false session host)
unfolding deliver_to_session
deliver_to_session-sessions env wiring event user session host =
    by_gate (gated env wiring event user) refl
  where
    by_gate :
        (g : GateResult)
        → gated env wiring event user ≡ g
        → SessionsAfter host (deliver_to_session env wiring event user false session host)
    by_gate GateResult.pass e =
        rw (e, deliver_to_session) (write_and_wake-sessions env wiring event session host)
    by_gate GateResult.filtered e = rw (e, deliver_to_session) (inl refl)
    by_gate (GateResult.deny command) e = rw (e, deliver_to_session) (inl refl)

still_found :
    (agent group : Text) (thread : Option Text) (host after : Host)
    → SessionsAfter host after
    → is_some (find_session_for_agent agent group thread host.sessions) ≡ true
    → is_some (find_session_for_agent agent group thread after.sessions) ≡ true
still_found agent group thread host after (inl same) h = rw same h
still_found agent group thread host after (inr (id, at, touched)) h =
    rw touched (find-touch_session agent group thread id at host.sessions ∙ h)

sticky_follows :
    (env : Env) (wiring : Wiring) (text : Text) (group : MessagingGroup) (thread : Option Text)
    (sessions : List Session)
    → wiring.engage_mode ≡ mention_sticky
    → group.is_group ≡ true
    → evaluate_engage env wiring text false group thread sessions
      ≡ is_some (find_session_for_agent wiring.agent_group_id group.id thread sessions)
unfolding evaluate_engage
sticky_follows env wiring text group thread sessions sticky is_group =
    ground (arith, sticky, is_group)

-- In a thread of its own the lookup of `resolveSession` is the one of the follow-up rule.
resolved_found :
    (fresh : Text) (now : ℕ) (agent : Text) (c : ℕ) (id : Text) (thread : Option Text)
    (sessions : List Session)
    → thread ≢ some []
    → is_some (
        find_session_for_agent agent
          (c ∷ id)
          thread
          (resolve_session fresh now agent (some (c ∷ id)) thread per_thread sessions).sessions)
      ≡ true
unfolding existing_session
resolved_found fresh now agent c id thread sessions ne =
    existing-resolve_session fresh now agent c id thread per_thread sessions ne

-- An accumulated message counts as an engagement where sessions are per thread: after
-- `deliverToAgent` has handled a message for context only (no wake) in a group chat, a mention-sticky
-- wiring whose session mode there comes out as per-thread (so not agent-shared) engages on the next
-- text of the same thread without a mention, though the agent was never addressed. The thread, where
-- there is one, has an id that is not empty.
pub evaluate_engage-accumulated :
    (env : Env) (wiring : Wiring) (group : MessagingGroup) (c : ℕ) (id : Text)
    (event : InboundEvent) (user : Option Text) (text : Text) (host : Host)
    → wiring.engage_mode ≡ mention_sticky
    → effective_mode env.supports_threads wiring.session_mode group ≡ per_thread
    → group.is_group ≡ true
    → group.id ≡ c ∷ id
    → event.source.thread_id ≢ some []
    → evaluate_engage env wiring text false group event.source.thread_id
        (deliver_to_agent env wiring group event user false host).sessions
      ≡ true
unfolding deliver_to_agent
evaluate_engage-accumulated env wiring group c id event user text host sticky mode is_group named
      ne =
    sticky_follows env wiring text group event.source.thread_id _ sticky is_group ∙ found
  where
    session : Text
    session =
        (resolve_session (env.fresh_id host) env.now wiring.agent_group_id (some group.id)
          event.source.thread_id (effective_mode env.supports_threads wiring.session_mode group)
          host.sessions).session.id

    resolved : Host
    resolved = record host {
      sessions =
          (resolve_session (env.fresh_id host) env.now wiring.agent_group_id (some group.id)
            event.source.thread_id (effective_mode env.supports_threads wiring.session_mode group)
            host.sessions).sessions;
    }

    held :
        is_some (
          find_session_for_agent wiring.agent_group_id group.id event.source.thread_id
            resolved.sessions)
        ≡ true
    held =
        rw (mode, named)
          (resolved_found (env.fresh_id host) env.now wiring.agent_group_id c id
            event.source.thread_id host.sessions ne)

    found :
        is_some (
          find_session_for_agent wiring.agent_group_id group.id event.source.thread_id
            (deliver_to_agent env wiring group event user false host).sessions)
        ≡ true
    found =
        still_found wiring.agent_group_id group.id event.source.thread_id resolved
          (deliver_to_agent env wiring group event user false host)
          (deliver_to_session-sessions env wiring event user session resolved) held
