-- ===== src/Router.antt =====
-- src/router.ts with `writeSessionMessage` and `writeOutboundDirect` of src/session-manager.ts: what an
-- inbound event does to the sessions of the agents that are wired to its messaging group.
pub mod Fanout
pub mod Replay
pub mod Engage
pub mod Gate
pub mod Direct
mod Tests
use paraclaw.Prelude.{
  ℕ, ◌+◌, Bool, true, false, not, ◌&&◌, ◌||◌, Text, lit, text_eq, has, Option, none, some, get_or,
  is_some, List, [], ◌∷◌, ◌++◌, any, update, max_of, if◌then◌else◌, ◌==◌,
}
use paraclaw.Json.{Json}
use paraclaw.Permissions.{UserRole}
use paraclaw.CommandGate.{GateResult, gate_command}
use paraclaw.SessionDb.{MessageIn, MessageOut, NewMessage, insert_message}
use paraclaw.Sessions.{
  Session, SessionMode, shared, per_thread, agent_shared, get_session, find_session_for_agent,
  touch_session, resolve_session,
}

pub data EngageMode : Type 0 where
  on_pattern on_mention mention_sticky : EngageMode

-- A row of messaging_group_agents; `accumulates` is `ignored_message_policy === 'accumulate'`.
pub record Wiring : Type 0 where
  pub agent_group_id : Text
  pub engage_mode : EngageMode
  pub engage_pattern : Option Text
  pub session_mode : SessionMode
  pub accumulates : Bool

-- A row of messaging_groups, as far as the fan-out reads it.
pub record MessagingGroup : Type 0 where
  pub id : Text
  pub is_group : Bool

pub record Address : Type 0 where
  pub channel_type : Text
  pub platform_id : Text
  pub thread_id : Option Text

-- `InboundEvent`; `text` is what `safeParseContent` finds in the content.
pub record InboundEvent : Type 0 where
  pub source : Address
  pub message_id : Option Text
  pub kind : Text
  pub timestamp : Text
  pub content : Text
  pub text : Text
  pub is_mention : Bool
  pub reply_to : Option Address

-- What the host keeps: the table sessions, each session's messages_in and messages_out, and, in
-- order, the sessions whose containers were woken.
pub record Host : Type 0 where
  pub sessions : List Session
  pub inbox : Text → List MessageIn
  pub outbox : Text → List MessageOut
  pub woken : List Text

-- What the router calls but does not define: `JSON.parse` and `RegExp` (`none` where they throw),
-- the attachment files (the content that is left), ids and clock, the hooks of the permissions
-- module, and the adapter's thread policy.
pub record Env : Type 0 where
  pub parse : Text → Option Json
  pub matches : Text → Text → Option Bool
  pub extract : Text → Text → Text
  pub fresh_id : Host → Text
  pub now : ℕ
  pub timestamp : Text
  pub roles : Option (List UserRole)
  pub access_ok : Text → Bool
  pub scope_ok : Wiring → Bool
  pub group_exists : Text → Bool
  pub supports_threads : Bool

-- `evaluateEngage`
unfoldable pub evaluate_engage :
    Env → Wiring → Text → Bool → MessagingGroup → Option Text → List Session → Bool
evaluate_engage env wiring text is_mention group thread sessions = elim wiring.engage_mode [
  | on_pattern ↦
      let pattern_text = get_or wiring.engage_pattern (lit ".") in
      if text_eq pattern_text (lit ".") then true else get_or (env.matches pattern_text text) true
  | on_mention ↦ is_mention
  | mention_sticky ↦
      if is_mention
      then true
      else if not group.is_group
      then false
      else is_some (find_session_for_agent wiring.agent_group_id group.id thread sessions)
]

-- the thread policy at the head of `deliverToAgent`
abbrev pub effective_mode : Bool → SessionMode → MessagingGroup → SessionMode
effective_mode threads agent_shared group = agent_shared
effective_mode threads mode group = if threads && group.is_group then per_thread else mode

-- `messageIdForAgent`
unfoldable pub message_id_for_agent : Text → Option Text → Text → Text
message_id_for_agent generated (some (c ∷ id)) agent = (c ∷ id) ++ (lit ":" ++ agent)
message_id_for_agent generated _ agent = generated ++ (lit ":" ++ agent)

abbrev pub put {ℓ} : {A : Type ℓ} → Text → A → (Text → A) → Text → A
put key value f k = if text_eq k key then value else f k

-- UPDATE messages_in SET content = ? WHERE id = ?
abbrev pub set_content : Text → Text → List MessageIn → List MessageIn
set_content id content rows =
    update (λ r. text_eq r.id id) (λ r. record r { content = content }) rows

-- `writeSessionMessage`. `insertMessage` violates no key (`SessionDb.Insert`), so its error is not
-- passed on here.
unfoldable pub write_session_message : Env → Text → NewMessage → Host → Host
write_session_message env session message host =
    elim (insert_message message (host.inbox session)) [
      | none ↦ host
      | some (rows, inserted) ↦
          if inserted
          then record host {
            inbox =
                put session (set_content message.id (env.extract message.id message.content) rows)
                  host.inbox;
            sessions = touch_session session env.timestamp host.sessions;
          }
          else host
    ]

-- `writeOutboundDirect`: INSERT OR IGNORE under COALESCE(MAX(seq), 0) + 2
unfoldable pub write_outbound_direct :
    Text → Text → Address → Text → List MessageOut → List MessageOut
write_outbound_direct id timestamp addr content rows =
    if any (λ o. text_eq o.id id) rows
    then rows
    else rows
      ++ (record {
        id = id;
        seq = max_of (λ o. o.seq) rows + 2;
        in_reply_to = none;
        timestamp = timestamp;
        deliver_after = none;
        recurrence = none;
        kind = lit "chat";
        platform_id = some addr.platform_id;
        channel_type = some addr.channel_type;
        thread_id = addr.thread_id;
        content = content;
      })
        ∷ []
