-- ===== src/Inbound/Quiet.antt =====
-- Messages that leave no trace.
use paraclaw.Prelude.{
  ℕ, suc, ◌≡◌, refl, Bool, true, false, Option, none, some, is_some, Bool-cases, inl, inr,
}
use paraclaw.ContainerDb.{non_empty}
use paraclaw.Router.{InboundEvent}
use paraclaw.Channels.{GroupRow, get_messaging_group_with_agent_count}
use paraclaw.Inbound.{
  State, Inbound, Hooks, collapse_thread, route_unwired, route_once, route_inbound,
}

pub mention-collapse_thread :
    (keeps : Bool) (event : InboundEvent)
    → (collapse_thread keeps event).is_mention ≡ event.is_mention
unfolding collapse_thread
mention-collapse_thread true event = refl
mention-collapse_thread false event = refl

-- The chat of the event and the number of its agents.
abbrev pub chat_of : Inbound → State → Option (GroupRow × ℕ)
chat_of inbound s =
    get_messaging_group_with_agent_count inbound.event.source.channel_type
      inbound.event.source.platform_id s.db

pub chat_of-collapse_thread :
    (keeps : Bool) (raw : Inbound) (s : State)
    → chat_of (record raw { event = collapse_thread keeps raw.event }) s ≡ chat_of raw s
unfolding collapse_thread
chat_of-collapse_thread true raw s = refl
chat_of-collapse_thread false raw s = refl

-- No agent is wired to the chat, and the bot was not addressed or an owner has denied the chat.
pub data IsIdle (inbound : Inbound) (s : State) : Type 0 where
  unknown : chat_of inbound s ≡ none → inbound.event.is_mention ≡ false → IsIdle inbound s
  unwired :
      (g : GroupRow)
      → chat_of inbound s ≡ some (g, 0)
      → inbound.event.is_mention ≡ false
      → IsIdle inbound s
  denied :
      (g : GroupRow)
      → chat_of inbound s ≡ some (g, 0)
      → is_some (non_empty g.denied_at) ≡ true
      → IsIdle inbound s

-- Chatter around a bot that nobody wired leaves no trace: when no agent is wired to the chat of an
-- event, and the event does not mention the bot or the chat was denied by an owner, `routeInbound`
-- changes nothing: no chat is created, no drop recorded, nobody is asked, no hint is used up, no
-- session is touched.
pub route_inbound_idle :
    (more : ℕ) (hooks : Hooks) (inbound : Inbound) (s : State)
    → IsIdle inbound s
    → route_inbound (suc more) hooks inbound s ≡ some (s, false)
unfolding route_inbound route_once route_unwired
route_inbound_idle more hooks inbound s (unknown chat quiet) =
    rw
      (
        route_inbound,
        route_once,
        chat_of-collapse_thread hooks.keeps_threads inbound s,
        chat,
        mention-collapse_thread hooks.keeps_threads inbound.event,
        quiet,
      )
      refl
route_inbound_idle more hooks inbound s (unwired g chat quiet) =
    rw
      (
        route_inbound,
        route_once,
        chat_of-collapse_thread hooks.keeps_threads inbound s,
        chat,
        mention-collapse_thread hooks.keeps_threads inbound.event,
        quiet,
      )
      refl
route_inbound_idle more hooks inbound s (denied g chat refused) =
    elim (Bool-cases inbound.event.is_mention) [
      | inl mention ↦
          rw
            (
              route_inbound,
              route_once,
              chat_of-collapse_thread hooks.keeps_threads inbound s,
              chat,
              mention-collapse_thread hooks.keeps_threads inbound.event,
              mention,
              route_unwired,
              refused,
            )
            refl
      | inr quiet ↦
          rw
            (
              route_inbound,
              route_once,
              chat_of-collapse_thread hooks.keeps_threads inbound s,
              chat,
              mention-collapse_thread hooks.keeps_threads inbound.event,
              quiet,
            )
            refl
    ]
