-- ===== src/Inbound.antt =====
-- `routeInbound` of src/router.ts, the whole of it, with src/db/dropped-messages.ts: from the event of
-- a channel adapter to the fan-out, or to the approval of a chat that no agent is wired to.
pub mod Ends
pub mod Quiet
pub mod Wired
pub mod Trusted
mod Tests
use paraclaw.Prelude.{
  ℕ, zero, suc, ◌+◌, Bool, true, false, not, ◌&&◌, ◌||◌, Text, lit, text_eq, Option, none, some,
  is_some, get_or, List, [], ◌∷◌, ◌++◌, map, any, update, if◌then◌else◌,
}
use paraclaw.ContainerDb.{non_empty}
use paraclaw.PlatformId.{decode_platform_id_as}
use paraclaw.Approvals.{text_before}
use paraclaw.SenderGate.{strict, request_approval}
use paraclaw.TrustHint.{Hints, consume_trust_hint}
use paraclaw.Router.{Env, Wiring, MessagingGroup, Address, InboundEvent, Host}
use paraclaw.Router.Fanout.{fan_out}
use paraclaw.Channels.{
  Channels, GroupRow, WiringRow, AgentGroup, create_messaging_group,
  get_messaging_group_with_agent_count, get_messaging_group_agents, update_messaging_group,
}
use paraclaw.Channels.Direct.{ChannelKind, discord, telegram, Draw, wire_dm_to_agent}

pub data DropReason : Type 0 where
  no_agent_wired no_agent_engaged : DropReason

-- A row of unregistered_senders.
pub record Dropped : Type 0 where
  pub channel_type : Text
  pub platform_id : Text
  pub user_id : Option Text
  pub sender_name : Option Text
  pub reason : DropReason
  pub messaging_group_id : Option Text
  pub agent_group_id : Option Text
  pub message_count : ℕ
  pub first_seen : Text
  pub last_seen : Text

-- `COALESCE(a, b)`
abbrev pub coalesce : Option Text → Option Text → Option Text
coalesce (some a) b = some a
coalesce none b = b

abbrev pub same_chat : Dropped → Dropped → Bool
same_chat d r = text_eq r.channel_type d.channel_type && text_eq r.platform_id d.platform_id

-- `recordDroppedMessage`; `d` is the row that it would insert.
unfoldable pub record_dropped_message : Dropped → List Dropped → List Dropped
record_dropped_message d rows =
    if any (same_chat d) rows
    then update (same_chat d)
        (λ r. record r {
          user_id = coalesce d.user_id r.user_id;
          sender_name = coalesce d.sender_name r.sender_name;
          reason = d.reason;
          message_count = r.message_count + 1;
          last_seen = d.last_seen;
        })
        rows
    else rows ++ (d ∷ [])

-- What the host keeps and this function changes; `requested` are the chats handed to the
-- channel-request gate, in order.
pub record State : Type 0 where
  pub db : Channels
  pub hints : Hints
  pub dropped : List Dropped
  pub requested : List Text
  pub host : Host

-- An event with what `safeParseContent` finds in it; `is_group` is the optional `message.isGroup`.
pub record Inbound : Type 0 where
  pub event : InboundEvent
  pub is_group : Option Bool
  pub sender : Option Text
  pub sender_id : Option Text

-- What the router calls but does not define: the surroundings of the fan-out for a user and a chat,
-- the sender resolver, the thread policy of the event's adapter (false where it collapses threads),
-- the clocks of `Date.now()` (by the rounds left) and of `toISOString`, the random ids, and whether
-- a channel-request gate is registered.
pub record Hooks : Type 0 where
  pub env : Option Text → GroupRow → Env
  pub resolve : InboundEvent → Option Text
  pub keeps_threads : Bool
  pub clock : ℕ → ℕ
  pub draw : ℕ → Draw
  pub has_gate : Bool

abbrev pub group_of : GroupRow → MessagingGroup
group_of g = record { id = g.id; is_group = g.is_group }

abbrev pub wiring_of : WiringRow → Wiring
wiring_of w = record {
  agent_group_id = w.agent_group_id;
  engage_mode = w.engage_mode;
  engage_pattern = w.engage_pattern;
  session_mode = w.session_mode;
  accumulates = w.accumulates;
}

-- The thread policy at the head.
unfoldable pub collapse_thread : Bool → InboundEvent → InboundEvent
collapse_thread true event = event
collapse_thread false event = record event { source = record event.source { thread_id = none } }

abbrev pub dropped_row : DropReason → Text → Inbound → Option Text → GroupRow → Dropped
dropped_row reason now inbound user g = record {
  channel_type = inbound.event.source.channel_type;
  platform_id = inbound.event.source.platform_id;
  user_id = user;
  sender_name = inbound.sender;
  reason = reason;
  messaging_group_id = some g.id;
  agent_group_id = none;
  message_count = 1;
  first_seen = now;
  last_seen = now;
}

-- ORDER BY name
unfoldable pub insert_by_name : AgentGroup → List AgentGroup → List AgentGroup
insert_by_name a [] = a ∷ []
insert_by_name a (b ∷ rows) =
    let later = insert_by_name a rows in
    if text_before a.name b.name then a ∷ b ∷ rows else b ∷ later

-- `getAllAgentGroups`
unfoldable pub get_all_agent_groups : List AgentGroup → List AgentGroup
unfolding insert_by_name
get_all_agent_groups [] = []
get_all_agent_groups (a ∷ rows) = insert_by_name a (get_all_agent_groups rows)

-- The cast `as 'discord' | 'telegram'`
abbrev pub kind_of : Text → Option ChannelKind
kind_of channel =
    if text_eq channel (lit "discord")
    then some discord
    else if text_eq channel (lit "telegram")
    then some telegram
    else none

-- The part for a wired chat: sender resolution, fan-out, and the record of a message that no agent took.
unfoldable pub route_wired : Hooks → Text → Inbound → GroupRow → State → State
unfolding record_dropped_message
route_wired hooks now inbound g s =
    let user = hooks.resolve inbound.event in
    let (host, taken) =
      fan_out (hooks.env user g) (group_of g) inbound.event user
        (map wiring_of (get_messaging_group_agents g.id s.db)) s.host in
    if taken then record s { host = host } else record s {
      host = host;
      dropped = record_dropped_message (dropped_row no_agent_engaged now inbound user g) s.dropped;
    }

-- The escalation of a chat without agents.
unfoldable pub escalate : Hooks → Text → Inbound → GroupRow → State → State
unfolding record_dropped_message
escalate hooks now inbound g s = record s {
  dropped = record_dropped_message (dropped_row no_agent_wired now inbound none g) s.dropped;
  requested = if hooks.has_gate then s.requested ++ (g.id ∷ []) else s.requested;
}

-- The lookup of a trust hint: needs a bot id in the platform id and a sender; with the Map it leaves.
unfoldable pub ask_hint : ℕ → Inbound → Hints → Hints × Bool
ask_hint now inbound hints =
    elim (non_empty (decode_platform_id_as inbound.event.source.platform_id).bot_id) [
      | none ↦ (hints, false)
      | some bot ↦ elim (non_empty inbound.sender_id) [
        | none ↦ (hints, false)
        | some sender ↦ consume_trust_hint inbound.event.source.channel_type bot sender now hints
      ]
    ]

-- The wiring that a trust hint sets off; `none` is an error of `wireDmToAgent`.
unfoldable pub wire_trusted : Draw → Inbound → AgentGroup → GroupRow → Channels → Option Channels
wire_trusted draw inbound target g db =
    let relaxed =
      update_messaging_group g.id (record { name = none; is_group = none; policy = some strict })
        db in
    let ids = decode_platform_id_as inbound.event.source.platform_id in
    elim (kind_of inbound.event.source.channel_type) [
      | none ↦ none
      | some kind ↦ elim ids.bot_id [
        | none ↦ none
        | some bot ↦ elim (wire_dm_to_agent draw kind target.id bot ids.native none relaxed) [
          | none ↦ none
          | some (result, after) ↦ some after
        ]
      ]
    ]

-- What becomes of an unwired, mentioned event: an end, or another round with the state given.
pub data Next : Type 0 where
  done : State → Next
  failed : State → Next
  again : State → Next

unfoldable pub route_unwired : Hooks → ℕ → Text → Inbound → GroupRow → State → Next
unfolding escalate ask_hint wire_trusted
route_unwired hooks left now inbound g s =
    if is_some (non_empty g.denied_at)
    then done s
    else let (hints, trusted) = ask_hint (hooks.clock left) inbound s.hints in
      let asked : State = record s { hints = hints } in
      if not trusted
      then done (escalate hooks now inbound g asked)
      else elim (get_all_agent_groups s.db.agents) [
        | [] ↦ done (escalate hooks now inbound g asked)
        | target ∷ _ ↦ elim (wire_trusted (hooks.draw left) inbound target g s.db) [
          | none ↦ failed (record asked {
            db =
                update_messaging_group g.id
                  (record { name = none; is_group = none; policy = some strict }) s.db;
          })
          | some db ↦ again (record asked { db = db })
        ]
      ]

abbrev pub auto_group : Draw → Inbound → GroupRow
auto_group draw inbound = record {
  id = draw.group_id;
  channel_type = inbound.event.source.channel_type;
  platform_id = inbound.event.source.platform_id;
  name = none;
  is_group = get_or inbound.is_group false;
  policy = request_approval;
  denied_at = none;
  created_at = draw.now;
}

-- One round of `routeInbound`, up to its call of itself.
unfoldable pub route_once : Hooks → ℕ → Inbound → State → Next
unfolding route_unwired route_wired collapse_thread
route_once hooks left raw s =
    let inbound : Inbound = record raw { event = collapse_thread hooks.keeps_threads raw.event } in
    let now = (hooks.draw left).now in
    let source = inbound.event.source in
    elim (get_messaging_group_with_agent_count source.channel_type source.platform_id s.db) [
      | none ↦
          if not inbound.event.is_mention
          then done s
          else let g = auto_group (hooks.draw left) inbound in
            elim (create_messaging_group g s.db) [
              | none ↦ failed s
              | some db ↦ route_unwired hooks left now inbound g (record s { db = db })
            ]
      | some (g, zero) ↦
          if not inbound.event.is_mention then done s else route_unwired hooks left now inbound g s
      | some (g, suc n) ↦ done (route_wired hooks now inbound g s)
    ]

-- `routeInbound` with a bound on its calls of itself; `none` where the bound is met. The flag tells a
-- run that threw.
unfoldable pub route_inbound : ℕ → Hooks → Inbound → State → Option (State × Bool)
unfolding route_once
route_inbound zero hooks inbound s = none
route_inbound (suc left) hooks inbound s = elim (route_once hooks left inbound s) [
  | done t ↦ some (t, false)
  | failed t ↦ some (t, true)
  | again t ↦ route_inbound left hooks inbound t
]
