-- ===== src/Delivery.antt =====
-- src/delivery.ts: draining a session's messages_out. What a poll meets outside the code is in
-- `World`: the results of the channel adapter, of the registered system actions and of the
-- agent-to-agent write. The log lines, the typing pause and the outbox files are left out.
pub mod Retry
pub mod Drain
pub mod Once
pub mod Authorised
pub mod Inflight
mod Tests
use paraclaw.Prelude.{
  ℕ, ◌+◌, Bool, true, false, not, ◌&&◌, ◌||◌, Text, lit, text_eq, Option, none, some, get_or,
  is_some, List, [], ◌∷◌, ◌++◌, filter, find?, any, leb, if◌then◌else◌,
}
use paraclaw.Json
use paraclaw.Json.{Json, Items, truthy}
use paraclaw.SessionDb.{MessageOut, Delivered, is_delivered, mark_delivered, mark_delivery_failed}
use paraclaw.ContainerDb.{non_empty}

-- The columns of sessions, messaging_groups and agent_destinations that delivery reads.
pub record Session : Type 0 where
  pub id : Text
  pub agent_group_id : Text
  pub messaging_group_id : Option Text

pub record MessagingGroup : Type 0 where
  pub id : Text
  pub channel_type : Text
  pub platform_id : Text

pub data TargetType : Type 0 where
  channel agent : TargetType

abbrev pub target_eq : TargetType → TargetType → Bool
target_eq channel channel = true
target_eq agent agent = true
target_eq _ _ = false

pub record Destination : Type 0 where
  pub agent_group_id : Text
  pub local_name : Text
  pub target_type : TargetType
  pub target_id : Text

-- `destinations` is `none` where there is no table agent_destinations.
pub record World : Type 0 where
  pub has_adapter : Bool
  pub parse : Text → Option Json
  pub deliver : MessageOut → Option (Option Text)
  pub run_action : Json → Bool
  pub messaging_groups : List MessagingGroup
  pub destinations : Option (List Destination)
  pub agent_groups : List Text
  pub write_to_agent : MessageOut → Bool
  pub has_approvals : Bool
  pub is_due : MessageOut → Bool
  pub is_before : Text → Text → Bool

-- What reaches something outside, with the message that caused it.
pub data Effect : Type 0 where
  sent : MessageOut → Effect
  acted : MessageOut → Effect
  routed : MessageOut → Effect
  asked : MessageOut → Effect

abbrev pub effect_message : Effect → MessageOut
effect_message (sent m) = m
effect_message (acted m) = m
effect_message (routed m) = m
effect_message (asked m) = m

-- A call's effects, and its result: `none` where it throws.
pub record Attempt : Type 0 where
  pub effects : List Effect
  pub result : Option (Option Text)

abbrev throws : Attempt
throws = record { effects = []; result = none }

abbrev returns_nothing : Attempt
returns_nothing = record { effects = []; result = some none }

-- `hasDestination`, and the query in `deliverMessage`
unfoldable pub has_destination : List Destination → Text → TargetType → Text → Bool
has_destination rows group type target =
    any
      (λ d.
        text_eq d.agent_group_id group
        && (target_eq d.target_type type && text_eq d.target_id target))
      rows

-- `getMessagingGroupByPlatform`
unfoldable pub group_by_platform : List MessagingGroup → Text → Text → Option MessagingGroup
group_by_platform rows channel_type platform_id =
    find? (λ g. text_eq g.channel_type channel_type && text_eq g.platform_id platform_id) rows

abbrev pub is_origin : Session → MessagingGroup → Bool
is_origin session mg = elim session.messaging_group_id [ none ↦ false | some id ↦ text_eq id mg.id ]

-- `!isOriginChat && hasTable(…)` and no row
abbrev pub may_send_to : World → Session → MessagingGroup → Bool
may_send_to w session mg = is_origin session mg || (elim w.destinations [
  | none ↦ true
  | some rows ↦ has_destination rows session.agent_group_id channel mg.id
])

-- The permission check for a channel destination; false where it throws.
unfoldable pub channel_allowed : World → Session → Option Text → Option Text → Bool
channel_allowed w session (some channel_type) (some platform_id) =
    elim (group_by_platform w.messaging_groups channel_type platform_id) [
      | none ↦ false
      | some mg ↦ may_send_to w session mg
    ]
channel_allowed w session _ _ = true

-- `hasDestination` throws where its table is missing.
abbrev pub knows_agent : Option (List Destination) → Text → Text → Bool
knows_agent none group target = false
knows_agent (some rows) group target = has_destination rows group agent target

-- the guards of `routeAgentMessage`, then the write to the target's session
unfoldable pub route_agent_message : World → Session → MessageOut → Attempt
route_agent_message w session msg = elim (non_empty msg.platform_id) [
  | none ↦ throws
  | some target ↦
      if not (text_eq target session.agent_group_id)
        && not (knows_agent w.destinations session.agent_group_id target)
      then throws
      else if not (any (λ g. text_eq g target) w.agent_groups)
      then throws
      else if w.write_to_agent msg
      then record { effects = routed msg ∷ []; result = some none }
      else throws
]

-- `normalizeOptions` reads a property of each option, which null has none of.
abbrev pub no_null : Items → Bool
no_null Items.nil = true
no_null (Items.cons Json.null xs) = false
no_null (Items.cons _ xs) = no_null xs

-- What persisting the question does: `none` throws, `some false` stores nothing.
question_of : Option Json → Option Json → Option Bool
question_of (some title) (some (Json.arr options)) =
    if not (truthy title) then some false else if no_null options then some true else none
question_of _ _ = some false

abbrev get_truthy : Json → Text → Bool
get_truthy v k = elim (Json.get v k) [ none ↦ false | some w ↦ truthy w ]

abbrev is_ask_question : Option Json → Bool
is_ask_question (some (Json.str s)) = text_eq s (lit "ask_question")
is_ask_question _ = false

unfoldable pub persist_question : World → Json → Option Bool
unfolding question_of
persist_question w Json.null = none
persist_question w content =
    if is_ask_question (Json.get content (lit "type"))
      && (get_truthy content (lit "questionId") && w.has_approvals)
    then question_of (Json.get content (lit "title")) (Json.get content (lit "options"))
    else some false

-- the delivery to the channel, behind the question
send : World → Option Text → Option Text → MessageOut → List Effect → Attempt
send w (some channel_type) (some platform_id) msg before = elim (w.deliver msg) [
  | none ↦ record { effects = before ++ sent msg ∷ []; result = none }
  | some id ↦ record { effects = before ++ sent msg ∷ []; result = some id }
]
send w _ _ msg before = record { effects = before; result = some none }

unfoldable pub deliver_to_channel : World → Session → MessageOut → Json → Attempt
unfolding send
deliver_to_channel w session msg content =
    if not (channel_allowed w session (non_empty msg.channel_type) (non_empty msg.platform_id))
    then throws
    else elim (persist_question w content) [
      | none ↦ throws
      | some true ↦
          send w (non_empty msg.channel_type) (non_empty msg.platform_id) msg (asked msg ∷ [])
      | some false ↦ send w (non_empty msg.channel_type) (non_empty msg.platform_id) msg []
    ]

-- `handleSystemAction`
handle_system_action : World → MessageOut → Json → Attempt
handle_system_action w msg Json.null = throws
handle_system_action w msg content =
    if w.run_action content
    then record { effects = acted msg ∷ []; result = some none }
    else record { effects = acted msg ∷ []; result = none }

abbrev is_agent : Option Text → Bool
is_agent none = false
is_agent (some t) = text_eq t (lit "agent")

-- `deliverMessage`
unfoldable pub deliver_message : World → Session → MessageOut → Attempt
unfolding handle_system_action
deliver_message w session msg =
    if not w.has_adapter then returns_nothing else elim (w.parse msg.content) [
      | none ↦ throws
      | some content ↦
          if text_eq msg.kind (lit "system")
          then handle_system_action w msg content
          else if is_agent msg.channel_type
          then (elim w.destinations [
            | none ↦ throws
            | some rows ↦ route_agent_message w session msg
          ])
          else deliver_to_channel w session msg content
    ]
