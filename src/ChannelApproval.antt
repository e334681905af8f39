-- ===== src/ChannelApproval.antt =====
-- src/modules/permissions/channel-approval.ts with db/pending-channel-approvals.ts beside it: the card
-- that asks an owner about a chat without agents. Between its check and its insertion the request
-- waits for the direct chat of the approver, so that it is split there: `prepare` and `conclude`.
pub mod Answer
pub mod Once
pub mod Denied
mod Tests
use paraclaw.Prelude.{
  Bool, true, false, not, Text, lit, text_eq, Option, none, some, get_or, is_some, List, [], ◌∷◌,
  ◌++◌, filter, find?, any, if◌then◌else◌,
}
use paraclaw.ContainerDb.{non_empty}
use paraclaw.PlatformId.{decode_platform_id_as}
use paraclaw.Permissions.{Central}
use paraclaw.Approvals.{UserDms, Target, pick_approver, pick_approval_delivery}
use paraclaw.Channels.{GroupRow, AgentGroup, get_messaging_group}
use paraclaw.Inbound.{State, Inbound, get_all_agent_groups}

-- A row of pending_channel_approvals.
pub record PendingChannelApproval : Type 0 where
  pub messaging_group_id : Text
  pub agent_group_id : Text
  pub original_message : Text
  pub approver_user_id : Text
  pub created_at : Text
  pub title : Text
  pub options_json : Text

abbrev pub is_for : Text → PendingChannelApproval → Bool
is_for group row = text_eq row.messaging_group_id group

-- `createPendingChannelApproval`: ON CONFLICT DO NOTHING; the flag is `changes > 0`.
unfoldable pub create_pending_channel_approval :
    PendingChannelApproval → List PendingChannelApproval → Bool × List PendingChannelApproval
create_pending_channel_approval row rows =
    if any (is_for row.messaging_group_id) rows then (false, rows) else (true, rows ++ (row ∷ []))

unfoldable pub get_pending_channel_approval :
    Text → List PendingChannelApproval → Option PendingChannelApproval
get_pending_channel_approval group rows = find? (is_for group) rows

unfoldable pub has_in_flight_channel_approval : Text → List PendingChannelApproval → Bool
has_in_flight_channel_approval group rows = any (is_for group) rows

unfoldable pub delete_pending_channel_approval :
    Text → List PendingChannelApproval → List PendingChannelApproval
delete_pending_channel_approval group = filter (λ r. not (is_for group r))

-- A card, with the chat that it is delivered to.
pub record Card : Type 0 where
  pub chat : Text
  pub question_id : Text
  pub title : Text
  pub question : Text

-- What the module calls but does not define: the direct chats of the approvers, whether there is a
-- delivery adapter and takes a card, JSON.stringify of an event and of the options, the sender's
-- name in an event, and the time.
pub record Surroundings : Type 0 where
  pub dms : UserDms
  pub adapter : Option (Card → Bool)
  pub stringify : Inbound → Text
  pub options_json : Text
  pub sender_name : Inbound → Option Text
  pub now : Text

-- The host's state, with users and roles, the pending rows, and the cards that were delivered.
pub record Office : Type 0 where
  pub state : State
  pub central : Central
  pub pending : List PendingChannelApproval
  pub cards : List Card

abbrev pub channel_of : Option GroupRow → Text
channel_of none = []
channel_of (some g) = g.channel_type

-- The origin bot; null and no chat are the empty text.
abbrev pub bot_of : Option GroupRow → Text
bot_of none = []
bot_of (some g) = get_or (decode_platform_id_as g.platform_id).bot_id []

-- `originMg?.is_group === 1`
abbrev pub stored_flag : Option GroupRow → Bool
stored_flag none = false
stored_flag (some g) = g.is_group

abbrev pub title_of : Bool → Text
title_of true = lit "📣 Bot mentioned in new chat"
title_of false = lit "💬 New direct message"

-- The text of the card.
abbrev pub question_of : Bool → Option Text → Text → Text → Text
question_of true (some name) channel agent =
    name
    ++ (lit " mentioned your agent in a "
        ++ (channel ++ (lit " channel. Wire it to " ++ (agent ++ lit " and let it engage?"))))
question_of true none channel agent =
    lit "Your agent was mentioned in a "
    ++ (channel ++ (lit " channel. Wire it to " ++ (agent ++ lit " and let it engage?")))
question_of false (some name) channel agent =
    name
    ++ (lit " DM'd your agent on "
        ++ (channel ++ (lit ". Wire it to " ++ (agent ++ lit " and let it respond?"))))
question_of false none channel agent =
    lit "Someone DM'd your agent on "
    ++ (channel ++ (lit ". Wire it to " ++ (agent ++ lit " and let it respond?")))

-- `appendFallbackNotice`; a bot id that is null is the empty text.
unfoldable pub append_fallback_notice : Text → Bool → Text → Text
append_fallback_notice question false bot = question
append_fallback_notice question true bot =
    question
    ++ (lit "\n\n_Routed via your default approval bot"
        ++ (hint ++ lit ". Change in /agent/settings/approvals._"))
  where
    hint : Text
    hint = elim (non_empty (some bot)) [
      | none ↦ []
      | some b ↦ lit " (inbound bot " ++ (b ++ lit ")")
    ]

-- The row and the card, once an approver's chat is known.
pub record Plan : Type 0 where
  pub row : PendingChannelApproval
  pub card : Card

unfoldable pub plan_for :
    Surroundings → Text → Inbound → Option GroupRow → AgentGroup → Target → Plan
unfolding append_fallback_notice
plan_for around group inbound origin target delivery =
    let is_group = get_or inbound.is_group (stored_flag origin) in
    let title = title_of is_group in
    record {
      row = record {
        messaging_group_id = group;
        agent_group_id = target.id;
        original_message = around.stringify inbound;
        approver_user_id = delivery.user_id;
        created_at = around.now;
        title = title;
        options_json = around.options_json;
      };
      card = record {
        chat = delivery.messaging_group;
        question_id = group;
        title = title;
        question =
            append_fallback_notice
              (question_of is_group (non_empty (around.sender_name inbound)) (channel_of origin)
                target.name)
              delivery.via_fallback_bot (bot_of origin);
      };
    }

-- `requestChannelApproval` up to the chat of the approver; `none` where it returns early.
unfoldable pub prepare : Surroundings → Text → Inbound → Office → Option Plan
unfolding has_in_flight_channel_approval plan_for
prepare around group inbound office =
    if has_in_flight_channel_approval group office.pending
    then none
    else elim (get_all_agent_groups office.state.db.agents) [
      | [] ↦ none
      | target ∷ _ ↦ elim (pick_approver (some target.id) office.central.user_roles) [
        | [] ↦ none
        | a ∷ approvers ↦
            let origin = get_messaging_group group office.state.db in
            elim (pick_approval_delivery around.dms (a ∷ approvers) (channel_of origin)
              (bot_of origin)) [
                | none ↦ none
                | some delivery ↦ some (plan_for around group inbound origin target delivery)
              ]
      ]
    ]

abbrev pub deliver_card : Option (Card → Bool) → Card → List Card → List Card
deliver_card none card cards = cards
deliver_card (some takes) card cards = if takes card then cards ++ (card ∷ []) else cards

-- The rest of `requestChannelApproval`.
unfoldable pub conclude : Surroundings → Plan → Office → Office
unfolding create_pending_channel_approval
conclude around plan office =
    let (inserted, rows) = create_pending_channel_approval plan.row office.pending in
    if not inserted then office else record office {
      pending = rows;
      cards = deliver_card around.adapter plan.card office.cards;
    }

-- `requestChannelApproval`, run without a break
unfoldable pub request_channel_approval : Surroundings → Text → Inbound → Office → Office
unfolding prepare conclude
request_channel_approval around group inbound office = elim (prepare around group inbound office) [
  | none ↦ office
  | some plan ↦ conclude around plan office
]
