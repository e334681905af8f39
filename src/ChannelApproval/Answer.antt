-- ===== src/ChannelApproval/Answer.antt =====
-- `handleChannelApprovalResponse` of src/modules/permissions/index.ts: the answer to the card about a
-- chat without agents.
use paraclaw.Prelude.{
  Bool, true, false, not, ◌||◌, Text, lit, text_eq, Option, none, some, is_some, if◌then◌else◌,
}
use paraclaw.Json.{Json}
use paraclaw.Permissions.{Central, add_member, has_admin_privilege}
use paraclaw.Sessions.{shared}
use paraclaw.Router.{on_pattern, mention_sticky}
use paraclaw.SenderGate.{known, extract_and_upsert_user}
use paraclaw.SenderGate.Approval.{ResponsePayload, clicker}
use paraclaw.Channels.{WiringRow, create_messaging_group_agent, set_messaging_group_denied_at}
use paraclaw.Channels.Direct.{Draw}
use paraclaw.Inbound.{Inbound, Hooks, route_inbound}
use paraclaw.ChannelApproval.{
  PendingChannelApproval, Office, get_pending_channel_approval, delete_pending_channel_approval,
}

-- `JSON.parse` of a stored event and of a content, the hooks of the router, the ids and the time.
pub record Replay : Type 0 where
  pub parse_event : Text → Option Inbound
  pub parse : Text → Option Json
  pub hooks : Hooks
  pub draw : Draw

-- Whether the handler claims the response, or an error leaves it.
pub data Answer : Type 0 where
  claimed : Office → Answer
  passed : Office → Answer
  threw : Office → Answer

abbrev pub may_answer : Central → PendingChannelApproval → Option Text → Bool
may_answer db row none = false
may_answer db row (some user) =
    text_eq user row.approver_user_id || has_admin_privilege db.user_roles user row.agent_group_id

-- A thread counts as a group.
abbrev pub approved_wiring : Draw → PendingChannelApproval → Inbound → WiringRow
approved_wiring draw row inbound =
    let is_group = is_some inbound.event.source.thread_id in
    record {
      id = draw.wiring_id;
      messaging_group_id = row.messaging_group_id;
      agent_group_id = row.agent_group_id;
      engage_mode = if is_group then mention_sticky else on_pattern;
      engage_pattern = if is_group then none else some (lit ".");
      sender_scope = known;
      accumulates = true;
      session_mode = shared;
      priority = 0;
      created_at = draw.now;
    }

-- The refusal: the chat is marked, and the row goes.
unfoldable pub deny_channel : Text → PendingChannelApproval → Office → Office
unfolding set_messaging_group_denied_at delete_pending_channel_approval
deny_channel now row office = record office {
  state = record office.state {
    db = set_messaging_group_denied_at row.messaging_group_id (some now) office.state.db;
  };
  pending = delete_pending_channel_approval row.messaging_group_id office.pending;
}

-- The sender of the event becomes a member.
unfoldable pub admit_member :
    Replay → PendingChannelApproval → Option Text → Option Text → Central → Central
admit_member replay row approver none db = db
admit_member replay row approver (some user) db = record db {
  agent_group_members =
      add_member
        (record {
          user_id = user;
          agent_group_id = row.agent_group_id;
          added_by = approver;
          added_at = replay.draw.now;
        })
        db.agent_group_members;
}

-- The event is routed again; an error of the router is caught.
unfoldable pub replay_event : Replay → Inbound → Office → Office
replay_event replay inbound office = elim (route_inbound 2 replay.hooks inbound office.state) [
  | none ↦ office
  | some (state, failed) ↦ record office { state = state }
]

-- The part of an approval behind the new wiring.
unfoldable pub admit_and_replay :
    Replay → PendingChannelApproval → Option Text → Inbound → Office → Answer
unfolding admit_member replay_event
admit_and_replay replay row approver inbound office =
    elim (extract_and_upsert_user replay.parse inbound.event.content
      inbound.event.source.channel_type replay.draw.now office.central) [
        | none ↦ threw office
        | some (db, sender) ↦ claimed (
            replay_event replay inbound (record office {
              central = admit_member replay row approver sender db;
              pending = delete_pending_channel_approval row.messaging_group_id office.pending;
            }))
      ]

unfoldable pub approve_channel : Replay → PendingChannelApproval → Option Text → Office → Answer
unfolding admit_and_replay
approve_channel replay row approver office = elim (replay.parse_event row.original_message) [
  | none ↦ claimed (record office {
    pending = delete_pending_channel_approval row.messaging_group_id office.pending;
  })
  | some inbound ↦
      elim (create_messaging_group_agent (approved_wiring replay.draw row inbound)
        office.state.db) [
          | none ↦ threw office
          | some db ↦
              admit_and_replay replay row approver inbound
                (record office { state = record office.state { db = db } })
        ]
]

-- `handleChannelApprovalResponse`
unfoldable pub handle_channel_approval_response : Replay → ResponsePayload → Office → Answer
unfolding approve_channel deny_channel
handle_channel_approval_response replay payload office =
    elim (get_pending_channel_approval payload.question_id office.pending) [
      | none ↦ passed office
      | some row ↦
          if not (may_answer office.central row (clicker payload))
          then claimed office
          else if text_eq payload.value (lit "approve")
          then approve_channel replay row (clicker payload) office
          else claimed (deny_channel replay.draw.now row office)
    ]
