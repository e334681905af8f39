-- ===== src/ChannelApproval/Denied.antt =====
-- A chat that was denied stays silent.
use paraclaw.Prelude.{
  ℕ, suc, ◌≡◌, refl, ◌∙◌, true, false, Text, lit, text_eq, text_eq_refl, some, is_some, find?,
}
use paraclaw.ContainerDb.{non_empty}
use paraclaw.SenderGate.Approval.{ResponsePayload, clicker}
use paraclaw.Channels.{
  GroupRow, has_group_id, on_platform, set_messaging_group_denied_at,
  get_messaging_group_with_agent_count, get_messaging_group_by_platform,
}
use paraclaw.Inbound.{Inbound, Hooks, route_inbound}
use paraclaw.Inbound.Wired.{find?-update}
use paraclaw.Inbound.Quiet.{chat_of, denied, route_inbound_idle}
use paraclaw.Inbound.Trusted.{chat_lookup}
use paraclaw.ChannelApproval.{PendingChannelApproval, Office, get_pending_channel_approval}
use paraclaw.ChannelApproval.Answer.{
  Replay, claimed, may_answer, deny_channel, handle_channel_approval_response,
}

-- The chat after the denial.
chat_of-deny_channel :
    (now : Text) (row : PendingChannelApproval) (office : Office) (inbound : Inbound) (g : GroupRow)
    → chat_of inbound office.state ≡ some (g, 0)
    → g.id ≡ row.messaging_group_id
    → chat_of inbound (deny_channel now row office).state
      ≡ some (record g { denied_at = some now }, 0)
unfolding deny_channel set_messaging_group_denied_at get_messaging_group_with_agent_count
    get_messaging_group_by_platform
chat_of-deny_channel now row office inbound g chat same =
    let (found, none_wired) = chat_lookup inbound office.state g chat in
    let after : find?
          (on_platform inbound.event.source.channel_type inbound.event.source.platform_id)
          (deny_channel now row office).state.db.groups
        ≡ some (record g { denied_at = some now }) =
      find?-update (on_platform inbound.event.source.channel_type inbound.event.source.platform_id)
        (has_group_id row.messaging_group_id) _ office.state.db.groups g (λ r. refl) found
      ∙ rw (same, text_eq_refl row.messaging_group_id) refl in
    rw (get_messaging_group_with_agent_count, after, none_wired) refl

-- A denial holds: when the approver, or another admin of the agent group, answers the card about a chat
-- with anything but `approve`, the handler claims the answer, and from then on every event from the
-- chat, mention or not, leaves the host exactly as the answer left it, as long as no agent is wired
-- to the chat.
pub handle_channel_approval_response_denied :
    (replay : Replay) (payload : ResponsePayload) (office : Office) (row : PendingChannelApproval)
    (inbound : Inbound) (g : GroupRow) (more : ℕ) (hooks : Hooks)
    → get_pending_channel_approval payload.question_id office.pending ≡ some row
    → may_answer office.central row (clicker payload) ≡ true
    → text_eq payload.value (lit "approve") ≡ false
    → is_some (non_empty (some replay.draw.now)) ≡ true
    → chat_of inbound office.state ≡ some (g, 0)
    → g.id ≡ row.messaging_group_id
    → (after : Office) × (handle_channel_approval_response replay payload office ≡ claimed after)
      × (route_inbound (suc more) hooks inbound after.state ≡ some (after.state, false))
unfolding handle_channel_approval_response
handle_channel_approval_response_denied replay payload office row inbound g more hooks found may
      value dated chat same =
    (
      deny_channel replay.draw.now row office,
      rw (handle_channel_approval_response, found, may, value) refl,
      route_inbound_idle more hooks inbound (deny_channel replay.draw.now row office).state (
          denied (record g { denied_at = some replay.draw.now })
            (chat_of-deny_channel replay.draw.now row office inbound g chat same) dated),
    )
