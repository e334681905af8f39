-- ===== src/SenderGate/Approval.antt =====
-- `handleSenderApprovalResponse` of src/modules/permissions/index.ts, with the statements of
-- src/modules/permissions/db/pending-sender-approvals.ts: the answer to the card about a stranger.
use paraclaw.Prelude.{
  Bool, true, false, not, ◌||◌, Text, lit, text_eq, Option, none, some, List, [], ◌∷◌, ◌++◌, filter,
  find?, update, if◌then◌else◌,
}
use paraclaw.Permissions.{Central, AgentGroupMember, add_member, has_admin_privilege}
use paraclaw.SenderGate.{UnknownSenderPolicy, public}

pub record PendingSenderApproval : Type 0 where
  pub id : Text
  pub messaging_group_id : Text
  pub agent_group_id : Text
  pub sender_identity : Text
  pub sender_name : Option Text
  pub original_message : Text
  pub approver_user_id : Text
  pub created_at : Text
  pub title : Text
  pub options_json : Text

-- `replayed` holds, in order, the messages that were handed back to `routeInbound`; `policies` is the
-- column unknown_sender_policy of messaging_groups, under the row's id.
pub record Board : Type 0 where
  pub central : Central
  pub pending : List PendingSenderApproval
  pub policies : List (Text × UnknownSenderPolicy)
  pub replayed : List Text

pub record ResponsePayload : Type 0 where
  pub question_id : Text
  pub user_id : Option Text
  pub channel_type : Text
  pub value : Text

-- `getPendingSenderApproval`
unfoldable pub get_pending_sender_approval :
    Text → List PendingSenderApproval → Option PendingSenderApproval
get_pending_sender_approval id rows = find? (λ r. text_eq r.id id) rows

-- `deletePendingSenderApproval`
unfoldable pub delete_pending_sender_approval :
    Text → List PendingSenderApproval → List PendingSenderApproval
delete_pending_sender_approval id rows = filter (λ r. not (text_eq r.id id)) rows

-- `clickerId`
abbrev pub clicker : ResponsePayload → Option Text
clicker payload = elim payload.user_id [
  | none ↦ none
  | some [] ↦ none
  | some (c ∷ user) ↦ some (payload.channel_type ++ (lit ":" ++ (c ∷ user)))
]

-- `isAuthorized`
abbrev pub is_authorized : Central → PendingSenderApproval → Option Text → Bool
is_authorized db row none = false
is_authorized db row (some user) =
    text_eq user row.approver_user_id || has_admin_privilege db.user_roles user row.agent_group_id

abbrev pub also_allow : ResponsePayload → Bool
also_allow payload = text_eq payload.value (lit "approve_and_allow")

abbrev pub approves : ResponsePayload → Bool
approves payload = text_eq payload.value (lit "approve") || also_allow payload

-- `updateMessagingGroup(id, { unknown_sender_policy: 'public' })`
abbrev pub open_channel :
    Text → List (Text × UnknownSenderPolicy) → List (Text × UnknownSenderPolicy)
open_channel id policies = update (λ p. text_eq p.0 id) (λ p. (p.0, public)) policies

-- The new row of agent_group_members.
abbrev pub admitted : PendingSenderApproval → Option Text → Text → AgentGroupMember
admitted row approver now = record {
  user_id = row.sender_identity;
  agent_group_id = row.agent_group_id;
  added_by = approver;
  added_at = now;
}

-- `handleSenderApprovalResponse` for an authorized approval; `parses` says that `JSON.parse` takes
-- the stored message
unfoldable pub admit_sender :
    (Text → Bool) → PendingSenderApproval → ResponsePayload → Text → Board → Board
unfolding delete_pending_sender_approval
admit_sender parses row payload now board = record board {
  central = record board.central {
    agent_group_members =
        add_member (admitted row (clicker payload) now) board.central.agent_group_members;
  };
  policies =
      if also_allow payload
      then open_channel row.messaging_group_id board.policies
      else board.policies;
  pending = delete_pending_sender_approval row.id board.pending;
  replayed =
      if parses row.original_message
      then board.replayed ++ row.original_message ∷ []
      else board.replayed;
}

-- the decision on a row that was found
unfoldable pub answer_row :
    (Text → Bool) → PendingSenderApproval → ResponsePayload → Text → Board → Board
unfolding admit_sender delete_pending_sender_approval
answer_row parses row payload now board =
    if not (is_authorized board.central row (clicker payload))
    then board
    else if approves payload
    then admit_sender parses row payload now board
    else record board { pending = delete_pending_sender_approval row.id board.pending }

-- `handleSenderApprovalResponse`, and whether it claims the response
unfoldable pub handle_sender_approval_response :
    (Text → Bool) → ResponsePayload → Text → Board → Board × Bool
unfolding answer_row get_pending_sender_approval
handle_sender_approval_response parses payload now board =
    elim (get_pending_sender_approval payload.question_id board.pending) [
      | none ↦ (board, false)
      | some row ↦ (answer_row parses row payload now board, true)
    ]
