-- ===== src/SenderGate/Tests.antt =====
-- A stranger in a chat that asks for approval.
use paraclaw.Prelude.{
  ◌⊎◌, ◌≡◌, ◌≢◌, refl, Bool, true, false, Text, lit, Option, none, some, List, [], ◌∷◌, sym, ◌∙◌,
}
use paraclaw.Json
use paraclaw.Json.{Json}
use paraclaw.Permissions.{has_membership_row, Central, can_access_agent_group, allowed}
use paraclaw.Sessions.{shared}
use paraclaw.Router.{Env, Wiring, MessagingGroup, InboundEvent, Host, on_mention}
use paraclaw.Router.Fanout.{fan_out}
use paraclaw.SenderGate.{
  request_approval, public, SenderScope, everyone, access_gate, recorded_drop, requested_approval,
  extract_and_upsert_user,
}
use paraclaw.SenderGate.Known.{IsResolved, extract_and_upsert_user-IsResolved}
use paraclaw.SenderGate.Approval.{
  PendingSenderApproval, Board, ResponsePayload, handle_sender_approval_response,
}
use paraclaw.SenderGate.Admission.{IsAdmission, handle_sender_approval_response-IsAdmission}
use paraclaw.SenderGate.Strangers.{guarded, fan_out-strangers}

abbrev nobody : Central
nobody = record { users = []; user_roles = []; agent_group_members = [] }

stranger_asks :
    access_gate nobody request_approval (some (lit "telegram:9")) (lit "g")
    ≡ (false, recorded_drop ∷ requested_approval (lit "telegram:9") ∷ [])
unfolding access_gate can_access_agent_group paraclaw.Permissions.get_user
stranger_asks = refl

abbrev from_nine : Text → Option Json
from_nine t = some (Json.obj (Json.field (lit "senderId") (Json.str (lit "9")) Json.end))

abbrev nine_known : Central
nine_known = record nobody {
  users =
      record {
        id = lit "telegram:9";
        kind = lit "telegram";
        display_name = none;
        created_at = lit "now";
      }
      ∷ [];
}

extract_and_upsert_user-IsResolved_example : IsResolved nobody nine_known (lit "telegram:9")
unfolding extract_and_upsert_user paraclaw.Prelude.text_eq paraclaw.Permissions.get_user
    paraclaw.Prelude.includes paraclaw.Permissions.upsert_user
extract_and_upsert_user-IsResolved_example =
    extract_and_upsert_user-IsResolved from_nine (lit "{}") (lit "telegram") (lit "now") nobody
      nine_known (lit "telegram:9") refl

abbrev group : MessagingGroup
group = record { id = lit "mg"; is_group = true }

abbrev wiring : Wiring
wiring = record {
  agent_group_id = lit "g";
  engage_mode = on_mention;
  engage_pattern = none;
  session_mode = shared;
  accumulates = false;
}

-- Both hooks of this one are replaced by `guarded`.
abbrev env : Env
env = record {
  parse = λ t. none;
  matches = λ p t. none;
  extract = λ id content. content;
  fresh_id = λ h. lit "new";
  now = 1;
  timestamp = lit "now";
  roles = some [];
  access_ok = λ g. true;
  scope_ok = λ w. true;
  group_exists = λ g. true;
  supports_threads = true;
}

abbrev mentions : InboundEvent
mentions = record {
  source = record { channel_type = lit "telegram"; platform_id = lit "c"; thread_id = none };
  message_id = some (lit "m");
  kind = lit "chat";
  timestamp = lit "now";
  content = lit "hello";
  text = lit "hello";
  is_mention = true;
  reply_to = none;
}

abbrev idle : Host
idle = record { sessions = []; inbox = λ s. []; outbox = λ s. []; woken = [] }

abbrev scope : Wiring → SenderScope
scope w = everyone

stranger : allowed (can_access_agent_group nobody (lit "telegram:9") (lit "g")) ≡ false
unfolding can_access_agent_group paraclaw.Permissions.get_user
stranger = refl

not_public : request_approval ≢ public
not_public e = cc

fan_out-strangers_example :
    (fan_out
      (guarded nobody request_approval scope (some (lit "telegram:9")) env)
      group
      mentions
      (some (lit "telegram:9"))
      (wiring ∷ [])
      idle).0.woken
    ≡ idle.woken
fan_out-strangers_example =
    fan_out-strangers nobody request_approval scope env group mentions b't' (lit "elegram:9")
      (wiring ∷ []) idle not_public (stranger, tt)

abbrev card : PendingSenderApproval
card = record {
  id = lit "nsa-1";
  messaging_group_id = lit "mg";
  agent_group_id = lit "g";
  sender_identity = lit "telegram:9";
  sender_name = none;
  original_message = lit "{}";
  approver_user_id = lit "telegram:1";
  created_at = lit "now";
  title = lit "New sender";
  options_json = lit "[]";
}

abbrev board : Board
board = record { central = nine_known; pending = card ∷ []; policies = []; replayed = [] }

abbrev click : ResponsePayload
click = record {
  question_id = lit "nsa-1";
  user_id = some (lit "1");
  channel_type = lit "telegram";
  value = lit "approve";
}

abbrev no_text : Text → Bool
no_text t = false

handle_sender_approval_response-IsAdmission_example :
    (has_membership_row board.central.agent_group_members (lit "telegram:9") (lit "g") ≡ true)
    ⊎ IsAdmission board click (lit "telegram:9") (lit "g")
unfolding handle_sender_approval_response has_membership_row paraclaw.Prelude.text_eq
    paraclaw.Permissions.add_member
handle_sender_approval_response-IsAdmission_example =
    handle_sender_approval_response-IsAdmission no_text click (lit "now") board (lit "telegram:9")
      (lit "g") refl
