-- ===== src/ChannelApproval/Tests.antt =====
-- Two mentions of the bot in a new chat at once, and the owner's answer.
use paraclaw.Prelude.{
  ℕ, ◌≡◌, ◌≤◌, refl, Bool, true, false, Text, lit, Option, none, some, List, [], ◌∷◌, length, arith,
}
use paraclaw.Permissions.{owner}
use paraclaw.SenderGate.{request_approval}
use paraclaw.SenderGate.Approval.{ResponsePayload}
use paraclaw.Router.{Env}
use paraclaw.Channels.{GroupRow}
use paraclaw.Inbound.{State, Inbound, Hooks, route_inbound}
use paraclaw.ChannelApproval.{
  PendingChannelApproval, Card, Surroundings, Office, Plan, prepare, conclude,
  request_channel_approval,
}
use paraclaw.ChannelApproval.Answer.{Replay, claimed, handle_channel_approval_response, Answer}
use paraclaw.ChannelApproval.Once.{
  Desk, begins, goes_on, Reach, here, onward, cards_for, rows_for, Reach-one_card,
}
use paraclaw.ChannelApproval.Denied.{handle_channel_approval_response_denied}

abbrev around : Surroundings
around = record {
  dms = record { ensure_user_dm = λ user bot. some (lit "dm") };
  adapter = some (λ card. true);
  stringify = λ inbound. lit "event";
  options_json = lit "[]";
  sender_name = λ inbound. some (lit "Eve");
  now = lit "now";
}

abbrev chat : GroupRow
chat = record {
  id = lit "mg-1";
  channel_type = lit "slack";
  platform_id = lit "slack:7:c";
  name = none;
  is_group = true;
  policy = request_approval;
  denied_at = none;
  created_at = lit "now";
}

abbrev mention : Inbound
mention = record {
  event = record {
    source = record { channel_type = lit "slack"; platform_id = lit "slack:7:c"; thread_id = none };
    message_id = some (lit "m");
    kind = lit "chat";
    timestamp = lit "now";
    content = lit "hello";
    text = lit "hello";
    is_mention = true;
    reply_to = none;
  };
  is_group = some true;
  sender = none;
  sender_id = none;
}

abbrev office : Office
office = record {
  state = record {
    db = record {
      groups = chat ∷ [];
      wirings = [];
      agents = record { id = lit "a"; name = lit "Abe" } ∷ [];
      destinations = some [];
    };
    hints = [];
    dropped = [];
    requested = [];
    host = record { sessions = []; inbox = λ s. []; outbox = λ s. []; woken = [] };
  };
  central = record {
    users = [];
    user_roles =
        record {
          user_id = lit "slack:U1";
          role = owner;
          agent_group_id = none;
          granted_by = none;
          granted_at = lit "then";
        }
        ∷ [];
    agent_group_members = [];
  };
  pending = [];
  cards = [];
}

abbrev row : PendingChannelApproval
row = record {
  messaging_group_id = lit "mg-1";
  agent_group_id = lit "a";
  original_message = lit "event";
  approver_user_id = lit "slack:U1";
  created_at = lit "now";
  title = lit "📣 Bot mentioned in new chat";
  options_json = lit "[]";
}

abbrev plan : Plan
plan = record {
  row = row;
  card = record {
    chat = lit "dm";
    question_id = lit "mg-1";
    title = lit "📣 Bot mentioned in new chat";
    question = lit "Eve mentioned your agent in a slack channel. Wire it to Abe and let it engage?";
  };
}

prepared : prepare around (lit "mg-1") mention office ≡ some plan
unfolding prepare paraclaw.Inbound.get_all_agent_groups paraclaw.Approvals.pick_approver
    paraclaw.Approvals.pick_approval_delivery paraclaw.Channels.get_messaging_group
    paraclaw.Prelude.text_eq paraclaw.PlatformId.decode_platform_id_as paraclaw.Prelude.cut
    paraclaw.Approvals.channel_type_of
prepared = refl

-- Two requests begin before the first goes on.
abbrev both : Desk
both = record { office = conclude around plan (conclude around plan office); waiting = [] }

two_requests : Reach (record { office = office; waiting = [] }) both
unfolding prepare paraclaw.Inbound.get_all_agent_groups paraclaw.Approvals.pick_approver
    paraclaw.Approvals.pick_approval_delivery paraclaw.Channels.get_messaging_group
    paraclaw.Prelude.text_eq paraclaw.PlatformId.decode_platform_id_as paraclaw.Prelude.cut
    paraclaw.Approvals.channel_type_of
two_requests =
    onward
      (onward
        (onward
          (onward here (
            begins around (lit "mg-1") mention plan (record { office = office; waiting = [] })
              refl))
          (begins around (lit "mg-1") mention plan (record { office = office; waiting = plan ∷ [] })
            refl))
        (goes_on around plan [] (plan ∷ []) office))
      (goes_on around plan [] [] (conclude around plan office))

Reach-one_card_example :
    (cards_for (lit "mg-1") both.office ≤ 1) × (rows_for (lit "mg-1") both.office ≤ 1)
Reach-one_card_example = Reach-one_card (lit "mg-1") office both refl refl two_requests

one_card : cards_for (lit "mg-1") both.office ≡ 1
unfolding conclude paraclaw.Prelude.text_eq
one_card = refl

abbrev asked : Office
asked = record office { pending = row ∷ [] }

abbrev env : Env
env = record {
  parse = λ t. none;
  matches = λ p t. none;
  extract = λ id content. content;
  fresh_id = λ h. lit "new";
  now = 1;
  timestamp = lit "now";
  roles = some [];
  access_ok = λ g. true;
  scope_ok = λ w. true;
  group_exists = λ g. true;
  supports_threads = false;
}

abbrev hooks : Hooks
hooks = record {
  env = λ user g. env;
  resolve = λ e. some (lit "slack:U2");
  keeps_threads = true;
  clock = λ left. 1000;
  draw = λ left. record { group_id = lit "mg-2"; wiring_id = lit "mga-2"; now = lit "now" };
  has_gate = true;
}

abbrev replay : Replay
replay = record {
  parse_event = λ t. some mention;
  parse = λ t. none;
  hooks = hooks;
  draw = record { group_id = lit "mg-2"; wiring_id = lit "mga-1"; now = lit "now" };
}

abbrev answers : Text → ResponsePayload
answers value = record {
  question_id = lit "mg-1";
  user_id = some (lit "U1");
  channel_type = lit "slack";
  value = value;
}

handle_channel_approval_response_denied_example :
    (after : Office) × (handle_channel_approval_response replay (answers (lit "reject")) asked
      ≡ claimed after)
    × (route_inbound 1 hooks mention after.state ≡ some (after.state, false))
unfolding paraclaw.ChannelApproval.get_pending_channel_approval paraclaw.Prelude.text_eq
    paraclaw.Channels.get_messaging_group_with_agent_count
handle_channel_approval_response_denied_example =
    handle_channel_approval_response_denied replay (answers (lit "reject")) asked row mention chat 0
      hooks refl refl refl refl refl refl

-- An approval takes the pending row away.
abbrev left : Answer → ℕ
left (claimed after) = length after.pending
left _ = 5

approved : left (handle_channel_approval_response replay (answers (lit "approve")) asked) ≡ 0
unfolding handle_channel_approval_response paraclaw.ChannelApproval.get_pending_channel_approval
    paraclaw.Prelude.text_eq paraclaw.Channels.create_messaging_group_agent
    paraclaw.SenderGate.extract_and_upsert_user route_inbound
    paraclaw.Channels.get_messaging_group_with_agent_count
approved = refl
