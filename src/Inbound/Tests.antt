-- ===== src/Inbound/Tests.antt =====
-- A bot on Telegram that was just wired, and chatter in a chat that nobody wired.
use paraclaw.Prelude.{
  ℕ, ◌≡◌, ◌≢◌, refl, Bool, true, false, Text, lit, Option, none, some, is_some, List, [], ◌∷◌,
}
use paraclaw.SenderGate.{request_approval}
use paraclaw.TrustHint.{record_trust_hint, consume_trust_hint}
use paraclaw.Router.{Env}
use paraclaw.Channels.{Channels, GroupRow}
use paraclaw.Inbound.{State, Inbound, Hooks, route_inbound}
use paraclaw.Inbound.Quiet.{unknown, route_inbound_idle}
use paraclaw.Inbound.Ends.{route_inbound-ends}

abbrev env : Env
env = record {
  parse = λ t. none;
  matches = λ p t. none;
  extract = λ id content. content;
  fresh_id = λ h. lit "new";
  now = 1;
  timestamp = lit "now";
  roles = some [];
  access_ok = λ g. true;
  scope_ok = λ w. true;
  group_exists = λ g. true;
  supports_threads = false;
}

abbrev hooks : Hooks
hooks = record {
  env = λ user g. env;
  resolve = λ e. some (lit "telegram:42");
  keeps_threads = false;
  clock = λ left. 1000;
  draw = λ left. record { group_id = lit "mg-2"; wiring_id = lit "mga-2"; now = lit "now" };
  has_gate = true;
}

abbrev dm : GroupRow
dm = record {
  id = lit "mg-1";
  channel_type = lit "telegram";
  platform_id = lit "telegram:7:42";
  name = none;
  is_group = false;
  policy = request_approval;
  denied_at = none;
  created_at = lit "now";
}

abbrev says : Bool → Text → Inbound
says mention sender = record {
  event = record {
    source = record {
      channel_type = lit "telegram";
      platform_id = lit "telegram:7:42";
      thread_id = none;
    };
    message_id = some (lit "m");
    kind = lit "chat";
    timestamp = lit "now";
    content = lit "hello";
    text = lit "hello";
    is_mention = mention;
    reply_to = none;
  };
  is_group = some false;
  sender = none;
  sender_id = some sender;
}

abbrev state : List GroupRow → State
state groups = record {
  db = record {
    groups = groups;
    wirings = [];
    agents =
        record { id = lit "b"; name = lit "Zed" } ∷ record { id = lit "a"; name = lit "Abe" } ∷ [];
    destinations = some [];
  };
  hints = record_trust_hint (lit "telegram") (lit "7") (lit "42") 10 [];
  dropped = [];
  requested = [];
  host = record { sessions = []; inbox = λ s. []; outbox = λ s. []; woken = [] };
}

route_inbound_idle_example :
    route_inbound 1 hooks (says false (lit "9")) (state []) ≡ some (state [], false)
unfolding paraclaw.Channels.get_messaging_group_with_agent_count
route_inbound_idle_example =
    route_inbound_idle 0 hooks (says false (lit "9")) (state []) (unknown refl refl)

route_inbound-ends_example :
    is_some (route_inbound 2 hooks (says true (lit "42")) (state [])) ≡ true
route_inbound-ends_example = route_inbound-ends 0 hooks (says true (lit "42")) (state [])

-- A stranger's first direct message creates the chat, is recorded, and goes to the gate.
stranger :
    elim (route_inbound 1 hooks (says true (lit "9")) (state [])) [
      | none ↦ []
      | some (t, threw) ↦ t.requested
    ]
    ≡ lit "mg-2" ∷ []
unfolding route_inbound paraclaw.Channels.get_messaging_group_with_agent_count
    paraclaw.Channels.create_messaging_group paraclaw.PlatformId.decode_platform_id_as
    paraclaw.Prelude.cut consume_trust_hint record_trust_hint paraclaw.Prelude.text_eq
stranger = refl
