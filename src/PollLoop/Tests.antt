-- ===== src/PollLoop/Tests.antt =====
-- An answer of two blocks, and a turn whose query fails.
use paraclaw.Prelude.{
  text_eq, if◌then◌else◌, ℕ, ◌≡◌, refl, Text, lit, Bool, true, false, Option, none, some, List, [],
  ◌∷◌, ◌++◌,
}
use paraclaw.SessionDb.{NewMessage, new_row}
use paraclaw.ContainerDb.{SessionDbs}
use paraclaw.ContainerDb.Parity.{empty_dbs}
use paraclaw.Delivery.{channel}
use paraclaw.Formatter.{text_value, Content, Reader, extract_routing}
use paraclaw.PollLoop.{
  crashed, claim, Config, DestRow, dispatch_result_text, init, tick, migrate_legacy_continuation,
}
use paraclaw.PollLoop.Blocks.{blocks, scratchpad_of, strip_internal_tags}
use paraclaw.PollLoop.Turn.{Loop, poll_turn}
use paraclaw.PollLoop.Dispatch.{Answers, dispatch_result_text_lem}

abbrev answer : Text
answer =
    lit
      "hm<message to=\"Bo\"> hi </message>, <message  to=\"x\" >a<b</message><message to=\"\">c</message>"

two_blocks :
    blocks answer
    ≡ record { to = lit "Bo"; body = lit " hi " } ∷ record { to = lit "x"; body = lit "a<b" } ∷ []
unfolding blocks paraclaw.Prelude.starts_with paraclaw.Prelude.cut
two_blocks = refl

the_rest :
    scratchpad_of (λ name. false) (lit "a<message to=\"x\"> b </message>c")
    ≡ lit "a[dropped: unknown destination \"x\"] bc"
unfolding scratchpad_of paraclaw.Prelude.starts_with paraclaw.Prelude.cut paraclaw.Prelude.trim
the_rest = refl

stripped :
    strip_internal_tags (lit " a<internal>b<internal>c</internal>d</internal> ")
    ≡ lit "ad</internal>"
unfolding strip_internal_tags paraclaw.Prelude.trim paraclaw.Prelude.starts_with
stripped = refl

adopted :
    migrate_legacy_continuation (lit "Claude") ((lit "sdk_session_id", lit "s") ∷ [])
    ≡ (some (lit "s"), (lit "continuation:claude", lit "s") ∷ [])
unfolding migrate_legacy_continuation paraclaw.Prelude.text_eq
adopted = refl

abbrev text_content : Text → Content
text_content text = record {
  text = text_value text;
  sender = some (lit "Bo");
  full_name = none;
  user_name = none;
  sender_id = none;
  author_id = none;
  reply_to = none;
  attachments = [];
  prompt = none;
  script_output = none;
  source = none;
  event = none;
  raw = [];
  action = none;
  status = none;
  result = [];
}

abbrev reader : Reader
reader = record {
  content = λ m. if text_eq m.content (lit "null") then none else some (text_content m.content);
  local_time = λ t. t;
  destination = λ c p. none;
  timezone = lit "UTC";
  number = λ n. lit "2";
}

abbrev config : Config
config = record {
  reader = reader;
  provider_name = lit "claude";
  native_commands = false;
  query = λ prompt continuation.
      some (record { events = init (lit "s") ∷ tick ∷ []; error = some (lit "lost", true) });
  skips = λ m. false;
  enrich = λ m. m;
  stringify = λ t. t;
  fresh_id = λ dbs. lit "o";
  now = lit "now";
  due = λ t. true;
  limit = 10;
  destinations = [];
}

abbrev question : NewMessage
question = record {
  id = lit "a";
  kind = lit "chat";
  timestamp = lit "2026-01-01T00:00:00Z";
  platform_id = some (lit "p");
  channel_type = some (lit "telegram");
  thread_id = none;
  content = lit "hello";
  process_after = none;
  recurrence = none;
  trigger = none;
}

abbrev start : Loop
start = record {
  continuation = none;
  runner = record {
    dbs = record empty_dbs { messages_in = new_row question 2 ∷ [] };
    values = [];
    pushed = [];
  };
}

-- A content that is null stops the process, with its message claimed.
abbrev null_start : Loop
null_start = record {
  continuation = none;
  runner = record {
    dbs = record empty_dbs {
      messages_in = new_row (record question { content = lit "null" }) 2 ∷ [];
    };
    values = [];
    pushed = [];
  };
}

null_crashes : poll_turn config null_start ≡ crashed (claim config (lit "a" ∷ []) null_start.runner)
unfolding poll_turn paraclaw.ContainerDb.get_pending_messages paraclaw.Prelude.text_eq
null_crashes = refl

abbrev bo : DestRow
bo = record {
  name = lit "Bo";
  type = channel;
  channel_type = some (lit "telegram");
  platform_id = some (lit "p");
  agent_group_id = none;
}

abbrev one_friend : Config
one_friend = record config { destinations = bo ∷ [] }

dispatch_result_text_lem_example :
    Answers one_friend (extract_routing start.runner.dbs.messages_in) start.runner (
      dispatch_result_text one_friend
        (extract_routing start.runner.dbs.messages_in)
        answer
        start.runner)
dispatch_result_text_lem_example =
    dispatch_result_text_lem one_friend (extract_routing start.runner.dbs.messages_in) answer
      start.runner
