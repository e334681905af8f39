-- ===== src/Router/Tests.antt =====
-- An unmentioned message in a thread, and a slash command of a stranger.
use paraclaw.Prelude.{
  ℕ, ◌≡◌, ◌≢◌, refl, Bool, true, false, Text, lit, Option, none, some, List, [], ◌∷◌, any, arith,
  sym, ◌∙◌,
}
use paraclaw.CommandGate.{GateResult, gate_command}
use paraclaw.SessionDb.{MessageIn, new_row}
use paraclaw.Sessions.{shared}
use paraclaw.Router.{
  Env, Wiring, MessagingGroup, InboundEvent, Host, mention_sticky, evaluate_engage,
}
use paraclaw.Router.Fanout.{gated, routed, deliver_to_agent}
use paraclaw.Router.Engage.{evaluate_engage-accumulated}
use paraclaw.Router.Gate.{target, Untouched, deliver_to_agent-Untouched}

abbrev group : MessagingGroup
group = record { id = lit "mg"; is_group = true }

abbrev wiring : Wiring
wiring = record {
  agent_group_id = lit "g";
  engage_mode = mention_sticky;
  engage_pattern = none;
  session_mode = shared;
  accumulates = true;
}

-- `access` is what the access gate answers.
abbrev env : Bool → Env
env access = record {
  parse = λ t. none;
  matches = λ p t. none;
  extract = λ id content. content;
  fresh_id = λ h. lit "new";
  now = 1;
  timestamp = lit "now";
  roles = some [];
  access_ok = λ g. access;
  scope_ok = λ w. true;
  group_exists = λ g. true;
  supports_threads = true;
}

abbrev says : Text → InboundEvent
says text = record {
  source = record { channel_type = lit "slack"; platform_id = lit "c"; thread_id = some (lit "t") };
  message_id = some (lit "m");
  kind = lit "chat";
  timestamp = lit "now";
  content = text;
  text = text;
  is_mention = false;
  reply_to = none;
}

abbrev idle : Host
idle = record { sessions = []; inbox = λ s. []; outbox = λ s. []; woken = [] }

evaluate_engage-accumulated_example :
    evaluate_engage
      (env true)
      wiring
      (lit "hello again")
      false
      group
      (some (lit "t"))
      (deliver_to_agent (env true) wiring group (says (lit "hello")) none false idle).sessions
    ≡ true
evaluate_engage-accumulated_example =
    evaluate_engage-accumulated (env true) wiring group b'm' (lit "g") (says (lit "hello")) none
      (lit "hello again") idle refl refl refl refl (λ e. cc)

target_is_new : target (env true) wiring group (says (lit "hello")) idle ≡ lit "new"
unfolding paraclaw.Sessions.resolve_session paraclaw.Sessions.find_session_for_agent
target_is_new = refl

deliver_to_agent-Untouched_example :
    Untouched
      (lit "other")
      idle
      (deliver_to_agent (env true) wiring group (says (lit "hello")) none true idle)
deliver_to_agent-Untouched_example =
    deliver_to_agent-Untouched (env true) wiring group (says (lit "hello")) none true idle
      (lit "other") (λ e. other_is_not_new (rw (← target_is_new) e))
  where
    other_is_not_new : lit "other" ≢ lit "new"
    other_is_not_new e = ground (arith, e)

stranger_is_denied :
    gated (env true) wiring (says (lit "/clear")) none ≡ GateResult.deny (lit "/clear")
unfolding gated paraclaw.Prelude.text_eq gate_command paraclaw.Prelude.starts_with
    paraclaw.CommandGate.gate_text paraclaw.CommandGate.first_word paraclaw.CommandGate.is_admin
stranger_is_denied = refl

stranger_is_stopped : gated (env true) wiring (says (lit "/clear")) none ≢ GateResult.pass
stranger_is_stopped e = denied_is_no_pass (sym stranger_is_denied ∙ e)
  where
    denied_is_no_pass : GateResult.deny (lit "/clear") ≢ GateResult.pass
    denied_is_no_pass e = cc

abbrev first_message : List MessageIn
first_message = new_row (routed (lit "x") wiring (says (lit "/clear")) true) 2 ∷ []
