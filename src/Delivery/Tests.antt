-- ===== src/Delivery/Tests.antt =====
-- One outbound message to a known chat.
use paraclaw.Prelude.{◌≡◌, refl, true, Text, lit, text_eq, Option, none, some, [], ◌∷◌, All}
use paraclaw.Json
use paraclaw.Json.{Json}
use paraclaw.SessionDb.{MessageOut, DeliveryStatus, is_delivered}
use paraclaw.Delivery.{World, Session, MessagingGroup, deliver_message, has_destination}
use paraclaw.Delivery.Drain.{Queue, deliver_one, attempts_of}
use paraclaw.Delivery.Once.{polls, polls_once, effects_of}
use paraclaw.Delivery.Retry.{deliver_one_three}
use paraclaw.Delivery.Authorised.{IsAuthorised, deliver_message-IsAuthorised}
use paraclaw.Delivery.Inflight.{here, next, starts, Distinct, enter, idle, Reach-Distinct}

abbrev session : Session
session = record { id = lit "s"; agent_group_id = lit "g"; messaging_group_id = some (lit "mg") }

abbrev chat : MessagingGroup
chat = record { id = lit "mg"; channel_type = lit "telegram"; platform_id = lit "7" }

-- `deliver` is what the adapter does with a message.
abbrev world : (MessageOut → Option (Option Text)) → World
world deliver = record {
  has_adapter = true;
  parse = λ t. some (Json.obj Json.end);
  deliver = deliver;
  run_action = λ v. true;
  messaging_groups = chat ∷ [];
  destinations = some [];
  agent_groups = lit "g" ∷ [];
  write_to_agent = λ m. true;
  has_approvals = true;
  is_due = λ m. true;
  is_before = λ a b. true;
}

abbrev reply : MessageOut
reply = record {
  id = lit "m";
  seq = 1;
  in_reply_to = none;
  timestamp = lit "t";
  deliver_after = none;
  recurrence = none;
  kind = lit "chat";
  platform_id = some (lit "7");
  channel_type = some (lit "telegram");
  thread_id = none;
  content = lit "{}";
}

abbrev works : World
works = world (λ m. some none)

abbrev breaks : World
breaks = world (λ m. none)

abbrev fresh : Queue
fresh = record { delivered = []; attempts = []; effects = [] }

abbrev marked : Queue
marked = record {
  delivered =
      record { message_out_id = lit "m"; platform_message_id = none; status = DeliveryStatus.sent }
      ∷ [];
  attempts = [];
  effects = [];
}

deliver_message-IsAuthorised_example :
    All (IsAuthorised works session) (deliver_message works session reply).effects
deliver_message-IsAuthorised_example = deliver_message-IsAuthorised works session reply

polls_once_example :
    (effects_of (lit "m") (polls session ((works, reply ∷ []) ∷ []) marked)
      ≡ effects_of (lit "m") marked)
    × (is_delivered (polls session ((works, reply ∷ []) ∷ []) marked).delivered (lit "m") ≡ true)
unfolding is_delivered text_eq
polls_once_example = polls_once session ((works, reply ∷ []) ∷ []) marked (lit "m") refl

breaks_fails : (deliver_message breaks session reply).result ≡ none
unfolding deliver_message text_eq paraclaw.Delivery.deliver_to_channel
    paraclaw.Delivery.channel_allowed paraclaw.Delivery.group_by_platform
    paraclaw.Delivery.persist_question
breaks_fails = refl

deliver_one_three_example :
    ((deliver_one breaks session reply (deliver_one breaks session reply fresh)).delivered ≡ [])
    × (is_delivered
          (deliver_one breaks session reply
            (deliver_one breaks session reply (deliver_one breaks session reply fresh))).delivered
          (lit "m")
        ≡ true)
    × (attempts_of
          (lit "m")
          (deliver_one breaks session reply
            (deliver_one breaks session reply (deliver_one breaks session reply fresh))).attempts
        ≡ 0)
unfolding attempts_of
deliver_one_three_example =
    deliver_one_three breaks breaks breaks session reply fresh breaks_fails breaks_fails
      breaks_fails refl

Reach-Distinct_example : Distinct (enter (lit "s") (enter (lit "s") idle)).draining
Reach-Distinct_example =
    Reach-Distinct (enter (lit "s") (enter (lit "s") idle))
      (next (next here (starts idle (lit "s"))) (starts (enter (lit "s") idle) (lit "s")))
