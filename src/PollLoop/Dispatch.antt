-- ===== src/PollLoop/Dispatch.antt =====
-- Where the answers of an agent go.
use mathlib.Core.List.{append-nil, append_assoc}
use paraclaw.Prelude.{
  ℕ, ◌≡◌, refl, sym, ◌∙◌, ap, Text, lit, text_eq, text_eq_refl, trim, Option, none, some, is_some,
  List, [], ◌∷◌, ◌++◌, All, All-append, inl, inr, ◌⊎◌, Option-cases, Bool-cases, ◌&&◌, ◌||◌, any,
  ◌==◌,
}
use paraclaw.SessionDb.{MessageOut}
use paraclaw.ContainerDb.{WriteMessageOut, out_row, next_odd_seq, non_empty, write_message_out}
use paraclaw.Delivery.{TargetType, channel, agent}
use paraclaw.Formatter.{RoutingContext}
use paraclaw.PollLoop.{
  Config, Runner, DestRow, write_out, send_to_destination, find_by_name, send_blocks, send_only,
  send_plain, fall_back, dispatch_result_text,
}
use paraclaw.PollLoop.Blocks.{Block, blocks}

-- The address that a destination of the agent stands for.
abbrev pub platform_of : DestRow → Option Text
platform_of d = elim d.type [ channel ↦ d.platform_id | agent ↦ d.agent_group_id ]

abbrev pub channel_of : DestRow → Option Text
channel_of d = elim d.type [ channel ↦ d.channel_type | agent ↦ some (lit "agent") ]

-- The row goes to where the question came from, or to a destination of the agent.
abbrev pub GoesHome : RoutingContext → MessageOut → Type 0
GoesHome routing o = (o.platform_id ≡ routing.platform_id) × (o.channel_type ≡ routing.channel_type)

abbrev pub GoesToNamed : List DestRow → MessageOut → Type 0
GoesToNamed rows o =
    (name : Text) × (d : DestRow) × (find_by_name name rows ≡ some d)
    × (o.platform_id ≡ platform_of d)
    × (o.channel_type ≡ channel_of d)

-- An answer to the message that was asked, in its thread, to a permitted address.
abbrev pub IsAnswer : Config → RoutingContext → MessageOut → Type 0
IsAnswer config routing o =
    (o.in_reply_to ≡ routing.in_reply_to)
    × (o.thread_id ≡ routing.thread_id)
    × (GoesHome routing o ⊎ GoesToNamed config.destinations o)

abbrev pub with_out : Runner → List MessageOut → Runner
with_out r rows = record r { dbs = record r.dbs { messages_out = rows } }

-- Answers are added to messages_out, and nothing else changes.
abbrev pub Answers : Config → RoutingContext → Runner → Runner → Type 0
Answers config routing r q =
    (added : List MessageOut) × (q ≡ with_out r (r.dbs.messages_out ++ added))
    × All (IsAnswer config routing) added

TargetType-cases : (t : TargetType) → (t ≡ channel) ⊎ (t ≡ agent)
TargetType-cases channel = inl refl
TargetType-cases agent = inr refl

find_only : (d : DestRow) → find_by_name d.name (d ∷ []) ≡ some d
unfolding find_by_name
find_only d = rw (text_eq_refl d.name) refl

module _ (config : Config) (routing : RoutingContext) where
  Answers-refl : (r : Runner) → Answers config routing r r
  Answers-refl r = ([], ap (with_out r) (sym (append-nil r.dbs.messages_out)), tt)

  Answers-trans :
      (r q s : Runner)
      → Answers config routing r q
      → Answers config routing q s
      → Answers config routing r s
  Answers-trans r q s (a, e, ha) (b, f, hb) = (
    a ++ b,
    rw (f, e) (ap (with_out r) (append_assoc r.dbs.messages_out a b)),
    All-append (IsAnswer config routing) a b ha hb,
  )

  answer_to : Option Text → Option Text → Text → Runner → WriteMessageOut
  answer_to platform channel_type text r = record {
    id = config.fresh_id r.dbs;
    in_reply_to = routing.in_reply_to;
    deliver_after = none;
    recurrence = none;
    kind = lit "chat";
    platform_id = platform;
    channel_type = channel_type;
    thread_id = routing.thread_id;
    content = config.stringify text;
  }

  Answers-write_out :
      (platform channel_type : Option Text) (text : Text) (r : Runner)
      → ((o : MessageOut)
          → o.platform_id ≡ platform
          → o.channel_type ≡ channel_type
          → GoesHome routing o ⊎ GoesToNamed config.destinations o)
      → Answers config routing r
          (write_out config routing routing.in_reply_to platform channel_type text r)
  unfolding write_out write_message_out answer_to
  Answers-write_out platform channel_type text r h =
      let row = out_row (answer_to platform channel_type text r) (next_odd_seq r.dbs) config.now in
      elim (Bool-cases (
        any (λ (x : MessageOut). text_eq x.id (config.fresh_id r.dbs)) r.dbs.messages_out
        || any (λ (x : MessageOut). x.seq == next_odd_seq r.dbs) r.dbs.messages_out)) [
          | inl taken ↦ rw (write_out, taken) (Answers-refl r)
          | inr fresh ↦ rw (write_out, fresh) (row ∷ [], refl, ((refl, refl, h row refl refl), tt))
        ]

  Answers-send_to_destination :
      (name : Text) (d : DestRow) (body : Text) (r : Runner)
      → find_by_name name config.destinations ≡ some d
      → Answers config routing r (send_to_destination config routing d body r)
  unfolding send_to_destination
  Answers-send_to_destination name d body r found = elim (TargetType-cases d.type) [
    | inl chat ↦
        rw (send_to_destination, chat)
          (Answers-write_out d.platform_id d.channel_type body r
            (λ o p c. inr (name, d, found, p ∙ rw chat refl, c ∙ rw chat refl)))
    | inr other ↦
        rw (send_to_destination, other)
          (Answers-write_out d.agent_group_id (some (lit "agent")) body r
            (λ o p c. inr (name, d, found, p ∙ rw other refl, c ∙ rw other refl)))
  ]

  Answers-send_blocks :
      (bs : List Block) (r : Runner) → Answers config routing r (send_blocks config routing bs r).0
  unfolding send_blocks
  Answers-send_blocks [] r = Answers-refl r
  Answers-send_blocks (b ∷ bs) r = elim (Option-cases (find_by_name b.to config.destinations)) [
    | inl lost ↦ rw (send_blocks, lost) (Answers-send_blocks bs r)
    | inr (d, found) ↦
        let q = send_to_destination config routing d (trim b.body) r in
        rw (send_blocks, found)
          (Answers-trans r q (send_blocks config routing bs q).0
            (Answers-send_to_destination b.to d (trim b.body) r found) (Answers-send_blocks bs q))
  ]

  Answers-send_only :
      (ds : List DestRow) (text : Text) (r : Runner)
      → config.destinations ≡ ds
      → Answers config routing r (send_only config routing ds text r)
  unfolding send_only
  Answers-send_only [] text r e = Answers-refl r
  Answers-send_only (d ∷ []) text r e =
      Answers-send_to_destination d.name d text r (rw e (find_only d))
  Answers-send_only (d ∷ f ∷ ds) text r e = Answers-refl r

  Answers-send_plain :
      (text : Text) (r : Runner) → Answers config routing r (send_plain config routing text r)
  unfolding send_plain
  Answers-send_plain text r =
      elim (Bool-cases
        (is_some (non_empty routing.channel_type) && is_some (non_empty routing.platform_id))) [
          | inl home ↦ rw home (
              Answers-write_out routing.platform_id routing.channel_type text r
                (λ o p c. inl (p, c)))
          | inr away ↦ rw away (Answers-send_only config.destinations text r refl)
        ]

  Answers-fall_back :
      (sent : ℕ) (text : Text) (r : Runner)
      → Answers config routing r (fall_back config routing sent text r)
  unfolding fall_back
  Answers-fall_back sent text r = elim (Bool-cases (sent == 0 && is_some (non_empty (some text)))) [
    | inl plain ↦ rw plain (Answers-send_plain text r)
    | inr kept ↦ rw kept (Answers-refl r)
  ]

  -- An agent cannot write to an address it was not given: whatever text it produces, `dispatchResultText`
  -- only adds rows to messages_out, and each of them answers the message that was asked, in its thread,
  -- and goes to where that message came from or to a destination of the agent by one of its names.
  pub dispatch_result_text_lem :
      (text : Text) (r : Runner)
      → Answers config routing r (dispatch_result_text config routing text r)
  unfolding dispatch_result_text
  dispatch_result_text_lem text r =
      let q = send_blocks config routing (blocks text) r in
      Answers-trans r q.0 (dispatch_result_text config routing text r)
        (Answers-send_blocks (blocks text) r) (Answers-fall_back q.1 _ q.0)
