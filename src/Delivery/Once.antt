-- ===== src/Delivery/Once.antt =====
-- What has been delivered, or given up, is not sent again.
use paraclaw.Prelude.{
  ◌≡◌, refl, ◌∙◌, Bool, true, false, not, ◌||◌, Text, text_eq, text_eq_iff, text_eq_refl, Option,
  none, some, List, [], ◌∷◌, ◌++◌, all, any, filter, Bool-cases, Option-cases, inl, inr, arith,
}
use paraclaw.Json.{Json}
use paraclaw.SessionDb.{
  MessageOut, Delivered, DeliveryStatus, gave_up, is_delivered, mark_delivered,
  mark_delivery_failed,
}
use paraclaw.Delivery.{
  World, Session, Effect, effect_message, deliver_message, route_agent_message, deliver_to_channel,
}
use paraclaw.Delivery.Drain.{
  Queue, deliver_one, deliver_each, drain_session, get_due_outbound_messages,
}

-- The effects of one message.
abbrev pub of_id : Text → Effect → Bool
of_id id e = text_eq (effect_message e).id id

abbrev pub effects_of : Text → Queue → List Effect
effects_of id q = filter (of_id id) q.effects

-- A delivery attempt has effects of its own message only.
route_agent_message-from :
    (w : World) (s : Session) (m : MessageOut)
    → all (of_id m.id) (route_agent_message w s m).effects ≡ true
unfolding route_agent_message
route_agent_message-from w s m = ground (arith, text_eq_refl m.id)

deliver_to_channel-from :
    (w : World) (s : Session) (m : MessageOut) (content : Json)
    → all (of_id m.id) (deliver_to_channel w s m content).effects ≡ true
unfolding deliver_to_channel
deliver_to_channel-from w s m content = ground (arith, text_eq_refl m.id)

deliver_message-from :
    (w : World) (s : Session) (m : MessageOut)
    → all (of_id m.id) (deliver_message w s m).effects ≡ true
unfolding deliver_message
deliver_message-from w s m = elim (Option-cases (w.parse m.content)) [
  | inl bad ↦ ground (arith, bad)
  | inr (content, parsed) ↦ ground (
    arith,
    parsed,
    text_eq_refl m.id,
    route_agent_message-from w s m,
    deliver_to_channel-from w s m content,
  )
]

filter-append-none :
    (id mid : Text) (xs ys : List Effect)
    → text_eq mid id ≡ false
    → all (of_id mid) ys ≡ true
    → filter (of_id id) (xs ++ ys) ≡ filter (of_id id) xs
filter-append-none id mid [] [] ne h = refl
filter-append-none id mid [] (y ∷ ys) ne h =
    ground (arith, filter-append-none id mid [] ys ne, text_eq_iff (effect_message y).id mid)
filter-append-none id mid (x ∷ xs) ys ne h = ground (arith, filter-append-none id mid xs ys ne h)

any-snoc_delivered :
    (id : Text) (rows : List Delivered) (row : Delivered)
    → is_delivered (rows ++ row ∷ []) id ≡ is_delivered rows id || text_eq row.message_out_id id
unfolding is_delivered
any-snoc_delivered id [] row = ground arith
any-snoc_delivered id (r ∷ rows) row = ground (arith, any-snoc_delivered id rows row)

-- The queue after one attempt.
deliver_one-effects :
    (w : World) (s : Session) (m : MessageOut) (q : Queue)
    → (deliver_one w s m q).effects ≡ q.effects ++ (deliver_message w s m).effects
unfolding deliver_one
deliver_one-effects w s m q = ground arith

-- What is marked stays marked.
pub deliver_one-keeps :
    (w : World) (s : Session) (m : MessageOut) (q : Queue) (id : Text)
    → is_delivered q.delivered id ≡ true
    → is_delivered (deliver_one w s m q).delivered id ≡ true
unfolding deliver_one mark_delivered mark_delivery_failed
deliver_one-keeps w s m q id h = elim (Option-cases (deliver_message w s m).result) [
  | inl failed ↦ ground (
    arith,
    failed,
    h,
    any-snoc_delivered id q.delivered
        (record { message_out_id = m.id; platform_message_id = none; status = gave_up }),
  )
  | inr (pid, done) ↦ ground (
    arith,
    done,
    h,
    any-snoc_delivered id q.delivered
        (record { message_out_id = m.id; platform_message_id = pid; status = DeliveryStatus.sent }),
  )
]

-- An attempt that returns marks its message.
pub deliver_one-marks :
    (w : World) (s : Session) (m : MessageOut) (q : Queue) (pid : Option Text)
    → (deliver_message w s m).result ≡ some pid
    → is_delivered (deliver_one w s m q).delivered m.id ≡ true
unfolding deliver_one mark_delivered mark_delivery_failed
deliver_one-marks w s m q pid h = ground (
  arith,
  h,
  any-snoc_delivered m.id q.delivered
      (record { message_out_id = m.id; platform_message_id = pid; status = DeliveryStatus.sent }),
  text_eq_refl m.id,
)

-- One attempt at another message has no effect of a message that is marked, and the loop over
-- unmarked messages has none.
deliver_one-others :
    (w : World) (s : Session) (m : MessageOut) (q : Queue) (id : Text)
    → text_eq m.id id ≡ false
    → effects_of id (deliver_one w s m q) ≡ effects_of id q
deliver_one-others w s m q id ne = rw (deliver_one-effects w s m q) (
    filter-append-none id m.id q.effects (deliver_message w s m).effects ne
      (deliver_message-from w s m))

deliver_each-others :
    (w : World) (s : Session) (ms : List MessageOut) (q : Queue) (id : Text)
    → any (λ (m : MessageOut). text_eq m.id id) ms ≡ false
    → effects_of id (deliver_each w s ms q) ≡ effects_of id q
unfolding deliver_each
deliver_each-others w s [] q id h = refl
deliver_each-others w s (m ∷ ms) q id h =
    deliver_each-others w s ms (deliver_one w s m q) id (ground (arith, h))
    ∙ deliver_one-others w s m q id (ground (arith, h))

deliver_each-keeps :
    (w : World) (s : Session) (ms : List MessageOut) (q : Queue) (id : Text)
    → is_delivered q.delivered id ≡ true
    → is_delivered (deliver_each w s ms q).delivered id ≡ true
unfolding deliver_each
deliver_each-keeps w s [] q id h = h
deliver_each-keeps w s (m ∷ ms) q id h =
    deliver_each-keeps w s ms (deliver_one w s m q) id (deliver_one-keeps w s m q id h)

undelivered-lacks :
    (rows : List Delivered) (ms : List MessageOut) (id : Text)
    → is_delivered rows id ≡ true
    → any (λ (m : MessageOut). text_eq m.id id) (filter (λ m. not (is_delivered rows m.id)) ms)
      ≡ false
undelivered-lacks rows [] id h = refl
undelivered-lacks rows (m ∷ ms) id h = elim (Bool-cases (text_eq m.id id)) [
  | inl same ↦ ground (arith, same, undelivered-lacks rows ms id h, text_eq_iff m.id id)
  | inr other ↦ ground (arith, other, undelivered-lacks rows ms id h)
]

-- A sequence of polls of one session, each with its own surroundings and rows of messages_out.
unfoldable pub polls : Session → List (World × List MessageOut) → Queue → Queue
polls s [] q = q
polls s ((w, rows) ∷ rest) q = polls s rest (drain_session w s rows q)

-- Once a message is marked as delivered or given up, no later poll, whatever it meets, sends it,
-- routes it, runs it or stores a question for it again, and the mark stays.
pub polls_once :
    (s : Session) (ps : List (World × List MessageOut)) (q : Queue) (id : Text)
    → is_delivered q.delivered id ≡ true
    → (effects_of id (polls s ps q) ≡ effects_of id q)
      × (is_delivered (polls s ps q).delivered id ≡ true)
unfolding polls drain_session
polls_once s [] q id h = (refl, h)
polls_once s ((w, rows) ∷ rest) q id h =
    let todo =
      filter (λ m. not (is_delivered q.delivered m.id)) (get_due_outbound_messages w rows) in
    let (same, kept) =
      polls_once s rest (deliver_each w s todo q) id (deliver_each-keeps w s todo q id h) in
    (
      same
          ∙ deliver_each-others w s todo q id
              (undelivered-lacks q.delivered (get_due_outbound_messages w rows) id h),
      kept,
    )
