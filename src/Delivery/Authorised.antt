-- ===== src/Delivery/Authorised.antt =====
-- Nothing leaves for a chat or an agent that the session may not address.
use paraclaw.Prelude.{
  ◌≡◌, ◌⊎◌, inl, inr, refl, Bool, true, false, ◌&&◌, ◌||◌, Text, text_eq, text_eq_iff,
  text_eq_sound, is_some, Option, none, some, List, [], ◌∷◌, all, All, any, arith, Bool-cases,
  Option-cases,
}
use paraclaw.Json.{Json}
use paraclaw.SessionDb.{MessageOut}
use paraclaw.ContainerDb.{non_empty}
use paraclaw.Delivery.{
  World, Session, MessagingGroup, Destination, channel, agent, Effect, sent, acted, routed, asked,
  has_destination, group_by_platform, deliver_message, deliver_to_channel, route_agent_message,
  channel_allowed, is_origin, may_send_to, knows_agent,
}

-- The session may address the messaging group: it is its own chat, or there is no table of
-- destinations, or the table has a row for it.
abbrev pub MayAddress : World → Session → MessagingGroup → Type 0
MayAddress w s mg =
    (s.messaging_group_id ≡ some mg.id)
    ⊎ (w.destinations ≡ none)
    ⊎ ((rows : List Destination) × (w.destinations ≡ some rows)
        × (has_destination rows s.agent_group_id channel mg.id ≡ true))

-- The target agent exists, and is the session's own or has a destination row.
abbrev pub MayRoute : World → Session → Text → Type 0
MayRoute w s target =
    (any (λ g. text_eq g target) w.agent_groups ≡ true)
    × ((target ≡ s.agent_group_id)
        ⊎ ((rows : List Destination) × (w.destinations ≡ some rows)
            × (has_destination rows s.agent_group_id agent target ≡ true)))

-- What an effect on a channel or an agent must rest on.
abbrev pub IsAuthorised : World → Session → Effect → Type 0
IsAuthorised w s (sent m) =
    (channel_type : Text) × (platform_id : Text) × (mg : MessagingGroup) × (non_empty m.channel_type
      ≡ some channel_type)
    × (non_empty m.platform_id ≡ some platform_id)
    × (group_by_platform w.messaging_groups channel_type platform_id ≡ some mg)
    × MayAddress w s mg
IsAuthorised w s (routed m) =
    (target : Text) × (non_empty m.platform_id ≡ some target) × MayRoute w s target
IsAuthorised w s _ = Unit

channel_allowed_sound :
    (w : World) (s : Session) (channel_type platform_id : Text)
    → channel_allowed w s (some channel_type) (some platform_id) ≡ true
    → (mg : MessagingGroup) × (group_by_platform w.messaging_groups channel_type platform_id
        ≡ some mg)
      × MayAddress w s mg
unfolding channel_allowed
channel_allowed_sound w s channel_type platform_id h =
    elim (Option-cases (group_by_platform w.messaging_groups channel_type platform_id)) [
      | inl unknown ↦ ground (arith, unknown, h)
      | inr (mg, found) ↦ (mg, found, may_address mg (ground (arith, found, h)))
    ]
  where
    may_address : (mg : MessagingGroup) → may_send_to w s mg ≡ true → MayAddress w s mg
    may_address mg ok = elim (Bool-cases (is_origin s mg)) [
      | inl origin ↦ inl (elim (Option-cases s.messaging_group_id) [
        | inl no_chat ↦ ground (arith, no_chat, origin)
        | inr (id, chat) ↦ ground (arith, chat, origin, text_eq_iff id mg.id)
      ])
      | inr elsewhere ↦ elim (Option-cases w.destinations) [
        | inl no_table ↦ inr (inl no_table)
        | inr (rows, table) ↦ inr (inr (rows, table, ground (arith, table, elsewhere, ok)))
      ]
    ]

route_allowed : World → Session → Option Text → Bool
route_allowed w s none = false
route_allowed w s (some target) =
    any (λ g. text_eq g target) w.agent_groups
    && (text_eq target s.agent_group_id || knows_agent w.destinations s.agent_group_id target)

route_allowed-none : (w : World) (s : Session) → route_allowed w s none ≡ false
unfolding route_allowed
route_allowed-none w s = refl

route_allowed_sound :
    (w : World) (s : Session) (target : Text)
    → route_allowed w s (some target) ≡ true
    → MayRoute w s target
unfolding route_allowed
route_allowed_sound w s target h = (
  ground (arith, h),
  elim (Bool-cases (text_eq target s.agent_group_id)) [
    | inl own ↦ inl (text_eq_sound target s.agent_group_id own)
    | inr other ↦ elim (Option-cases w.destinations) [
      | inl no_table ↦ ground (arith, no_table, other, h)
      | inr (rows, table) ↦ inr (rows, table, ground (arith, table, other, h))
    ]
  ],
)

-- The guards of the code, as a test on an effect.
passes : World → Session → Effect → Bool
passes w s (sent m) =
    is_some (non_empty m.channel_type)
    && (is_some (non_empty m.platform_id)
        && channel_allowed w s (non_empty m.channel_type) (non_empty m.platform_id))
passes w s (routed m) = route_allowed w s (non_empty m.platform_id)
passes w s _ = true

route_agent_message-passes :
    (w : World) (s : Session) (m : MessageOut)
    → all (passes w s) (route_agent_message w s m).effects ≡ true
unfolding route_agent_message passes route_allowed
route_agent_message-passes w s m = elim (Option-cases (non_empty m.platform_id)) [
  | inl missing ↦ ground (arith, missing)
  | inr (target, found) ↦ ground (arith, found)
]

deliver_to_channel-passes :
    (w : World) (s : Session) (m : MessageOut) (content : Json)
    → all (passes w s) (deliver_to_channel w s m content).effects ≡ true
unfolding deliver_to_channel passes
deliver_to_channel-passes w s m content =
    elim (Bool-cases (channel_allowed w s (non_empty m.channel_type) (non_empty m.platform_id))) [
      | inr refused ↦ ground (arith, refused)
      | inl allowed ↦ elim (Option-cases (non_empty m.channel_type)) [
        | inl missing ↦ ground (arith, allowed, missing)
        | inr (channel_type, typed) ↦ elim (Option-cases (non_empty m.platform_id)) [
          | inl missing ↦ ground (arith, allowed, typed, missing)
          | inr (platform_id, addressed) ↦ ground (arith, allowed, typed, addressed)
        ]
      ]
    ]

deliver_message-passes :
    (w : World) (s : Session) (m : MessageOut)
    → all (passes w s) (deliver_message w s m).effects ≡ true
unfolding deliver_message passes
deliver_message-passes w s m = elim (Option-cases (w.parse m.content)) [
  | inl bad ↦ ground (arith, bad)
  | inr (content, parsed) ↦
      ground
        (arith, parsed, route_agent_message-passes w s m, deliver_to_channel-passes w s m content)
]

passes_sound : (w : World) (s : Session) (e : Effect) → passes w s e ≡ true → IsAuthorised w s e
unfolding passes
passes_sound w s (sent m) h = elim (Option-cases (non_empty m.channel_type)) [
  | inl missing ↦ ground (arith, missing, h)
  | inr (channel_type, typed) ↦ elim (Option-cases (non_empty m.platform_id)) [
    | inl missing ↦ ground (arith, missing, h)
    | inr (platform_id, addressed) ↦
        let (mg, found, may) =
          channel_allowed_sound w s channel_type platform_id
            (ground (arith, typed, addressed, h)) in
        (channel_type, platform_id, mg, typed, addressed, found, may)
  ]
]
passes_sound w s (routed m) h = elim (Option-cases (non_empty m.platform_id)) [
  | inl missing ↦ ground (arith, missing, h, route_allowed-none w s)
  | inr (target, found) ↦ (target, found, route_allowed_sound w s target (ground (arith, found, h)))
]
passes_sound w s (acted m) h = tt
passes_sound w s (asked m) h = tt

all-passes_sound :
    (w : World) (s : Session) (es : List Effect)
    → all (passes w s) es ≡ true
    → All (IsAuthorised w s) es
all-passes_sound w s [] h = tt
all-passes_sound w s (e ∷ es) h =
    (passes_sound w s e (ground (arith, h)), all-passes_sound w s es (ground (arith, h)))

-- Whatever the message says, an attempt to deliver it hands it to the channel adapter only for a
-- known messaging group that the session may address, and to another agent only where that agent
-- exists and is the session's own or has a destination row.
pub deliver_message-IsAuthorised :
    (w : World) (s : Session) (m : MessageOut)
    → All (IsAuthorised w s) (deliver_message w s m).effects
deliver_message-IsAuthorised w s m =
    all-passes_sound w s (deliver_message w s m).effects (deliver_message-passes w s m)
