-- ===== src/Channels/Direct.antt =====
-- src/web/wire-channel.ts: wiring a direct chat before the first message. `None` is one of its errors;
-- the random ids and the clock are arguments.
pub mod Again
use paraclaw.Prelude.{Bool, true, false, Text, lit, Option, none, some, List, [], ◌∷◌, ◌++◌, trim}
use paraclaw.PlatformId.{encode_platform_id}
use paraclaw.Sessions.{shared}
use paraclaw.Router.{on_pattern}
use paraclaw.SenderGate.{strict, everyone}
use paraclaw.Channels.{
  Channels, GroupRow, WiringRow, create_messaging_group, get_messaging_group_by_platform,
  get_messaging_group_agent_by_pair, create_messaging_group_agent,
}

pub data ChannelKind : Type 0 where
  discord telegram : ChannelKind

abbrev pub kind_text : ChannelKind → Text
kind_text discord = lit "discord"
kind_text telegram = lit "telegram"

-- `platformIdFor`
unfoldable pub platform_id_for : ChannelKind → Text → Text → Text
unfolding encode_platform_id
platform_id_for discord bot user = encode_platform_id (lit "discord") bot (lit "@me:" ++ user)
platform_id_for telegram bot user = encode_platform_id (lit "telegram") bot user

-- What one call draws: the two ids and the time.
pub record Draw : Type 0 where
  pub group_id : Text
  pub wiring_id : Text
  pub now : Text

pub record WireDmResult : Type 0 where
  pub group_id : Text
  pub wiring_id : Text
  pub platform_id : Text
  pub created_group : Bool
  pub created_wiring : Bool

-- The chat's row, found or created; the flag says which.
unfoldable pub ensure_group :
    Draw → Text → Text → Option Text → Channels → Option (GroupRow × Bool × Channels)
unfolding get_messaging_group_by_platform create_messaging_group
ensure_group draw channel_type platform_id name db =
    elim (get_messaging_group_by_platform channel_type platform_id db) [
      | some g ↦ some (g, false, db)
      | none ↦
          elim (create_messaging_group
            (record {
              id = draw.group_id;
              channel_type = channel_type;
              platform_id = platform_id;
              name = name;
              is_group = false;
              policy = strict;
              denied_at = none;
              created_at = draw.now;
            })
            db) [
              | none ↦ none
              | some after ↦ elim (get_messaging_group_by_platform channel_type platform_id after) [
                | none ↦ none
                | some g ↦ some (g, true, after)
              ]
            ]
    ]

abbrev pub dm_wiring : Draw → Text → Text → WiringRow
dm_wiring draw group agent_group = record {
  id = draw.wiring_id;
  messaging_group_id = group;
  agent_group_id = agent_group;
  engage_mode = on_pattern;
  engage_pattern = some (lit ".");
  sender_scope = everyone;
  accumulates = false;
  session_mode = shared;
  priority = 0;
  created_at = draw.now;
}

-- The wiring of the pair, found or created.
unfoldable pub ensure_wiring :
    Draw → Text → Text → GroupRow × Bool × Channels → Option (WireDmResult × Channels)
unfolding get_messaging_group_agent_by_pair create_messaging_group_agent
ensure_wiring draw agent_group platform_id (g, created, db) =
    elim (get_messaging_group_agent_by_pair g.id agent_group db) [
      | some w ↦ some (
        record {
          group_id = g.id;
          wiring_id = w.id;
          platform_id = platform_id;
          created_group = created;
          created_wiring = false;
        },
        db,
      )
      | none ↦ elim (create_messaging_group_agent (dm_wiring draw g.id agent_group) db) [
        | none ↦ none
        | some after ↦ some (
          record {
            group_id = g.id;
            wiring_id = draw.wiring_id;
            platform_id = platform_id;
            created_group = created;
            created_wiring = true;
          },
          after,
        )
      ]
    ]

abbrev pub wire_platform :
    Draw → Text → Text → Text → Option Text → Channels → Option (WireDmResult × Channels)
wire_platform draw channel_type platform_id agent_group name db =
    elim (ensure_group draw channel_type platform_id name db) [
      | none ↦ none
      | some found ↦ ensure_wiring draw agent_group platform_id found
    ]

-- `wireDmToAgent`: a bot or user id of white space only is refused.
unfoldable pub wire_dm_to_agent :
    Draw
    → ChannelKind
    → Text
    → Text
    → Text
    → Option Text
    → Channels
    → Option (WireDmResult × Channels)
unfolding platform_id_for ensure_group ensure_wiring
wire_dm_to_agent draw kind agent_group bot user name db = elim (trim user) [
  | [] ↦ none
  | c ∷ u ↦ elim (trim bot) [
    | [] ↦ none
    | d ∷ b ↦
        wire_platform draw (kind_text kind) (platform_id_for kind (d ∷ b) (c ∷ u)) agent_group name
          db
  ]
]
