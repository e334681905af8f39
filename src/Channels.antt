-- ===== src/Channels.antt =====
-- src/db/messaging-groups.ts and src/modules/agent-to-agent/db/agent-destinations.ts: the chats the
-- host knows, the agents wired to them, and the names under which an agent may send to a chat.
-- Foreign keys are enforced; `none` is the error of a violated key.
pub mod Names
pub mod Free
pub mod Wire
pub mod Direct
mod Tests
use paraclaw.Prelude.{
  ℕ, zero, suc, ◌+◌, Bool, true, false, not, ◌&&◌, ◌||◌, Text, lit, text_eq, has, Option, none,
  some, get_or, is_some, List, [], ◌∷◌, ◌++◌, map, filter, find?, any, update, length, take, leb,
  ltb, if◌then◌else◌,
}
use paraclaw.ContainerDb.{non_empty}
use paraclaw.Sessions.{SessionMode}
use paraclaw.Router.{EngageMode}
use paraclaw.SenderGate.{UnknownSenderPolicy, SenderScope}
use paraclaw.Delivery.{Destination, TargetType, channel, agent, target_eq}
use paraclaw.Channels.Names.{normalize_name, suffixed}

-- A row of messaging_groups.
pub record GroupRow : Type 0 where
  pub id : Text
  pub channel_type : Text
  pub platform_id : Text
  pub name : Option Text
  pub is_group : Bool
  pub policy : UnknownSenderPolicy
  pub denied_at : Option Text
  pub created_at : Text

-- A row of messaging_group_agents.
pub record WiringRow : Type 0 where
  pub id : Text
  pub messaging_group_id : Text
  pub agent_group_id : Text
  pub engage_mode : EngageMode
  pub engage_pattern : Option Text
  pub sender_scope : SenderScope
  pub accumulates : Bool
  pub session_mode : SessionMode
  pub priority : ℕ
  pub created_at : Text

-- A row of agent_groups, as far as the wiring reads it.
pub record AgentGroup : Type 0 where
  pub id : Text
  pub name : Text

-- `destinations` is `none` where there is no table agent_destinations.
pub record Channels : Type 0 where
  pub groups : List GroupRow
  pub wirings : List WiringRow
  pub agents : List AgentGroup
  pub destinations : Option (List Destination)

abbrev pub has_group_id : Text → GroupRow → Bool
has_group_id id g = text_eq g.id id

abbrev pub on_platform : Text → Text → GroupRow → Bool
on_platform channel_type platform_id g =
    text_eq g.channel_type channel_type && text_eq g.platform_id platform_id

-- `createMessagingGroup`: the column denied_at is not written.
unfoldable pub create_messaging_group : GroupRow → Channels → Option Channels
create_messaging_group g db =
    if any (has_group_id g.id) db.groups || any (on_platform g.channel_type g.platform_id) db.groups
    then none
    else some (record db { groups = db.groups ++ (record g { denied_at = none } ∷ []) })

unfoldable pub get_messaging_group : Text → Channels → Option GroupRow
get_messaging_group id db = find? (has_group_id id) db.groups

unfoldable pub get_messaging_group_by_platform : Text → Text → Channels → Option GroupRow
get_messaging_group_by_platform channel_type platform_id db =
    find? (on_platform channel_type platform_id) db.groups

abbrev pub wires_group : Text → WiringRow → Bool
wires_group id w = text_eq w.messaging_group_id id

abbrev pub wires_pair : Text → Text → WiringRow → Bool
wires_pair group agent_group w =
    text_eq w.messaging_group_id group && text_eq w.agent_group_id agent_group

-- `getMessagingGroupWithAgentCount`
unfoldable pub get_messaging_group_with_agent_count : Text → Text → Channels → Option (GroupRow × ℕ)
unfolding get_messaging_group_by_platform
get_messaging_group_with_agent_count channel_type platform_id db =
    elim (get_messaging_group_by_platform channel_type platform_id db) [
      | none ↦ none
      | some g ↦ some (g, length (filter (wires_group g.id) db.wirings))
    ]

-- The columns that `updateMessagingGroup` sets, `none` for a key that is absent.
pub record GroupUpdate : Type 0 where
  pub name : Option (Option Text)
  pub is_group : Option Bool
  pub policy : Option UnknownSenderPolicy

unfoldable pub update_messaging_group : Text → GroupUpdate → Channels → Channels
update_messaging_group id u db = record db {
  groups =
      update (has_group_id id)
        (λ g. record g {
          name = get_or u.name g.name;
          is_group = get_or u.is_group g.is_group;
          policy = get_or u.policy g.policy;
        })
        db.groups;
}

unfoldable pub set_messaging_group_denied_at : Text → Option Text → Channels → Channels
set_messaging_group_denied_at id at db = record db {
  groups = update (has_group_id id) (λ g. record g { denied_at = at }) db.groups;
}

-- `createDestination`, with the primary key (agent_group_id, local_name)
unfoldable pub create_destination :
    List AgentGroup → Destination → List Destination → Option (List Destination)
create_destination agents d rows =
    if not (any (λ a. text_eq a.id d.agent_group_id) agents)
      || any (λ e. text_eq e.agent_group_id d.agent_group_id && text_eq e.local_name d.local_name)
          rows
    then none
    else some (rows ++ (d ∷ []))

abbrev pub get_destinations : Text → List Destination → List Destination
get_destinations agent_group = filter (λ d. text_eq d.agent_group_id agent_group)

abbrev pub is_named : Text → Text → Destination → Bool
is_named agent_group name d = text_eq d.agent_group_id agent_group && text_eq d.local_name name

-- `getDestinationByName`
unfoldable pub get_destination_by_name : Text → Text → List Destination → Option Destination
get_destination_by_name agent_group name rows = find? (is_named agent_group name) rows

abbrev pub is_aimed : Text → TargetType → Text → Destination → Bool
is_aimed agent_group type target d =
    text_eq d.agent_group_id agent_group
    && (target_eq d.target_type type && text_eq d.target_id target)

-- `getDestinationByTarget`
unfoldable pub get_destination_by_target :
    Text → TargetType → Text → List Destination → Option Destination
get_destination_by_target agent_group type target rows =
    find? (is_aimed agent_group type target) rows

unfoldable pub delete_destination : Text → Text → List Destination → List Destination
delete_destination agent_group name = filter (λ d. not (is_named agent_group name d))

unfoldable pub delete_all_destinations_touching : Text → List Destination → List Destination
delete_all_destinations_touching group = filter (λ d. not (
    text_eq d.agent_group_id group || (target_eq d.target_type agent && text_eq d.target_id group)))

-- SELECT DISTINCT
unfoldable pub distinct : List Text → List Text
distinct [] = []
distinct (x ∷ xs) = x ∷ filter (λ y. not (text_eq y x)) (distinct xs)

unfoldable pub get_destination_referencers : Text → List Destination → List Text
unfolding distinct
get_destination_referencers group rows = distinct (
    map (λ d. d.agent_group_id)
      (filter
        (λ d.
          target_eq d.target_type agent
          && (text_eq d.target_id group && not (text_eq d.agent_group_id group)))
        rows))

-- The loop for a name that is not taken yet: `name` is the candidate, `suffix` the next number.
unfoldable pub free_name : ℕ → (Text → Bool) → Text → Text → ℕ → Option Text
free_name zero taken base name suffix = none
free_name (suc fuel) taken base name suffix =
    let later = free_name fuel taken base (suffixed base suffix) (suc suffix) in
    if taken name then later else some name

-- One more round than there are rows that could hold a name, and one for the bare name.
abbrev pub rounds : List Destination → ℕ
rounds rows = suc (suc (length rows))

-- `mg.name || <channel_type>-<first eight characters of the id>`
abbrev pub label_of : WiringRow → GroupRow → Text
label_of w g =
    get_or (non_empty g.name) (g.channel_type ++ (lit "-" ++ take 8 w.messaging_group_id))

-- The part of `createMessagingGroupAgent` behind the insertion of the wiring.
unfoldable pub add_destination :
    List AgentGroup → WiringRow → GroupRow → List Destination → Option (List Destination)
unfolding get_destination_by_name create_destination free_name
add_destination agents w g rows =
    let base = normalize_name (label_of w g) in
    elim (free_name (rounds rows) (λ n. is_some (get_destination_by_name w.agent_group_id n rows))
      base base 2) [
        | none ↦ none
        | some local_name ↦
            create_destination agents
              (record {
                agent_group_id = w.agent_group_id;
                local_name = local_name;
                target_type = channel;
                target_id = w.messaging_group_id;
              })
              rows
      ]

-- The insertion: primary key, foreign keys, and one wiring for a pair.
unfoldable pub insert_wiring : WiringRow → Channels → Option Channels
insert_wiring w db =
    if any (λ v. text_eq v.id w.id) db.wirings
      || (any (wires_pair w.messaging_group_id w.agent_group_id) db.wirings
          || not (
              any (has_group_id w.messaging_group_id) db.groups
              && any (λ a. text_eq a.id w.agent_group_id) db.agents))
    then none
    else some (record db { wirings = db.wirings ++ (w ∷ []) })

unfoldable pub project_destination : WiringRow → Channels → Option Channels
unfolding get_destination_by_target get_messaging_group add_destination
project_destination w db = elim db.destinations [
  | none ↦ some db
  | some rows ↦
      if is_some (get_destination_by_target w.agent_group_id channel w.messaging_group_id rows)
      then some db
      else elim (get_messaging_group w.messaging_group_id db) [
        | none ↦ some db
        | some g ↦ elim (add_destination db.agents w g rows) [
          | none ↦ none
          | some after ↦ some (record db { destinations = some after })
        ]
      ]
]

-- `createMessagingGroupAgent`
unfoldable pub create_messaging_group_agent : WiringRow → Channels → Option Channels
unfolding insert_wiring project_destination
create_messaging_group_agent w db = elim (insert_wiring w db) [
  | none ↦ none
  | some inserted ↦ project_destination w inserted
]

-- ORDER BY priority DESC
unfoldable pub insert_by_priority : WiringRow → List WiringRow → List WiringRow
insert_by_priority w [] = w ∷ []
insert_by_priority w (v ∷ rows) =
    let later = insert_by_priority w rows in
    if leb v.priority w.priority then w ∷ v ∷ rows else v ∷ later

unfoldable pub by_priority : List WiringRow → List WiringRow
unfolding insert_by_priority
by_priority [] = []
by_priority (w ∷ rows) = insert_by_priority w (by_priority rows)

unfoldable pub get_messaging_group_agents : Text → Channels → List WiringRow
unfolding by_priority
get_messaging_group_agents id db = by_priority (filter (wires_group id) db.wirings)

unfoldable pub get_messaging_group_agent_by_pair : Text → Text → Channels → Option WiringRow
get_messaging_group_agent_by_pair group agent_group db =
    find? (wires_pair group agent_group) db.wirings

unfoldable pub delete_messaging_group_agent : Text → Channels → Channels
delete_messaging_group_agent id db = record db {
  wirings = filter (λ w. not (text_eq w.id id)) db.wirings;
}
