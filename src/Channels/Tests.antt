-- ===== src/Channels/Tests.antt =====
-- Names that clash, a wired chat, and a direct chat wired twice.
use paraclaw.Prelude.{
  ◌≡◌, refl, Bool, true, false, Text, lit, Option, none, some, is_some, List, [], ◌∷◌, any, arith,
}
use paraclaw.Sessions.{shared}
use paraclaw.Router.{on_mention}
use paraclaw.SenderGate.{strict, known}
use paraclaw.Delivery.{Destination, channel, agent, has_destination}
use paraclaw.Channels.Names.{normalize_name, suffixed}
use paraclaw.Channels.Free.{free_name-ends}
use paraclaw.Channels.Wire.{create_messaging_group_agent_lem}
use paraclaw.Channels.Direct.{
  telegram, discord, Draw, WireDmResult, platform_id_for, wire_dm_to_agent,
}
use paraclaw.Channels.Direct.Again.{nothing_new, wire_dm_to_agent_twice}
use paraclaw.Channels.{
  Channels, GroupRow, WiringRow, free_name, rounds, is_named, get_destination_by_name,
  insert_wiring, create_messaging_group_agent, get_messaging_group_agent_by_pair,
  get_destination_referencers, delete_all_destinations_touching,
}

normalized : normalize_name (lit "  My Team #2! ") ≡ lit "my-team-2"
unfolding normalize_name
normalized = refl

unnamed : normalize_name (lit "!?") ≡ lit "unnamed"
unfolding normalize_name
unnamed = refl

numbered : suffixed (lit "dev") 10 ≡ lit "dev-10"
unfolding suffixed
numbered = refl

abbrev to_chat : Text → Text → Destination
to_chat name target = record {
  agent_group_id = lit "a";
  local_name = name;
  target_type = channel;
  target_id = target;
}

abbrev taken : List Destination
taken = to_chat (lit "dev") (lit "1") ∷ to_chat (lit "dev-2") (lit "2") ∷ []

free_name-ends_example :
    (name : Text) × (free_name
        (rounds taken)
        (λ n. is_some (get_destination_by_name (lit "a") n taken))
        (lit "dev")
        (lit "dev")
        2
      ≡ some name)
    × (any (is_named (lit "a") name) taken ≡ false)
free_name-ends_example = free_name-ends (lit "a") (lit "dev") taken

third :
    free_name
      (rounds taken)
      (λ n. is_some (get_destination_by_name (lit "a") n taken))
      (lit "dev")
      (lit "dev")
      2
    ≡ some (lit "dev-3")
unfolding free_name get_destination_by_name paraclaw.Prelude.text_eq suffixed
third = refl

abbrev chat : GroupRow
chat = record {
  id = lit "mg-1";
  channel_type = lit "slack";
  platform_id = lit "slack:c";
  name = some (lit "Dev");
  is_group = true;
  policy = strict;
  denied_at = none;
  created_at = lit "now";
}

abbrev wiring : WiringRow
wiring = record {
  id = lit "mga-1";
  messaging_group_id = lit "mg-1";
  agent_group_id = lit "a";
  engage_mode = on_mention;
  engage_pattern = none;
  sender_scope = known;
  accumulates = false;
  session_mode = shared;
  priority = 0;
  created_at = lit "now";
}

abbrev db : Channels
db = record {
  groups = chat ∷ [];
  wirings = [];
  agents = record { id = lit "a"; name = lit "A" } ∷ [];
  destinations = some taken;
}

create_messaging_group_agent_lem_example :
    (after : Channels) × (reached : List Destination) × (create_messaging_group_agent wiring db
      ≡ some after)
    × (after.destinations ≡ some reached)
    × (has_destination reached (lit "a") channel (lit "mg-1") ≡ true)
    × (is_some (get_messaging_group_agent_by_pair (lit "mg-1") (lit "a") after) ≡ true)
unfolding insert_wiring paraclaw.Prelude.text_eq
create_messaging_group_agent_lem_example =
    create_messaging_group_agent_lem wiring db (record db { wirings = wiring ∷ [] }) taken refl refl

abbrev draw : Draw
draw = record { group_id = lit "mg-2"; wiring_id = lit "mga-2"; now = lit "now" }

abbrev wired : WireDmResult
wired = record {
  group_id = lit "mg-2";
  wiring_id = lit "mga-2";
  platform_id = lit "telegram:7:42";
  created_group = true;
  created_wiring = true;
}

abbrev dm : GroupRow
dm = record {
  id = lit "mg-2";
  channel_type = lit "telegram";
  platform_id = lit "telegram:7:42";
  name = none;
  is_group = false;
  policy = strict;
  denied_at = none;
  created_at = lit "now";
}

abbrev dm_db : Channels
dm_db = elim (wire_dm_to_agent draw telegram (lit "a") (lit "7") (lit " 42 ") none db) [
  | none ↦ db
  | some (r, after) ↦ after
]

wire_dm_to_agent_twice_example :
    wire_dm_to_agent
      (record draw { now = lit "later" })
      telegram
      (lit "a")
      (lit "7")
      (lit " 42 ")
      (some (lit "Me"))
      dm_db
    ≡ some (nothing_new wired, dm_db)
unfolding wire_dm_to_agent paraclaw.Prelude.trim paraclaw.Prelude.text_eq normalize_name
wire_dm_to_agent_twice_example =
    wire_dm_to_agent_twice draw (record draw { now = lit "later" }) telegram (lit "a") (lit "7")
      (lit " 42 ") none (some (lit "Me")) db dm_db wired refl

on_discord : platform_id_for discord (lit "7") (lit "9") ≡ lit "discord:7:@me:9"
unfolding platform_id_for
on_discord = refl

-- A row whose target goes away.
abbrev to_agent : Destination
to_agent = record {
  agent_group_id = lit "b";
  local_name = lit "x";
  target_type = agent;
  target_id = lit "a";
}

referencers : get_destination_referencers (lit "a") (to_agent ∷ to_agent ∷ taken) ≡ lit "b" ∷ []
unfolding get_destination_referencers paraclaw.Prelude.text_eq
referencers = refl

torn_down : delete_all_destinations_touching (lit "a") (to_agent ∷ taken) ≡ []
unfolding delete_all_destinations_touching paraclaw.Prelude.text_eq
torn_down = refl
