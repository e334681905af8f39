-- ===== src/Channels/Direct/Again.antt =====
-- Wiring a direct chat twice.
use paraclaw.Prelude.{
  ◌≡◌, refl, ◌∙◌, ap, Bool, true, false, Text, text_eq_refl, trim, Option, none, some, List, [],
  ◌∷◌, ◌++◌, find?, Option-cases, List-cases, inl, inr, arith,
}
use paraclaw.Channels.{
  Channels, GroupRow, WiringRow, on_platform, wires_pair, get_messaging_group_by_platform,
  get_messaging_group_agent_by_pair, create_messaging_group_agent, insert_wiring,
  project_destination, get_messaging_group, get_destination_by_target,
}
use paraclaw.Channels.Direct.{
  ChannelKind, kind_text, platform_id_for, Draw, WireDmResult, ensure_group, dm_wiring,
  ensure_wiring, wire_platform, wire_dm_to_agent,
}

find?-append {ℓ} :
    {A : Type ℓ} (p : A → Bool) (rows : List A) (x : A)
    → find? p rows ≡ none
    → p x ≡ true
    → find? p (rows ++ (x ∷ [])) ≡ some x
find?-append p [] x h e = ground arith
find?-append p (y ∷ rows) x h e = ground (arith, find?-append p rows x)

-- The destination part leaves the chats and the wirings.
project_destination_same :
    (w : WiringRow) (db after : Channels)
    → project_destination w db ≡ some after
    → (after.groups ≡ db.groups) × (after.wirings ≡ db.wirings)
unfolding project_destination get_destination_by_target get_messaging_group
project_destination_same w db after h = ground arith

create_messaging_group_agent_rows :
    (w : WiringRow) (db after : Channels)
    → create_messaging_group_agent w db ≡ some after
    → (after.groups ≡ db.groups) × (after.wirings ≡ db.wirings ++ (w ∷ []))
unfolding create_messaging_group_agent insert_wiring
create_messaging_group_agent_rows w db after h = elim (Option-cases (insert_wiring w db)) [
  | inl refused ↦ let no : none ≡ some after = rw (create_messaging_group_agent, refused) at h in cc
  | inr (inserted, stored) ↦
      let kept =
        project_destination_same w inserted after
          (rw (create_messaging_group_agent, stored) at h) in
      ground (arith, kept, stored)
]

-- What is there is found.
ensure_group_found :
    (draw : Draw) (channel_type platform_id : Text) (name : Option Text) (db after : Channels)
    (g : GroupRow) (flag : Bool)
    → ensure_group draw channel_type platform_id name db ≡ some (g, flag, after)
    → get_messaging_group_by_platform channel_type platform_id after ≡ some g
unfolding ensure_group
ensure_group_found draw channel_type platform_id name db after g flag h = ground arith

ensure_group_again :
    (draw : Draw) (channel_type platform_id : Text) (name : Option Text) (db : Channels)
    (g : GroupRow)
    → get_messaging_group_by_platform channel_type platform_id db ≡ some g
    → ensure_group draw channel_type platform_id name db ≡ some (g, false, db)
unfolding ensure_group
ensure_group_again draw channel_type platform_id name db g found = rw (ensure_group, found) refl

-- The answer of a call that finds everything in place.
abbrev pub nothing_new : WireDmResult → WireDmResult
nothing_new r = record r { created_group = false; created_wiring = false }

ensure_wiring_again :
    (draw again : Draw) (agent_group platform_id : Text) (g : GroupRow) (created : Bool)
    (db after : Channels) (r : WireDmResult)
    → ensure_wiring draw agent_group platform_id (g, created, db) ≡ some (r, after)
    → (ensure_wiring again agent_group platform_id (g, false, after) ≡ some (nothing_new r, after))
      × (after.groups ≡ db.groups)
unfolding ensure_wiring get_messaging_group_agent_by_pair
ensure_wiring_again draw again agent_group platform_id g created db after r h =
    elim (Option-cases (find? (wires_pair g.id agent_group) db.wirings)) [
      | inr (w, found) ↦ ground (arith, found)
      | inl missing ↦
          elim (Option-cases (create_messaging_group_agent (dm_wiring draw g.id agent_group) db)) [
            | inl refused ↦ ground (arith, missing, refused)
            | inr (made, stored) ↦
                let (groups, wirings) =
                  create_messaging_group_agent_rows (dm_wiring draw g.id agent_group) db made
                    stored in
                let found : find? (wires_pair g.id agent_group) made.wirings
                    ≡ some (dm_wiring draw g.id agent_group) =
                  rw wirings (
                    find?-append (wires_pair g.id agent_group) db.wirings
                      (dm_wiring draw g.id agent_group) missing
                      (ground (arith, text_eq_refl g.id, text_eq_refl agent_group))) in
                ground (arith, missing, stored, found, groups)
          ]
    ]

wire_platform_again :
    (draw again : Draw) (channel_type platform_id agent_group : Text) (name other : Option Text)
    (db after : Channels) (r : WireDmResult)
    → wire_platform draw channel_type platform_id agent_group name db ≡ some (r, after)
    → wire_platform again channel_type platform_id agent_group other after
      ≡ some (nothing_new r, after)
unfolding get_messaging_group_by_platform
wire_platform_again draw again channel_type platform_id agent_group name other db after r h =
    elim (Option-cases (ensure_group draw channel_type platform_id name db)) [
      | inl refused ↦ let no : none ≡ some (r, after) = rw (wire_platform, refused) at h in cc
      | inr ((g, created, grouped), ensured) ↦
          let wired =
            ensure_wiring_again draw again agent_group platform_id g created grouped after r
              (rw (wire_platform, ensured) at h) in
          let found : get_messaging_group_by_platform channel_type platform_id after ≡ some g =
            ap (find? (on_platform channel_type platform_id)) wired.1
            ∙ ensure_group_found draw channel_type platform_id name db grouped g created ensured in
          rw (wire_platform, ensure_group_again again channel_type platform_id other after g found)
            wired.0
    ]

-- `wireDmToAgent` can be called again: after a call that succeeded, a call for the same channel, bot,
-- user and agent group, with whatever ids, time and display name, changes no row and reports the same
-- messaging group, wiring and platform id, with both `created` flags false.
pub wire_dm_to_agent_twice :
    (draw again : Draw) (kind : ChannelKind) (agent_group bot user : Text)
    (name other : Option Text) (db after : Channels) (r : WireDmResult)
    → wire_dm_to_agent draw kind agent_group bot user name db ≡ some (r, after)
    → wire_dm_to_agent again kind agent_group bot user other after ≡ some (nothing_new r, after)
unfolding wire_dm_to_agent
wire_dm_to_agent_twice draw again kind agent_group bot user name other db after r h =
    elim (List-cases (trim user)) [
      | inl blank ↦ let no : none ≡ some (r, after) = rw (wire_dm_to_agent, blank) at h in cc
      | inr (c, u, user_is) ↦ elim (List-cases (trim bot)) [
        | inl blank ↦
            let no : none ≡ some (r, after) = rw (wire_dm_to_agent, user_is, blank) at h in cc
        | inr (d, b, bot_is) ↦
            let h' = rw (wire_dm_to_agent, user_is, bot_is) at h in
            rw (wire_dm_to_agent, user_is, bot_is)
              (wire_platform_again draw again (kind_text kind)
                (platform_id_for kind (d ∷ b) (c ∷ u)) agent_group name other db after r h')
      ]
    ]
