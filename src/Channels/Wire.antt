-- ===== src/Channels/Wire.antt =====
-- What `createMessagingGroupAgent` leaves behind.
use paraclaw.Prelude.{
  ◌≡◌, refl, Bool, true, false, not, ◌&&◌, ◌||◌, text_eq, text_eq_refl, none, some, is_some, List,
  [], ◌∷◌, ◌++◌, any, find?, Bool-cases, Option-cases, inl, inr, arith,
}
use paraclaw.Delivery.{Destination, channel, has_destination}
use paraclaw.Channels.Free.{free_name-ends}
use paraclaw.Channels.Names.{normalize_name}
use paraclaw.Channels.{
  Channels, GroupRow, WiringRow, AgentGroup, has_group_id, wires_pair, is_aimed,
  get_messaging_group, get_destination_by_target, create_destination, label_of, add_destination,
  insert_wiring, project_destination, create_messaging_group_agent,
  get_messaging_group_agent_by_pair,
}

pub find?-any {ℓ} :
    {A : Type ℓ} (p : A → Bool) (rows : List A) → any p rows ≡ true → is_some (find? p rows) ≡ true
find?-any p [] h = cc
find?-any p (x ∷ rows) h = ground (arith, find?-any p rows)

pub any-find? {ℓ} :
    {A : Type ℓ} (p : A → Bool) (rows : List A) → is_some (find? p rows) ≡ true → any p rows ≡ true
any-find? p [] h = cc
any-find? p (x ∷ rows) h = ground (arith, any-find? p rows)

pub any_last {ℓ} :
    {A : Type ℓ} (p : A → Bool) (rows : List A) (x : A)
    → p x ≡ true
    → any p (rows ++ (x ∷ [])) ≡ true
any_last p [] x h = ground arith
any_last p (y ∷ rows) x h = ground (arith, any_last p rows x h)

-- The destination that is added aims at the chat.
add_destination_lem :
    (agents : List AgentGroup) (w : WiringRow) (g : GroupRow) (rows : List Destination)
    → any (λ a. text_eq a.id w.agent_group_id) agents ≡ true
    → (after : List Destination) × (add_destination agents w g rows ≡ some after)
      × (has_destination after w.agent_group_id channel w.messaging_group_id ≡ true)
unfolding add_destination create_destination has_destination
add_destination_lem agents w g rows known =
    let (name, found, free) =
      free_name-ends w.agent_group_id (normalize_name (label_of w g)) rows in
    let d : Destination = record {
      agent_group_id = w.agent_group_id;
      local_name = name;
      target_type = channel;
      target_id = w.messaging_group_id;
    } in
    (
      rows ++ (d ∷ []),
      rw (add_destination, found, known, free) refl,
      any_last (is_aimed w.agent_group_id channel w.messaging_group_id) rows d
          (ground (arith, text_eq_refl w.agent_group_id, text_eq_refl w.messaging_group_id)),
    )

-- The destination part succeeds and leaves the chat within the agent's reach.
pub project_destination_lem :
    (w : WiringRow) (db : Channels) (rows : List Destination)
    → db.destinations ≡ some rows
    → any (has_group_id w.messaging_group_id) db.groups ≡ true
    → any (λ a. text_eq a.id w.agent_group_id) db.agents ≡ true
    → (after : Channels) × (reached : List Destination) × (project_destination w db ≡ some after)
      × (after.destinations ≡ some reached)
      × (has_destination reached w.agent_group_id channel w.messaging_group_id ≡ true)
      × (after.groups ≡ db.groups)
      × (after.wirings ≡ db.wirings)
unfolding project_destination get_destination_by_target get_messaging_group has_destination
project_destination_lem w db rows table group known =
    elim (Bool-cases
      (is_some (find? (is_aimed w.agent_group_id channel w.messaging_group_id) rows))) [
        | inl reached ↦ (
          db,
          rows,
          ground (arith, table, reached),
          table,
          any-find? (is_aimed w.agent_group_id channel w.messaging_group_id) rows reached,
          refl,
          refl,
        )
        | inr missing ↦ elim (Option-cases (find? (has_group_id w.messaging_group_id) db.groups)) [
          | inl lost ↦
              let no : is_some (find? (has_group_id w.messaging_group_id) db.groups) ≡ false =
                rw lost refl in
              ground (arith, no, find?-any (has_group_id w.messaging_group_id) db.groups group)
          | inr (g, found) ↦
              let (after, added, reached) = add_destination_lem db.agents w g rows known in
              (
                record db { destinations = some after },
                after,
                rw
                    (
                      project_destination, table, get_destination_by_target, missing,
                      get_messaging_group, found, added,
                    )
                    refl,
                refl,
                reached,
                refl,
                refl,
              )
        ]
      ]

-- The guard of the insertion.
abbrev refuses : WiringRow → Channels → Bool
refuses w db =
    any (λ v. text_eq v.id w.id) db.wirings
    || (any (wires_pair w.messaging_group_id w.agent_group_id) db.wirings
        || not (
            any (has_group_id w.messaging_group_id) db.groups
            && any (λ a. text_eq a.id w.agent_group_id) db.agents))

-- Wiring a chat gives the agent leave to write to it: where `createMessagingGroupAgent` is called for
-- an agent group and a messaging group that exist, under an unused id and for a pair not wired yet,
-- and the table agent_destinations is there, it succeeds (its search for a free name ends, and no
-- key is violated), the pair is wired, and `hasDestination` answers yes for the agent and the chat,
-- which is what delivery asks before it sends.
pub create_messaging_group_agent_lem :
    (w : WiringRow) (db inserted : Channels) (rows : List Destination)
    → insert_wiring w db ≡ some inserted
    → db.destinations ≡ some rows
    → (after : Channels) × (reached : List Destination) × (create_messaging_group_agent w db
        ≡ some after)
      × (after.destinations ≡ some reached)
      × (has_destination reached w.agent_group_id channel w.messaging_group_id ≡ true)
      × (is_some (get_messaging_group_agent_by_pair w.messaging_group_id w.agent_group_id after)
          ≡ true)
unfolding create_messaging_group_agent insert_wiring get_messaging_group_agent_by_pair
create_messaging_group_agent_lem w db inserted rows stored table =
    elim (Bool-cases (refuses w db)) [
      | inl refused ↦ let no : none ≡ some inserted = rw (insert_wiring, refused) at stored in cc
      | inr accepted ↦
          let (after, reached, projected, there, aimed, groups, wirings) =
            project_destination_lem w (record db { wirings = db.wirings ++ (w ∷ []) }) rows table
              (ground (arith, accepted)) (ground (arith, accepted)) in
          (
            after,
            reached,
            rw (create_messaging_group_agent, insert_wiring, accepted) projected,
            there,
            aimed,
            rw (get_messaging_group_agent_by_pair, wirings)
                (find?-any (wires_pair w.messaging_group_id w.agent_group_id)
                  (db.wirings ++ (w ∷ []))
                  (any_last (wires_pair w.messaging_group_id w.agent_group_id) db.wirings w (
                    ground
                      (arith, text_eq_refl w.messaging_group_id, text_eq_refl w.agent_group_id)))),
          )
    ]
