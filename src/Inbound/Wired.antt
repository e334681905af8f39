-- ===== src/Inbound/Wired.antt =====
-- What wiring a chat without agents comes to.
use paraclaw.Prelude.{
  suc, ◌≡◌, refl, sym, ◌∙◌, ap, Bool, true, false, ◌||◌, Text, text_eq, text_eq_refl, none, some,
  is_some, List, [], ◌∷◌, ◌++◌, any, filter, find?, update, length, if◌then◌else◌, Option-cases,
  inl, inr, arith,
}
use paraclaw.Channels.{
  Channels, GroupRow, WiringRow, AgentGroup, has_group_id, wires_group, wires_pair, insert_wiring,
  project_destination, create_messaging_group_agent, get_messaging_group_agent_by_pair,
}
use paraclaw.Channels.Wire.{project_destination_lem}
use paraclaw.Channels.Direct.{Draw, dm_wiring, ensure_wiring}
use paraclaw.Inbound.{get_all_agent_groups, insert_by_name}

module _ {A : Type 0} (p : A → Bool) where
  pub find?-update :
      (q : A → Bool) (f : A → A) (rows : List A) (g : A)
      → ((r : A) → p (f r) ≡ p r)
      → find? p rows ≡ some g
      → find? p (update q f rows) ≡ some (if q g then f g else g)
  find?-update q f [] g same h = cc
  find?-update q f (r ∷ rows) g same h = ground (arith, find?-update q f rows g same, same r)

  pub any-update :
      (q : A → Bool) (f : A → A) (rows : List A)
      → ((r : A) → p (f r) ≡ p r)
      → any p (update q f rows) ≡ any p rows
  any-update q f [] same = refl
  any-update q f (r ∷ rows) same = ground (arith, any-update q f rows same, same r)

  pub find?-any_other :
      (q : A → Bool) (rows : List A) (g : A)
      → find? p rows ≡ some g
      → q g ≡ true
      → any q rows ≡ true
  find?-any_other q [] g h e = cc
  find?-any_other q (r ∷ rows) g h e = ground (arith, find?-any_other q rows g)

  pub length-filter_last :
      (rows : List A) (x : A)
      → p x ≡ true
      → length (filter p (rows ++ (x ∷ []))) ≡ suc (length (filter p rows))
  length-filter_last [] x e = ground arith
  length-filter_last (r ∷ rows) x e = ground (arith, length-filter_last rows x e)

-- No wiring of the chat, so none of the pair.
find?-unwired :
    (id agent : Text) (rows : List WiringRow)
    → length (filter (wires_group id) rows) ≡ 0
    → find? (wires_pair id agent) rows ≡ none
find?-unwired id agent [] h = refl
find?-unwired id agent (w ∷ rows) h = ground (arith, find?-unwired id agent rows)

any-unwired :
    (id agent : Text) (rows : List WiringRow)
    → length (filter (wires_group id) rows) ≡ 0
    → any (wires_pair id agent) rows ≡ false
any-unwired id agent [] h = refl
any-unwired id agent (w ∷ rows) h = ground (arith, any-unwired id agent rows)

-- The agent group that comes first by name is one of the agent groups.
any-insert_by_name :
    (p : AgentGroup → Bool) (a : AgentGroup) (rows : List AgentGroup)
    → any p (insert_by_name a rows) ≡ (p a || any p rows)
unfolding insert_by_name
any-insert_by_name p a [] = refl
any-insert_by_name p a (b ∷ rows) = ground (arith, any-insert_by_name p a rows)

any-get_all_agent_groups :
    (p : AgentGroup → Bool) (rows : List AgentGroup)
    → any p (get_all_agent_groups rows) ≡ any p rows
unfolding get_all_agent_groups
any-get_all_agent_groups p [] = refl
any-get_all_agent_groups p (a ∷ rows) =
    any-insert_by_name p a (get_all_agent_groups rows)
    ∙ ap (λ b. p a || b) (any-get_all_agent_groups p rows)

pub known_first :
    (rows rest : List AgentGroup) (target : AgentGroup)
    → get_all_agent_groups rows ≡ target ∷ rest
    → any (λ a. text_eq a.id target.id) rows ≡ true
known_first rows rest target h =
    sym (any-get_all_agent_groups (λ a. text_eq a.id target.id) rows)
    ∙ (ap (any (λ a. text_eq a.id target.id)) h ∙ ground (arith, text_eq_refl target.id))

-- The destination part of a wiring always succeeds.
project_destination-ok :
    (w : WiringRow) (db : Channels)
    → any (has_group_id w.messaging_group_id) db.groups ≡ true
    → any (λ a. text_eq a.id w.agent_group_id) db.agents ≡ true
    → (after : Channels) × (project_destination w db ≡ some after)
      × (after.groups ≡ db.groups)
      × (after.wirings ≡ db.wirings)
unfolding project_destination
project_destination-ok w db group known = elim (Option-cases db.destinations) [
  | inl absent ↦ (db, ground (arith, absent), refl, refl)
  | inr (rows, table) ↦
      let (after, reached, projected, there, aimed, groups, wirings) =
        project_destination_lem w db rows table group known in
      (after, projected, groups, wirings)
]

-- Wiring a known agent to a known chat that has no agents.
pub wire_unwired :
    (draw : Draw) (g : GroupRow) (agent platform : Text) (db : Channels)
    → any (has_group_id g.id) db.groups ≡ true
    → any (λ a. text_eq a.id agent) db.agents ≡ true
    → length (filter (wires_group g.id) db.wirings) ≡ 0
    → any (λ v. text_eq v.id draw.wiring_id) db.wirings ≡ false
    → (after : Channels) × (is_some (ensure_wiring draw agent platform (g, false, db)) ≡ true)
      × (create_messaging_group_agent (dm_wiring draw g.id agent) db ≡ some after)
      × (get_messaging_group_agent_by_pair g.id agent db ≡ none)
      × (after.groups ≡ db.groups)
      × (after.wirings ≡ db.wirings ++ (dm_wiring draw g.id agent ∷ []))
unfolding ensure_wiring create_messaging_group_agent insert_wiring get_messaging_group_agent_by_pair
wire_unwired draw g agent platform db group known unwired fresh =
    let w = dm_wiring draw g.id agent in
    let (after, projected, groups, wirings) =
      project_destination-ok w (record db { wirings = db.wirings ++ (w ∷ []) }) group known in
    let free = any-unwired g.id agent db.wirings unwired in
    let missing = find?-unwired g.id agent db.wirings unwired in
    let created : create_messaging_group_agent w db ≡ some after =
      rw (create_messaging_group_agent, insert_wiring, fresh, free, group, known) projected in
    (
      after,
      rw (ensure_wiring, get_messaging_group_agent_by_pair, missing, created) refl,
      created,
      missing,
      groups,
      wirings,
    )
