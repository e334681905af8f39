-- ===== src/Approvals.antt =====
-- src/modules/approvals/primitive.ts with the list queries of
-- src/modules/permissions/db/user-roles.ts: who is asked to approve, and over which chat. What
-- src/modules/permissions/user-dm.ts answers is the interface `UserDms`.
pub mod Pick
mod Tests
use paraclaw.Prelude.{
  ℕ, Bool, true, false, not, ◌&&◌, Text, text_eq, has, cut, Option, none, some, List, [], ◌∷◌, ◌++◌,
  filter, is_some, if◌then◌else◌, ltb, ◌==◌,
}
use paraclaw.ContainerDb.{non_empty}
use paraclaw.Permissions.{UserRole, RoleKind, owner, admin, role_eq, column_eq}

-- The byte order of texts, in which SQLite sorts.
unfoldable pub text_before : Text → Text → Bool
text_before [] t = true
text_before (a ∷ s) [] = false
text_before (a ∷ s) (b ∷ t) =
    let rest = text_before s t in if ltb a b then true else if a == b then rest else false

-- ORDER BY granted_at
unfoldable pub insert_by_grant : UserRole → List UserRole → List UserRole
insert_by_grant row [] = row ∷ []
insert_by_grant row (r ∷ rows) =
    let later = insert_by_grant row rows in
    if text_before row.granted_at r.granted_at then row ∷ r ∷ rows else r ∷ later

unfoldable pub order_by_grant : List UserRole → List UserRole
unfolding insert_by_grant
order_by_grant [] = []
order_by_grant (r ∷ rows) = insert_by_grant r (order_by_grant rows)

-- `getOwners`
unfoldable pub get_owners : List UserRole → List UserRole
unfolding order_by_grant
get_owners rows =
    order_by_grant (filter (λ r. role_eq r.role owner && not (is_some r.agent_group_id)) rows)

-- `getGlobalAdmins`
unfoldable pub get_global_admins : List UserRole → List UserRole
unfolding order_by_grant
get_global_admins rows =
    order_by_grant (filter (λ r. role_eq r.role admin && not (is_some r.agent_group_id)) rows)

-- `getAdminsOfAgentGroup`
unfoldable pub get_admins_of_agent_group : Text → List UserRole → List UserRole
unfolding order_by_grant
get_admins_of_agent_group group rows =
    order_by_grant (filter (λ r. role_eq r.role admin && column_eq r.agent_group_id group) rows)

-- `add`: `seen` holds what `approvers` holds
abbrev pub add_approver : List Text → Text → List Text
add_approver approvers id = if has approvers id then approvers else approvers ++ id ∷ []

unfoldable pub add_all : List Text → List UserRole → List Text
add_all approvers [] = approvers
add_all approvers (r ∷ rows) = add_all (add_approver approvers r.user_id) rows

abbrev pub group_admins : Option Text → List UserRole → List UserRole
group_admins none rows = []
group_admins (some group) rows = get_admins_of_agent_group group rows

-- `pickApprover`
unfoldable pub pick_approver : Option Text → List UserRole → List Text
unfolding add_all get_owners get_global_admins get_admins_of_agent_group
pick_approver group rows =
    add_all (add_all (add_all [] (group_admins (non_empty group) rows)) (get_global_admins rows))
      (get_owners rows)

-- `channelTypeOf`
unfoldable pub channel_type_of : Text → Text
channel_type_of user = elim (cut b':' user) [ none ↦ [] | some (prefix, handle) ↦ prefix ]

-- `ensureUserDm`: the chat in which the bot (the channel's default one for the empty text) reaches
-- the user, if any.
pub record UserDms : Type 0 where
  pub ensure_user_dm : Text → Text → Option Text

-- What `pickApprovalDelivery` returns.
pub record Target : Type 0 where
  pub user_id : Text
  pub messaging_group : Text
  pub via_fallback_bot : Bool

module _ (dms : UserDms) where
  -- one of its loops: the first of the users whom the bot reaches
  unfoldable pub first_reachable : Text → Bool → List Text → Option Target
  first_reachable bot fallback [] = none
  first_reachable bot fallback (u ∷ users) = elim (dms.ensure_user_dm u bot) [
    | none ↦ first_reachable bot fallback users
    | some chat ↦ some (record { user_id = u; messaging_group = chat; via_fallback_bot = fallback })
  ]

  abbrev pub on_channel : Text → List Text → List Text
  on_channel channel = filter (λ u. text_eq (channel_type_of u) channel)

  -- step 1: `originChannelType && originBotId`
  unfoldable pub by_origin_bot : Text → Text → List Text → Option Target
  unfolding first_reachable
  by_origin_bot [] bot users = none
  by_origin_bot channel [] users = none
  by_origin_bot channel bot users = first_reachable bot false (on_channel channel users)

  -- step 2: `originChannelType`
  unfoldable pub by_default_bot : Text → Text → List Text → Option Target
  unfolding first_reachable
  by_default_bot [] bot users = none
  by_default_bot channel bot users =
      first_reachable [] (is_some (non_empty (some bot))) (on_channel channel users)

  -- `pickApprovalDelivery`; a missing bot id is the empty text
  unfoldable pub pick_approval_delivery : List Text → Text → Text → Option Target
  unfolding by_origin_bot by_default_bot first_reachable
  pick_approval_delivery users channel bot = elim (by_origin_bot channel bot users) [
    | some t ↦ some t
    | none ↦ elim (by_default_bot channel bot users) [
      | some t ↦ some t
      | none ↦ first_reachable [] (is_some (non_empty (some bot))) users
    ]
  ]
