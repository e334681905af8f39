-- ===== src/Approvals/Pick.antt =====
-- Who is eligible to approve, and who is asked.
use paraclaw.Prelude.{
  ℕ, ◌≡◌, refl, ◌∙◌, ap, Bool, true, false, not, ◌&&◌, ◌||◌, Text, text_eq, text_eq_iff, has, some,
  List, [], ◌∷◌, ◌++◌, any, filter, is_some, arith, Option-cases, Bool-cases, inl, inr,
  if◌then◌else◌,
}
use paraclaw.ContainerDb.{non_empty}
use paraclaw.Permissions.{
  UserRole, owner, admin, role_eq, column_eq, matches_grant, is_owner, is_global_admin,
  is_admin_of_agent_group, has_admin_privilege,
}
use paraclaw.Approvals.{
  insert_by_grant, order_by_grant, get_owners, get_global_admins, get_admins_of_agent_group,
  add_approver, add_all, pick_approver, UserDms, Target, first_reachable, on_channel, by_origin_bot,
  by_default_bot, pick_approval_delivery, channel_type_of,
}

any-insert_by_grant :
    (p : UserRole → Bool) (row : UserRole) (rows : List UserRole)
    → any p (insert_by_grant row rows) ≡ p row || any p rows
unfolding insert_by_grant
any-insert_by_grant p row [] = refl
any-insert_by_grant p row (r ∷ rows) = ground (arith, any-insert_by_grant p row rows)

any-order_by_grant :
    (p : UserRole → Bool) (rows : List UserRole) → any p (order_by_grant rows) ≡ any p rows
unfolding order_by_grant
any-order_by_grant p [] = refl
any-order_by_grant p (r ∷ rows) =
    any-insert_by_grant p r (order_by_grant rows) ∙ ap (λ b. p r || b) (any-order_by_grant p rows)

any-filter :
    (p q : UserRole → Bool) (rows : List UserRole)
    → any p (filter q rows) ≡ any (λ r. q r && p r) rows
any-filter p q [] = refl
any-filter p q (r ∷ rows) = ground (arith, any-filter p q rows)

any-swap :
    (q : UserRole → Bool) (user : Text) (rows : List UserRole)
    → any (λ r. q r && text_eq r.user_id user) rows ≡ any (λ r. text_eq r.user_id user && q r) rows
any-swap q user [] = refl
any-swap q user (r ∷ rows) = ground (arith, any-swap q user rows)

has-snoc : (xs : List Text) (x t : Text) → has (xs ++ x ∷ []) t ≡ has xs t || text_eq x t
has-snoc [] x t = ground arith
has-snoc (y ∷ xs) x t = ground (arith, has-snoc xs x t)

has-add_approver :
    (approvers : List Text) (id t : Text)
    → has (add_approver approvers id) t ≡ has approvers t || text_eq id t
has-add_approver approvers id t = elim (Bool-cases (text_eq id t)) [
  | inl same ↦
      let e : id ≡ t = ground (arith, text_eq_iff id t, same) in
      rw e (ground (arith, has-snoc approvers t t, text_eq_iff t t))
  | inr other ↦ ground (arith, has-snoc approvers id t, other)
]

abbrev holds : Text → UserRole → Bool
holds user r = text_eq r.user_id user

has-add_all :
    (approvers : List Text) (rows : List UserRole) (t : Text)
    → has (add_all approvers rows) t ≡ has approvers t || any (holds t) rows
unfolding add_all
has-add_all approvers [] t = ground arith
has-add_all approvers (r ∷ rows) t = ground (
  arith,
  has-add_all (add_approver approvers r.user_id) rows t,
  has-add_approver approvers r.user_id t,
)

module _ (rows : List UserRole) (user : Text) where
  owners_held : any (holds user) (get_owners rows) ≡ is_owner rows user
  unfolding get_owners is_owner matches_grant
  owners_held =
      any-order_by_grant (holds user) _
      ∙ (any-filter (holds user) (λ r. role_eq r.role owner && not (is_some r.agent_group_id)) rows
          ∙ any-swap (λ r. role_eq r.role owner && not (is_some r.agent_group_id)) user rows)

  global_admins_held : any (holds user) (get_global_admins rows) ≡ is_global_admin rows user
  unfolding get_global_admins is_global_admin matches_grant
  global_admins_held =
      any-order_by_grant (holds user) _
      ∙ (any-filter (holds user) (λ r. role_eq r.role admin && not (is_some r.agent_group_id)) rows
          ∙ any-swap (λ r. role_eq r.role admin && not (is_some r.agent_group_id)) user rows)

  group_admins_held :
      (group : Text)
      → any (holds user) (get_admins_of_agent_group group rows)
        ≡ is_admin_of_agent_group rows user group
  unfolding get_admins_of_agent_group is_admin_of_agent_group matches_grant
  group_admins_held group =
      any-order_by_grant (holds user) _
      ∙ (any-filter (holds user) (λ r. role_eq r.role admin && column_eq r.agent_group_id group)
            rows
          ∙ any-swap (λ r. role_eq r.role admin && column_eq r.agent_group_id group) user rows)

-- The list that `pickApprover` gives for an agent group, whose id is not empty, holds a user exactly if
-- `hasAdminPrivilege` holds of the user and the group: whoever is eligible is listed, and nobody else.
pub has-pick_approver :
    (c : ℕ) (group : Text) (rows : List UserRole) (user : Text)
    → has (pick_approver (some (c ∷ group)) rows) user ≡ has_admin_privilege rows user (c ∷ group)
unfolding pick_approver has_admin_privilege
has-pick_approver c group rows user =
    let admins = get_admins_of_agent_group (c ∷ group) rows in
    let first = add_all [] admins in
    let second = add_all first (get_global_admins rows) in
    ground (
      arith,
      has-add_all second (get_owners rows) user,
      has-add_all first (get_global_admins rows) user,
      has-add_all [] admins user,
      owners_held rows user,
      global_admins_held rows user,
      group_admins_held rows user (c ∷ group),
    )

module _ (dms : UserDms) where
  -- The answer is one of the users, whom the bot reaches in the chat.
  abbrev pub Reaches : Text → Bool → List Text → Target → Type 0
  Reaches bot fallback users t =
      (has users t.user_id ≡ true)
      × (dms.ensure_user_dm t.user_id bot ≡ some t.messaging_group)
      × (t.via_fallback_bot ≡ fallback)

  first_reachable-Reaches :
      (bot : Text) (fallback : Bool) (users : List Text) (t : Target)
      → first_reachable dms bot fallback users ≡ some t
      → Reaches bot fallback users t
  unfolding first_reachable
  first_reachable-Reaches bot fallback [] t e = cc
  first_reachable-Reaches bot fallback (u ∷ users) t e =
      elim (Option-cases (dms.ensure_user_dm u bot)) [
        | inl unreached ↦
            let (listed, chat, flag) =
              first_reachable-Reaches bot fallback users t (ground (arith, unreached, e)) in
            (ground (arith, listed), chat, flag)
        | inr (chat, reached) ↦
            let same : record { user_id = u; messaging_group = chat; via_fallback_bot = fallback }
                ≡ t =
              ground (arith, reached, e) in
            rw (← same) (ground (arith, text_eq_iff u u), reached, refl)
      ]

has-filter :
    (q : Text → Bool) (users : List Text) (u : Text)
    → has (filter q users) u ≡ true
    → has users u ≡ true
has-filter q [] u h = h
has-filter q (x ∷ users) u h = ground (arith, has-filter q users u, h)

abbrev bot_used : Text → Target → Text
bot_used bot t = if t.via_fallback_bot then [] else bot

-- What the delivery of a card rests on.
abbrev pub IsDeliverable : UserDms → List Text → Text → Target → Type 0
IsDeliverable dms users bot t =
    (has users t.user_id ≡ true)
    × (dms.ensure_user_dm t.user_id (bot_used bot t) ≡ some t.messaging_group)

module _ (dms : UserDms) (users : List Text) where
  by_flag :
      (bot : Text) (t : Target)
      → Reaches dms [] (is_some (non_empty (some bot))) users t
      → IsDeliverable dms users bot t
  by_flag [] t (listed, reached, flag) = (listed, rw flag reached)
  by_flag (b ∷ bot) t (listed, reached, flag) = (listed, rw flag reached)

  origin-IsDeliverable :
      (channel bot : Text) (t : Target)
      → by_origin_bot dms channel bot users ≡ some t
      → IsDeliverable dms users bot t
  unfolding by_origin_bot
  origin-IsDeliverable [] bot t e = cc
  origin-IsDeliverable (c ∷ channel) [] t e = cc
  origin-IsDeliverable (c ∷ channel) (b ∷ bot) t e =
      let there = on_channel dms (c ∷ channel) users in
      let (listed, reached, flag) = first_reachable-Reaches dms (b ∷ bot) false there t e in
      (
        has-filter (λ u. text_eq (channel_type_of u) (c ∷ channel)) users t.user_id listed,
        rw flag reached,
      )

  default-IsDeliverable :
      (channel bot : Text) (t : Target)
      → by_default_bot dms channel bot users ≡ some t
      → IsDeliverable dms users bot t
  unfolding by_default_bot
  default-IsDeliverable [] bot t e = cc
  default-IsDeliverable (c ∷ channel) bot t e =
      let there = on_channel dms (c ∷ channel) users in
      let fallback = is_some (non_empty (some bot)) in
      let (listed, reached, flag) = first_reachable-Reaches dms [] fallback there t e in
      by_flag bot t (
        has-filter (λ u. text_eq (channel_type_of u) (c ∷ channel)) users t.user_id listed,
        reached,
        flag,
      )

-- The approver that `pickApprovalDelivery` picks is one of those it was given, and the chat is the one
-- in which that user is reached: by the origin's bot, or, where the answer says that it fell back, by
-- the default bot of the user's channel.
pub pick_approval_delivery-IsDeliverable :
    (dms : UserDms) (users : List Text) (channel bot : Text) (t : Target)
    → pick_approval_delivery dms users channel bot ≡ some t
    → IsDeliverable dms users bot t
unfolding pick_approval_delivery
pick_approval_delivery-IsDeliverable dms users channel bot t e =
    elim (Option-cases (by_origin_bot dms channel bot users)) [
      | inr (s, found) ↦
          let same : s ≡ t = ground (arith, found, e) in
          origin-IsDeliverable dms users channel bot t (rw (← same) found)
      | inl no_origin ↦ elim (Option-cases (by_default_bot dms channel bot users)) [
        | inr (s, found) ↦
            let same : s ≡ t = ground (arith, no_origin, found, e) in
            default-IsDeliverable dms users channel bot t (rw (← same) found)
        | inl no_default ↦ by_flag dms users bot t (
            first_reachable-Reaches dms [] (is_some (non_empty (some bot))) users t
              (ground (arith, no_origin, no_default, e)))
      ]
    ]
