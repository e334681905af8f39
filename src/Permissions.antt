-- ===== src/Permissions.antt =====
-- src/modules/permissions: the tables users, user_roles and agent_group_members, the queries over
-- them (db/users.ts, db/user-roles.ts, db/agent-group-members.ts) and the access decision
-- (access.ts). A table is the list of its rows; NULL is `none`.
pub mod Grants
pub mod Access
mod Tests
use paraclaw.Prelude.{
  Bool, true, false, not, ◌&&◌, ◌||◌, Text, text_eq, Option, none, some, List, [], ◌∷◌, ◌++◌, any,
  filter, find?, update, is_some, get_or, if◌then◌else◌,
}

pub record User : Type 0 where
  pub id : Text
  pub kind : Text
  pub display_name : Option Text
  pub created_at : Text

-- `UserRoleKind`
pub data RoleKind : Type 0 where
  owner admin : RoleKind

pub record UserRole : Type 0 where
  pub user_id : Text
  pub role : RoleKind
  pub agent_group_id : Option Text
  pub granted_by : Option Text
  pub granted_at : Text

pub record AgentGroupMember : Type 0 where
  pub user_id : Text
  pub agent_group_id : Text
  pub added_by : Option Text
  pub added_at : Text

pub record Central : Type 0 where
  pub users : List User
  pub user_roles : List UserRole
  pub agent_group_members : List AgentGroupMember

abbrev pub role_eq : RoleKind → RoleKind → Bool
role_eq owner owner = true
role_eq admin admin = true
role_eq _ _ = false

-- `column = ?`, which no NULL satisfies
abbrev pub column_eq : Option Text → Text → Bool
column_eq none t = false
column_eq (some s) t = text_eq s t

-- `WHERE user_id = ? AND role = ? AND agent_group_id IS NULL`, or `= ?` for a group
unfoldable pub matches_grant : Text → RoleKind → Option Text → UserRole → Bool
matches_grant user role none row =
    text_eq row.user_id user && (role_eq row.role role && not (is_some row.agent_group_id))
matches_grant user role (some group) row =
    text_eq row.user_id user && (role_eq row.role role && column_eq row.agent_group_id group)

abbrev pub has_grant : List UserRole → Text → RoleKind → Option Text → Bool
has_grant rows user role group = any (matches_grant user role group) rows

-- Which ids the tables users and agent_groups hold, to which the columns of user_roles refer.
pub record Parents : Type 0 where
  pub user : Text → Bool
  pub group : Text → Bool

-- A NULL refers to nothing.
abbrev pub refers : (Text → Bool) → Option Text → Bool
refers held none = true
refers held (some id) = held id

-- `grantRole`; `none` is the thrown error: a scoped owner, a row that the primary key
-- (user_id, role, agent_group_id) holds already, or a foreign key without its row. A primary key with
-- a NULL in it never collides.
unfoldable pub grant_role : Parents → UserRole → List UserRole → Option (List UserRole)
grant_role parents row rows =
    if role_eq row.role owner && is_some row.agent_group_id
    then none
    else if is_some row.agent_group_id && has_grant rows row.user_id row.role row.agent_group_id
    then none
    else if not (
        parents.user row.user_id
        && (refers parents.group row.agent_group_id && refers parents.user row.granted_by))
    then none
    else some (rows ++ row ∷ [])

-- `revokeRole`
unfoldable pub revoke_role : Text → RoleKind → Option Text → List UserRole → List UserRole
revoke_role user role group rows = filter (λ row. not (matches_grant user role group row)) rows

-- `isOwner`
unfoldable pub is_owner : List UserRole → Text → Bool
is_owner rows user = has_grant rows user owner none

-- `isGlobalAdmin`
unfoldable pub is_global_admin : List UserRole → Text → Bool
is_global_admin rows user = has_grant rows user admin none

-- `isAdminOfAgentGroup`
unfoldable pub is_admin_of_agent_group : List UserRole → Text → Text → Bool
is_admin_of_agent_group rows user group = has_grant rows user admin (some group)

-- `hasAdminPrivilege`
unfoldable pub has_admin_privilege : List UserRole → Text → Text → Bool
has_admin_privilege rows user group =
    is_owner rows user || (is_global_admin rows user || is_admin_of_agent_group rows user group)

-- `hasMembershipRow`
unfoldable pub has_membership_row : List AgentGroupMember → Text → Text → Bool
has_membership_row rows user group =
    any (λ r. text_eq r.user_id user && text_eq r.agent_group_id group) rows

-- `addMember`: INSERT OR IGNORE on the key (user_id, agent_group_id). The rows that the new one refers
-- to are there: both handlers that call it pass a group that the pending row refers to, a sender that the
-- sender resolver has stored in users, and a clicker who holds a role, or
-- held one when the card was sent.
unfoldable pub add_member : AgentGroupMember → List AgentGroupMember → List AgentGroupMember
add_member row rows =
    if has_membership_row rows row.user_id row.agent_group_id then rows else rows ++ row ∷ []

-- `removeMember`
unfoldable pub remove_member : Text → Text → List AgentGroupMember → List AgentGroupMember
remove_member user group rows =
    filter (λ r. not (text_eq r.user_id user && text_eq r.agent_group_id group)) rows

-- `isMember`
unfoldable pub is_member : Central → Text → Text → Bool
is_member db user group =
    if is_owner db.user_roles user
      || (is_global_admin db.user_roles user || is_admin_of_agent_group db.user_roles user group)
    then true
    else has_membership_row db.agent_group_members user group

-- `getUser`
unfoldable pub get_user : List User → Text → Option User
get_user rows user = find? (λ r. text_eq r.id user) rows

-- COALESCE(excluded.display_name, users.display_name)
abbrev pub coalesce_name : User → User → User
coalesce_name new old = record old {
  display_name = elim new.display_name [ none ↦ old.display_name | some n ↦ some n ];
}

-- `upsertUser`
unfoldable pub upsert_user : User → List User → List User
unfolding get_user
upsert_user user rows =
    if is_some (get_user rows user.id)
    then update (λ r. text_eq r.id user.id) (coalesce_name user) rows
    else rows ++ user ∷ []

-- `AccessDecision`
pub data AccessDecision : Type 0 where
  by_owner by_global_admin by_admin_of_group by_member : AccessDecision
  unknown_user not_member : AccessDecision

abbrev pub allowed : AccessDecision → Bool
allowed unknown_user = false
allowed not_member = false
allowed _ = true

-- `canAccessAgentGroup`
unfoldable pub can_access_agent_group : Central → Text → Text → AccessDecision
can_access_agent_group db user group =
    if not (is_some (get_user db.users user))
    then unknown_user
    else if is_owner db.user_roles user
    then by_owner
    else if is_global_admin db.user_roles user
    then by_global_admin
    else if is_admin_of_agent_group db.user_roles user group
    then by_admin_of_group
    else if is_member db user group
    then by_member
    else not_member
