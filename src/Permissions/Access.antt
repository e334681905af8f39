-- ===== src/Permissions/Access.antt =====
-- The access decision against the grants and the membership rows.
use paraclaw.Prelude.{◌≡◌, true, ◌||◌, ◌&&◌, Text, none, some, List, is_some, arith}
use paraclaw.Permissions.{
  Parents, Central, UserRole, owner, admin, grant_role, is_owner, is_global_admin,
  is_admin_of_agent_group, has_admin_privilege, has_membership_row, is_member, get_user, allowed,
  can_access_agent_group,
}
use paraclaw.Permissions.Grants.{grant_role_gives}

-- Access is allowed exactly when the user has a row in users and either holds an admin privilege
-- over the group (owner, global admin or admin of the group) or has a membership row in it.
pub can_access-allowed :
    (db : Central) (user group : Text)
    → allowed (can_access_agent_group db user group)
      ≡ is_some (get_user db.users user)
        && (has_admin_privilege db.user_roles user group
            || has_membership_row db.agent_group_members user group)
unfolding can_access_agent_group has_admin_privilege is_member
can_access-allowed db user group = ground arith

-- A grant that succeeds revokes nobody's access, to any group.
pub grant_role_keeps_access :
    (parents : Parents) (db : Central) (row : UserRole) (rows : List UserRole) (user group : Text)
    → grant_role parents row db.user_roles ≡ some rows
    → allowed (can_access_agent_group db user group) ≡ true
    → allowed (can_access_agent_group (record db { user_roles = rows }) user group) ≡ true
unfolding can_access_agent_group is_member is_owner is_global_admin is_admin_of_agent_group
grant_role_keeps_access parents db row rows user group e h =
    let keeps = (grant_role_gives parents row db.user_roles rows e).1 in
    let as_owner = keeps user owner none in
    let as_admin = keeps user admin none in
    let as_scoped = keeps user admin (some group) in ground (arith, as_owner, as_admin, as_scoped)
