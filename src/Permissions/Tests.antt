-- ===== src/Permissions/Tests.antt =====
-- Users, roles and memberships of one small installation.
use paraclaw.Prelude.{
  ◌≡◌, refl, Bool, true, false, ◌&&◌, ◌||◌, Text, lit, Option, none, some, List, [], ◌∷◌, is_some,
  if◌then◌else◌,
}
use paraclaw.Permissions.{
  UserRole, RoleKind, owner, admin, Central, has_grant, grant_role, revoke_role,
  can_access_agent_group, allowed, get_user, has_admin_privilege, has_membership_row,
}
use paraclaw.Permissions.Access.{can_access-allowed}

abbrev role_row : Text → RoleKind → Option Text → UserRole
role_row user role group = record {
  user_id = user;
  role = role;
  agent_group_id = group;
  granted_by = none;
  granted_at = lit "2026-01-01";
}

abbrev two_roles : List UserRole
two_roles = role_row (lit "ann") owner none ∷ role_row (lit "bob") admin (some (lit "g1")) ∷ []

abbrev small : Central
small = record {
  users =
      record { id = lit "bob"; kind = lit "telegram"; display_name = none; created_at = [] } ∷ [];
  user_roles = two_roles;
  agent_group_members = [];
}

bob_is_allowed : allowed (can_access_agent_group small (lit "bob") (lit "g1")) ≡ true
unfolding can_access_agent_group get_user paraclaw.Prelude.text_eq paraclaw.Permissions.is_owner
    paraclaw.Permissions.matches_grant paraclaw.Permissions.is_global_admin
    paraclaw.Permissions.is_admin_of_agent_group
bob_is_allowed = refl

bob_is_refused : allowed (can_access_agent_group small (lit "bob") (lit "g2")) ≡ false
unfolding can_access_agent_group get_user paraclaw.Prelude.text_eq paraclaw.Permissions.is_owner
    paraclaw.Permissions.matches_grant paraclaw.Permissions.is_global_admin
    paraclaw.Permissions.is_admin_of_agent_group paraclaw.Permissions.is_member has_membership_row
bob_is_refused = refl

can_access-allowed_example :
    allowed (can_access_agent_group small (lit "bob") (lit "g1"))
    ≡ is_some (get_user small.users (lit "bob"))
      && (has_admin_privilege small.user_roles (lit "bob") (lit "g1")
          || has_membership_row small.agent_group_members (lit "bob") (lit "g1"))
can_access-allowed_example = can_access-allowed small (lit "bob") (lit "g1")
