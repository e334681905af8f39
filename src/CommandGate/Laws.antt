-- ===== src/CommandGate/Laws.antt =====
-- What the gate lets through, and that it agrees with the permissions module.
use paraclaw.Prelude.{
  ◌≡◌, ◌≢◌, ◌↔◌, ◌⊎◌, inl, inr, refl, true, false, ◌||◌, Text, lit, has, starts_with, to_lower,
  Option, none, some, List, [], ◌∷◌, All, any, arith,
}
use paraclaw.Json.{Json}
use paraclaw.Permissions.{
  UserRole, RoleKind, owner, admin, is_owner, is_global_admin, is_admin_of_agent_group,
  has_admin_privilege, matches_grant,
}
use paraclaw.Permissions.Grants.{IsGlobalOwner}
use paraclaw.CommandGate.{
  deny, gate_command, gate_text, first_word, filtered_commands, admin_commands, is_admin,
  matches_admin,
}

-- The command that a text starts with, in lower case, if it starts with a slash.
abbrev pub command_of : Text → Text
command_of text = to_lower (first_word text)

module _ (parse : Text → Option Json) (roles : Option (List UserRole)) where
  -- A message is denied exactly when it is an admin command from a sender with no admin role
  -- over the group, and the denial names that command.
  pub gate_command-eq-deny_iff :
      (content : Text) (user : Option Text) (group command : Text)
      → (gate_command parse roles content user group ≡ deny command) ↔ (
          (starts_with (gate_text parse content) (lit "/") ≡ true)
          × (has filtered_commands command ≡ false)
          × (has admin_commands command ≡ true)
          × (is_admin roles user group ≡ false)
          × (command_of (gate_text parse content) ≡ command))
  unfolding gate_command
  gate_command-eq-deny_iff content user group command = ground arith

role-cases : (r : RoleKind) → (r ≡ owner) ⊎ (r ≡ admin)
role-cases owner = inl refl
role-cases admin = inr refl

module _ (user group : Text) where
  -- On one row the gate's test is the disjunction of the three queries.
  matches_admin-split :
      (row : UserRole)
      → IsGlobalOwner row
      → matches_admin user group row
        ≡ matches_grant user owner none row
          || (matches_grant user admin none row || matches_grant user admin (some group) row)
  unfolding matches_grant
  matches_admin-split row h = elim (role-cases row.role) [
    | inl is_owner ↦ rw is_owner (ground (arith, h is_owner))
    | inr is_admin ↦ rw is_admin (ground arith)
  ]

  any-matches_admin :
      (rows : List UserRole)
      → All IsGlobalOwner rows
      → any (matches_admin user group) rows ≡ has_admin_privilege rows user group
  unfolding has_admin_privilege is_owner is_global_admin is_admin_of_agent_group
  any-matches_admin [] h = refl
  any-matches_admin (row ∷ rows) (g, h) =
      ground (arith, matches_admin-split row g, any-matches_admin rows h)

-- On a table whose owner rows are all global, the gate's own query and the permissions module's
-- `hasAdminPrivilege` give one answer for every identified user and every group.
pub is_admin-eq-has_admin_privilege :
    (rows : List UserRole) (user group : Text)
    → user ≢ []
    → All IsGlobalOwner rows
    → is_admin (some rows) (some user) group ≡ has_admin_privilege rows user group
unfolding is_admin
is_admin-eq-has_admin_privilege rows [] group h all_global = absurd (h refl)
is_admin-eq-has_admin_privilege rows (c ∷ user) group h all_global =
    any-matches_admin (c ∷ user) group rows all_global
