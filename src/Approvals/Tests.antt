-- ===== src/Approvals/Tests.antt =====
-- An owner and an administrator of one group.
use paraclaw.Prelude.{
  ◌≡◌, refl, Bool, true, false, Text, lit, text_eq, has, Option, none, some, List, [], ◌∷◌,
  if◌then◌else◌,
}
use paraclaw.Permissions.{UserRole, RoleKind, owner, admin, has_admin_privilege}
use paraclaw.Approvals.{UserDms, Target, pick_approver, pick_approval_delivery}
use paraclaw.Approvals.Pick.{has-pick_approver}

abbrev row : Text → RoleKind → Option Text → UserRole
row user role group = record {
  user_id = user;
  role = role;
  agent_group_id = group;
  granted_by = none;
  granted_at = lit "2026-01-01";
}

abbrev roles : List UserRole
roles = row (lit "telegram:1") owner none ∷ row (lit "discord:2") admin (some (lit "g1")) ∷ []

admin_comes_first : pick_approver (some (lit "g1")) roles ≡ lit "discord:2" ∷ lit "telegram:1" ∷ []
unfolding pick_approver text_eq
admin_comes_first = refl

has-pick_approver_example :
    has (pick_approver (some (lit "g1")) roles) (lit "discord:2")
    ≡ has_admin_privilege roles (lit "discord:2") (lit "g1")
has-pick_approver_example = has-pick_approver b'g' (lit "1") roles (lit "discord:2")

-- Only the owner has a chat, with the default bot.
abbrev dms : UserDms
dms = record {
  ensure_user_dm = λ user bot.
      if text_eq user (lit "telegram:1")
      then (if text_eq bot [] then some (lit "mg") else none)
      else none;
}

abbrev owner_by_default : Target
owner_by_default = record {
  user_id = lit "telegram:1";
  messaging_group = lit "mg";
  via_fallback_bot = true;
}

falls_back :
    pick_approval_delivery dms (lit "discord:2" ∷ lit "telegram:1" ∷ []) (lit "telegram") (lit "7")
    ≡ some owner_by_default
unfolding pick_approval_delivery text_eq paraclaw.Approvals.channel_type_of paraclaw.Prelude.cut
falls_back = refl
