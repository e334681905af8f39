-- ===== src/CommandGate/Tests.antt =====
-- Commands of an administrator and of a stranger.
use paraclaw.Prelude.{
  ◌≡◌, ◌↔◌, refl, Bool, true, false, Text, lit, has, starts_with, Option, none, some, List, [], ◌∷◌,
}
use paraclaw.Json.{Json}
use paraclaw.Permissions.{UserRole, admin, has_admin_privilege}
use paraclaw.CommandGate.{
  GateResult, deny, filtered, pass, filtered_commands, admin_commands, gate_text, is_admin,
  gate_command,
}
use paraclaw.CommandGate.Laws.{is_admin-eq-has_admin_privilege}

abbrev one_admin : List UserRole
one_admin =
    record {
      user_id = lit "bob";
      role = admin;
      agent_group_id = some (lit "g1");
      granted_by = none;
      granted_at = [];
    }
    ∷ []

abbrev no_json : Text → Option Json
no_json t = none

stranger_is_denied :
    gate_command no_json (some one_admin) (lit "/clear all") (some (lit "eve")) (lit "g1")
    ≡ deny (lit "/clear")
unfolding gate_command starts_with gate_text paraclaw.Prelude.text_eq
    paraclaw.CommandGate.first_word is_admin
stranger_is_denied = refl

admin_passes :
    gate_command no_json (some one_admin) (lit "/clear all") (some (lit "bob")) (lit "g1") ≡ pass
unfolding gate_command starts_with gate_text paraclaw.Prelude.text_eq
    paraclaw.CommandGate.first_word is_admin
admin_passes = refl

is_admin-eq-has_admin_privilege_example :
    is_admin (some one_admin) (some (lit "bob")) (lit "g1")
    ≡ has_admin_privilege one_admin (lit "bob") (lit "g1")
is_admin-eq-has_admin_privilege_example =
    is_admin-eq-has_admin_privilege one_admin (lit "bob") (lit "g1") (λ e. cc) ((λ e. cc), tt)
