-- ===== src/CommandGate.antt =====
-- src/command-gate.ts: which inbound slash commands reach the container. `JSON.parse` is the
-- parameter `parse`, `none` where it throws.
pub mod Laws
mod Tests
use paraclaw.Prelude.{
  Bool, true, false, ◌&&◌, ◌||◌, not, Text, lit, text_eq, has, starts_with, trim, to_lower,
  is_space, Option, none, some, List, [], ◌∷◌, any, is_some, if◌then◌else◌,
}
use paraclaw.Json
use paraclaw.Json.{Json, truthy}
use paraclaw.Permissions.{UserRole, column_eq}

pub data GateResult : Type 0 where
  pass : GateResult
  filtered : GateResult
  deny : Text → GateResult

abbrev pub filtered_commands : List Text
filtered_commands =
    lit "/help"
    ∷ lit "/login"
    ∷ lit "/logout"
    ∷ lit "/doctor"
    ∷ lit "/config"
    ∷ lit "/remote-control"
    ∷ []

abbrev pub admin_commands : List Text
admin_commands = lit "/clear" ∷ lit "/compact" ∷ lit "/context" ∷ lit "/cost" ∷ lit "/files" ∷ []

-- `(parsed.text || '').trim()`; `none` is the TypeError of a null or of a text with no `trim`.
text_of_value : Option Json → Option Text
text_of_value none = some []
text_of_value (some (Json.str s)) = some (trim s)
text_of_value (some v) = if truthy v then none else some []

text_of_json : Json → Option Text
unfolding text_of_value
text_of_json Json.null = none
text_of_json v = text_of_value (Json.get v (lit "text"))

-- The text that the gate reads: both throws end in the `catch`.
unfoldable pub gate_text : (Text → Option Json) → Text → Text
unfolding text_of_json trim
gate_text parse content = elim (parse content) [
  | none ↦ trim content
  | some v ↦ elim (text_of_json v) [ none ↦ trim content | some s ↦ s ]
]

-- `text.split(/\s/)[0]`
unfoldable pub first_word : Text → Text
first_word [] = []
first_word (c ∷ s) = let rest = first_word s in if is_space c then [] else c ∷ rest

-- A row of the query in `isAdmin`: either role, global or scoped to the group.
abbrev pub matches_admin : Text → Text → UserRole → Bool
matches_admin user group row =
    text_eq row.user_id user
    && (not (is_some row.agent_group_id) || column_eq row.agent_group_id group)

-- `isAdmin`: `roles` is the table user_roles, `none` where there is no such table. The roles of
-- the table are 'owner' and 'admin', so the test on the role holds of every row.
unfoldable pub is_admin : Option (List UserRole) → Option Text → Text → Bool
is_admin roles none group = false
is_admin roles (some []) group = false
is_admin none (some user) group = true
is_admin (some rows) (some user) group = any (matches_admin user group) rows

-- `gateCommand`
unfoldable pub gate_command :
    (Text → Option Json) → Option (List UserRole) → Text → Option Text → Text → GateResult
gate_command parse roles content user group =
    let text = gate_text parse content in
    let command = to_lower (first_word text) in
    if not (starts_with text (lit "/"))
    then pass
    else if has filtered_commands command
    then filtered
    else if has admin_commands command
    then (if is_admin roles user group then pass else deny command)
    else pass
