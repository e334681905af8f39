-- ===== src/SenderGate.antt =====
-- The hooks that src/modules/permissions/index.ts registers with the router: who sent an event, and
-- whether that user may reach an agent. `JSON.parse` is the parameter `parse`.
pub mod Admission
pub mod Approval
pub mod Known
pub mod Strangers
mod Tests
use paraclaw.Prelude.{
  Bool, true, false, not, ◌&&◌, ◌||◌, Text, lit, includes, Option, none, some, List, [], ◌∷◌, ◌++◌,
  is_some, if◌then◌else◌,
}
use paraclaw.Json
use paraclaw.Json.{Json}
use paraclaw.Permissions.{Central, User, get_user, upsert_user, can_access_agent_group, allowed}

pub data UnknownSenderPolicy : Type 0 where
  strict request_approval public : UnknownSenderPolicy

pub data SenderScope : Type 0 where
  everyone known : SenderScope

-- `typeof v === 'string' ? v : undefined`
abbrev pub string_of : Option Json → Option Text
string_of (some (Json.str s)) = some s
string_of _ = none

-- `a ?? b`
abbrev pub or_else : Option Text → Option Text → Option Text
or_else none b = b
or_else (some a) b = some a

-- a property of `author`, which must be an object
abbrev pub author_field : Json → Text → Option Text
author_field content name = elim (Json.get content (lit "author")) [
  | none ↦ none
  | some author ↦ string_of (Json.get author name)
]

abbrev pub raw_handle : Json → Option Text
raw_handle content =
    or_else (string_of (Json.get content (lit "senderId")))
      (or_else (string_of (Json.get content (lit "sender"))) (author_field content (lit "userId")))

abbrev pub sender_name : Json → Option Text
sender_name content =
    or_else (string_of (Json.get content (lit "senderName")))
      (or_else (author_field content (lit "fullName")) (author_field content (lit "userName")))

abbrev pub namespaced : Text → Text → Text
namespaced channel handle =
    if includes handle (lit ":") then handle else channel ++ (lit ":" ++ handle)

-- the upsert of a user who is not known
unfoldable pub ensure_user : Central → Text → Text → Option Text → Text → Central
ensure_user db id channel name now = if is_some (get_user db.users id) then db else record db {
  users =
      upsert_user (record { id = id; kind = channel; display_name = name; created_at = now })
        db.users;
}

unfoldable pub sender_of : Json → Text → Text → Central → Central × Option Text
unfolding ensure_user
sender_of content channel now db = elim (raw_handle content) [
  | none ↦ (db, none)
  | some [] ↦ (db, none)
  | some (c ∷ handle) ↦
      let id = namespaced channel (c ∷ handle) in
      (ensure_user db id channel (sender_name content) now, some id)
]

-- `extractAndUpsertUser`; `none` is the TypeError of a content that is the JSON text null
unfoldable pub extract_and_upsert_user :
    (Text → Option Json) → Text → Text → Text → Central → Option (Central × Option Text)
unfolding sender_of
extract_and_upsert_user parse content channel now db = elim (parse content) [
  | none ↦ some (db, none)
  | some Json.null ↦ none
  | some v ↦ some (sender_of v channel now db)
]

-- What the gate does besides answering.
pub data GateEffect : Type 0 where
  recorded_drop : GateEffect
  requested_approval : Text → GateEffect

-- `handleUnknownSender`
unfoldable pub handle_unknown_sender : UnknownSenderPolicy → Option Text → List GateEffect
handle_unknown_sender strict user = recorded_drop ∷ []
handle_unknown_sender request_approval none = recorded_drop ∷ []
handle_unknown_sender request_approval (some []) = recorded_drop ∷ []
handle_unknown_sender request_approval (some (c ∷ user)) =
    recorded_drop ∷ requested_approval (c ∷ user) ∷ []
handle_unknown_sender public user = []

-- the part of the access gate behind the test for a public channel
unfoldable pub gate_sender :
    Central → UnknownSenderPolicy → Option Text → Text → Bool × List GateEffect
unfolding handle_unknown_sender
gate_sender db policy none group = (false, handle_unknown_sender policy none)
gate_sender db policy (some []) group = (false, handle_unknown_sender policy none)
gate_sender db policy (some (c ∷ user)) group =
    if allowed (can_access_agent_group db (c ∷ user) group)
    then (true, [])
    else (false, handle_unknown_sender policy (some (c ∷ user)))

-- the function given to `setAccessGate`: its answer, and what it does
unfoldable pub access_gate :
    Central → UnknownSenderPolicy → Option Text → Text → Bool × List GateEffect
unfolding gate_sender
access_gate db public user group = (true, [])
access_gate db policy user group = gate_sender db policy user group

-- the function given to `setSenderScopeGate`
unfoldable pub scope_gate : Central → SenderScope → Option Text → Text → Bool
scope_gate db everyone user group = true
scope_gate db known none group = false
scope_gate db known (some []) group = false
scope_gate db known (some (c ∷ user)) group = allowed (can_access_agent_group db (c ∷ user) group)
