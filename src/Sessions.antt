-- ===== src/Sessions.antt =====
-- src/db/sessions.ts and `resolveSession` of src/session-manager.ts: the table sessions and the
-- choice of the session that a message goes to. A lookup without an order takes the first row.
pub mod Resolve
mod Tests
use paraclaw.Prelude.{
  ℕ, Bool, true, false, not, ◌&&◌, Text, text_eq, Option, none, some, List, [], ◌∷◌, ◌++◌, filter,
  find?, update, is_some, if◌then◌else◌, leb,
}
use paraclaw.ContainerDb.{non_empty}

-- A row of sessions; `active` is the test `status = 'active'`, `created_at` the moment it names.
pub record Session : Type 0 where
  pub id : Text
  pub agent_group_id : Text
  pub messaging_group_id : Option Text
  pub thread_id : Option Text
  pub active : Bool
  pub last_active : Option Text
  pub created_at : ℕ

pub data SessionMode : Type 0 where
  shared per_thread agent_shared : SessionMode

-- `column = ?` with a NULL column
abbrev pub column_is : Option Text → Text → Bool
column_is none t = false
column_is (some s) t = text_eq s t

-- `thread_id = ?` for a thread that is not empty, `thread_id IS NULL` for the others
abbrev pub thread_is : Option Text → Session → Bool
thread_is (some (c ∷ t)) s = column_is s.thread_id (c ∷ t)
thread_is _ s = not (is_some s.thread_id)

-- `getSession`
unfoldable pub get_session : Text → List Session → Option Session
get_session id sessions = find? (λ s. text_eq s.id id) sessions

-- `findSession`
unfoldable pub find_session : Text → Option Text → List Session → Option Session
find_session group thread sessions =
    find? (λ s. column_is s.messaging_group_id group && thread_is thread s && s.active) sessions

-- the WHERE of `findSessionForAgent`
abbrev pub serves : Text → Text → Option Text → Session → Bool
serves agent group thread s =
    text_eq s.agent_group_id agent
    && column_is s.messaging_group_id group
    && thread_is thread s
    && s.active

-- `findSessionForAgent`
unfoldable pub find_session_for_agent : Text → Text → Option Text → List Session → Option Session
find_session_for_agent agent group thread sessions = find? (serves agent group thread) sessions

abbrev pub active_of : Text → Session → Bool
active_of agent s = text_eq s.agent_group_id agent && s.active

-- ORDER BY created_at DESC LIMIT 1
unfoldable pub newest : List Session → Option Session
newest [] = none
newest (s ∷ sessions) =
    let rest = newest sessions in
    elim rest [ none ↦ some s | some t ↦ if leb t.created_at s.created_at then some s else some t ]

-- `findSessionByAgentGroup`
unfoldable pub find_session_by_agent_group : Text → List Session → Option Session
unfolding newest
find_session_by_agent_group agent sessions = newest (filter (active_of agent) sessions)

-- `updateSession(id, { last_active })`
unfoldable pub touch_session : Text → Text → List Session → List Session
touch_session id at sessions =
    update (λ s. text_eq s.id id) (λ s. record s { last_active = some at }) sessions

abbrev pub lookup_thread : SessionMode → Option Text → Option Text
lookup_thread shared thread = none
lookup_thread _ thread = thread

abbrev pub stored_thread : SessionMode → Option Text → Option Text
stored_thread per_thread thread = thread
stored_thread _ thread = none

-- the lookup at the head of `resolveSession`
unfoldable pub existing_session :
    Text → Option Text → Option Text → SessionMode → List Session → Option Session
existing_session agent group thread agent_shared sessions =
    find_session_by_agent_group agent sessions
existing_session agent group thread mode sessions = elim (non_empty group) [
  | none ↦ none
  | some g ↦ find_session_for_agent agent g (lookup_thread mode thread) sessions
]

-- The row that `resolveSession` creates.
abbrev pub fresh_session : Text → ℕ → Text → Option Text → Option Text → SessionMode → Session
fresh_session id now agent group thread mode = record {
  id = id;
  agent_group_id = agent;
  messaging_group_id = group;
  thread_id = stored_thread mode thread;
  active = true;
  last_active = none;
  created_at = now;
}

-- What `resolveSession` returns, with the table that it leaves.
pub record Resolved : Type 0 where
  pub session : Session
  pub created : Bool
  pub sessions : List Session

-- `resolveSession`; `id` and `now` are what `generateId()` and the clock give
unfoldable pub resolve_session :
    Text → ℕ → Text → Option Text → Option Text → SessionMode → List Session → Resolved
unfolding existing_session
resolve_session id now agent group thread mode sessions =
    elim (existing_session agent group thread mode sessions) [
      | some s ↦ record { session = s; created = false; sessions = sessions }
      | none ↦ record {
        session = fresh_session id now agent group thread mode;
        created = true;
        sessions = sessions ++ fresh_session id now agent group thread mode ∷ [];
      }
    ]
