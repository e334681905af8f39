-- ===== src/Sessions/Resolve.antt =====
-- `resolveSession` gives an active session of the asked agent, and the same one when asked again.
use paraclaw.Prelude.{
  ℕ, ◌≡◌, ◌≢◌, refl, ap, Bool, true, false, Text, text_eq_iff, text_eq_refl, Option, none, some,
  List, [], ◌∷◌, ◌++◌, filter, find?, is_some, arith, Option-cases, Bool-cases, inl, inr, leb,
}
use paraclaw.Sessions.{
  Session, SessionMode, shared, per_thread, agent_shared, find_session_for_agent,
  find_session_by_agent_group, newest, active_of, serves, existing_session, fresh_session,
  resolve_session,
}

find?_sound :
    (p : Session → Bool) (sessions : List Session) (s : Session)
    → find? p sessions ≡ some s
    → p s ≡ true
find?_sound p [] s found = cc
find?_sound p (x ∷ sessions) s found = ground (arith, find?_sound p sessions s, found)

newest_sound :
    (agent : Text) (sessions : List Session) (s : Session)
    → newest (filter (active_of agent) sessions) ≡ some s
    → active_of agent s ≡ true
unfolding newest
newest_sound agent [] s found = cc
newest_sound agent (x ∷ sessions) s found = elim (Bool-cases (active_of agent x)) [
  | inr other ↦ newest_sound agent sessions s (ground (arith, other, found))
  | inl own ↦ elim (Option-cases (newest (filter (active_of agent) sessions))) [
    | inl empty ↦ ground (arith, own, empty, found)
    | inr (t, later) ↦ ground (arith, own, later, found, newest_sound agent sessions t later)
  ]
]

-- The session is active and of the agent; under a session mode other than agent-shared it is also of
-- the messaging group.
abbrev pub BelongsTo : Text → Text → SessionMode → Session → Type 0
BelongsTo agent group agent_shared s = (s.agent_group_id ≡ agent) × (s.active ≡ true)
BelongsTo agent group _ s =
    (s.agent_group_id ≡ agent) × (s.active ≡ true) × (s.messaging_group_id ≡ some group)

serves_sound :
    (agent group : Text) (thread : Option Text) (s : Session)
    → serves agent group thread s ≡ true
    → (s.agent_group_id ≡ agent) × (s.active ≡ true) × (s.messaging_group_id ≡ some group)
serves_sound agent group thread s h = elim (Option-cases s.messaging_group_id) [
  | inl missing ↦ ground (arith, missing, h)
  | inr (g, present) ↦ (
    ground (arith, text_eq_iff s.agent_group_id agent, h),
    ground (arith, h),
    ground (arith, present, text_eq_iff g group, h),
  )
]

existing-BelongsTo :
    (agent : Text) (c : ℕ) (group : Text) (thread : Option Text) (mode : SessionMode)
    (sessions : List Session) (s : Session)
    → existing_session agent (some (c ∷ group)) thread mode sessions ≡ some s
    → BelongsTo agent (c ∷ group) mode s
unfolding existing_session find_session_for_agent find_session_by_agent_group
existing-BelongsTo agent c group thread shared sessions s found =
    serves_sound agent (c ∷ group) none s
      (find?_sound (serves agent (c ∷ group) none) sessions s found)
existing-BelongsTo agent c group thread per_thread sessions s found =
    serves_sound agent (c ∷ group) thread s
      (find?_sound (serves agent (c ∷ group) thread) sessions s found)
existing-BelongsTo agent c group thread agent_shared sessions s found =
    let own = newest_sound agent sessions s found in
    (ground (arith, text_eq_iff s.agent_group_id agent, own), ground (arith, own))

fresh-BelongsTo :
    (id : Text) (now : ℕ) (agent : Text) (c : ℕ) (group : Text) (thread : Option Text)
    (mode : SessionMode)
    → BelongsTo agent (c ∷ group) mode (fresh_session id now agent (some (c ∷ group)) thread mode)
fresh-BelongsTo id now agent c group thread shared = (refl, refl, refl)
fresh-BelongsTo id now agent c group thread per_thread = (refl, refl, refl)
fresh-BelongsTo id now agent c group thread agent_shared = (refl, refl)

-- The session that `resolveSession` returns for a messaging group, found or created, is active and
-- of the asked agent group, and it is of the messaging group unless the mode is agent-shared.
pub resolve_session-BelongsTo :
    (id : Text) (now : ℕ) (agent : Text) (c : ℕ) (group : Text) (thread : Option Text)
    (mode : SessionMode) (sessions : List Session)
    → BelongsTo agent
        (c ∷ group)
        mode
        (resolve_session id now agent (some (c ∷ group)) thread mode sessions).session
unfolding resolve_session
resolve_session-BelongsTo id now agent c group thread mode sessions =
    elim (Option-cases (existing_session agent (some (c ∷ group)) thread mode sessions)) [
      | inl missing ↦
          rw (missing, resolve_session) (fresh-BelongsTo id now agent c group thread mode)
      | inr (s, found) ↦
          rw (found, resolve_session)
            (existing-BelongsTo agent c group thread mode sessions s found)
    ]

find?-append :
    (p : Session → Bool) (sessions : List Session) (s : Session)
    → find? p sessions ≡ none
    → p s ≡ true
    → find? p (sessions ++ s ∷ []) ≡ some s
find?-append p [] s missing own = ground (arith, own)
find?-append p (x ∷ sessions) s missing own =
    ground (arith, find?-append p sessions s, missing, own)

newest-append :
    (agent : Text) (sessions : List Session) (s : Session)
    → newest (filter (active_of agent) sessions) ≡ none
    → active_of agent s ≡ true
    → newest (filter (active_of agent) (sessions ++ s ∷ [])) ≡ some s
unfolding newest
newest-append agent [] s missing own = ground (arith, own)
newest-append agent (x ∷ sessions) s missing own = elim (Bool-cases (active_of agent x)) [
  | inr other ↦ ground (arith, other, newest-append agent sessions s, missing, own)
  | inl here ↦ elim (Option-cases (newest (filter (active_of agent) sessions))) [
    | inl empty ↦ ground (arith, here, empty, missing)
    | inr (t, later) ↦ elim (Bool-cases (leb t.created_at x.created_at)) [
      | inl older ↦ ground (arith, here, later, older, missing)
      | inr newer ↦ ground (arith, here, later, newer, missing)
    ]
  ]
]

existing-fresh :
    (id : Text) (now : ℕ) (agent : Text) (c : ℕ) (group : Text) (thread : Option Text)
    (mode : SessionMode) (sessions : List Session)
    → thread ≢ some []
    → existing_session agent (some (c ∷ group)) thread mode sessions ≡ none
    → let s = fresh_session id now agent (some (c ∷ group)) thread mode in
      existing_session agent (some (c ∷ group)) thread mode (sessions ++ s ∷ []) ≡ some s
unfolding existing_session find_session_for_agent find_session_by_agent_group
existing-fresh id now agent c group thread agent_shared sessions ne missing =
    newest-append agent sessions (fresh_session id now agent (some (c ∷ group)) thread agent_shared)
      missing (ground (arith, text_eq_refl agent))
existing-fresh id now agent c group thread shared sessions ne missing =
    find?-append (serves agent (c ∷ group) none) sessions
      (fresh_session id now agent (some (c ∷ group)) thread shared) missing
      (ground (arith, text_eq_refl agent, text_eq_refl (c ∷ group)))
existing-fresh id now agent c group none per_thread sessions ne missing =
    find?-append (serves agent (c ∷ group) none) sessions
      (fresh_session id now agent (some (c ∷ group)) none per_thread) missing
      (ground (arith, text_eq_refl agent, text_eq_refl (c ∷ group)))
existing-fresh id now agent c group (some []) per_thread sessions ne missing = absurd (ne refl)
existing-fresh id now agent c group (some (t ∷ ts)) per_thread sessions ne missing =
    find?-append (serves agent (c ∷ group) (some (t ∷ ts))) sessions
      (fresh_session id now agent (some (c ∷ group)) (some (t ∷ ts)) per_thread) missing
      (ground (arith, text_eq_refl agent, text_eq_refl (c ∷ group), text_eq_refl (t ∷ ts)))

module _ (id : Text) (now : ℕ) (agent : Text) (group thread : Option Text) (mode : SessionMode)
    (sessions : List Session) where
  pub resolve-missing :
      existing_session agent group thread mode sessions ≡ none
      → resolve_session id now agent group thread mode sessions ≡ (record {
        session = fresh_session id now agent group thread mode;
        created = true;
        sessions = sessions ++ fresh_session id now agent group thread mode ∷ [];
      })
  unfolding resolve_session
  resolve-missing missing = rw (missing, resolve_session) refl

  pub resolve-found :
      (s : Session)
      → existing_session agent group thread mode sessions ≡ some s
      → resolve_session id now agent group thread mode sessions
        ≡ (record { session = s; created = false; sessions = sessions })
  unfolding resolve_session
  resolve-found s found = rw (found, resolve_session) refl

-- `resolveSession` is stable: asked again for the same agent, messaging group, thread and mode, it
-- finds the session of the first call and creates none, if the thread id is not the empty text.
pub resolve_session_twice :
    (id again : Text) (now later : ℕ) (agent : Text) (c : ℕ) (group : Text) (thread : Option Text)
    (mode : SessionMode) (sessions : List Session)
    → thread ≢ some []
    → let first = resolve_session id now agent (some (c ∷ group)) thread mode sessions in
      resolve_session again later agent (some (c ∷ group)) thread mode first.sessions
      ≡ (record { session = first.session; created = false; sessions = first.sessions })
resolve_session_twice id again now later agent c group thread mode sessions ne =
    elim (Option-cases (existing_session agent (some (c ∷ group)) thread mode sessions)) [
      | inl missing ↦
          let s = fresh_session id now agent (some (c ∷ group)) thread mode in
          rw (resolve-missing id now agent (some (c ∷ group)) thread mode sessions missing) (
            resolve-found again later agent (some (c ∷ group)) thread mode (sessions ++ s ∷ []) s
              (existing-fresh id now agent c group thread mode sessions ne missing))
      | inr (s, found) ↦
          rw (resolve-found id now agent (some (c ∷ group)) thread mode sessions s found)
            (resolve-found again later agent (some (c ∷ group)) thread mode sessions s found)
    ]

-- After `resolveSession` its lookup finds a session.
pub existing-resolve_session :
    (id : Text) (now : ℕ) (agent : Text) (c : ℕ) (group : Text) (thread : Option Text)
    (mode : SessionMode) (sessions : List Session)
    → thread ≢ some []
    → is_some (
        existing_session agent
          (some (c ∷ group))
          thread
          mode
          (resolve_session id now agent (some (c ∷ group)) thread mode sessions).sessions)
      ≡ true
existing-resolve_session id now agent c group thread mode sessions ne =
    elim (Option-cases (existing_session agent (some (c ∷ group)) thread mode sessions)) [
      | inl missing ↦
          rw (resolve-missing id now agent (some (c ∷ group)) thread mode sessions missing)
            (ap is_some (existing-fresh id now agent c group thread mode sessions ne missing))
      | inr (s, found) ↦
          rw (resolve-found id now agent (some (c ∷ group)) thread mode sessions s found)
            (ap is_some found)
    ]
