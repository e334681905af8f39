-- ===== src/Sessions/Tests.antt =====
-- A thread of one chat.
use paraclaw.Prelude.{◌≡◌, refl, true, false, lit, some, []}
use paraclaw.Sessions.{Session, per_thread, resolve_session, Resolved, get_session}
use paraclaw.Sessions.Resolve.{resolve_session_twice}

abbrev first : Resolved
first = resolve_session (lit "s1") 10 (lit "g") (some (lit "mg")) (some (lit "t")) per_thread []

a_session_is_created : first.created ≡ true
unfolding resolve_session paraclaw.Sessions.find_session_for_agent
a_session_is_created = refl

resolve_session_twice_example :
    resolve_session
      (lit "s2")
      20
      (lit "g")
      (some (lit "mg"))
      (some (lit "t"))
      per_thread
      first.sessions
    ≡ (record { session = first.session; created = false; sessions = first.sessions })
resolve_session_twice_example =
    resolve_session_twice (lit "s1") (lit "s2") 10 20 (lit "g") b'm' (lit "g") (some (lit "t"))
      per_thread [] (λ e. cc)
