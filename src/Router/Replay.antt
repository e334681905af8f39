-- ===== src/Router/Replay.antt =====
-- The same message dispatched twice.
use paraclaw.Prelude.{
  ◌≡◌, refl, ◌∙◌, ap, sym, true, false, Text, text_eq_refl, some, List, [], ◌∷◌, ◌++◌, any, arith,
  Bool-cases, inl, inr,
}
use paraclaw.SessionDb.{MessageIn, NewMessage, insert_message, has_id}
use paraclaw.SessionDb.Insert.{row_of, insert_message_lem, any-has_id_append}
use paraclaw.Sessions.{touch_session}
use paraclaw.Router.{Env, Host, put, set_content, write_session_message}

any-set_content :
    (x id content : Text) (rows : List MessageIn)
    → any (has_id x) (set_content id content rows) ≡ any (has_id x) rows
any-set_content x id content [] = refl
any-set_content x id content (r ∷ rows) = ground (arith, any-set_content x id content rows)

put_own :
    (key : Text) (rows : List MessageIn) (f : Text → List MessageIn) → put key rows f key ≡ rows
put_own key rows f = ground (arith, text_eq_refl key)

module _ (env : Env) (session : Text) (message : NewMessage) (host : Host) where
  -- A known id leaves the host as it is.
  write_known :
      any (has_id message.id) (host.inbox session) ≡ true
      → write_session_message env session message host ≡ host
  unfolding write_session_message
  write_known known =
      let stored : insert_message message (host.inbox session) ≡ some (host.inbox session, false) =
        insert_message_lem message (host.inbox session) ∙ ground (arith, known) in
      rw (stored, write_session_message) refl

  -- What the host is after a message with a new id.
  abbrev written : Host
  written = record host {
    inbox =
        put session
          (set_content message.id (env.extract message.id message.content)
            (host.inbox session ++ row_of message (host.inbox session) ∷ []))
          host.inbox;
    sessions = touch_session session env.timestamp host.sessions;
  }

  write_new :
      any (has_id message.id) (host.inbox session) ≡ false
      → write_session_message env session message host ≡ written
  unfolding write_session_message
  write_new new =
      let stored : insert_message message (host.inbox session)
          ≡ some (host.inbox session ++ row_of message (host.inbox session) ∷ [], true) =
        insert_message_lem message (host.inbox session) ∙ ground (arith, new) in
      rw (stored, write_session_message) refl

-- A duplicate dispatch does nothing: once `writeSessionMessage` has been called for a message id, a
-- second call with this id for the session, whatever its content, leaves every row, every content and
-- every last_active as the first one left them.
pub write_session_message_twice :
    (env : Env) (session : Text) (message again : NewMessage) (host : Host)
    → again.id ≡ message.id
    → write_session_message env session again (write_session_message env session message host)
      ≡ write_session_message env session message host
write_session_message_twice env session message again host same =
    write_known env session again (write_session_message env session message host)
      (elim (Bool-cases (any (has_id message.id) (host.inbox session))) [
        | inl known ↦
            ap (λ h. any (has_id again.id) (h.inbox session))
              (write_known env session message host known)
            ∙ (ap (λ id. any (has_id id) (host.inbox session)) same ∙ known)
        | inr new ↦
            ap (λ h. any (has_id again.id) (h.inbox session))
              (write_new env session message host new)
            ∙ present
      ])
  where
    rows : List MessageIn
    rows = host.inbox session ++ row_of message (host.inbox session) ∷ []

    there : any (has_id again.id) rows ≡ true
    there =
        any-has_id_append again.id (host.inbox session) (row_of message (host.inbox session))
          (sym same)

    present : any (has_id again.id) ((written env session message host).inbox session) ≡ true
    present =
        ap (any (has_id again.id)) (
          put_own session (set_content message.id (env.extract message.id message.content) rows)
            host.inbox)
        ∙ (any-set_content again.id message.id (env.extract message.id message.content) rows
            ∙ there)
