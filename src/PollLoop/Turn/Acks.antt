-- ===== src/PollLoop/Turn/Acks.antt =====
-- Which messages have an acknowledgement `completed`.
use paraclaw.Prelude.{
  ◌≡◌, refl, sym, Bool, true, false, not, ◌&&◌, ◌||◌, Text, text_eq, text_eq_iff, text_eq_refl, has,
  List, [], ◌∷◌, ◌++◌, filter, any, Bool-cases, inl, inr, arith,
}
use paraclaw.ContainerDb.{mark_acks, replace_ack, mark_processing, mark_completed}
use paraclaw.SessionDb.{MessageIn, Ack, AckStatus, ack_completed}
use paraclaw.PollLoop.{ids_of}

abbrev is_completed : AckStatus → Bool
is_completed ack_completed = true
is_completed _ = false

-- The message has an acknowledgement `completed`.
abbrev pub is_done : Text → List Ack → Bool
is_done id acks = any (λ (a : Ack). text_eq a.message_id id && is_completed a.status) acks

module _ (id : Text) where
  pub is_done-filter :
      (x : Text) (acks : List Ack)
      → text_eq x id ≡ false
      → is_done id acks ≡ true
      → is_done id (filter (λ (a : Ack). not (text_eq a.message_id x)) acks) ≡ true
  is_done-filter x [] ne h = h
  is_done-filter x (a ∷ acks) ne h = ground (
    arith,
    is_done-filter x acks ne,
    text_eq_iff a.message_id x,
    text_eq_iff a.message_id id,
    text_eq_refl id,
  )

  pub is_done-append :
      (acks : List Ack) (a : Ack) → is_done id acks ≡ true → is_done id (acks ++ (a ∷ [])) ≡ true
  is_done-append [] a h = cc
  is_done-append (b ∷ acks) a h = ground (arith, is_done-append acks a)

  pub done_last :
      (acks : List Ack) (now : Text)
      → is_done id
          (acks ++ (record { message_id = id; status = ack_completed; status_changed = now } ∷ []))
        ≡ true
  done_last [] now = ground (arith, text_eq_refl id)
  done_last (b ∷ acks) now = ground (arith, done_last acks now)

  pub is_done-mark_completed :
      (now : Text) (ids : List Text) (acks : List Ack)
      → is_done id acks ≡ true
      → is_done id (mark_completed now ids acks) ≡ true
  unfolding mark_completed mark_acks replace_ack
  is_done-mark_completed now [] acks h = h
  is_done-mark_completed now (x ∷ ids) acks h = elim (Bool-cases (text_eq x id)) [
    | inl same ↦ rw ((text_eq_iff x id).0 same) (is_done-mark_completed now ids _ (done_last _ now))
    | inr ne ↦ is_done-mark_completed now ids _ (is_done-append _ _ (is_done-filter x acks ne h))
  ]

  pub mark_completed-is_done :
      (now : Text) (ids : List Text) (acks : List Ack)
      → has ids id ≡ true
      → is_done id (mark_completed now ids acks) ≡ true
  unfolding mark_completed mark_acks replace_ack
  mark_completed-is_done now [] acks h = cc
  mark_completed-is_done now (x ∷ ids) acks h = elim (Bool-cases (text_eq x id)) [
    | inl same ↦ rw ((text_eq_iff x id).0 same) (is_done-mark_completed now ids _ (done_last _ now))
    | inr ne ↦ mark_completed-is_done now ids _ (ground (arith, ne))
  ]

  pub is_done-mark_processing :
      (now : Text) (ids : List Text) (acks : List Ack)
      → has ids id ≡ false
      → is_done id acks ≡ true
      → is_done id (mark_processing now ids acks) ≡ true
  unfolding mark_processing mark_acks replace_ack
  is_done-mark_processing now [] acks miss h = h
  is_done-mark_processing now (x ∷ ids) acks miss h =
      is_done-mark_processing now ids _ (ground arith)
        (is_done-append _ _ (is_done-filter x acks (ground arith) h))

  -- An id of the rows is the id of a row that passes a test, or of one that does not.
  pub has-split :
      (p : MessageIn → Bool) (ms : List MessageIn)
      → has (ids_of ms) id ≡ true
      → (has (ids_of (filter p ms)) id || has (ids_of (filter (λ m. not (p m)) ms)) id) ≡ true
  has-split p [] h = cc
  has-split p (m ∷ ms) h = elim (Bool-cases (p m)) [
    | inl chosen ↦ ground (arith, has-split p ms, chosen)
    | inr passed ↦ ground (arith, has-split p ms, passed)
  ]

  filter_head :
      (p : Text → Bool) (x : Text) (ids : List Text)
      → p x ≡ true
      → filter p (x ∷ ids) ≡ x ∷ filter p ids
  filter_head p x ids e = rw e refl

  pub has-filter :
      (p : Text → Bool) (ids : List Text)
      → has ids id ≡ true
      → p id ≡ true
      → has (filter p ids) id ≡ true
  has-filter p [] h e = cc
  has-filter p (x ∷ ids) h e = elim (Bool-cases (text_eq x id)) [
    | inl same ↦
        rw (filter_head p x ids (rw (sym ((text_eq_iff x id).0 same)) at e)) (ground (arith, same))
    | inr ne ↦ ground (arith, has-filter p ids, ne)
  ]
