-- ===== src/SessionDb/Insert.antt =====
-- `insertMessage`: no sequence collision, and a duplicate id changes nothing.
use paraclaw.Prelude.{
  ◌%◌, ◌≡◌, refl, Bool, true, false, Text, text_eq_refl, some, List, [], ◌∷◌, ◌++◌, All, All-append,
  any, Bool-cases, ◌⊎◌, inl, inr, if◌then◌else◌, arith,
}
use paraclaw.SessionDb.{
  MessageIn, NewMessage, new_row, next_even_seq, insert_row, insert_message, has_id,
}
use paraclaw.SessionDb.Seq.{next_even_seq_lem, any-has_seq}

-- The row that a message becomes.
abbrev pub row_of : NewMessage → List MessageIn → MessageIn
row_of message rows = new_row message (next_even_seq rows)

-- `insertMessage` never fails on the UNIQUE sequence number: a message with a new id is appended,
-- pending, under the next even number, and one with a known id leaves the table as it is.
pub insert_message_lem :
    (message : NewMessage) (rows : List MessageIn)
    → insert_message message rows ≡ (
        if any (has_id message.id) rows
        then some (rows, false)
        else some (rows ++ row_of message rows ∷ [], true))
unfolding insert_message insert_row
insert_message_lem message rows =
    ground (arith, any-has_seq (next_even_seq rows) rows (next_even_seq_lem rows).1)

pub any-has_id_append :
    (id : Text) (rows : List MessageIn) (row : MessageIn)
    → row.id ≡ id
    → any (has_id id) (rows ++ row ∷ []) ≡ true
any-has_id_append id [] row e = rw e (ground (arith, text_eq_refl id))
any-has_id_append id (r ∷ rows) row e = ground (arith, any-has_id_append id rows row e)

-- The two ways in which the call ends.
pub insert_message-cases :
    (message : NewMessage) (rows rows' : List MessageIn) (inserted : Bool)
    → insert_message message rows ≡ some (rows', inserted)
    → (rows ≡ rows') × (any (has_id message.id) rows ≡ true)
      ⊎ (rows ++ row_of message rows ∷ [] ≡ rows')
insert_message-cases message rows rows' inserted e =
    elim (Bool-cases (any (has_id message.id) rows)) [
      | inl known ↦ inl (ground (arith, insert_message_lem message rows), known)
      | inr new ↦ inr (ground (arith, insert_message_lem message rows))
    ]

-- A second dispatch of the same message id is a no-op: whatever the first call did, the second
-- finds the id, inserts nothing and reports so.
pub insert_message_twice :
    (message again : NewMessage) (rows rows' : List MessageIn) (inserted : Bool)
    → again.id ≡ message.id
    → insert_message message rows ≡ some (rows', inserted)
    → insert_message again rows' ≡ some (rows', false)
insert_message_twice message again rows rows' inserted same e =
    rw (insert_message_lem again rows', known) refl
  where
    known : any (has_id again.id) rows' ≡ true
    known = elim (insert_message-cases message rows rows' inserted e) [
      | inl (kept, found) ↦ rw (← kept, same) found
      | inr grown ↦
          rw (← grown, same) (any-has_id_append message.id rows (row_of message rows) refl)
    ]

-- Every sequence number in messages_in stays even.
pub insert_message-even :
    (message : NewMessage) (rows rows' : List MessageIn) (inserted : Bool)
    → All (λ r. r.seq % 2 ≡ 0) rows
    → insert_message message rows ≡ some (rows', inserted)
    → All (λ r. r.seq % 2 ≡ 0) rows'
insert_message-even message rows rows' inserted h e =
    elim (insert_message-cases message rows rows' inserted e) [
      | inl (kept, found) ↦ rw (← kept) h
      | inr grown ↦ rw (← grown) (
          All-append (λ (r : MessageIn). r.seq % 2 ≡ 0) rows (row_of message rows ∷ []) h
            ((next_even_seq_lem rows).0, tt))
    ]
