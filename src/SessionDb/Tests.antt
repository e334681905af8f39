-- ===== src/SessionDb/Tests.antt =====
-- Two messages in the inbound table.
use paraclaw.Prelude.{
  ◌≡◌, refl, Bool, true, false, Text, lit, Option, none, some, List, [], ◌∷◌, ◌++◌, any,
  if◌then◌else◌,
}
use paraclaw.SessionDb.{MessageIn, NewMessage, new_row, insert_message, insert_row, next_even_seq}
use paraclaw.SessionDb.Insert.{insert_message_twice}

abbrev message : Text → NewMessage
message id = record {
  id = id;
  kind = lit "chat";
  timestamp = lit "2026-01-01T00:00:00Z";
  platform_id = none;
  channel_type = none;
  thread_id = none;
  content = lit "{}";
  process_after = none;
  recurrence = none;
  trigger = none;
}

abbrev one_row : List MessageIn
one_row = new_row (message (lit "a")) 2 ∷ []

second_is_four :
    insert_message (message (lit "b")) one_row
    ≡ some (one_row ++ new_row (message (lit "b")) 4 ∷ [], true)
unfolding insert_message paraclaw.Prelude.text_eq insert_row next_even_seq
second_is_four = refl

insert_message_twice_example :
    insert_message
      (record (message (lit "b")) { content = lit "again" })
      (one_row ++ new_row (message (lit "b")) 4 ∷ [])
    ≡ some (one_row ++ new_row (message (lit "b")) 4 ∷ [], false)
unfolding insert_message paraclaw.Prelude.text_eq insert_row next_even_seq
insert_message_twice_example =
    insert_message_twice (message (lit "b")) (record (message (lit "b")) { content = lit "again" })
      one_row (one_row ++ new_row (message (lit "b")) 4 ∷ []) true refl refl
