-- ===== src/ContainerDb/Even.antt =====
-- The statements on messages_in keep the numbers of the host even.
use paraclaw.Prelude.{
  ℕ, ◌%◌, ◌≡◌, refl, Bool, not, ◌&&◌, Text, text_eq, some, List, [], ◌∷◌, ◌++◌, Option,
  Option-cases, inl, inr, All, All-append, filter, update, arith,
}
use paraclaw.SessionDb.{MessageIn, Ack, sync_acks, status_eq, completed, has_id, insert_row}
use paraclaw.Json.{Json}
use paraclaw.Scheduling.{
  TaskUpdate, update_task, update_rows, merge_content, apply_update, in_series, is_live,
}

abbrev pub EvenIn : MessageIn → Type 0
EvenIn r = r.seq % 2 ≡ 0

pub update-EvenIn :
    (p : MessageIn → Bool) (f : MessageIn → MessageIn)
    → ((r : MessageIn) → (f r).seq ≡ r.seq)
    → (rows : List MessageIn) → All EvenIn rows
    → All EvenIn (update p f rows)
update-EvenIn p f same [] h = tt
update-EvenIn p f same (r ∷ rows) (e, h) = (ground (arith, same r), update-EvenIn p f same rows h)

pub insert_row-EvenIn :
    (row : MessageIn) (rows rows' : List MessageIn)
    → EvenIn row
    → All EvenIn rows
    → insert_row row rows ≡ some rows'
    → All EvenIn rows'
unfolding insert_row
insert_row-EvenIn row rows rows' even h e =
    let grown : rows ++ row ∷ [] ≡ rows' = ground (arith, e) in
    rw (← grown) (All-append EvenIn rows (row ∷ []) h (even, tt))

module _ (parse : Text → Option Json) (stringify : Json → Text) (upd : TaskUpdate) where
  update_rows-EvenIn :
      (selected rows rows' : List MessageIn)
      → All EvenIn rows
      → update_rows parse stringify upd selected rows ≡ some rows'
      → All EvenIn rows'
  unfolding update_rows
  update_rows-EvenIn [] rows rows' h e =
      let same : rows ≡ rows' = ground (arith, e) in rw (← same) h
  update_rows-EvenIn (r ∷ selected) rows rows' h e =
      elim (Option-cases (merge_content parse stringify upd r.content)) [
        | inl thrown ↦ absurd (ground (arith, thrown, e))
        | inr (content, merged) ↦
            update_rows-EvenIn selected
              (update (has_id r.id) (apply_update parse stringify upd content) rows) rows'
              (update-EvenIn (has_id r.id) (apply_update parse stringify upd content) (λ x. refl)
                rows h)
              (rw (update_rows, merged) at e)
      ]

pub update_task-EvenIn :
    (parse : Text → Option Json) (stringify : Json → Text) (task : Text) (upd : TaskUpdate)
    (rows rows' : List MessageIn) (touched : ℕ)
    → All EvenIn rows
    → update_task parse stringify task upd rows ≡ some (rows', touched)
    → All EvenIn rows'
unfolding update_task
update_task-EvenIn parse stringify task upd rows rows' touched h e =
    let selected = filter (λ r. in_series task r && is_live r) rows in
    elim (Option-cases (update_rows parse stringify upd selected rows)) [
      | inl thrown ↦ absurd (ground (arith, thrown, e))
      | inr (changed, done) ↦
          let same : changed ≡ rows' = ground (arith, done, e) in
          update_rows-EvenIn parse stringify upd selected rows rows' h (rw (← same) done)
    ]

pub sync_acks-EvenIn :
    (acks : List Ack) (rows : List MessageIn) → All EvenIn rows → All EvenIn (sync_acks acks rows)
unfolding sync_acks
sync_acks-EvenIn [] rows h = h
sync_acks-EvenIn (a ∷ acks) rows h = sync_acks-EvenIn acks _ (
    update-EvenIn (λ r. text_eq r.id a.message_id && not (status_eq r.status completed))
      (λ r. record r { status = completed }) (λ r. refl) rows h)
