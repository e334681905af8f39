-- ===== src/HostSweep/Reset.antt =====
-- What one reset does to the rows, and the bound on the tries.
use mathlib.Core.Path.{subst}
use paraclaw.Prelude.{
  ◌+◌, ◌<◌, ◌≤◌, ◌≡◌, ◌⊎◌, inl, inr, refl, true, false, ◌&&◌, Text, text_eq, text_eq_iff,
  text_eq_refl, some, List, [], ◌∷◌, All, any, update, arith, Bool-cases, Option-cases, leb,
}
use paraclaw.SessionDb.{
  MessageIn, pending, failed, status_eq, has_id, get_message_for_retry, mark_message_failed,
  retry_with_backoff, Ack, get_processing_claims,
}
use paraclaw.ContainerDb.{SessionDbs}
use paraclaw.HostSweep.{
  Clock, max_tries, backoff_sec, is_rescheduled, reset_one, reset_loop, reset_stuck_processing_rows,
}

-- The primary key: no two rows share an id.
abbrev pub UniqueIds : List MessageIn → Type 0
UniqueIds [] = Unit
UniqueIds (r ∷ rows) = (any (has_id r.id) rows ≡ false) × UniqueIds rows

-- The rows of two tables correspond one to one.
abbrev pub Both : (MessageIn → MessageIn → Type 0) → List MessageIn → List MessageIn → Type 0
Both R [] [] = Unit
Both R (x ∷ xs) (y ∷ ys) = R x y × Both R xs ys
Both R _ _ = ⊥

abbrev pub given_up : MessageIn → MessageIn
given_up r = record r { status = failed }

abbrev pub delayed : Clock → MessageIn → MessageIn
delayed clock r = record r {
  tries = r.tries + 1;
  process_after = some (clock.after_seconds (backoff_sec r.tries));
}

-- What a reset may do to a row: nothing; give it up, at five tries or more; or delay it, with one
-- more try, below five.
abbrev pub MayBecome : Clock → MessageIn → MessageIn → Type 0
MayBecome clock r r' =
    (r ≡ r')
    ⊎ ((max_tries ≤ r.tries) × (given_up r ≡ r'))
    ⊎ ((r.tries < max_tries) × (delayed clock r ≡ r'))

update-absent :
    (id : Text) (f : MessageIn → MessageIn) (rows : List MessageIn)
    → any (has_id id) rows ≡ false
    → update (has_id id) f rows ≡ rows
update-absent id f [] h = refl
update-absent id f (r ∷ rows) h = ground (arith, update-absent id f rows)

found_has_id :
    (id : Text) (rows : List MessageIn) (m : MessageIn)
    → get_message_for_retry id pending rows ≡ some m
    → any (has_id m.id) rows ≡ true
unfolding get_message_for_retry
found_has_id id [] m e = cc
found_has_id id (r ∷ rows) m e = ground (arith, found_has_id id rows m, text_eq_refl m.id)

Both-refl :
    (R : MessageIn → MessageIn → Type 0)
    → ((r : MessageIn) → R r r)
    → (rows : List MessageIn) → Both R rows rows
Both-refl R h [] = tt
Both-refl R h (r ∷ rows) = (h r, Both-refl R h rows)

-- An update of the row that was found changes that row only.
update_found :
    (R : MessageIn → MessageIn → Type 0) (id : Text) (f : MessageIn → MessageIn)
    (rows : List MessageIn) (m : MessageIn)
    → ((r : MessageIn) → R r r)
    → R m (f m)
    → UniqueIds rows
    → get_message_for_retry id pending rows ≡ some m
    → Both R rows (update (has_id m.id) f rows)
unfolding get_message_for_retry
update_found R id f [] m same new unique e = cc
update_found R id f (r ∷ rows) m same new (alone, unique) e =
    elim (Bool-cases (text_eq r.id id && status_eq r.status pending)) [
      | inl hit ↦
          subst (λ k. R k (f k) → Both R (r ∷ rows) (update (has_id k.id) f (r ∷ rows))) (first hit)
            (λ n.
              rw (text_eq_refl r.id, update-absent r.id f rows alone) (n, Both-refl R same rows))
            new
      | inr miss ↦ rw (other miss) (same r, update_found R id f rows m same new unique (later miss))
    ]
  where
    first : text_eq r.id id && status_eq r.status pending ≡ true → r ≡ m
    first hit = ground (arith, e, hit)

    later :
        text_eq r.id id && status_eq r.status pending ≡ false
        → get_message_for_retry id pending rows ≡ some m
    later miss = ground (arith, e, miss)

    other : text_eq r.id id && status_eq r.status pending ≡ false → has_id m.id r ≡ false
    other miss = ground (arith, found_has_id id rows m (later miss), alone, text_eq_iff r.id m.id)

-- One round of the reset: each row stays, is given up, or is delayed with one more try.
pub reset_one-MayBecome :
    (clock : Clock) (id : Text) (rows : List MessageIn)
    → UniqueIds rows
    → Both (MayBecome clock) rows (reset_one clock id rows)
unfolding reset_one mark_message_failed retry_with_backoff
reset_one-MayBecome clock id rows unique =
    elim (Option-cases (get_message_for_retry id pending rows)) [
      | inl missing ↦ rw (missing, reset_one) (kept rows)
      | inr (m, found) ↦ elim (Bool-cases (is_rescheduled clock m.process_after)) [
        | inl waits ↦ rw (found, reset_one) (rw waits (kept rows))
        | inr ready ↦ elim (Bool-cases (leb max_tries m.tries)) [
          | inl spent ↦
              rw (found, reset_one)
                (rw (ready, spent)
                  (update_found (MayBecome clock) id given_up rows m (λ r. inl refl)
                    (inr (inl (ground (arith, spent), refl))) unique found))
          | inr left ↦
              rw (found, reset_one)
                (rw (ready, left)
                  (update_found (MayBecome clock) id
                    (λ r. record r {
                      tries = r.tries + 1;
                      process_after = some (clock.after_seconds (backoff_sec m.tries));
                    })
                    rows m (λ r. inl refl) (inr (inr (ground (arith, left), refl))) unique found))
        ]
      ]
    ]
  where
    kept : (rows : List MessageIn) → Both (MayBecome clock) rows rows
    kept = Both-refl (MayBecome clock) (λ r. inl refl)

-- What every reset keeps: distinct ids, and at most five tries of any message.
abbrev pub IsBounded : List MessageIn → Type 0
IsBounded rows = UniqueIds rows × All (λ r. r.tries ≤ max_tries) rows

MayBecome-keeps :
    (clock : Clock) (r r' : MessageIn)
    → MayBecome clock r r'
    → (r.id ≡ r'.id) × (r.tries ≤ max_tries → r'.tries ≤ max_tries)
MayBecome-keeps clock r r' (inl e) = rw (← e) (refl, λ h. h)
MayBecome-keeps clock r r' (inr (inl (_, e))) = rw (← e) (refl, λ h. h)
MayBecome-keeps clock r r' (inr (inr (few, e))) = rw (← e) (refl, λ h. omega arith)

Both-any :
    (clock : Clock) (id : Text) (rows rows' : List MessageIn)
    → Both (MayBecome clock) rows rows'
    → any (has_id id) rows ≡ any (has_id id) rows'
Both-any clock id [] [] b = refl
Both-any clock id (r ∷ rows) (r' ∷ rows') (m, b) =
    ground (arith, (MayBecome-keeps clock r r' m).0, Both-any clock id rows rows' b)
Both-any clock id [] (r' ∷ rows') b = absurd b
Both-any clock id (r ∷ rows) [] b = absurd b

Both-IsBounded :
    (clock : Clock) (rows rows' : List MessageIn)
    → Both (MayBecome clock) rows rows'
    → IsBounded rows
    → IsBounded rows'
Both-IsBounded clock [] [] b h = h
Both-IsBounded clock (r ∷ rows) (r' ∷ rows') (m, b) ((alone, unique), (few, bound)) =
    let (unique', bound') = Both-IsBounded clock rows rows' b (unique, bound) in
    let (same, keeps) = MayBecome-keeps clock r r' m in
    ((rw (← same, ← Both-any clock r.id rows rows' b) alone, unique'), (keeps few, bound'))
Both-IsBounded clock [] (r' ∷ rows') b h = absurd b
Both-IsBounded clock (r ∷ rows) [] b h = absurd b

reset_loop-IsBounded :
    (clock : Clock) (claims : List Ack) (rows : List MessageIn)
    → IsBounded rows
    → IsBounded (reset_loop clock claims rows)
unfolding reset_loop
reset_loop-IsBounded clock [] rows h = h
reset_loop-IsBounded clock (c ∷ claims) rows h =
    reset_loop-IsBounded clock claims (reset_one clock c.message_id rows) (
      Both-IsBounded clock rows (reset_one clock c.message_id rows)
        (reset_one-MayBecome clock c.message_id rows h.0) h)

-- However many claims a crashed container left, resetting them keeps the ids distinct and takes
-- no message above five tries.
pub reset_stuck_processing_rows-IsBounded :
    (clock : Clock) (db : SessionDbs)
    → IsBounded db.messages_in
    → IsBounded (reset_stuck_processing_rows clock db).messages_in
unfolding reset_stuck_processing_rows
reset_stuck_processing_rows-IsBounded clock db h =
    reset_loop-IsBounded clock (get_processing_claims db.processing_ack) db.messages_in h
