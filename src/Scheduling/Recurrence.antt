-- ===== src/Scheduling/Recurrence.antt =====
-- The recurrence sweep clones every completed occurrence once.
use mathlib.Core.Path.{subst}
use paraclaw.Prelude.{
  suc, ◌+◌, ◌≡◌, ◌≢◌, refl, ap, true, false, ◌||◌, Text, text_eq, text_eq_iff, text_eq_refl,
  Bool-cases, some, get_or, List, [], ◌∷◌, ◌++◌, All, All-append, any, filter, length,
  length-append, is_some, arith, Option-cases, inl, inr,
}
use paraclaw.SessionDb.{MessageIn, next_even_seq, insert_row, has_id}
use paraclaw.SessionDb.Seq.{next_even_seq_lem, any-has_seq}
use paraclaw.Scheduling.{
  Cron, is_recurring, get_completed_recurring, next_occurrence, clear_recurrence, new_id, recur_one,
  recur_all, handle_recurrence,
}

module _ (cron : Cron) where
  -- The cron expressions of the messages parse, and their new ids are new and distinct.
  abbrev pub Ready : List MessageIn → List MessageIn → Type 0
  Ready [] rows = Unit
  Ready (m ∷ ms) rows =
      (is_some (cron.next_run (get_or m.recurrence [])) ≡ true)
      × (any (has_id (new_id cron m)) rows ≡ false)
      × All (λ m'. new_id cron m ≢ new_id cron m') ms
      × Ready ms rows

  -- The row that `recur_one` appends.
  abbrev clone : MessageIn → Text → List MessageIn → MessageIn
  clone m t rows = next_occurrence m (new_id cron m) t cron.now (next_even_seq rows)

  recur_one-ready :
      (m : MessageIn) (t : Text) (rows : List MessageIn)
      → cron.next_run (get_or m.recurrence []) ≡ some t
      → any (has_id (new_id cron m)) rows ≡ false
      → recur_one cron m rows ≡ clear_recurrence m.id (rows ++ clone m t rows ∷ [])
  unfolding recur_one insert_row
  recur_one-ready m t rows parsed new =
      ground (arith, any-has_seq (next_even_seq rows) rows (next_even_seq_lem rows).1)

any-clear :
    (id i : Text) (rows : List MessageIn)
    → any (has_id i) (clear_recurrence id rows) ≡ any (has_id i) rows
unfolding clear_recurrence
any-clear id i [] = refl
any-clear id i (r ∷ rows) = ground (arith, any-clear id i rows)

length-clear : (id : Text) (rows : List MessageIn) → length (clear_recurrence id rows) ≡ length rows
unfolding clear_recurrence
length-clear id [] = refl
length-clear id (r ∷ rows) = ap suc (length-clear id rows)

any-snoc :
    (i : Text) (rows : List MessageIn) (row : MessageIn)
    → any (has_id i) (rows ++ row ∷ []) ≡ any (has_id i) rows || text_eq row.id i
any-snoc i [] row = ground arith
any-snoc i (r ∷ rows) row = ground (arith, any-snoc i rows row)

-- A recurring row is one of the messages that are still to be cloned.
abbrev Covered : List MessageIn → MessageIn → Type 0
Covered ms r = is_recurring r ≡ true → any (λ m. text_eq m.id r.id) ms ≡ true

clear-Covered :
    (m : MessageIn) (ms rows : List MessageIn)
    → All (Covered (m ∷ ms)) rows
    → All (Covered ms) (clear_recurrence m.id rows)
unfolding clear_recurrence
clear-Covered m ms [] h = tt
clear-Covered m ms (r ∷ rows) (c, h) = (
  (λ e. ground (arith, text_eq_iff m.id r.id, text_eq_iff r.id m.id, c)),
  clear-Covered m ms rows h,
)

none_recurring :
    (rows : List MessageIn) → All (Covered []) rows → All (λ r. is_recurring r ≡ false) rows
none_recurring [] h = tt
none_recurring (r ∷ rows) (c, h) = (ground (arith, c), none_recurring rows h)

Covered-cons :
    (m : MessageIn) (ms rows : List MessageIn) → All (Covered ms) rows → All (Covered (m ∷ ms)) rows
Covered-cons m ms [] h = tt
Covered-cons m ms (r ∷ rows) (c, h) = ((λ e. ground (arith, c e)), Covered-cons m ms rows h)

Covered-filter : (rows : List MessageIn) → All (Covered (filter is_recurring rows)) rows
Covered-filter [] = tt
Covered-filter (r ∷ rows) = elim (Bool-cases (is_recurring r)) [
  | inl recurs ↦
      subst (λ ms. All (Covered ms) (r ∷ rows)) (kept recurs)
        ((λ e. ground (arith, text_eq_refl r.id)), Covered-cons r _ rows (Covered-filter rows))
  | inr plain ↦
      subst (λ ms. All (Covered ms) (r ∷ rows)) (dropped plain) ((λ e. cc), Covered-filter rows)
]
  where
    kept : is_recurring r ≡ true → r ∷ filter is_recurring rows ≡ filter is_recurring (r ∷ rows)
    kept recurs = rw recurs

    dropped : is_recurring r ≡ false → filter is_recurring rows ≡ filter is_recurring (r ∷ rows)
    dropped plain = rw plain

filter-none :
    (rows : List MessageIn) → All (λ r. is_recurring r ≡ false) rows → filter is_recurring rows ≡ []
filter-none [] h = refl
filter-none (r ∷ rows) (e, h) = rw e (filter-none rows h)

module _ (cron : Cron) where
  Ready-step :
      (m : MessageIn) (t : Text) (ms rows : List MessageIn)
      → All (λ m'. new_id cron m ≢ new_id cron m') ms
      → Ready cron ms rows
      → Ready cron ms (clear_recurrence m.id (rows ++ clone cron m t rows ∷ []))
  Ready-step m t [] rows apart h = tt
  Ready-step m t (k ∷ ms) rows (differs, apart) (parsed, new, distinct, h) =
      (parsed, fresh, distinct, Ready-step m t ms rows apart h)
    where
      fresh :
          any (has_id (new_id cron k)) (clear_recurrence m.id (rows ++ clone cron m t rows ∷ []))
          ≡ false
      fresh = rw (any-clear m.id (new_id cron k) (rows ++ clone cron m t rows ∷ [])) (
          rw (any-snoc (new_id cron k) rows (clone cron m t rows))
            (ground (arith, text_eq_iff (new_id cron m) (new_id cron k))))

  recur_all-Ready :
      (ms rows : List MessageIn)
      → Ready cron ms rows
      → All (Covered ms) rows
      → All (λ r. is_recurring r ≡ false) (recur_all cron ms rows)
        × (length (recur_all cron ms rows) ≡ length rows + length ms)
  unfolding recur_all
  recur_all-Ready [] rows ready covered = (none_recurring rows covered, omega arith)
  recur_all-Ready (m ∷ ms) rows (parsed, new, apart, ready) covered =
      elim (Option-cases (cron.next_run (get_or m.recurrence []))) [
        | inl failed ↦ ground arith
        | inr (t, found) ↦
            let grown = rows ++ clone cron m t rows ∷ [] in
            let covered' =
              All-append (Covered (m ∷ ms)) rows (clone cron m t rows ∷ []) covered
                ((λ e. cc), tt) in
            let (clean, size) =
              recur_all-Ready ms (clear_recurrence m.id grown) (Ready-step m t ms rows apart ready)
                (clear-Covered m ms grown covered') in
            rw (recur_one-ready cron m t rows found new) (
              clean,
              omega (
                arith,
                size,
                length-clear m.id grown,
                length-append rows (clone cron m t rows ∷ []),
              ),
            )
      ]

  -- Where the cron expressions parse and the new ids are new, the sweep appends one row for each
  -- completed recurring row and leaves none behind that is still to be cloned, so that a second
  -- sweep changes nothing.
  pub handle_recurrence_once :
      (rows : List MessageIn)
      → Ready cron (get_completed_recurring rows) rows
      → (length (handle_recurrence cron rows) ≡ length rows + length (get_completed_recurring rows))
        × (get_completed_recurring (handle_recurrence cron rows) ≡ [])
        × (handle_recurrence cron (handle_recurrence cron rows) ≡ handle_recurrence cron rows)
  unfolding handle_recurrence get_completed_recurring recur_all
  handle_recurrence_once rows ready =
      let (clean, size) =
        recur_all-Ready (get_completed_recurring rows) rows ready (Covered-filter rows) in
      let quiet = filter-none (recur_all cron (get_completed_recurring rows) rows) clean in
      (size, quiet, rw quiet)
