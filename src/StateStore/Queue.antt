-- ===== src/StateStore/Queue.antt =====
-- The message queues of all threads, against bounded first-in first-out queues.
use paraclaw.Prelude.{
  ℕ, suc, ◌≡◌, refl, ap, ◌∙◌, Bool, false, not, Text, text_eq, text_eq_iff, none, some, List, [],
  ◌∷◌, ◌++◌, filter, any, length, ◌==◌, Bool-cases, List-cases, inl, inr, arith,
}
use paraclaw.StateStore.{
  ListRow, is_past, in_list, at_idx, by_idx, next_idx, trim_list, append_to_list, queue_key,
  queue_depth, enqueue, dequeue,
}
use paraclaw.StateStore.Window.{
  Window, length-Window, any-Window, filter-Window_first, filter-Window_past, by_idx-Window,
}
use paraclaw.StateStore.Calls.{
  Op, put, pull, tidy, step, run, Queues, put_queue, newest, model_step, model_run,
}
use paraclaw.StateStore.Select.{
  filter-filter, filter-filter_apart, any-filter, next_idx-Window, apart, queued, append_own,
  append_apart, text_eq_flip, oldest, empty,
}

-- The rows under a thread's key are its queue.
abbrev pub Shows : Queues → List ListRow → Type 0
Shows queues rows = (t : Text) → (n : ℕ) × Window n (queues t) (filter (in_list (queue_key t)) rows)

module _ (queues : Queues) (rows : List ListRow) (shows : Shows queues rows) where
  -- What `enqueue` does to the rows.
  put_lem :
      (now : ℕ) (t text : Text) (max_size : ℕ)
      → let q = newest max_size (queues t ++ (text ∷ [])) in
        (after : List ListRow) × (enqueue now t text max_size rows ≡ some (length q, after))
        × Shows (put_queue t q queues) after
  unfolding enqueue append_to_list queue_depth
  put_lem now t text max_size =
      let (m, w, at) = next_idx-Window (queue_key t) rows (shows t).1 in
      let idx = next_idx (queue_key t) rows in
      let fresh : any (at_idx (queue_key t) idx) rows ≡ false =
        any-filter (queue_key t) idx rows ∙ any-Window idx w (omega arith) in
      let own = append_own (queue_key t) idx text max_size rows w at in
      let trimmed =
        trim_list (queue_key t) idx (some max_size)
          (rows ++ (queued (queue_key t) idx text ∷ [])) in
      (
        trimmed,
        rw (enqueue, fresh, length-Window own.1) refl,
        λ u. elim (Bool-cases (text_eq u t)) [
          | inl same ↦ rw (same, (text_eq_iff u t).0 same) own
          | inr ne ↦
              rw (ne, append_apart t u idx text max_size rows (text_eq_flip t u ne) ne) (shows u)
        ],
      )

  -- What `dequeue` does to the rows of a queue with entries.
  pull_lem :
      (t x : Text) (q : List Text)
      → queues t ≡ x ∷ q
      → (after : List ListRow) × (dequeue t rows ≡ (some x, after))
        × Shows (put_queue t q queues) after
  unfolding dequeue
  pull_lem t x q e =
      let (n, w) = shows t in
      let w' : Window n (x ∷ q) (filter (in_list (queue_key t)) rows) = rw e at w in
      let (r, rest, found, value, i, later) = oldest w' in
      let sorted : by_idx (filter (in_list (queue_key t)) rows) ≡ r ∷ rest =
        by_idx-Window w' ∙ found in
      let removed : ListRow → Bool = λ s. not (at_idx (queue_key t) r.idx s) in
      let own : filter (in_list (queue_key t)) (filter removed rows) ≡ rest =
        filter-filter (in_list (queue_key t)) removed (λ s. not (s.idx == r.idx)) rows
          (λ s h. rw h refl)
        ∙ (ap (filter (λ s. not (s.idx == r.idx))) found ∙ filter-Window_first r i later) in
      (
        filter removed rows,
        rw (dequeue, sorted, value) refl,
        λ u. elim (Bool-cases (text_eq u t)) [
          | inl same ↦ (suc n, rw (same, (text_eq_iff u t).0 same, own) later)
          | inr ne ↦
              rw
                (
                  ne,
                  filter-filter_apart (in_list (queue_key u)) removed rows
                      (λ s h. rw (apart t u s ne h) refl),
                )
                (shows u)
        ],
      )

  pull_none : (t : Text) → queues t ≡ [] → dequeue t rows ≡ (none, rows)
  unfolding dequeue by_idx
  pull_none t e =
      let (n, w) = shows t in
      let w' : Window n [] (filter (in_list (queue_key t)) rows) = rw e at w in
      rw (dequeue, empty w') refl

  tidy_lem : (now : ℕ) → Shows queues (filter (λ r. not (is_past now r.expires_at)) rows)
  tidy_lem now u =
      let (n, w) = shows u in
      let kept =
        filter-filter (in_list (queue_key u)) (λ r. not (is_past now r.expires_at))
          (λ r. not (is_past now r.expires_at)) rows (λ r h. refl) in
      (n, rw (kept, filter-Window_past now w) w)

-- Each call answers as the model does, and keeps the rows in line with the model's queues.
step_refines :
    (op : Op) (queues : Queues) (rows : List ListRow)
    → Shows queues rows
    → (after : List ListRow) × (step op rows ≡ some ((model_step op queues).0, after))
      × Shows (model_step op queues).1 after
unfolding step model_step
step_refines (put now t text max_size) queues rows shows =
    let (after, e, kept) = put_lem queues rows shows now t text max_size in
    (after, rw (step, e) refl, kept)
step_refines (pull t) queues rows shows = elim (List-cases (queues t)) [
  | inl e ↦ (
    rows,
    rw (step, model_step, e, pull_none queues rows shows t e) refl,
    rw (model_step, e) shows,
  )
  | inr (x, q, e) ↦
      let (after, out, kept) = pull_lem queues rows shows t x q e in
      (after, rw (step, model_step, e, out) refl, rw (model_step, e) kept)
]
step_refines (tidy now) queues rows shows =
    (filter (λ r. not (is_past now r.expires_at)) rows, refl, tidy_lem queues rows shows now)

-- The queues in chat_sdk_lists are bounded first-in first-out queues, one per thread: any sequence
-- of `enqueue`, `dequeue` and `cleanup` calls on any threads, started on rows that hold the model's
-- queues, gets from `SqliteStateAdapter` exactly the depths and entries that the model gives (the
-- newest `maxSize` entries are kept, the oldest is taken out first, no bound where the size is 0),
-- and no call fails on the primary key.
pub run_refines :
    (ops : List Op) (queues : Queues) (rows : List ListRow)
    → Shows queues rows
    → run ops rows ≡ some (model_run ops queues)
unfolding run model_run
run_refines [] queues rows shows = refl
run_refines (op ∷ ops) queues rows shows =
    let (after, e, kept) = step_refines op queues rows shows in
    rw (run, e, run_refines ops (model_step op queues).1 after kept) refl
