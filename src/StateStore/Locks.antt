-- ===== src/StateStore/Locks.antt =====
-- Who holds a thread's lock.
use paraclaw.Prelude.{
  ℕ, ◌+◌, ◌≤◌, ◌≡◌, refl, Bool, true, false, not, ◌&&◌, Text, text_eq_iff, text_eq_refl, none, some,
  List, [], ◌∷◌, ◌++◌, filter, any, update, All, ltb, ◌==◌, Bool-cases, inl, inr, arith,
}
use paraclaw.StateStore.{
  LockRow, on_thread, is_lock, acquire_lock, release_lock, extend_lock, force_release_lock,
}

-- What can happen to the lock table.
pub data LockOp : Type 0 where
  acquire : (now : ℕ) (token thread : Text) (ttl : ℕ) → LockOp
  release : (lock : LockRow) → LockOp
  extend : (now : ℕ) (lock : LockRow) (ttl : ℕ) → LockOp
  force : (thread : Text) → LockOp
  tidy : (now : ℕ) → LockOp

unfoldable pub lock_step : LockOp → List LockRow → List LockRow
unfolding acquire_lock release_lock extend_lock force_release_lock
lock_step (acquire now token thread ttl) rows = (acquire_lock now token thread ttl rows).1
lock_step (release lock) rows = release_lock lock rows
lock_step (extend now lock ttl) rows = (extend_lock now lock ttl rows).1
lock_step (force thread) rows = force_release_lock thread rows
lock_step (tidy now) rows = filter (λ r. not (ltb r.expires_at now)) rows

unfoldable pub lock_run : List LockOp → List LockRow → List LockRow
unfolding lock_step
lock_run [] rows = rows
lock_run (op ∷ ops) rows = lock_run ops (lock_step op rows)

-- The step happens while the lock lasts, and neither presents its token nor forces its thread.
abbrev pub Spares : LockRow → LockOp → Type 0
Spares lock (acquire now token thread ttl) = now ≤ lock.expires_at
Spares lock (release other) = is_lock other lock ≡ false
Spares lock (extend now other ttl) = is_lock other lock ≡ false
Spares lock (force thread) = on_thread thread lock ≡ false
Spares lock (tidy now) = now ≤ lock.expires_at

-- The row of the lock.
abbrev pub is_row : LockRow → LockRow → Bool
is_row lock r = is_lock lock r && r.expires_at == lock.expires_at

any-filter :
    (p q : LockRow → Bool) (rows : List LockRow)
    → ((r : LockRow) → p r ≡ true → q r ≡ true)
    → any p rows ≡ true
    → any p (filter q rows) ≡ true
any-filter p q [] kept h = h
any-filter p q (r ∷ rows) kept h = ground (arith, any-filter p q rows kept, kept r)

any-append :
    (p : LockRow → Bool) (rows more : List LockRow)
    → any p rows ≡ true
    → any p (rows ++ more) ≡ true
any-append p (r ∷ rows) more h = ground (arith, any-append p rows more)
any-append p [] more h = cc

any_last :
    (p : LockRow → Bool) (rows : List LockRow) (r : LockRow)
    → p r ≡ true
    → any p (rows ++ (r ∷ [])) ≡ true
any_last p [] r h = ground arith
any_last p (s ∷ rows) r h = ground (arith, any_last p rows r h)

any-update :
    (p q : LockRow → Bool) (f : LockRow → LockRow) (rows : List LockRow)
    → ((r : LockRow) → p r ≡ true → q r ≡ false)
    → any p rows ≡ true
    → any p (update q f rows) ≡ true
any-update p q f [] kept h = h
any-update p q f (r ∷ rows) kept h = elim (Bool-cases (p r)) [
  | inl held ↦ ground (arith, kept r held)
  | inr other ↦ ground (arith, any-update p q f rows kept)
]

any_weaken :
    (p q : LockRow → Bool) (rows : List LockRow)
    → ((r : LockRow) → p r ≡ true → q r ≡ true)
    → any p rows ≡ true
    → any q rows ≡ true
any_weaken p q [] weaker h = h
any_weaken p q (r ∷ rows) weaker h = ground (arith, any_weaken p q rows weaker, weaker r)

module _ (lock : LockRow) where
  row_thread : (r : LockRow) → is_row lock r ≡ true → on_thread lock.thread_id r ≡ true
  row_thread r h = ground arith

  -- What does not name the lock does not name its row.
  row_other :
      (other r : LockRow)
      → is_lock other lock ≡ false
      → is_row lock r ≡ true
      → is_lock other r ≡ false
  row_other other r ne h =
      let t : r.thread_id ≡ lock.thread_id =
        (text_eq_iff r.thread_id lock.thread_id).0 (ground arith) in
      let k : r.token ≡ lock.token = (text_eq_iff r.token lock.token).0 (ground arith) in
      rw (t, k) ne

  row_expires :
      (now : ℕ) (r : LockRow)
      → now ≤ lock.expires_at
      → is_row lock r ≡ true
      → ltb r.expires_at now ≡ false
  row_expires now r h held = ground arith

  -- A step that spares the lock leaves its row.
  lock_step-Spares :
      (op : LockOp) (rows : List LockRow)
      → Spares lock op
      → any (is_row lock) rows ≡ true
      → any (is_row lock) (lock_step op rows) ≡ true
  unfolding lock_step acquire_lock release_lock extend_lock force_release_lock
  lock_step-Spares (acquire now token thread ttl) rows h held =
      let kept =
        any-filter (is_row lock) (λ r. not (on_thread thread r && ltb r.expires_at now)) rows
          (λ r e. ground (arith, row_expires now r h e)) held in
      elim (Bool-cases (
        any (on_thread thread)
          (filter (λ r. not (on_thread thread r && ltb r.expires_at now)) rows))) [
            | inl taken ↦ rw (lock_step, acquire_lock, taken) kept
            | inr vacant ↦ rw (lock_step, acquire_lock, vacant) (any-append (is_row lock) _ _ kept)
          ]
  lock_step-Spares (release other) rows h held =
      any-filter (is_row lock) (λ r. not (is_lock other r)) rows
        (λ r e. rw (row_other other r h e) refl) held
  lock_step-Spares (extend now other ttl) rows h held =
      let kept =
        any-update (is_row lock) (is_lock other) (λ r. record r { expires_at = now + ttl }) rows
          (λ r e. row_other other r h e) held in
      elim (Bool-cases (any (is_lock other) rows)) [
        | inl found ↦ rw (lock_step, extend_lock, found) kept
        | inr missed ↦ rw (lock_step, extend_lock, missed) kept
      ]
  lock_step-Spares (force thread) rows h held =
      any-filter (is_row lock) (λ r. not (on_thread thread r)) rows
        (λ r e. rw ((text_eq_iff r.thread_id lock.thread_id).0 (row_thread r e), h) refl) held
  lock_step-Spares (tidy now) rows h held =
      any-filter (is_row lock) (λ r. not (ltb r.expires_at now)) rows
        (λ r e. rw (row_expires now r h e) refl) held

  lock_run-Spares :
      (ops : List LockOp) (rows : List LockRow)
      → All (Spares lock) ops
      → any (is_row lock) rows ≡ true
      → any (is_row lock) (lock_run ops rows) ≡ true
  unfolding lock_run
  lock_run-Spares [] rows h held = held
  lock_run-Spares (op ∷ ops) rows (h, hs) held =
      lock_run-Spares ops (lock_step op rows) hs (lock_step-Spares op rows h held)

  -- While the row stands and has not expired, nobody else gets the lock.
  acquire_held :
      (now : ℕ) (token : Text) (ttl : ℕ) (rows : List LockRow)
      → now ≤ lock.expires_at
      → any (is_row lock) rows ≡ true
      → (acquire_lock now token lock.thread_id ttl rows).0 ≡ none
  unfolding acquire_lock
  acquire_held now token ttl rows h held =
      let kept =
        any-filter (is_row lock) (λ r. not (on_thread lock.thread_id r && ltb r.expires_at now))
          rows (λ r e. ground (arith, row_expires now r h e)) held in
      rw (any_weaken (is_row lock) (on_thread lock.thread_id) _ row_thread kept) refl

-- A lock that is given out has its row.
acquired :
    (now : ℕ) (token thread : Text) (ttl : ℕ) (rows : List LockRow) (lock : LockRow)
    → (acquire_lock now token thread ttl rows).0 ≡ some lock
    → any (is_row lock) (acquire_lock now token thread ttl rows).1 ≡ true
unfolding acquire_lock
acquired now token thread ttl rows lock h =
    elim (Bool-cases (
      any (on_thread thread)
        (filter (λ r. not (on_thread thread r && ltb r.expires_at now)) rows))) [
          | inl taken ↦ let lost : none ≡ some lock = rw (acquire_lock, taken) at h in cc
          | inr vacant ↦
              let e : some (record { thread_id = thread; token = token; expires_at = now + ttl })
                  ≡ some lock =
                rw (acquire_lock, vacant) at h in
              rw (acquire_lock, vacant)
                (any_last (is_row lock) _
                  (record { thread_id = thread; token = token; expires_at = now + ttl })
                  (ground (arith, e, text_eq_refl thread, text_eq_refl token)))
        ]

-- A lock excludes: once `acquireLock` has given out a lock on a thread, then after any sequence of
-- acquisitions, releases, extensions, forced releases and cleanups on the table, every further
-- `acquireLock` for the thread gets null as long as the lock has not expired, provided that the steps
-- in between run no later than its expiry, none presents its token and none forces its thread.
pub acquire_lock_excludes :
    (now : ℕ) (token : Text) (ttl : ℕ) (rows : List LockRow) (lock : LockRow) (ops : List LockOp)
    (later : ℕ) (other : Text) (other_ttl : ℕ)
    → (acquire_lock now token lock.thread_id ttl rows).0 ≡ some lock
    → All (Spares lock) ops
    → later ≤ lock.expires_at
    → (acquire_lock later other lock.thread_id other_ttl
        (lock_run ops (acquire_lock now token lock.thread_id ttl rows).1)).0
      ≡ none
acquire_lock_excludes now token ttl rows lock ops later other other_ttl got spared h =
    acquire_held lock later other other_ttl _ h
      (lock_run-Spares lock ops _ spared (acquired now token lock.thread_id ttl rows lock got))
