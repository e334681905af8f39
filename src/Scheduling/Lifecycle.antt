-- ===== src/Scheduling/Lifecycle.antt =====
-- Cancelling, pausing and resuming a task series.
use paraclaw.Prelude.{◌≡◌, refl, Bool, true, false, not, Text, List, [], ◌∷◌, All, filter, arith}
use paraclaw.SessionDb.{MessageIn, status_eq, paused, wakes}
use paraclaw.Scheduling.{
  in_series, is_live, cancel_task, pause_task, resume_task, get_completed_recurring,
}

-- After `cancelTask` no row of the series is pending or paused, the rows outside the series are
-- as they were, and no occurrence is left that the recurrence sweep would clone but those that
-- it would have cloned anyway.
pub cancel_task_lem :
    (task : Text) (rows : List MessageIn)
    → All (λ r. in_series task r ≡ true → is_live r ≡ false) (cancel_task task rows)
      × (filter (λ r. not (in_series task r)) (cancel_task task rows)
          ≡ filter (λ r. not (in_series task r)) rows)
      × (get_completed_recurring (cancel_task task rows) ≡ get_completed_recurring rows)
unfolding cancel_task get_completed_recurring
cancel_task_lem task [] = (tt, refl, refl)
cancel_task_lem task (r ∷ rows) =
    let (dead, others, recurring) = cancel_task_lem task rows in
    ((λ s. ground arith, dead), ground (arith, others), ground (arith, recurring))

-- No row of the series is paused.
abbrev pub NonePaused : Text → List MessageIn → Type 0
NonePaused task = All (λ r. in_series task r ≡ true → status_eq r.status paused ≡ false)

-- A paused series wakes no container, and resuming it restores every row, where no row of the
-- series was paused before.
pub resume-pause :
    (due : Text → Bool) (task : Text) (rows : List MessageIn)
    → NonePaused task rows
    → All (λ r. in_series task r ≡ true → wakes due r ≡ false) (pause_task task rows)
      × (resume_task task (pause_task task rows) ≡ rows)
unfolding pause_task resume_task
resume-pause due task [] h = (tt, refl)
resume-pause due task (r ∷ rows) (unpaused, h) =
    let (quiet, back) = resume-pause due task rows h in
    ((λ s. ground arith, quiet), ground (arith, back, unpaused))
