-- ===== src/Scheduling/Tests.antt =====
-- One recurring task.
use paraclaw.Prelude.{
  ◌+◌, ◌≡◌, refl, Bool, false, Text, lit, text_eq, none, some, List, [], ◌∷◌, length,
}
use paraclaw.SessionDb.{Status, pending, completed, MessageIn, status_eq, paused, wakes}
use paraclaw.Scheduling.{
  in_series, is_live, cancel_task, pause_task, resume_task, get_completed_recurring,
  handle_recurrence, Cron,
}
use paraclaw.Scheduling.Recurrence.{handle_recurrence_once}

abbrev row : Text → Status → MessageIn
row id status = record {
  id = id;
  seq = 2;
  kind = lit "task";
  timestamp = lit "t";
  status = status;
  process_after = none;
  recurrence = some (lit "0 9 * * *");
  series_id = none;
  tries = 0;
  trigger = 1;
  platform_id = none;
  channel_type = none;
  thread_id = none;
  content = lit "{}";
}

abbrev waiting : List MessageIn
waiting = row (lit "task-1") pending ∷ []

abbrev done : List MessageIn
done = row (lit "task-1") completed ∷ []

abbrev never_due : Text → Bool
never_due t = false

abbrev daily : Cron
daily = record { next_run = λ t. some (lit "tomorrow"); suffix = λ id. lit "2"; now = lit "now" }

one_is_cloned : length (handle_recurrence daily done) ≡ 2
unfolding handle_recurrence get_completed_recurring paraclaw.Scheduling.recur_one
    paraclaw.SessionDb.insert_row text_eq paraclaw.SessionDb.next_even_seq
    paraclaw.Scheduling.clear_recurrence
one_is_cloned = refl

handle_recurrence_once_example :
    (length (handle_recurrence daily done) ≡ length done + length (get_completed_recurring done))
    × (get_completed_recurring (handle_recurrence daily done) ≡ [])
    × (handle_recurrence daily (handle_recurrence daily done) ≡ handle_recurrence daily done)
unfolding get_completed_recurring text_eq
handle_recurrence_once_example = handle_recurrence_once daily done (refl, refl, tt, tt)
