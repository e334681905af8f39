-- ===== src/Scheduling.antt =====
-- src/modules/scheduling/db.ts and recurrence.ts: tasks are rows of messages_in with kind 'task';
-- a recurring task gets a new row per occurrence, under one series_id. Parameters: `JSON.parse`,
-- `JSON.stringify`, the cron parser and the random part of an id.
pub mod Lifecycle
pub mod Recurrence
mod Tests
use paraclaw.Prelude.{
  ℕ, Bool, true, false, not, ◌&&◌, ◌||◌, Text, lit, text_eq, Option, none, some, get_or, is_some,
  List, [], ◌∷◌, ◌++◌, filter, update, length, if◌then◌else◌,
}
use paraclaw.Json
use paraclaw.Json.{Json, Fields, field}
use paraclaw.SessionDb.{
  MessageIn, Status, status_eq, pending, completed, paused, next_even_seq, insert_row, has_id,
}
use paraclaw.Permissions.{column_eq}

-- `(id = ? OR series_id = ?) AND kind = 'task'`
abbrev pub in_series : Text → MessageIn → Bool
in_series task row =
    (text_eq row.id task || column_eq row.series_id task) && text_eq row.kind (lit "task")

abbrev pub is_live : MessageIn → Bool
is_live row = status_eq row.status pending || status_eq row.status paused

-- The argument of `insertTask`.
pub record NewTask : Type 0 where
  pub id : Text
  pub process_after : Text
  pub recurrence : Option Text
  pub platform_id : Option Text
  pub channel_type : Option Text
  pub thread_id : Option Text
  pub content : Text

-- `insertTask`; `now` is datetime('now')
unfoldable pub insert_task : NewTask → Text → List MessageIn → Option (List MessageIn)
insert_task task now rows =
    insert_row
      (record {
        id = task.id;
        seq = next_even_seq rows;
        kind = lit "task";
        timestamp = now;
        status = pending;
        process_after = some task.process_after;
        recurrence = task.recurrence;
        series_id = some task.id;
        tries = 0;
        trigger = 1;
        platform_id = task.platform_id;
        channel_type = task.channel_type;
        thread_id = task.thread_id;
        content = task.content;
      })
      rows

-- `cancelTask`
unfoldable pub cancel_task : Text → List MessageIn → List MessageIn
cancel_task task rows =
    update (λ r. in_series task r && is_live r)
      (λ r. record r { status = completed; recurrence = none }) rows

-- `pauseTask`
unfoldable pub pause_task : Text → List MessageIn → List MessageIn
pause_task task rows =
    update (λ r. in_series task r && status_eq r.status pending) (λ r. record r { status = paused })
      rows

-- `resumeTask`
unfoldable pub resume_task : Text → List MessageIn → List MessageIn
resume_task task rows =
    update (λ r. in_series task r && status_eq r.status paused) (λ r. record r { status = pending })
      rows

-- `TaskUpdate`: the outer `none` is `undefined`, an inner `none` is null
pub record TaskUpdate : Type 0 where
  pub prompt : Option Text
  pub script : Option (Option Text)
  pub recurrence : Option (Option Text)
  pub process_after : Option Text

-- `parsed.key = value` on an object: in place, or at the end
unfoldable pub set_field : Text → Json → Fields → Fields
set_field k v Fields.end = field k v Fields.end
set_field k v (field j w fs) = if text_eq j k then field j v fs else field j w (set_field k v fs)

-- The same on any value: null and the primitives throw, an array's extra key is not printed.
unfoldable pub assign : Text → Json → Json → Option Json
unfolding set_field
assign k v (Json.obj fs) = some (Json.obj (set_field k v fs))
assign k v (Json.arr xs) = some (Json.arr xs)
assign k v _ = none

abbrev pub script_value : Option Text → Json
script_value none = Json.null
script_value (some s) = Json.str s

assign_prompt : Option Text → Json → Option Json
unfolding assign
assign_prompt none v = some v
assign_prompt (some s) v = assign (lit "prompt") (Json.str s) v

assign_script : Option (Option Text) → Json → Option Json
unfolding assign
assign_script none v = some v
assign_script (some s) v = assign (lit "script") (script_value s) v

module _ (parse : Text → Option Json) (stringify : Json → Text) where
  -- the content that `updateTask` writes; `none` is a throw
  unfoldable pub merge_content : TaskUpdate → Text → Option Text
  unfolding assign_prompt assign_script
  merge_content upd content =
      if not (is_some upd.prompt || is_some upd.script)
      then some content
      else elim (parse content) [
        | none ↦ none
        | some v ↦ elim (assign_prompt upd.prompt v) [
          | none ↦ none
          | some v' ↦ elim (assign_script upd.script v') [
            | none ↦ none
            | some v'' ↦ some (stringify v'')
          ]
        ]
      ]

  abbrev pub apply_update : TaskUpdate → Text → MessageIn → MessageIn
  apply_update upd content r = record r {
    content = content;
    process_after = elim upd.process_after [ none ↦ r.process_after | some t ↦ some t ];
    recurrence = get_or upd.recurrence r.recurrence;
  }

  -- the loop over the selected rows; a throw rolls the transaction back
  unfoldable pub update_rows :
      TaskUpdate → List MessageIn → List MessageIn → Option (List MessageIn)
  unfolding merge_content
  update_rows upd [] rows = some rows
  update_rows upd (r ∷ selected) rows = elim (merge_content upd r.content) [
    | none ↦ none
    | some content ↦ update_rows upd selected (update (has_id r.id) (apply_update upd content) rows)
  ]

  -- `updateTask`: the rows afterwards and how many were touched
  unfoldable pub update_task : Text → TaskUpdate → List MessageIn → Option (List MessageIn × ℕ)
  unfolding update_rows
  update_task task upd rows =
      let selected = filter (λ r. in_series task r && is_live r) rows in
      elim (update_rows upd selected rows) [
        | none ↦ none
        | some rows' ↦ some (rows', length selected)
      ]

abbrev pub is_recurring : MessageIn → Bool
is_recurring r = status_eq r.status completed && is_some r.recurrence

-- `getCompletedRecurring`
unfoldable pub get_completed_recurring : List MessageIn → List MessageIn
get_completed_recurring rows = filter is_recurring rows

-- The row of `insertRecurrence`.
abbrev pub next_occurrence : MessageIn → Text → Text → Text → ℕ → MessageIn
next_occurrence msg new_id next_run now seq = record {
  id = new_id;
  seq = seq;
  kind = msg.kind;
  timestamp = now;
  status = pending;
  process_after = some next_run;
  recurrence = msg.recurrence;
  series_id = msg.series_id;
  tries = 0;
  trigger = 1;
  platform_id = msg.platform_id;
  channel_type = msg.channel_type;
  thread_id = msg.thread_id;
  content = msg.content;
}

-- `clearRecurrence`
unfoldable pub clear_recurrence : Text → List MessageIn → List MessageIn
clear_recurrence id rows = update (has_id id) (λ r. record r { recurrence = none }) rows

-- What `handleRecurrence` takes from outside: the next run of a cron expression in the user's
-- time zone (`none` where the parser throws), the part of the new id after its prefix, and
-- datetime('now').
pub record Cron : Type 0 where
  pub next_run : Text → Option Text
  pub suffix : Text → Text
  pub now : Text

module _ (cron : Cron) where
  abbrev pub new_id : MessageIn → Text
  new_id msg =
      (if text_eq msg.kind (lit "task") then lit "task-" else lit "msg-") ++ cron.suffix msg.id

  -- one round of the loop: a throw, of the parser or of the INSERT, leaves the rows as they are
  unfoldable pub recur_one : MessageIn → List MessageIn → List MessageIn
  recur_one msg rows = elim (cron.next_run (get_or msg.recurrence [])) [
    | none ↦ rows
    | some t ↦
        elim (insert_row (next_occurrence msg (new_id msg) t cron.now (next_even_seq rows)) rows) [
          | none ↦ rows
          | some rows' ↦ clear_recurrence msg.id rows'
        ]
  ]

  unfoldable pub recur_all : List MessageIn → List MessageIn → List MessageIn
  recur_all [] rows = rows
  recur_all (msg ∷ msgs) rows = recur_all msgs (recur_one msg rows)

  -- `handleRecurrence`
  unfoldable pub handle_recurrence : List MessageIn → List MessageIn
  unfolding recur_all
  handle_recurrence rows = recur_all (get_completed_recurring rows) rows
