-- ===== src/HostSweep.antt =====
-- src/host-sweep.ts: the periodic maintenance of one session. Times are milliseconds. `now - t` is
-- the truncated difference: the code only tests ages for being above a tolerance, where a
-- negative age and the age 0 agree.
pub mod Decide
pub mod Clocks
pub mod Reset
pub mod Session
mod Tests
use paraclaw.Prelude.{
  ℕ, ◌+◌, ◌-◌, ◌*◌, ◌/◌, ◌^◌, Bool, true, false, not, ◌&&◌, ◌||◌, Text, lit, text_eq, Option, none,
  some, get_or, List, [], ◌∷◌, ◌++◌, max, ltb, leb, ◌==◌, if◌then◌else◌,
}
use paraclaw.SessionDb.{
  MessageIn, pending, Ack, ContainerState, get_processing_claims, get_message_for_retry,
  mark_message_failed, retry_with_backoff, sync_processing_acks, count_due_messages,
}
use paraclaw.ContainerDb.{SessionDbs}
use paraclaw.Scheduling.{Cron, handle_recurrence}

abbrev pub absolute_ceiling_ms : ℕ
absolute_ceiling_ms = 30 * 60 * 1000

abbrev pub claim_stuck_ms : ℕ
claim_stuck_ms = 60 * 1000

abbrev pub max_tries : ℕ
max_tries = 5

abbrev pub backoff_base_ms : ℕ
backoff_base_ms = 5000

-- `StuckDecision`
pub data StuckDecision : Type 0 where
  fine : StuckDecision
  kill_ceiling : (heartbeat_age_ms ceiling_ms : ℕ) → StuckDecision
  kill_claim : (message_id : Text) → (claim_age_ms tolerance_ms : ℕ) → StuckDecision

declared_if_bash : Option Text → Option ℕ → Option ℕ
declared_if_bash none declared = none
declared_if_bash (some tool) declared = if text_eq tool (lit "Bash") then declared else none

-- `bashTimeoutMs`
unfoldable pub bash_timeout_ms : Option ContainerState → Option ℕ
unfolding declared_if_bash
bash_timeout_ms none = none
bash_timeout_ms (some state) = declared_if_bash state.current_tool state.tool_declared_timeout_ms

-- `Math.max(limit, declaredBashMs ?? 0)`
abbrev pub widened : ℕ → Option ContainerState → ℕ
widened limit state = max limit (get_or (bash_timeout_ms state) 0)

-- The clock of the host: Date.now(), `Date.parse` (`none` is NaN), the SQL test
-- datetime(t) <= datetime('now'), and the text of datetime('now', '+N seconds').
pub record Clock : Type 0 where
  pub now : ℕ
  pub parse : Text → Option ℕ
  pub due : Text → Bool
  pub after_seconds : ℕ → Text

-- The three `continue` tests of the loop over the claims.
claim_is_stuck_at : ℕ → ℕ → ℕ → Option ℕ → Bool
claim_is_stuck_at now heartbeat tolerance none = false
claim_is_stuck_at now heartbeat tolerance (some claimed_at) =
    not (leb (now - claimed_at) tolerance) && not (ltb claimed_at heartbeat)

unfoldable pub claim_is_stuck : Clock → ℕ → ℕ → Ack → Bool
unfolding claim_is_stuck_at
claim_is_stuck clock heartbeat tolerance claim =
    claim_is_stuck_at clock.now heartbeat tolerance (clock.parse claim.status_changed)

-- the loop of `decideStuckAction`
unfoldable pub first_stuck : Clock → ℕ → ℕ → List Ack → StuckDecision
first_stuck clock heartbeat tolerance [] = fine
first_stuck clock heartbeat tolerance (claim ∷ claims) =
    if claim_is_stuck clock heartbeat tolerance claim
    then kill_claim claim.message_id (clock.now - get_or (clock.parse claim.status_changed) 0)
        tolerance
    else first_stuck clock heartbeat tolerance claims

-- `decideStuckAction`; a heartbeat of 0 means that the file is absent
unfoldable pub decide_stuck_action : Clock → ℕ → Option ContainerState → List Ack → StuckDecision
decide_stuck_action clock heartbeat state claims =
    let ceiling = widened absolute_ceiling_ms state in
    if not (heartbeat == 0) && ltb ceiling (clock.now - heartbeat)
    then kill_ceiling (clock.now - heartbeat) ceiling
    else first_stuck clock heartbeat (widened claim_stuck_ms state) claims

-- `msg.processAfter && Date.parse(msg.processAfter) > now`
unfoldable pub is_rescheduled : Clock → Option Text → Bool
is_rescheduled clock none = false
is_rescheduled clock (some []) = false
is_rescheduled clock (some t) = elim (clock.parse t) [ none ↦ false | some at ↦ ltb clock.now at ]

-- `Math.floor(BACKOFF_BASE_MS * 2 ** tries / 1000)`
abbrev pub backoff_sec : ℕ → ℕ
backoff_sec tries = backoff_base_ms * 2 ^ tries / 1000

-- one round of `resetStuckProcessingRows`
unfoldable pub reset_one : Clock → Text → List MessageIn → List MessageIn
reset_one clock id rows = elim (get_message_for_retry id pending rows) [
  | none ↦ rows
  | some msg ↦
      if is_rescheduled clock msg.process_after
      then rows
      else if leb max_tries msg.tries
      then mark_message_failed msg.id rows
      else retry_with_backoff msg.id (clock.after_seconds (backoff_sec msg.tries)) rows
]

unfoldable pub reset_loop : Clock → List Ack → List MessageIn → List MessageIn
reset_loop clock [] rows = rows
reset_loop clock (claim ∷ claims) rows =
    reset_loop clock claims (reset_one clock claim.message_id rows)

-- `resetStuckProcessingRows`
unfoldable pub reset_stuck_processing_rows : Clock → SessionDbs → SessionDbs
unfolding reset_loop
reset_stuck_processing_rows clock db = record db {
  messages_in = reset_loop clock (get_processing_claims db.processing_ack) db.messages_in;
}

-- What the sweep does to the container process.
pub data Event : Type 0 where
  woke : Event
  killed : StuckDecision → Event

pub record Sweep : Type 0 where
  pub dbs : SessionDbs
  pub running : Bool
  pub heartbeat : ℕ
  pub events : List Event

-- What `wakeContainer` (of container-runner.ts, which is not modelled) leaves of a session:
-- isContainerRunning, the heartbeat and the two files, in which a container may have written.
pub record Woken : Type 0 where
  pub running : Bool
  pub heartbeat : ℕ
  pub dbs : SessionDbs

-- The session's surroundings in one sweep. `wake` is `wakeContainer`, where it
-- returns.
pub record Env : Type 0 where
  pub clock : Clock
  pub state : Option ContainerState
  pub cron : Cron
  pub wake : SessionDbs → ℕ → Woken

-- step 1
sync_step : Bool → Sweep → Sweep
sync_step has_out s =
    if has_out
    then record s {
      dbs = record s.dbs {
        messages_in = sync_processing_acks s.dbs.processing_ack s.dbs.messages_in;
      };
    }
    else s

-- step 2
wake_step : Env → Sweep → Sweep
wake_step env s =
    let left = env.wake s.dbs s.heartbeat in
    if ltb 0 (count_due_messages env.clock.due s.dbs.messages_in) && not s.running
    then record {
      running = left.running;
      heartbeat = left.heartbeat;
      dbs = left.dbs;
      events = s.events ++ woke ∷ [];
    }
    else s

kill_and_reset : Env → StuckDecision → Sweep → Sweep
kill_and_reset env fine s = s
kill_and_reset env d s = record s {
  dbs = reset_stuck_processing_rows env.clock s.dbs;
  events = s.events ++ killed d ∷ [];
}

-- `enforceRunningContainerSla`
unfoldable pub enforce_running_container_sla : Env → Sweep → Sweep
unfolding kill_and_reset
enforce_running_container_sla env s =
    kill_and_reset env
      (decide_stuck_action env.clock s.heartbeat env.state
        (get_processing_claims s.dbs.processing_ack))
      s

-- steps 3 and 4
alive_step : Bool → Env → Sweep → Sweep
alive_step false env s = s
alive_step true env s =
    if s.running
    then enforce_running_container_sla env s
    else record s { dbs = reset_stuck_processing_rows env.clock s.dbs }

-- step 5
recurrence_step : Env → Sweep → Sweep
recurrence_step env s = record s {
  dbs = record s.dbs { messages_in = handle_recurrence env.cron s.dbs.messages_in };
}

-- `sweepSession`, from where both files are open; `has_out` says that outbound.db exists
unfoldable pub sweep_session : Bool → Env → Sweep → Sweep
unfolding sync_step wake_step alive_step recurrence_step
sweep_session has_out env s =
    recurrence_step env (alive_step has_out env (wake_step env (sync_step has_out s)))
