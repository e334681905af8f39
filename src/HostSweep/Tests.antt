-- ===== src/HostSweep/Tests.antt =====
-- A container that claimed a message and went silent.
use paraclaw.Prelude.{
  ℕ, ◌-◌, ◌≤◌, ◌≡◌, ◌↔◌, ◌⊎◌, refl, true, false, Text, lit, none, some, [], ◌∷◌, All, arith,
}
use paraclaw.SessionDb.{
  Status, pending, MessageIn, Ack, ack_processing, get_message_for_retry, retry_with_backoff,
  count_due_messages, get_processing_claims,
}
use paraclaw.ContainerDb.{SessionDbs}
use paraclaw.HostSweep.{
  Clock, Env, Sweep, woke, killed, fine, kill_claim, decide_stuck_action, widened,
  absolute_ceiling_ms, claim_stuck_ms, max_tries, backoff_sec, reset_one,
  reset_stuck_processing_rows, sweep_session,
}
use paraclaw.HostSweep.Decide.{IsStuck, decide_stuck_action-eq-fine_iff}
use paraclaw.HostSweep.Reset.{IsBounded, reset_stuck_processing_rows-IsBounded}

abbrev row : Text → Status → MessageIn
row id status = record {
  id = id;
  seq = 2;
  kind = lit "task";
  timestamp = lit "t";
  status = status;
  process_after = none;
  recurrence = none;
  series_id = none;
  tries = 0;
  trigger = 1;
  platform_id = none;
  channel_type = none;
  thread_id = none;
  content = lit "{}";
}

abbrev claim : Ack
claim = record { message_id = lit "a"; status = ack_processing; status_changed = lit "claimed" }

-- Every text names the millisecond 1000.
abbrev clock : Clock
clock = record {
  now = 100000;
  parse = λ t. some 1000;
  due = λ t. true;
  after_seconds = λ n. lit "later";
}

abbrev dbs : SessionDbs
dbs = record {
  messages_in = row (lit "a") pending ∷ [];
  delivered = [];
  messages_out = [];
  processing_ack = claim ∷ [];
}

silent_is_killed : decide_stuck_action clock 0 none (claim ∷ []) ≡ kill_claim (lit "a") 99000 60000
unfolding decide_stuck_action paraclaw.HostSweep.first_stuck paraclaw.HostSweep.claim_is_stuck
    paraclaw.HostSweep.bash_timeout_ms
silent_is_killed = refl

abbrev absent : ℕ
absent = 0

decide_stuck_action-eq-fine_iff_example :
    (decide_stuck_action clock absent none (claim ∷ []) ≡ fine) ↔ (
      ((absent ≡ 0) ⊎ (100000 - 0 ≤ widened absolute_ceiling_ms none))
      × All (λ c. ¬ IsStuck clock 0 (widened claim_stuck_ms none) c) (claim ∷ []))
decide_stuck_action-eq-fine_iff_example = decide_stuck_action-eq-fine_iff clock 0 none (claim ∷ [])

reset_stuck_processing_rows-IsBounded_example :
    IsBounded (reset_stuck_processing_rows clock dbs).messages_in
reset_stuck_processing_rows-IsBounded_example =
    reset_stuck_processing_rows-IsBounded clock dbs ((refl, tt), (omega arith, tt))

abbrev env : Env
env = record {
  clock = clock;
  state = none;
  cron = record { next_run = λ t. none; suffix = λ id. id; now = lit "now" };
  wake = λ dbs heartbeat. record { running = true; heartbeat = 0; dbs = dbs };
}

abbrev stopped : Sweep
stopped = record { dbs = dbs; running = false; heartbeat = 0; events = [] }

abbrev at_once : Sweep
at_once = sweep_session true env stopped

woken_and_killed : at_once.events ≡ woke ∷ killed (kill_claim (lit "a") 99000 60000) ∷ []
unfolding decide_stuck_action count_due_messages paraclaw.SessionDb.sync_processing_acks
    sweep_session paraclaw.HostSweep.first_stuck get_processing_claims
    paraclaw.HostSweep.claim_is_stuck paraclaw.HostSweep.bash_timeout_ms
    paraclaw.HostSweep.enforce_running_container_sla
woken_and_killed = refl
