-- ===== src/HostSweep/Session.antt =====
-- One sweep of a session as a whole.
use paraclaw.Prelude.{◌≡◌, true, List, arith}
use paraclaw.SessionDb.{get_processing_claims, sync_processing_acks, count_due_messages}
use paraclaw.Scheduling.{handle_recurrence}
use paraclaw.HostSweep.{
  Env, Sweep, fine, decide_stuck_action, sweep_session, enforce_running_container_sla,
}

-- The inbound rows once the acknowledgements are synced.
abbrev pub synced : Sweep → List paraclaw.SessionDb.MessageIn
synced s = sync_processing_acks s.dbs.processing_ack s.dbs.messages_in

-- A running container that `decideStuckAction` finds fine is neither woken nor killed, and its
-- messages are only synced and, where recurring, cloned.
pub sweep_session-fine :
    (env : Env) (s : Sweep)
    → s.running ≡ true
    → decide_stuck_action env.clock s.heartbeat env.state
        (get_processing_claims s.dbs.processing_ack)
      ≡ fine
    → sweep_session true env s
      ≡ record s { dbs = record s.dbs { messages_in = handle_recurrence env.cron (synced s) } }
unfolding sweep_session enforce_running_container_sla
sweep_session-fine env s running ok = ground arith
