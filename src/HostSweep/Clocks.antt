-- ===== src/HostSweep/Clocks.antt =====
-- The texts that SQLite's datetime() writes are UTC and name no zone, and `Date.parse` reads a text
-- with no zone as local time: on a host `offset` behind UTC it reads a stamp of t as t + offset,
-- and on a host ahead of UTC as t - offset.
use paraclaw.Prelude.{
  ℕ, ◌+◌, ◌-◌, ◌<◌, ◌≤◌, ◌≡◌, refl, Text, Option, some, List, [], ◌∷◌, inl, arith,
}
use paraclaw.SessionDb.{
  Ack, ContainerState, MessageIn, pending, get_message_for_retry, retry_with_backoff,
}
use paraclaw.HostSweep.{
  Clock, fine, widened, claim_stuck_ms, max_tries, decide_stuck_action, is_rescheduled, reset_one,
  backoff_sec,
}
use paraclaw.HostSweep.Decide.{IsStuck, decide_stuck_action-eq-fine_iff}

-- On a host behind UTC a claim is not reported before its age passes the tolerance plus the offset:
-- a container that claimed a message at t and wrote no heartbeat is left alone all that time,
-- although its claim is older than the tolerance.
pub claim_unseen_west :
    (clock : Clock) (state : Option ContainerState) (claim : Ack) (t offset : ℕ)
    → clock.parse claim.status_changed ≡ some (t + offset)
    → clock.now ≤ t + widened claim_stuck_ms state + offset
    → decide_stuck_action clock 0 state (claim ∷ []) ≡ fine
claim_unseen_west clock state claim t offset parsed young =
    (decide_stuck_action-eq-fine_iff clock 0 state (claim ∷ [])).1 (inl refl, (unseen, tt))
  where
    unseen : ¬ IsStuck clock 0 (widened claim_stuck_ms state) claim
    unseen (at, found, old, quiet) = ground (arith, parsed, found, old, young)

-- On a host ahead of UTC a retry that `retryWithBackoff` has scheduled for t does not hold the next
-- sweep back until now passes t - offset: the sweep adds a try, and a new delay, although
-- t is still to come.
pub retry_unseen_east :
    (clock : Clock) (id stamp : Text) (rows : List MessageIn) (msg : MessageIn) (t offset : ℕ)
    → get_message_for_retry id pending rows ≡ some msg
    → msg.process_after ≡ some stamp
    → clock.parse stamp ≡ some (t - offset)
    → t ≤ clock.now + offset
    → msg.tries < max_tries
    → reset_one clock id rows
      ≡ retry_with_backoff msg.id (clock.after_seconds (backoff_sec msg.tries)) rows
unfolding reset_one is_rescheduled
retry_unseen_east clock id [] rows msg t offset found after parsed early few =
    ground (arith, found, after, early, few)
retry_unseen_east clock id (c ∷ stamp) rows msg t offset found after parsed early few =
    ground (arith, found, after, parsed, early, few)
