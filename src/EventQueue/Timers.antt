-- ===== src/EventQueue/Timers.antt =====
-- The timers of grix_hermes/event_queue.py: the queue timeout, the run timeout and the hold.
use grix_hermes_python.Prelude.{ℕ, String, Bool, min, max, nat_eq, ◌&&◌, if◌then◌else◌, ltb}
use grix_hermes_python.Prelude.Dict.{Dict, put, pop}
use grix_hermes_python.EventQueue.State.{QueueItem, EventQueue}

abbrev pub hold_ttl_min_ms : ℕ
hold_ttl_min_ms = 60_000

abbrev pub hold_ttl_max_ms : ℕ
hold_ttl_max_ms = 1_800_000

-- A ttl is clamped into one minute to thirty.
unfoldable pub hold_delay : ℕ → ℕ
hold_delay ttl_ms = max hold_ttl_min_ms (min hold_ttl_max_ms ttl_ms)

-- What `_arm_timeout` and `_arm_run_timeout` share: nothing at a delay of 0; else the old handle is
-- cancelled, and a new one is armed if a loop runs.
unfoldable pub rearm : ℕ → Bool → String → Dict ℕ → Dict ℕ
rearm delay in_loop event_id handles =
    if nat_eq delay 0
    then handles
    else if in_loop
    then put event_id delay (pop event_id handles)
    else pop event_id handles

module _ {P : Type 0} where
  unfoldable pub cancel_timeout : String → EventQueue P → EventQueue P
  cancel_timeout event_id q = record q { timeout_handles = pop event_id q.timeout_handles }

  unfoldable pub cancel_run_timeout : String → EventQueue P → EventQueue P
  cancel_run_timeout event_id q = record q {
    run_timeout_handles = pop event_id q.run_timeout_handles;
  }

  unfoldable pub cancel_hold : String → EventQueue P → EventQueue P
  cancel_hold event_id q = record q { hold_handles = pop event_id q.hold_handles }

  unfoldable pub arm_timeout : QueueItem P → EventQueue P → EventQueue P
  arm_timeout item q = record q {
    timeout_handles = rearm q.config.queue_timeout_ms q.in_loop item.event_id q.timeout_handles;
  }

  unfoldable pub arm_run_timeout : QueueItem P → EventQueue P → EventQueue P
  arm_run_timeout item q = record q {
    run_timeout_handles =
        rearm q.config.run_timeout_ms q.in_loop item.event_id q.run_timeout_handles;
  }

  -- The part of `hold` that arms the timer: only for a positive ttl, clamped.
  unfoldable pub arm_hold : String → ℕ → EventQueue P → EventQueue P
  arm_hold event_id ttl_ms q = record q {
    hold_handles =
        if ltb 0 ttl_ms && q.in_loop
        then put event_id (hold_delay ttl_ms) q.hold_handles
        else q.hold_handles;
  }
