-- ===== src/EventQueue/Invariant.antt =====
-- What holds of the queue of grix_hermes/event_queue.py between two calls.
pub mod Drain
pub mod Submit
pub mod Hold
pub mod Remove
pub mod Reorder
use grix_hermes_python.Prelude.{
  ℕ, ◌+◌, ◌-◌, ◌≤◌, String, ◌≡◌, refl, sym, Bool, true, false, Option, none, some, List, [], ◌∷◌,
  ◌++◌, arith, max, ◌==◌, ◌&&◌, not, eq_iff, eq_refl, count, keep, one_if, if◌then◌else◌,
}
use grix_hermes_python.Prelude.Dict.{Dict, entries, pop, put, entries-pop, entries-put}
use grix_hermes_python.EventQueue.State.{
  QueueItem, EventQueue, EventQueueConfig, Effect, has_id, in_group, new, find_item,
}
use grix_hermes_python.EventQueue.Timers.{rearm}

module _ {P : Type 0} where
  abbrev pub held_id : String → QueueItem P → Bool
  held_id e item = has_id e item && item.held

  abbrev pub waiting_id : String → QueueItem P → Bool
  waiting_id e item = has_id e item && not item.held

-- Ids are distinct, a group runs one event at a time and waits within its limit, and every timer
-- belongs to an event that it can still concern: a queue timeout to a queued event that is not
-- held, a hold timer to a held one, a run timeout to a running one.
pub record IsWellFormed {P : Type 0} (q : EventQueue P) : Type 0 where
  pub apart : (e : String) → count (has_id e) q.queued + count (has_id e) q.running ≤ 1
  pub serial : (g : String) → count (in_group g) q.running ≤ 1
  pub bounded : (g : String) → count (in_group g) q.queued ≤ q.config.max_queued
  pub timeouts : (e : String) → entries e q.timeout_handles ≤ count (waiting_id e) q.queued
  pub holds : (e : String) → entries e q.hold_handles ≤ count (held_id e) q.queued
  pub run_timeouts : (e : String) → entries e q.run_timeout_handles ≤ count (has_id e) q.running

pub entries-rearm :
    (delay : ℕ) (in_loop : Bool) (k j : String) (handles : Dict ℕ)
    → entries j (rearm delay in_loop k handles) ≤ max (entries j handles) (one_if (k == j))
unfolding rearm
entries-rearm delay in_loop k j handles =
    ground (arith, entries-pop k j handles, entries-put k j delay (pop k handles))

module _ {P : Type 0} where
  pub waiting-le-id :
      (e : String) (xs : List (QueueItem P)) → count (waiting_id e) xs ≤ count (has_id e) xs
  waiting-le-id e [] = omega arith
  waiting-le-id e (x ∷ xs) = ground (arith, waiting-le-id e xs)

  pub held-le-id :
      (e : String) (xs : List (QueueItem P)) → count (held_id e) xs ≤ count (has_id e) xs
  held-le-id e [] = omega arith
  held-le-id e (x ∷ xs) = ground (arith, held-le-id e xs)

  pub new-IsWellFormed :
      (config : EventQueueConfig) (in_loop : Bool) → IsWellFormed (new {P = P} config in_loop)
  new-IsWellFormed config in_loop = record {
    apart = λ e. omega arith;
    serial = λ g. omega arith;
    bounded = λ g. omega arith;
    timeouts = λ e. omega arith;
    holds = λ e. omega arith;
    run_timeouts = λ e. omega arith;
  }

  -- The callbacks, the gate and the scheduled drain are not part of it.
  pub quiet-IsWellFormed :
      (q : EventQueue P) (effects : List (Effect P)) (reasons : List String) (scheduled : Bool)
      → IsWellFormed q
      → IsWellFormed
          (record q { effects = effects; pause_reasons = reasons; drain_scheduled = scheduled })
  quiet-IsWellFormed q effects reasons scheduled h = record {
    apart = h.apart;
    serial = h.serial;
    bounded = h.bounded;
    timeouts = h.timeouts;
    holds = h.holds;
    run_timeouts = h.run_timeouts;
  }
