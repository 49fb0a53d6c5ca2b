-- ===== src/EventQueue/Invariant/Hold.antt =====
-- `hold`, `release` and `edit` of grix_hermes/event_queue.py and the well-formedness of the queue.
use grix_hermes_python.Prelude.{
  ℕ, ◌≤◌, String, ◌≡◌, inl, inr, true, some, arith, ◌==◌, eq_iff, one_if, if_elim, Option-cases,
  ◌&&◌, ltb, max,
}
use grix_hermes_python.Prelude.Dict.{entries, pop, entries-pop, entries-put}
use grix_hermes_python.EventQueue.State.{
  QueueItem, EventQueue, has_id, in_group, find_item, update_item,
}
use grix_hermes_python.EventQueue.Items.{find_item-id, count-remove, count-update}
use grix_hermes_python.EventQueue.Invariant.{
  IsWellFormed, held_id, waiting_id, entries-rearm, quiet-IsWellFormed,
}
use grix_hermes_python.EventQueue.Timers.{
  cancel_hold, cancel_timeout, arm_timeout, arm_hold, hold_delay, rearm,
}
use grix_hermes_python.EventQueue.Invariant.Drain.{schedule_drain-IsWellFormed}
use grix_hermes_python.EventQueue.Notify.{notify_item}
use grix_hermes_python.EventQueue.Hold.{
  hold, release, edit, hold_expired, held_for, not_held, with_text,
}

module _ {P : Type 0} where
  pub cancel_hold-IsWellFormed :
      (e : String) (q : EventQueue P) → IsWellFormed q → IsWellFormed (cancel_hold e q)
  unfolding cancel_hold
  cancel_hold-IsWellFormed e q h = record {
    apart = h.apart;
    serial = h.serial;
    bounded = h.bounded;
    timeouts = h.timeouts;
    holds = λ j. ground (arith, h.holds j, entries-pop e j q.hold_handles);
    run_timeouts = h.run_timeouts;
  }

  pub entries-arm_hold :
      (e j : String) (ttl_ms : ℕ) (q : EventQueue P)
      → entries j (arm_hold e ttl_ms q).hold_handles
        ≤ max (entries j q.hold_handles) (one_if (e == j))
  unfolding arm_hold
  entries-arm_hold e j ttl_ms q =
      if_elim (λ d. entries j d ≤ max (entries j q.hold_handles) (one_if (e == j)))
        (ltb 0 ttl_ms && q.in_loop) _ q.hold_handles
        (λ _. ground (arith, entries-put e j (hold_delay ttl_ms) q.hold_handles)) (λ _. omega arith)

  pub hold-IsWellFormed :
      (e reason : String) (ttl_ms : ℕ) (q : EventQueue P)
      → IsWellFormed q
      → IsWellFormed (hold e reason ttl_ms q).0
  unfolding hold notify_item arm_hold cancel_hold cancel_timeout
  hold-IsWellFormed e reason ttl_ms q h = elim (Option-cases (find_item e q.queued)) [
    | inl missing ↦ rw (missing, hold) h
    | inr (item, found) ↦
        rw (found, hold)
          (record {
            apart = λ j.
                omega (
                  arith,
                  h.apart j,
                  count-update (has_id j) (held_for reason) e q.queued item found,
                );
            serial = h.serial;
            bounded = λ g. omega (
              arith,
              h.bounded g,
              count-update (in_group g) (held_for reason) e q.queued item found,
            );
            timeouts = λ j. ground (
              arith,
              h.timeouts j,
              count-update (waiting_id j) (held_for reason) e q.queued item found,
              entries-pop e j q.timeout_handles,
              find_item-id e q.queued item found,
              eq_iff e j,
            );
            holds = λ j. ground (
              arith,
              h.holds j,
              count-update (held_id j) (held_for reason) e q.queued item found,
              count-remove (held_id j) e q.queued item found,
              entries-pop e j q.hold_handles,
              entries-arm_hold e j ttl_ms (cancel_hold e q),
              find_item-id e q.queued item found,
              eq_iff e j,
            );
            run_timeouts = h.run_timeouts;
          })
  ]

  -- What `release` makes of a held item, before it asks for a drain.
  pub released-IsWellFormed :
      (e : String) (q : EventQueue P) (item : QueueItem P)
      → find_item e q.queued ≡ some item
      → item.held ≡ true
      → IsWellFormed q
      → IsWellFormed (record q {
        queued = update_item e not_held q.queued;
        hold_handles = pop e q.hold_handles;
        timeout_handles = rearm q.config.queue_timeout_ms q.in_loop item.event_id q.timeout_handles;
      })
  released-IsWellFormed e q item found held h = record {
    apart = λ j. omega (arith, h.apart j, count-update (has_id j) not_held e q.queued item found);
    serial = h.serial;
    bounded =
        λ g. omega (arith, h.bounded g, count-update (in_group g) not_held e q.queued item found);
    timeouts = λ j. ground (
      arith,
      h.timeouts j,
      count-update (waiting_id j) not_held e q.queued item found,
      entries-rearm q.config.queue_timeout_ms q.in_loop item.event_id j q.timeout_handles,
    );
    holds = λ j. ground (
      arith,
      h.holds j,
      count-update (held_id j) not_held e q.queued item found,
      entries-pop e j q.hold_handles,
      find_item-id e q.queued item found,
      eq_iff e j,
    );
    run_timeouts = h.run_timeouts;
  }

  pub release-IsWellFormed :
      (e : String) (q : EventQueue P) → IsWellFormed q → IsWellFormed (release e q).0
  unfolding release notify_item arm_timeout cancel_hold
  release-IsWellFormed e q h = elim (Option-cases (find_item e q.queued)) [
    | inl missing ↦ rw (missing, release) h
    | inr (item, found) ↦
        rw (found, release)
          (if_elim IsWellFormed item.held _ (cancel_hold e q)
            (λ held.
              schedule_drain-IsWellFormed _
                (quiet-IsWellFormed _ _ _ _ (released-IsWellFormed e q item found held h)))
            (λ _. cancel_hold-IsWellFormed e q h))
  ]

  pub retexted-IsWellFormed :
      (e text : String) (q : EventQueue P) (item : QueueItem P)
      → find_item e q.queued ≡ some item
      → IsWellFormed q
      → IsWellFormed (record q { queued = update_item e (with_text text) q.queued })
  retexted-IsWellFormed e text q item found h = record {
    apart = λ j.
        omega (arith, h.apart j, count-update (has_id j) (with_text text) e q.queued item found);
    serial = h.serial;
    bounded = λ g.
        omega
          (arith, h.bounded g, count-update (in_group g) (with_text text) e q.queued item found);
    timeouts = λ j.
        omega
          (arith, h.timeouts j, count-update (waiting_id j) (with_text text) e q.queued item found);
    holds = λ j.
        omega (arith, h.holds j, count-update (held_id j) (with_text text) e q.queued item found);
    run_timeouts = h.run_timeouts;
  }

  pub edit-IsWellFormed :
      (e text : String) (q : EventQueue P) → IsWellFormed q → IsWellFormed (edit e text q).0
  unfolding edit
  edit-IsWellFormed e text q h = elim (Option-cases (find_item e q.queued)) [
    | inl missing ↦ rw (missing, edit) h
    | inr (item, found) ↦
        rw (found, edit) (release-IsWellFormed e _ (retexted-IsWellFormed e text q item found h))
  ]

  pub hold_expired-IsWellFormed :
      (e : String) (q : EventQueue P) → IsWellFormed q → IsWellFormed (hold_expired e q)
  unfolding hold_expired
  hold_expired-IsWellFormed e q h = release-IsWellFormed e _ (cancel_hold-IsWellFormed e q h)
