-- ===== src/EventQueue/Invariant/Remove.antt =====
-- The removals of grix_hermes/event_queue.py and the well-formedness of the queue.
use grix_hermes_python.Prelude.{
  ◌+◌, ◌≤◌, String, ◌≡◌, refl, inl, inr, Bool, List, [], ◌∷◌, arith, not, eq_iff, count, keep,
  if_elim, Option-cases,
}
use grix_hermes_python.Prelude.Dict.{entries, entries-pop}
use grix_hermes_python.EventQueue.State.{
  QueueItem, EventQueue, Effect, EventState, Meta, has_id, in_group, in_session, find_item, call,
}
use grix_hermes_python.EventQueue.Items.{find_item-id, count-remove}
use grix_hermes_python.EventQueue.Invariant.{
  IsWellFormed, held_id, waiting_id, waiting-le-id, held-le-id, quiet-IsWellFormed,
}
use grix_hermes_python.EventQueue.Timers.{cancel_hold, cancel_timeout}
use grix_hermes_python.EventQueue.Drain.{is_empty}
use grix_hermes_python.EventQueue.Invariant.Drain.{schedule_drain-IsWellFormed}
use grix_hermes_python.EventQueue.Notify.{notify_positions}
use grix_hermes_python.EventQueue.Remove.{
  take_queued, finish_queued, cancel_queued, remove_queued, timeout_event, cancel_each, clear,
  drop_timers, drain_all_queued, destroy,
}
use grix_hermes_python.EventQueue.Invariant.Submit.{cancel_timeout-IsWellFormed}

module _ {P : Type 0} where
  pub take_queued-IsWellFormed :
      (e : String) (q : EventQueue P) → IsWellFormed q → IsWellFormed (take_queued e q).0
  unfolding take_queued cancel_hold cancel_timeout
  take_queued-IsWellFormed e q h = elim (Option-cases (find_item e q.queued)) [
    | inl missing ↦ rw (missing, take_queued) h
    | inr (item, found) ↦
        rw (found, take_queued)
          (record {
            apart = λ j. omega (arith, h.apart j, count-remove (has_id j) e q.queued item found);
            serial = h.serial;
            bounded =
                λ g. omega (arith, h.bounded g, count-remove (in_group g) e q.queued item found);
            timeouts = λ j. ground (
              arith,
              h.timeouts j,
              count-remove (waiting_id j) e q.queued item found,
              entries-pop e j q.timeout_handles,
              find_item-id e q.queued item found,
              eq_iff e j,
            );
            holds = λ j. ground (
              arith,
              h.holds j,
              count-remove (held_id j) e q.queued item found,
              entries-pop e j q.hold_handles,
              find_item-id e q.queued item found,
              eq_iff e j,
            );
            run_timeouts = h.run_timeouts;
          })
  ]

  -- What follows a removal: calls of callbacks, and a drain.
  finish_queued-IsWellFormed :
      (item : QueueItem P) (state : EventState) (meta : Meta) (q : EventQueue P)
      → IsWellFormed q
      → IsWellFormed (finish_queued item state meta q)
  unfolding finish_queued notify_positions call
  finish_queued-IsWellFormed item state meta q h =
      schedule_drain-IsWellFormed _ (quiet-IsWellFormed q _ _ _ h)

  pub cancel_queued-IsWellFormed :
      (e reason : String) (q : EventQueue P)
      → IsWellFormed q
      → IsWellFormed (cancel_queued e reason q).0
  unfolding cancel_queued
  cancel_queued-IsWellFormed e reason q h =
      if_elim (λ (r : EventQueue P × Bool). IsWellFormed r.0) q.config.cancelable_queued _ _
        (λ _. elim (Option-cases (take_queued e q).1) [
          | inl missing ↦ rw missing (take_queued-IsWellFormed e q h)
          | inr (item, found) ↦
              rw found (finish_queued-IsWellFormed item _ _ _ (take_queued-IsWellFormed e q h))
        ])
        (λ _. h)

  pub remove_queued-IsWellFormed :
      (e : String) (q : EventQueue P) → IsWellFormed q → IsWellFormed (remove_queued e q).0
  unfolding remove_queued notify_positions
  remove_queued-IsWellFormed e q h = elim (Option-cases (take_queued e q).1) [
    | inl missing ↦ rw (missing, remove_queued) (take_queued-IsWellFormed e q h)
    | inr (item, found) ↦
        rw (found, remove_queued)
          (schedule_drain-IsWellFormed _
            (quiet-IsWellFormed _ _ _ _ (take_queued-IsWellFormed e q h)))
  ]

  pub timeout_event-IsWellFormed :
      (e : String) (q : EventQueue P) → IsWellFormed q → IsWellFormed (timeout_event e q)
  unfolding timeout_event
  timeout_event-IsWellFormed e q h =
      let taken = take_queued-IsWellFormed e _ (cancel_timeout-IsWellFormed e q h) in
      elim (Option-cases (take_queued e (cancel_timeout e q)).1) [
        | inl missing ↦ rw (missing, timeout_event) taken
        | inr (item, found) ↦
            rw (found, timeout_event) (finish_queued-IsWellFormed item _ _ _ taken)
      ]

-- The items of `xs` have left the queue, and their timers are still to be cancelled.
pub record IsLeaving {P : Type 0} (xs : List (QueueItem P)) (q : EventQueue P) : Type 0 where
  pub apart : (e : String) → count (has_id e) q.queued + count (has_id e) q.running ≤ 1
  pub serial : (g : String) → count (in_group g) q.running ≤ 1
  pub bounded : (g : String) → count (in_group g) q.queued ≤ q.config.max_queued
  pub timeouts :
      (e : String)
      → entries e q.timeout_handles ≤ count (waiting_id e) q.queued + count (has_id e) xs
  pub holds :
      (e : String) → entries e q.hold_handles ≤ count (held_id e) q.queued + count (has_id e) xs
  pub run_timeouts : (e : String) → entries e q.run_timeout_handles ≤ count (has_id e) q.running

module _ {P : Type 0} where
  left-IsWellFormed : (q : EventQueue P) → IsLeaving [] q → IsWellFormed q
  left-IsWellFormed q h = record {
    apart = h.apart;
    serial = h.serial;
    bounded = h.bounded;
    timeouts = λ e. omega (arith, h.timeouts e);
    holds = λ e. omega (arith, h.holds e);
    run_timeouts = h.run_timeouts;
  }

  leave-IsLeaving :
      (item : QueueItem P) (xs : List (QueueItem P)) (q : EventQueue P)
      → IsLeaving (item ∷ xs) q
      → IsLeaving xs (cancel_hold item.event_id (cancel_timeout item.event_id q))
  unfolding cancel_hold cancel_timeout
  leave-IsLeaving item xs q h = record {
    apart = h.apart;
    serial = h.serial;
    bounded = h.bounded;
    timeouts = λ e. ground (arith, h.timeouts e, entries-pop item.event_id e q.timeout_handles);
    holds = λ e. ground (arith, h.holds e, entries-pop item.event_id e q.hold_handles);
    run_timeouts = h.run_timeouts;
  }

  quiet-IsLeaving :
      (xs : List (QueueItem P)) (q : EventQueue P) (effects : List (Effect P))
      → IsLeaving xs q
      → IsLeaving xs (record q { effects = effects })
  quiet-IsLeaving xs q effects h = record {
    apart = h.apart;
    serial = h.serial;
    bounded = h.bounded;
    timeouts = h.timeouts;
    holds = h.holds;
    run_timeouts = h.run_timeouts;
  }

  pub cancel_each-IsWellFormed :
      (reason : String) (xs : List (QueueItem P)) (q : EventQueue P)
      → IsLeaving xs q
      → IsWellFormed (cancel_each reason xs q)
  unfolding cancel_each call
  cancel_each-IsWellFormed reason [] q h = left-IsWellFormed q h
  cancel_each-IsWellFormed reason (item ∷ xs) q h =
      cancel_each-IsWellFormed reason xs _ (quiet-IsLeaving xs _ _ (leave-IsLeaving item xs q h))

  drop_timers-IsWellFormed :
      (xs : List (QueueItem P)) (q : EventQueue P)
      → IsLeaving xs q
      → IsWellFormed (drop_timers xs q)
  unfolding drop_timers
  drop_timers-IsWellFormed [] q h = left-IsWellFormed q h
  drop_timers-IsWellFormed (item ∷ xs) q h =
      drop_timers-IsWellFormed xs _ (leave-IsLeaving item xs q h)

  -- What passes a test and what fails it make up the whole.
  count-partition :
      (p mine : QueueItem P → Bool) (xs : List (QueueItem P))
      → count p (keep mine xs) + count p (keep (λ i. not (mine i)) xs) ≡ count p xs
  count-partition p mine [] = refl
  count-partition p mine (x ∷ xs) = ground (arith, count-partition p mine xs)

  pub emptied-IsLeaving :
      (mine : QueueItem P → Bool) (q : EventQueue P)
      → IsWellFormed q
      → IsLeaving (keep mine q.queued) (record q { queued = keep (λ i. not (mine i)) q.queued })
  emptied-IsLeaving mine q h = record {
    apart = λ e. omega (arith, h.apart e, count-partition (has_id e) mine q.queued);
    serial = h.serial;
    bounded = λ g. omega (arith, h.bounded g, count-partition (in_group g) mine q.queued);
    timeouts = λ e. omega (
      arith,
      h.timeouts e,
      count-partition (waiting_id e) mine q.queued,
      waiting-le-id e (keep mine q.queued),
    );
    holds = λ e. omega (
      arith,
      h.holds e,
      count-partition (held_id e) mine q.queued,
      held-le-id e (keep mine q.queued),
    );
    run_timeouts = h.run_timeouts;
  }

  pub clear-IsWellFormed :
      (session owner reason : String) (q : EventQueue P)
      → IsWellFormed q
      → IsWellFormed (clear session owner reason q).0
  unfolding clear
  clear-IsWellFormed session owner reason q h =
      let cleared =
        cancel_each-IsWellFormed reason _ _ (emptied-IsLeaving (in_session session owner) q h) in
      if_elim IsWellFormed (is_empty (keep (in_session session owner) q.queued)) _ _ (λ _. cleared)
        (λ _. schedule_drain-IsWellFormed _ cleared)

  pub drain_all_queued-IsWellFormed :
      (q : EventQueue P) → IsWellFormed q → IsWellFormed (drain_all_queued q).0
  unfolding drain_all_queued
  drain_all_queued-IsWellFormed q h = drop_timers-IsWellFormed q.queued _ (record {
    apart = λ e. omega (arith, h.apart e);
    serial = h.serial;
    bounded = λ g. omega arith;
    timeouts = λ e. omega (arith, h.timeouts e, waiting-le-id e q.queued);
    holds = λ e. omega (arith, h.holds e, held-le-id e q.queued);
    run_timeouts = h.run_timeouts;
  })

  pub destroy-IsWellFormed : (q : EventQueue P) → IsWellFormed (destroy q)
  unfolding destroy
  destroy-IsWellFormed q = record {
    apart = λ e. omega arith;
    serial = λ g. omega arith;
    bounded = λ g. omega arith;
    timeouts = λ e. omega arith;
    holds = λ e. omega arith;
    run_timeouts = λ e. omega arith;
  }
