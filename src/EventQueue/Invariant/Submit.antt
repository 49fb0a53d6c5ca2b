-- ===== src/EventQueue/Invariant/Submit.antt =====
-- `submit`, `complete` and the run timeout of grix_hermes/event_queue.py and the well-formedness of the queue.
use grix_hermes_python.Prelude.{
  String, ◌≡◌, inl, inr, false, List, [], ◌∷◌, arith, not, eq_iff, count, count-append, Bool-cases,
  if_elim, Option-cases, is_some, ◌&&◌, ◌||◌,
}
use grix_hermes_python.Prelude.Dict.{pop, entries-pop}
use grix_hermes_python.EventQueue.State.{
  QueueItem, EventQueue, has_id, in_group, find_item, remove_item, call,
}
use grix_hermes_python.EventQueue.Items.{
  find_item-id, count_of_find-none, count_of_find-some, count-remove, remove_absent,
}
use grix_hermes_python.EventQueue.Invariant.{
  IsWellFormed, held_id, waiting_id, entries-rearm, waiting-le-id, quiet-IsWellFormed,
}
use grix_hermes_python.EventQueue.Timers.{
  cancel_timeout, cancel_run_timeout, arm_timeout, arm_run_timeout,
}
use grix_hermes_python.EventQueue.Drain.{ready}
use grix_hermes_python.EventQueue.Invariant.Drain.{schedule_drain-IsWellFormed, start-IsWellFormed}
use grix_hermes_python.EventQueue.Query.{is_running, is_queued, group_busy}
use grix_hermes_python.EventQueue.Submit.{
  SubmitResult, is_full, enqueue, submit, complete, note_progress, pause_run_timeout,
  run_timeout_event,
}

module _ {P : Type 0} where
  pub absent_of_test :
      (e : String) (xs : List (QueueItem P))
      → is_some (find_item e xs) ≡ false
      → count (has_id e) xs ≡ 0
  absent_of_test e xs h = elim (Option-cases (find_item e xs)) [
    | inl missing ↦ count_of_find-none e xs missing
    | inr (item, found) ↦ cc
  ]

  enqueue-IsWellFormed :
      (item : QueueItem P) (q : EventQueue P)
      → item.held ≡ false
      → count (has_id item.event_id) q.queued ≡ 0
      → count (has_id item.event_id) q.running ≡ 0
      → is_full item q ≡ false
      → IsWellFormed q
      → IsWellFormed (enqueue item q)
  unfolding enqueue is_full call arm_timeout
  enqueue-IsWellFormed item q loose absent alone room h = record {
    apart = λ e.
        ground
          (arith, h.apart e, count-append (has_id e) q.queued (item ∷ []), eq_iff item.event_id e);
    serial = h.serial;
    bounded = λ g. ground (
      arith,
      h.bounded g,
      count-append (in_group g) q.queued (item ∷ []),
      eq_iff item.group_key g,
    );
    timeouts = λ e. ground (
      arith,
      h.timeouts e,
      waiting-le-id e q.queued,
      count-append (waiting_id e) q.queued (item ∷ []),
      entries-rearm q.config.queue_timeout_ms q.in_loop item.event_id e q.timeout_handles,
      eq_iff item.event_id e,
    );
    holds = λ e. omega (arith, h.holds e, count-append (held_id e) q.queued (item ∷ []));
    run_timeouts = h.run_timeouts;
  }

  pub submit-IsWellFormed :
      (item : QueueItem P) (q : EventQueue P)
      → item.held ≡ false
      → IsWellFormed q
      → IsWellFormed (submit item q).0
  unfolding submit is_running is_queued group_busy call
  submit-IsWellFormed item q loose h =
      if_elim (λ (r : EventQueue P × SubmitResult). IsWellFormed r.0)
        (is_running item.event_id q || is_queued item.event_id q) _ _ (λ _. h)
        λ new.
          let alone : count (has_id item.event_id) q.running ≡ 0 =
            absent_of_test item.event_id q.running (ground arith) in
          let absent : count (has_id item.event_id) q.queued ≡ 0 =
            absent_of_test item.event_id q.queued (ground arith) in
          if_elim (λ (r : EventQueue P × SubmitResult). IsWellFormed r.0)
            (ready q && not (group_busy item.group_key q)) _ _
            (λ idle. start-IsWellFormed item q absent alone (ground arith) h)
            (λ _.
              if_elim (λ (r : EventQueue P × SubmitResult). IsWellFormed r.0) (is_full item q) _ _
                (λ _. quiet-IsWellFormed q _ _ _ h)
                (λ room. enqueue-IsWellFormed item q loose absent alone room h))

  -- An event leaves the running ones with its timers.
  pub finished-IsWellFormed :
      (e : String) (q : EventQueue P)
      → IsWellFormed q
      → IsWellFormed (record q {
        running = remove_item e q.running;
        run_timeout_handles = pop e q.run_timeout_handles;
      })
  finished-IsWellFormed e q h = elim (Option-cases (find_item e q.running)) [
    | inl missing ↦ rw (remove_absent e q.running missing) (record {
      apart = h.apart;
      serial = h.serial;
      bounded = h.bounded;
      timeouts = h.timeouts;
      holds = h.holds;
      run_timeouts = λ j. ground (arith, h.run_timeouts j, entries-pop e j q.run_timeout_handles);
    })
    | inr (item, found) ↦ record {
      apart = λ j. omega (arith, h.apart j, count-remove (has_id j) e q.running item found);
      serial = λ g. omega (arith, h.serial g, count-remove (in_group g) e q.running item found);
      bounded = h.bounded;
      timeouts = h.timeouts;
      holds = h.holds;
      run_timeouts = λ j. ground (
        arith,
        h.run_timeouts j,
        count-remove (has_id j) e q.running item found,
        entries-pop e j q.run_timeout_handles,
        find_item-id e q.running item found,
        eq_iff e j,
      );
    }
  ]

  pub cancel_timeout-IsWellFormed :
      (e : String) (q : EventQueue P) → IsWellFormed q → IsWellFormed (cancel_timeout e q)
  unfolding cancel_timeout
  cancel_timeout-IsWellFormed e q h = record {
    apart = h.apart;
    serial = h.serial;
    bounded = h.bounded;
    timeouts = λ j. ground (arith, h.timeouts j, entries-pop e j q.timeout_handles);
    holds = h.holds;
    run_timeouts = h.run_timeouts;
  }

  pub cancel_run_timeout-IsWellFormed :
      (e : String) (q : EventQueue P) → IsWellFormed q → IsWellFormed (cancel_run_timeout e q)
  unfolding cancel_run_timeout
  cancel_run_timeout-IsWellFormed e q h = record {
    apart = h.apart;
    serial = h.serial;
    bounded = h.bounded;
    timeouts = h.timeouts;
    holds = h.holds;
    run_timeouts = λ j. ground (arith, h.run_timeouts j, entries-pop e j q.run_timeout_handles);
  }

  pub complete-IsWellFormed :
      (e : String) (q : EventQueue P) → IsWellFormed q → IsWellFormed (complete e q)
  unfolding complete cancel_run_timeout cancel_timeout
  complete-IsWellFormed e q h =
      schedule_drain-IsWellFormed _ (cancel_timeout-IsWellFormed e _ (finished-IsWellFormed e q h))

  pub note_progress-IsWellFormed :
      (e : String) (q : EventQueue P) → IsWellFormed q → IsWellFormed (note_progress e q)
  unfolding note_progress arm_run_timeout
  note_progress-IsWellFormed e q h = elim (Option-cases (find_item e q.running)) [
    | inl missing ↦ rw (missing, note_progress) h
    | inr (item, found) ↦
        rw (found, note_progress)
          (record {
            apart = h.apart;
            serial = h.serial;
            bounded = h.bounded;
            timeouts = h.timeouts;
            holds = h.holds;
            run_timeouts = λ j. ground (
              arith,
              h.run_timeouts j,
              entries-rearm q.config.run_timeout_ms q.in_loop item.event_id j q.run_timeout_handles,
              count_of_find-some e q.running item found,
              find_item-id e q.running item found,
              eq_iff item.event_id j,
            );
          })
  ]

  pub pause_run_timeout-IsWellFormed :
      (e : String) (q : EventQueue P) → IsWellFormed q → IsWellFormed (pause_run_timeout e q)
  unfolding pause_run_timeout
  pause_run_timeout-IsWellFormed e q h = elim (Bool-cases (is_running e q)) [
    | inl runs ↦ rw runs (cancel_run_timeout-IsWellFormed e q h)
    | inr absent ↦ rw absent h
  ]

  pub run_timeout_event-IsWellFormed :
      (e : String) (q : EventQueue P) → IsWellFormed q → IsWellFormed (run_timeout_event e q)
  unfolding run_timeout_event cancel_run_timeout call
  run_timeout_event-IsWellFormed e q h = elim (Option-cases (find_item e q.running)) [
    | inl missing ↦ rw (missing, run_timeout_event) (cancel_run_timeout-IsWellFormed e q h)
    | inr (item, found) ↦
        rw (found, run_timeout_event)
          (schedule_drain-IsWellFormed _ (quiet-IsWellFormed _ _ _ _ (finished-IsWellFormed e q h)))
  ]
