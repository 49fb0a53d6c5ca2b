-- ===== src/EventQueue/Invariant/Drain.antt =====
-- `_drain` of grix_hermes/event_queue.py and the well-formedness of the queue.
use grix_hermes_python.Prelude.{
  member, ◌+◌, String, ◌≡◌, sym, ap, ◌∙◌, inl, inr, Bool, true, false, List, [], ◌∷◌, ◌++◌, arith,
  ◌==◌, eq_iff, eq_refl, count, keep, one_if, Bool-cases, if_elim, length, length-keep, not,
}
use grix_hermes_python.Prelude.Dict.{pop, entries-pop}
use grix_hermes_python.EventQueue.State.{QueueItem, EventQueue, has_id, in_group}
use grix_hermes_python.EventQueue.Items.{count-put}
use grix_hermes_python.EventQueue.Drain.{
  Scan, visit, scan, dispatch, drain, ready, schedule_drain, start, run_scheduled, resume, pause,
}
use grix_hermes_python.EventQueue.Timers.{cancel_hold, cancel_timeout}
use grix_hermes_python.EventQueue.Lanes.Scan.{
  IsScanning, visit_busy, visit_held, visit_free, visit-IsScanning, alone, count-middle,
}
use grix_hermes_python.EventQueue.Lanes.Refine.{begin-IsScanning}
use grix_hermes_python.EventQueue.Invariant.{
  IsWellFormed, held_id, waiting_id, entries-rearm, quiet-IsWellFormed,
}

module _ {P : Type 0} where
  has_own_id : (item : QueueItem P) → one_if (has_id item.event_id item) ≡ 1
  has_own_id item = ap one_if (eq_refl item.event_id)

  -- What a start keeps: `q` is the queue before, and the item comes from outside or has just left
  -- the list that waits.
  pub start-IsWellFormed :
      (item : QueueItem P) (q : EventQueue P)
      → count (has_id item.event_id) q.queued ≡ 0
      → count (has_id item.event_id) q.running ≡ 0
      → count (in_group item.group_key) q.running ≡ 0
      → IsWellFormed q
      → IsWellFormed (start item q)
  unfolding start
  start-IsWellFormed item q absent alone free h = record {
    apart = λ e.
        ground
          (arith, h.apart e, count-put (has_id e) item q.running alone, eq_iff item.event_id e);
    serial = λ g.
        ground
          (arith, h.serial g, count-put (in_group g) item q.running alone, eq_iff item.group_key g);
    bounded = h.bounded;
    timeouts = h.timeouts;
    holds = h.holds;
    run_timeouts = λ e. ground (
      arith,
      h.run_timeouts e,
      count-put (has_id e) item q.running alone,
      entries-rearm q.config.run_timeout_ms q.in_loop item.event_id e q.run_timeout_handles,
      eq_iff item.event_id e,
    );
  }

  -- The item leaves the list that waits, with its timers.
  leave-IsWellFormed :
      (item : QueueItem P) (before after : List (QueueItem P)) (q : EventQueue P)
      → q.queued ≡ before ++ item ∷ after
      → IsWellFormed q
      → IsWellFormed (record q {
        queued = before ++ after;
        timeout_handles = pop item.event_id q.timeout_handles;
        hold_handles = pop item.event_id q.hold_handles;
      })
  leave-IsWellFormed item before after q split h = record {
    apart = λ e. omega (arith, h.apart e, gone (has_id e));
    serial = h.serial;
    bounded = λ g. omega (arith, h.bounded g, gone (in_group g));
    timeouts = λ e.
        ground
          (arith, h.timeouts e, gone (waiting_id e), entries-pop item.event_id e q.timeout_handles);
    holds = λ e.
        ground (arith, h.holds e, gone (held_id e), entries-pop item.event_id e q.hold_handles);
    run_timeouts = h.run_timeouts;
  }
    where
      gone :
          (p : QueueItem P → Bool) → count p q.queued ≡ count p (before ++ after) + one_if (p item)
      gone p = ap (count p) split ∙ count-middle p item before after

  dispatch-IsWellFormed :
      (item : QueueItem P) (xs : List (QueueItem P)) (s : Scan P)
      → IsScanning (item ∷ xs) s
      → member item.group_key s.busy_groups ≡ false
      → IsWellFormed s.queue
      → IsWellFormed (dispatch item (s.passed ++ xs) s.queue)
  unfolding dispatch
  dispatch-IsWellFormed item xs s scanning free h = quiet-IsWellFormed (start item left) _ _ _ (
      start-IsWellFormed item left
        (omega (
          arith,
          scanning.apart item.event_id,
          count-middle (has_id item.event_id) item s.passed xs,
          has_own_id item,
        ))
        (alone item xs s scanning)
        (sym (length-keep (in_group item.group_key) s.queue.running)
          ∙ ap length (scanning.free_running item.group_key free))
        (leave-IsWellFormed item s.passed xs s.queue scanning.split h))
    where
      left : EventQueue P
      left =
          cancel_hold item.event_id
            (cancel_timeout item.event_id (record s.queue { queued = s.passed ++ xs }))

  visit-IsWellFormed :
      (item : QueueItem P) (xs : List (QueueItem P)) (s : Scan P)
      → IsScanning (item ∷ xs) s
      → IsWellFormed s.queue
      → IsWellFormed (visit item xs s).queue
  visit-IsWellFormed item xs s scanning h =
      elim (Bool-cases (member item.group_key s.busy_groups)) [
        | inl busy ↦ rw (visit_busy item xs s busy) h
        | inr free ↦ elim (Bool-cases item.held) [
          | inl held ↦ rw (visit_held item xs s free held) h
          | inr loose ↦
              rw (visit_free item xs s free loose) (dispatch-IsWellFormed item xs s scanning free h)
        ]
      ]

  scan-IsWellFormed :
      (xs : List (QueueItem P)) (s : Scan P)
      → IsScanning xs s
      → IsWellFormed s.queue
      → IsWellFormed (scan xs s).queue
  unfolding scan
  scan-IsWellFormed [] s scanning h = h
  scan-IsWellFormed (item ∷ xs) s scanning h =
      scan-IsWellFormed xs (visit item xs s) (visit-IsScanning item xs s scanning)
        (visit-IsWellFormed item xs s scanning h)

  pub drain-IsWellFormed : (q : EventQueue P) → IsWellFormed q → IsWellFormed (drain q)
  unfolding drain
  drain-IsWellFormed q h = elim (Bool-cases (ready q)) [
    | inl opened ↦
        rw opened (scan-IsWellFormed q.queued _ (begin-IsScanning q (record { apart = h.apart })) h)
    | inr paused ↦ rw paused h
  ]

  pub schedule_drain-IsWellFormed :
      (q : EventQueue P) → IsWellFormed q → IsWellFormed (schedule_drain q)
  unfolding schedule_drain
  schedule_drain-IsWellFormed q h =
      if_elim IsWellFormed q.drain_scheduled q _ (λ _. h)
        λ _.
          if_elim IsWellFormed q.in_loop _ (drain q)
            (λ _. quiet-IsWellFormed q q.effects q.pause_reasons true h)
            (λ _. drain-IsWellFormed q h)

  pub run_scheduled-IsWellFormed :
      (q : EventQueue P) → IsWellFormed q → IsWellFormed (run_scheduled q)
  unfolding run_scheduled
  run_scheduled-IsWellFormed q h =
      drain-IsWellFormed _ (quiet-IsWellFormed q q.effects q.pause_reasons false h)

  pub pause-IsWellFormed :
      (reason : String) (q : EventQueue P) → IsWellFormed q → IsWellFormed (pause reason q)
  unfolding pause
  pause-IsWellFormed reason q h =
      if_elim IsWellFormed (member reason q.pause_reasons) q _ (λ _. h)
        (λ _. quiet-IsWellFormed q q.effects (reason ∷ q.pause_reasons) q.drain_scheduled h)

  pub resume-IsWellFormed :
      (reason : String) (q : EventQueue P) → IsWellFormed q → IsWellFormed (resume reason q)
  unfolding resume
  resume-IsWellFormed reason q h =
      let left : List String = keep (λ r. not (r == reason)) q.pause_reasons in
      let opened = quiet-IsWellFormed q q.effects left q.drain_scheduled h in
      if_elim IsWellFormed (member reason q.pause_reasons) _ q
        (λ _.
          if_elim IsWellFormed (ready (record q { pause_reasons = left })) _ _
            (λ _. drain-IsWellFormed _ opened) (λ _. opened))
        (λ _. h)
