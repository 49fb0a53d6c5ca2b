-- ===== src/EventQueue/Progress.antt =====
-- Wake-ups of the queue of grix_hermes/event_queue.py: when an event that could start may wait.
pub mod Steps
pub mod Removals
use grix_hermes_python.Prelude.{
  member, ℕ, zero, suc, ◌+◌, ◌≤◌, String, ◌≡◌, ◌≢◌, refl, sym, ap, ◌∙◌, inl, inr, Bool, true, false,
  Option, none, some, List, [], ◌∷◌, ◌++◌, arith, ◌==◌, not, eq_iff, eq_refl, count, keep, one_if,
  keep-append, append-nil, Bool-cases, Option-cases, if_elim, ◌&&◌, ◌||◌, ltb, if◌then◌else◌,
  length, length-keep,
}
use grix_hermes_python.Prelude.Dict.{has}
use grix_hermes_python.EventQueue.State.{
  QueueItem, EventQueue, Effect, EventQueueConfig, has_id, in_group, in_session, find_item,
  update_item, put_item, call, new,
}
use grix_hermes_python.EventQueue.Items.{keep-update_other, put_item_new, count_of_find-none}
use grix_hermes_python.EventQueue.Query.{is_running, is_queued, group_busy}
use grix_hermes_python.EventQueue.Lanes.{Lane, lane, drain_lane}
use grix_hermes_python.EventQueue.Lanes.Refine.{HasIdsApart, lane-drain}
use grix_hermes_python.EventQueue.Drain.{
  ready, drain, schedule_drain, run_scheduled, pause, resume, start,
}
use grix_hermes_python.EventQueue.Invariant.{IsWellFormed, quiet-IsWellFormed}

module _ {P : Type 0} where
  -- A free lane whose first event is not held.
  abbrev pub can_start : List (QueueItem P) → List (QueueItem P) → Bool
  can_start [] (item ∷ rest) = not item.held
  can_start _ _ = false

  abbrev pub can_start_in : String → EventQueue P → Bool
  can_start_in g q = can_start (keep (in_group g) q.running) (keep (in_group g) q.queued)

-- No lane can start, unless a reason pauses the queue or a drain is on its way.
pub record IsSettled {P : Type 0} (q : EventQueue P) : Type 0 where
  pub at : ready q ≡ true → q.drain_scheduled ≡ false → (g : String) → can_start_in g q ≡ false

module _ {P : Type 0} where
  pub drained : (l : Lane P) → can_start (drain_lane l).running (drain_lane l).queued ≡ false
  unfolding drain_lane
  drained l = ground arith

  pub drain-IsSettled : (q : EventQueue P) → IsWellFormed q → IsSettled (drain q)
  drain-IsSettled q h = elim (Bool-cases (ready q)) [
    | inl opened ↦ record {
      at = λ _ _ g.
          ap (λ (l : Lane P). can_start l.running l.queued)
            (lane-drain q g (record { apart = h.apart }) opened)
          ∙ drained (lane g q);
    }
    | inr paused ↦
        let same : drain q ≡ q = unfold drain in rw paused in
        rw same (record { at = λ opened _ g. cc })
  ]

  -- Whatever an operation did before it asked for a drain.
  pub schedule_drain-IsSettled : (q : EventQueue P) → IsWellFormed q → IsSettled (schedule_drain q)
  unfolding schedule_drain
  schedule_drain-IsSettled q h =
      if_elim IsSettled q.drain_scheduled q _ (λ waits. record { at = λ _ idle g. cc })
        λ _.
          if_elim IsSettled q.in_loop _ (drain q) (λ _. record { at = λ _ idle g. cc })
            (λ _. drain-IsSettled q h)

  pub run_scheduled-IsSettled : (q : EventQueue P) → IsWellFormed q → IsSettled (run_scheduled q)
  unfolding run_scheduled
  run_scheduled-IsSettled q h =
      drain-IsSettled _ (quiet-IsWellFormed q q.effects q.pause_reasons false h)

  pub pause-IsSettled : (r : String) (q : EventQueue P) → IsSettled q → IsSettled (pause r q)
  unfolding pause
  pause-IsSettled r q h =
      if_elim IsSettled (member r q.pause_reasons) q _ (λ _. h)
        (λ _. record { at = λ opened _ g. cc opened })

  pub resume-IsSettled :
      (r : String) (q : EventQueue P) → IsWellFormed q → IsSettled q → IsSettled (resume r q)
  unfolding resume
  resume-IsSettled r q h k =
      let left : List String = keep (λ s. not (s == r)) q.pause_reasons in
      if_elim IsSettled (member r q.pause_reasons) _ q
        (λ _.
          if_elim IsSettled (ready (record q { pause_reasons = left })) _ _
            (λ _. drain-IsSettled _ (quiet-IsWellFormed q q.effects left q.drain_scheduled h))
            (λ shut. record { at = λ opened _ g. cc }))
        (λ _. k)
