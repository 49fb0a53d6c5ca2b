-- ===== src/EventQueue/Submit.antt =====
-- `submit`, `complete`, progress and the timers' callbacks of grix_hermes/event_queue.py.
use grix_hermes_python.Prelude.{
  ℕ, ◌+◌, ◌/◌, ◌%◌, String, Bool, none, some, [], ◌∷◌, ◌++◌, ◌&&◌, ◌||◌, max, not, leb, ltb, nat_eq,
  count, if◌then◌else◌,
}
use grix_hermes_python.EventQueue.State.{
  QueueItem, EventQueue, EventState, Meta, Effect, call, find_item, remove_item, in_group,
  in_session,
}
use grix_hermes_python.EventQueue.Query.{is_running, is_queued, group_busy}
use grix_hermes_python.EventQueue.Timers.{
  cancel_timeout, cancel_run_timeout, arm_timeout, arm_run_timeout,
}
use grix_hermes_python.EventQueue.Drain.{ready, start, schedule_drain}

-- SUBMIT_RUNNING, SUBMIT_QUEUED, SUBMIT_REJECTED
pub data SubmitResult : Type 0 where
  running queued rejected : SubmitResult

-- `max(1, round(ms / 60_000))`, where `round` takes a half to the even neighbour.
unfoldable pub timeout_minutes : ℕ → ℕ
timeout_minutes ms =
    let whole = ms / 60_000 in
    let part = ms % 60_000 in
    max 1
      (if ltb part 30_000 then whole else if ltb 30_000 part then whole + 1 else whole + whole % 2)

module _ {P : Type 0} where
  -- The test by which a full group refuses an event.
  unfoldable pub is_full : QueueItem P → EventQueue P → Bool
  is_full item q =
      nat_eq q.config.max_queued 0
      || leb q.config.max_queued (count (in_group item.group_key) q.queued)

  -- The event joins the end of the queue.
  unfoldable pub enqueue : QueueItem P → EventQueue P → EventQueue P
  enqueue item q =
      let joined = record q { queued = q.queued ++ item ∷ [] } in
      let session_total = count (in_session item.session_id item.owner_key) joined.queued in
      arm_timeout item (
        call
          (Effect.state_change item EventState.queued (Meta.position session_total session_total))
          joined)

  unfoldable pub submit : QueueItem P → EventQueue P → EventQueue P × SubmitResult
  submit item q =
      if is_running item.event_id q || is_queued item.event_id q
      then (q, SubmitResult.queued)
      else if ready q && not (group_busy item.group_key q)
      then (start item q, SubmitResult.running)
      else if is_full item q
      then (
        call (Effect.state_change item EventState.failed (Meta.reason "queue full")) q,
        SubmitResult.rejected,
      )
      else (enqueue item q, SubmitResult.queued)

  unfoldable pub complete : String → EventQueue P → EventQueue P
  complete event_id q = schedule_drain (
      cancel_run_timeout event_id
        (cancel_timeout event_id (record q { running = remove_item event_id q.running })))

  unfoldable pub note_progress : String → EventQueue P → EventQueue P
  note_progress event_id q = elim (find_item event_id q.running) [
    | none ↦ q
    | some item ↦ arm_run_timeout item q
  ]

  unfoldable pub pause_run_timeout : String → EventQueue P → EventQueue P
  pause_run_timeout event_id q = if is_running event_id q then cancel_run_timeout event_id q else q

  -- The callback of the run timeout.
  unfoldable pub run_timeout_event : String → EventQueue P → EventQueue P
  run_timeout_event event_id q = elim (find_item event_id q.running) [
    | none ↦ cancel_run_timeout event_id q
    | some item ↦ schedule_drain (
        call
          (Effect.state_change item EventState.failed
            (Meta.no_progress_within (timeout_minutes q.config.run_timeout_ms)))
          (record (cancel_run_timeout event_id q) { running = remove_item event_id q.running }))
  ]
