-- ===== src/EventQueue/Remove.antt =====
-- How grix_hermes/event_queue.py takes events out of the queue: one by cancel, removal or timeout,
-- a session's by `clear`, all by `drain_all_queued` and `destroy`.
use grix_hermes_python.Prelude.{
  String, Bool, true, false, Option, none, some, List, [], ◌∷◌, not, keep, if◌then◌else◌,
}
use grix_hermes_python.EventQueue.State.{
  QueueItem, EventQueue, EventState, Meta, Effect, call, find_item, remove_item, in_session,
}
use grix_hermes_python.EventQueue.Timers.{cancel_timeout, cancel_hold}
use grix_hermes_python.EventQueue.Notify.{notify_positions}
use grix_hermes_python.EventQueue.Drain.{schedule_drain, is_empty}

module _ {P : Type 0} where
  unfoldable pub take_queued : String → EventQueue P → EventQueue P × Option (QueueItem P)
  take_queued event_id q = elim (find_item event_id q.queued) [
    | none ↦ (q, none)
    | some item ↦ (
      cancel_hold event_id
          (cancel_timeout event_id (record q { queued = remove_item event_id q.queued })),
      some item,
    )
  ]

  -- What `cancel_queued` and the queue timeout do with an item that was taken.
  unfoldable pub finish_queued : QueueItem P → EventState → Meta → EventQueue P → EventQueue P
  finish_queued item state meta q = schedule_drain (
      notify_positions item.session_id item.owner_key
        (call (Effect.state_change item state meta) q))

  unfoldable pub cancel_queued : String → String → EventQueue P → EventQueue P × Bool
  cancel_queued event_id reason q =
      let (taken, found) = take_queued event_id q in
      if q.config.cancelable_queued
      then elim found [
        | none ↦ (taken, false)
        | some item ↦ (finish_queued item EventState.canceled (Meta.reason reason) taken, true)
      ]
      else (q, false)

  unfoldable pub remove_queued : String → EventQueue P → EventQueue P × Option (QueueItem P)
  remove_queued event_id q =
      let (taken, found) = take_queued event_id q in
      elim found [
        | none ↦ (taken, none)
        | some item ↦
            (schedule_drain (notify_positions item.session_id item.owner_key taken), some item)
      ]

  -- The callback of the queue timeout.
  unfoldable pub timeout_event : String → EventQueue P → EventQueue P
  timeout_event event_id q =
      let (taken, found) = take_queued event_id (cancel_timeout event_id q) in
      elim found [
        | none ↦ taken
        | some item ↦ finish_queued item EventState.failed (Meta.reason "queue timeout") taken
      ]

  -- The loop of `clear` over what it took out.
  unfoldable pub cancel_each : String → List (QueueItem P) → EventQueue P → EventQueue P
  cancel_each reason [] q = q
  cancel_each reason (item ∷ rest) q = cancel_each reason rest (
      call (Effect.state_change item EventState.canceled (Meta.reason reason))
        (cancel_hold item.event_id (cancel_timeout item.event_id q)))

  unfoldable pub clear : String → String → String → EventQueue P → EventQueue P × List (QueueItem P)
  clear session_id owner_key reason q =
      let cleared = keep (in_session session_id owner_key) q.queued in
      let remaining = keep (λ item. not (in_session session_id owner_key item)) q.queued in
      let emptied = cancel_each reason cleared (record q { queued = remaining }) in
      (if is_empty cleared then emptied else schedule_drain emptied, cleared)

  -- The loop of `drain_all_queued`.
  unfoldable pub drop_timers : List (QueueItem P) → EventQueue P → EventQueue P
  drop_timers [] q = q
  drop_timers (item ∷ rest) q =
      drop_timers rest (cancel_hold item.event_id (cancel_timeout item.event_id q))

  unfoldable pub drain_all_queued : EventQueue P → EventQueue P × List (QueueItem P)
  drain_all_queued q = (drop_timers q.queued (record q { queued = [] }), q.queued)

  unfoldable pub destroy : EventQueue P → EventQueue P
  destroy q = record q {
    running = [];
    queued = [];
    timeout_handles = [];
    run_timeout_handles = [];
    hold_handles = [];
    pause_reasons = [];
  }
