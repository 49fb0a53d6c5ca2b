-- ===== src/EventQueue/Drain.antt =====
-- How grix_hermes/event_queue.py gives free slots to queued events: `_start`, `_drain`,
-- `_schedule_drain`, and the gate of pause reasons.
use grix_hermes_python.Prelude.{
  member, String, Bool, true, false, List, [], ◌∷◌, ◌++◌, map, ◌==◌, keep, not, if◌then◌else◌,
}
use grix_hermes_python.EventQueue.State.{
  QueueItem, EventQueue, EventState, Meta, Effect, call, put_item,
}
use grix_hermes_python.EventQueue.Timers.{cancel_timeout, cancel_hold, arm_run_timeout}
use grix_hermes_python.EventQueue.Notify.{notify_positions}

abbrev pub is_empty {ℓ} : {A : Type ℓ} → List A → Bool
is_empty [] = true
is_empty (x ∷ xs) = false

-- Where the loop of `_drain` stands: the items before the index, and the groups it has seen busy.
pub record Scan (P : Type 0) : Type 0 where
  pub queue : EventQueue P
  pub busy_groups : List String
  pub passed : List (QueueItem P)

module _ {P : Type 0} where
  abbrev pub ready : EventQueue P → Bool
  ready q = is_empty q.pause_reasons

  unfoldable pub start : QueueItem P → EventQueue P → EventQueue P
  unfolding call arm_run_timeout
  start item q = call (Effect.deliver item) (
      arm_run_timeout item (
        call (Effect.state_change item EventState.running Meta.bare)
          (record q { running = put_item item q.running })))

  -- The body of the loop after its tests: the item leaves the queue and starts.
  unfoldable pub dispatch : QueueItem P → List (QueueItem P) → EventQueue P → EventQueue P
  unfolding start cancel_timeout cancel_hold notify_positions
  dispatch item others q = notify_positions item.session_id item.owner_key (
      start item
        (cancel_hold item.event_id (cancel_timeout item.event_id (record q { queued = others }))))

  -- One round of the loop at `item`, behind which `rest` is queued.
  unfoldable pub visit : QueueItem P → List (QueueItem P) → Scan P → Scan P
  unfolding member
  visit item rest s =
      if member item.group_key s.busy_groups
      then record s { passed = s.passed ++ item ∷ [] }
      else if item.held
      then record s { busy_groups = item.group_key ∷ s.busy_groups; passed = s.passed ++ item ∷ [] }
      else record s {
        queue = dispatch item (s.passed ++ rest) s.queue;
        busy_groups = item.group_key ∷ s.busy_groups;
      }

  -- The loop: the list is what is queued from the index on.
  unfoldable pub scan : List (QueueItem P) → Scan P → Scan P
  scan [] s = s
  scan (item ∷ rest) s = scan rest (visit item rest s)

  abbrev pub groups_of : List (QueueItem P) → List String
  groups_of = map (λ item. item.group_key)

  unfoldable pub drain : EventQueue P → EventQueue P
  drain q =
      if ready q
      then (scan q.queued
          (record { queue = q; busy_groups = groups_of q.running; passed = [] })).queue
      else q

  unfoldable pub schedule_drain : EventQueue P → EventQueue P
  schedule_drain q =
      if q.drain_scheduled
      then q
      else if q.in_loop
      then record q { drain_scheduled = true }
      else drain q

  -- The callback that `_schedule_drain` gives to `loop.call_soon`.
  unfoldable pub run_scheduled : EventQueue P → EventQueue P
  run_scheduled q = drain (record q { drain_scheduled = false })

  -- `self._pause_reasons.add(reason)`
  unfoldable pub pause : String → EventQueue P → EventQueue P
  pause reason q =
      if member reason q.pause_reasons
      then q
      else record q { pause_reasons = reason ∷ q.pause_reasons }

  unfoldable pub resume : String → EventQueue P → EventQueue P
  resume reason q =
      let opened = record q { pause_reasons = keep (λ r. not (r == reason)) q.pause_reasons } in
      if member reason q.pause_reasons then (if ready opened then drain opened else opened) else q
