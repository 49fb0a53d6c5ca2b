-- ===== src/EventQueue/Step.antt =====
-- What may happen to a queue of grix_hermes/event_queue.py: the calls of its user, the timers, and
-- the drain that waits for the next tick of the loop.
use grix_hermes_python.Prelude.{ℕ, String, ◌≡◌, false, List, [], ◌∷◌, if◌then◌else◌}
use grix_hermes_python.Prelude.Dict.{has}
use grix_hermes_python.EventQueue.State.{QueueItem, EventQueue}
use grix_hermes_python.EventQueue.Drain
use grix_hermes_python.EventQueue.Hold
use grix_hermes_python.EventQueue.Submit
use grix_hermes_python.EventQueue.Remove
use grix_hermes_python.EventQueue.Reorder

pub data Call (P : Type 0) : Type 0 where
  submit : QueueItem P → Call P
  complete : String → Call P
  note_progress : String → Call P
  pause_run_timeout : String → Call P
  hold : String → String → ℕ → Call P
  release : String → Call P
  edit : String → String → Call P
  cancel_queued : String → String → Call P
  remove_queued : String → Call P
  clear : String → String → String → Call P
  reorder : String → List String → String → Call P
  drain_all_queued : Call P
  destroy : Call P
  pause : String → Call P
  resume : String → Call P
  -- The loop fires a timer, if it is still armed, or the scheduled drain, if there is one.
  queue_timer : String → Call P
  run_timer : String → Call P
  hold_timer : String → Call P
  tick : Call P

module _ {P : Type 0} where
  unfoldable pub step : Call P → EventQueue P → EventQueue P
  unfolding has
  step (Call.submit item) q = (Submit.submit item q).0
  step (Call.complete e) q = Submit.complete e q
  step (Call.note_progress e) q = Submit.note_progress e q
  step (Call.pause_run_timeout e) q = Submit.pause_run_timeout e q
  step (Call.hold e reason ttl_ms) q = (Hold.hold e reason ttl_ms q).0
  step (Call.release e) q = (Hold.release e q).0
  step (Call.edit e text) q = (Hold.edit e text q).0
  step (Call.cancel_queued e reason) q = (Remove.cancel_queued e reason q).0
  step (Call.remove_queued e) q = (Remove.remove_queued e q).0
  step (Call.clear session owner reason) q = (Remove.clear session owner reason q).0
  step (Call.reorder session ids owner) q = (Reorder.reorder session ids owner q).0
  step Call.drain_all_queued q = (Remove.drain_all_queued q).0
  step Call.destroy q = Remove.destroy q
  step (Call.pause reason) q = Drain.pause reason q
  step (Call.resume reason) q = Drain.resume reason q
  step (Call.queue_timer e) q = if has e q.timeout_handles then Remove.timeout_event e q else q
  step (Call.run_timer e) q =
      if has e q.run_timeout_handles then Submit.run_timeout_event e q else q
  step (Call.hold_timer e) q = if has e q.hold_handles then Hold.hold_expired e q else q
  step Call.tick q = if q.drain_scheduled then Drain.run_scheduled q else q

  unfoldable pub run : List (Call P) → EventQueue P → EventQueue P
  run [] q = q
  run (c ∷ cs) q = run cs (step c q)

  -- Events are submitted as `QueueItem` makes them: not held.
  abbrev pub IsFresh : Call P → Type 0
  IsFresh (Call.submit item) = item.held ≡ false
  IsFresh _ = Unit

  abbrev pub AreFresh : List (Call P) → Type 0
  AreFresh [] = Unit
  AreFresh (c ∷ cs) = IsFresh c × AreFresh cs
