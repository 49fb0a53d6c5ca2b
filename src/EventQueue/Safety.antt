-- ===== src/EventQueue/Safety.antt =====
-- Histories of the queue of grix_hermes/event_queue.py and its well-formedness.
use grix_hermes_python.Prelude.{List, [], ◌∷◌, if_elim}
use grix_hermes_python.Prelude.Dict.{has}
use grix_hermes_python.EventQueue.State.{EventQueue}
use grix_hermes_python.EventQueue.Step.{Call, step, run, IsFresh, AreFresh}
use grix_hermes_python.EventQueue.Invariant.{IsWellFormed}
use grix_hermes_python.EventQueue.Invariant.Drain
use grix_hermes_python.EventQueue.Invariant.Hold
use grix_hermes_python.EventQueue.Invariant.Submit
use grix_hermes_python.EventQueue.Invariant.Remove
use grix_hermes_python.EventQueue.Invariant.Reorder

module _ {P : Type 0} where
  pub step-IsWellFormed :
      (c : Call P) (q : EventQueue P) → IsFresh c → IsWellFormed q → IsWellFormed (step c q)
  unfolding step
  step-IsWellFormed (Call.submit item) q fresh h = Submit.submit-IsWellFormed item q fresh h
  step-IsWellFormed (Call.complete e) q fresh h = Submit.complete-IsWellFormed e q h
  step-IsWellFormed (Call.note_progress e) q fresh h = Submit.note_progress-IsWellFormed e q h
  step-IsWellFormed (Call.pause_run_timeout e) q fresh h =
      Submit.pause_run_timeout-IsWellFormed e q h
  step-IsWellFormed (Call.hold e reason ttl_ms) q fresh h =
      Hold.hold-IsWellFormed e reason ttl_ms q h
  step-IsWellFormed (Call.release e) q fresh h = Hold.release-IsWellFormed e q h
  step-IsWellFormed (Call.edit e text) q fresh h = Hold.edit-IsWellFormed e text q h
  step-IsWellFormed (Call.cancel_queued e reason) q fresh h =
      Remove.cancel_queued-IsWellFormed e reason q h
  step-IsWellFormed (Call.remove_queued e) q fresh h = Remove.remove_queued-IsWellFormed e q h
  step-IsWellFormed (Call.clear session owner reason) q fresh h =
      Remove.clear-IsWellFormed session owner reason q h
  step-IsWellFormed (Call.reorder session ids owner) q fresh h =
      Reorder.reorder-IsWellFormed session owner ids q h
  step-IsWellFormed Call.drain_all_queued q fresh h = Remove.drain_all_queued-IsWellFormed q h
  step-IsWellFormed Call.destroy q fresh h = Remove.destroy-IsWellFormed q
  step-IsWellFormed (Call.pause reason) q fresh h = Drain.pause-IsWellFormed reason q h
  step-IsWellFormed (Call.resume reason) q fresh h = Drain.resume-IsWellFormed reason q h
  step-IsWellFormed (Call.queue_timer e) q fresh h =
      if_elim IsWellFormed (has e q.timeout_handles) _ q
        (λ _. Remove.timeout_event-IsWellFormed e q h) (λ _. h)
  step-IsWellFormed (Call.run_timer e) q fresh h =
      if_elim IsWellFormed (has e q.run_timeout_handles) _ q
        (λ _. Submit.run_timeout_event-IsWellFormed e q h) (λ _. h)
  step-IsWellFormed (Call.hold_timer e) q fresh h =
      if_elim IsWellFormed (has e q.hold_handles) _ q (λ _. Hold.hold_expired-IsWellFormed e q h)
        (λ _. h)
  step-IsWellFormed Call.tick q fresh h =
      if_elim IsWellFormed q.drain_scheduled _ q (λ _. Drain.run_scheduled-IsWellFormed q h)
        (λ _. h)

  -- From a well-formed queue, and so from a new one, every history of calls, timers and ticks in
  -- which events are submitted unheld leads to a well-formed queue: ids are distinct, a group runs
  -- one event at most and has no more than `max_queued` waiting, and every armed timer belongs to
  -- an event that it concerns.
  pub run-IsWellFormed :
      (cs : List (Call P)) (q : EventQueue P)
      → AreFresh cs
      → IsWellFormed q
      → IsWellFormed (run cs q)
  unfolding run
  run-IsWellFormed [] q fresh h = h
  run-IsWellFormed (c ∷ cs) q fresh h =
      run-IsWellFormed cs (step c q) fresh.1 (step-IsWellFormed c q fresh.0 h)
