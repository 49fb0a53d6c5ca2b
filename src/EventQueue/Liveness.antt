-- ===== src/EventQueue/Liveness.antt =====
-- Histories of the queue of grix_hermes/event_queue.py and the events that could start.
use grix_hermes_python.Prelude.{
  String, ◌≡◌, Bool, true, false, List, [], ◌∷◌, if_elim, Bool-cases, inl, inr, ap, ◌∙◌, refl,
}
use grix_hermes_python.Prelude.Dict.{has}
use grix_hermes_python.EventQueue.State.{EventQueue, EventQueueConfig, new}
use grix_hermes_python.EventQueue.Step.{Call, step, run, AreFresh}
use grix_hermes_python.EventQueue.Drain.{ready, run_scheduled}
use grix_hermes_python.EventQueue.Lanes.{Lane, lane}
use grix_hermes_python.EventQueue.Invariant.{IsWellFormed, new-IsWellFormed}
use grix_hermes_python.EventQueue.Safety.{step-IsWellFormed, run-IsWellFormed}
use grix_hermes_python.EventQueue.Progress
use grix_hermes_python.EventQueue.Progress.{
  IsSettled, can_start, can_start_in, run_scheduled-IsSettled, drained,
}
use grix_hermes_python.EventQueue.Lanes.Refine.{lane-drain}
use grix_hermes_python.EventQueue.Progress.Steps
use grix_hermes_python.EventQueue.Progress.Removals

module _ {P : Type 0} where
  pub step-IsSettled :
      (c : Call P) (q : EventQueue P) → IsWellFormed q → IsSettled q → IsSettled (step c q)
  unfolding step
  step-IsSettled (Call.submit item) q h k = Steps.submit-IsSettled item q k
  step-IsSettled (Call.complete e) q h k = Steps.complete-IsSettled e q h
  step-IsSettled (Call.note_progress e) q h k = Steps.note_progress-IsSettled e q k
  step-IsSettled (Call.pause_run_timeout e) q h k = Steps.pause_run_timeout-IsSettled e q k
  step-IsSettled (Call.hold e reason ttl_ms) q h k = Steps.hold-IsSettled e reason ttl_ms q k
  step-IsSettled (Call.release e) q h k = Steps.release-IsSettled e q h k
  step-IsSettled (Call.edit e text) q h k = Steps.edit-IsSettled e text q h k
  step-IsSettled (Call.cancel_queued e reason) q h k =
      Removals.cancel_queued-IsSettled e reason q h k
  step-IsSettled (Call.remove_queued e) q h k = Removals.remove_queued-IsSettled e q h k
  step-IsSettled (Call.clear session owner reason) q h k =
      Removals.clear-IsSettled session owner reason q h k
  step-IsSettled (Call.reorder session ids owner) q h k =
      Removals.reorder-IsSettled session owner ids q h k
  step-IsSettled Call.drain_all_queued q h k = Removals.drain_all_queued-IsSettled q
  step-IsSettled Call.destroy q h k = Removals.destroy-IsSettled q
  step-IsSettled (Call.pause reason) q h k = Progress.pause-IsSettled reason q k
  step-IsSettled (Call.resume reason) q h k = Progress.resume-IsSettled reason q h k
  step-IsSettled (Call.queue_timer e) q h k =
      if_elim IsSettled (has e q.timeout_handles) _ q
        (λ _. Removals.timeout_event-IsSettled e q h k) (λ _. k)
  step-IsSettled (Call.run_timer e) q h k =
      if_elim IsSettled (has e q.run_timeout_handles) _ q
        (λ _. Steps.run_timeout_event-IsSettled e q h k) (λ _. k)
  step-IsSettled (Call.hold_timer e) q h k =
      if_elim IsSettled (has e q.hold_handles) _ q (λ _. Steps.hold_expired-IsSettled e q h k)
        (λ _. k)
  step-IsSettled Call.tick q h k =
      if_elim IsSettled q.drain_scheduled _ q (λ _. run_scheduled-IsSettled q h) (λ _. k)

  -- From a well-formed and settled queue, and so from a new one, every history in which events are
  -- submitted unheld leads to a settled queue: unless a reason pauses it or a drain is scheduled,
  -- no group is free while its first waiting event is not held.
  pub run-IsSettled :
      (cs : List (Call P)) (q : EventQueue P)
      → AreFresh cs
      → IsWellFormed q
      → IsSettled q
      → IsSettled (run cs q)
  unfolding run
  run-IsSettled [] q fresh h k = k
  run-IsSettled (c ∷ cs) q fresh h k =
      run-IsSettled cs (step c q) fresh.1 (step-IsWellFormed c q fresh.0 h) (step-IsSettled c q h k)

  pub new-IsSettled :
      (config : EventQueueConfig) (in_loop : Bool) → IsSettled (new {P = P} config in_loop)
  new-IsSettled config in_loop = record { at = λ opened idle g. refl }

  tick_settles :
      (q : EventQueue P) (g : String)
      → IsWellFormed q
      → IsSettled q
      → ready q ≡ true
      → can_start_in g (step Call.tick q) ≡ false
  unfolding step run_scheduled
  tick_settles q g h k opened = elim (Bool-cases q.drain_scheduled) [
    | inl waits ↦ simp waits (
        ap (λ (l : Lane P). can_start l.running l.queued)
          (lane-drain (record q { drain_scheduled = false }) g (record { apart = h.apart }) opened)
        ∙ drained (lane g q))
    | inr idle ↦ simp idle (k.at opened idle g)
  ]

  -- After any history from a new queue in which events are submitted unheld, and which leaves no
  -- reason to pause, the next tick of the loop leaves no group free while its first waiting event
  -- is not held.
  pub tick_starts :
      (config : EventQueueConfig) (in_loop : Bool) (cs : List (Call P)) (g : String)
      → AreFresh cs
      → ready (run cs (new config in_loop)) ≡ true
      → can_start_in g (step Call.tick (run cs (new config in_loop))) ≡ false
  tick_starts config in_loop cs g fresh opened =
      let begun = new-IsWellFormed config in_loop in
      tick_settles (run cs (new config in_loop)) g
        (run-IsWellFormed cs (new config in_loop) fresh begun)
        (run-IsSettled cs (new config in_loop) fresh begun (new-IsSettled config in_loop)) opened
