-- ===== src/EventQueue/Config.antt =====
-- The settings of the queue of grix_hermes/event_queue.py: no call changes them.
use grix_hermes_python.Prelude.{
  ℕ, String, ◌≡◌, refl, ◌∙◌, inl, inr, if_elim, arith, keep, not, ◌==◌, false, List, [], ◌∷◌,
  Option-cases, Bool,
}
use grix_hermes_python.Prelude.Dict.{has}
use grix_hermes_python.EventQueue.State.{
  QueueItem, EventQueue, EventState, Meta, find_item, call, calls, in_session,
}
use grix_hermes_python.EventQueue.Timers.{
  cancel_timeout, cancel_run_timeout, cancel_hold, arm_timeout, arm_run_timeout, arm_hold,
}
use grix_hermes_python.EventQueue.Notify.{notify_positions, notify_item}
use grix_hermes_python.EventQueue.Drain.{
  Scan, start, dispatch, visit, scan, drain, schedule_drain, run_scheduled, pause, resume, ready,
  is_empty,
}
use grix_hermes_python.EventQueue.Hold.{hold, release, edit, hold_expired}
use grix_hermes_python.EventQueue.Submit.{
  enqueue, submit, complete, note_progress, pause_run_timeout, run_timeout_event,
}
use grix_hermes_python.EventQueue.Remove.{
  take_queued, finish_queued, cancel_queued, remove_queued, timeout_event, cancel_each, clear,
  drop_timers, drain_all_queued, destroy,
}
use grix_hermes_python.EventQueue.Reorder.{wished, fill_slots, differs, reorder}
use grix_hermes_python.EventQueue.Step.{Call, step, run}

module _ {P : Type 0} where
  start-config : (item : QueueItem P) (q : EventQueue P) → (start item q).config ≡ q.config
  unfolding start call arm_run_timeout
  start-config item q = ground arith

  visit-config :
      (item : QueueItem P) (rest : List (QueueItem P)) (s : Scan P)
      → (visit item rest s).queue.config ≡ s.queue.config
  unfolding visit dispatch start call arm_run_timeout cancel_timeout cancel_hold notify_positions
      calls
  visit-config item rest s = ground arith

  scan-config :
      (items : List (QueueItem P)) (s : Scan P) → (scan items s).queue.config ≡ s.queue.config
  unfolding scan
  scan-config [] s = refl
  scan-config (item ∷ rest) s = scan-config rest (visit item rest s) ∙ visit-config item rest s

  drain-config : (q : EventQueue P) → (drain q).config ≡ q.config
  unfolding drain
  drain-config q =
      if_elim (λ (r : EventQueue P). r.config ≡ q.config) (ready q) _ q
        (λ _. scan-config q.queued _) (λ _. refl)

  schedule_drain-config : (q : EventQueue P) → (schedule_drain q).config ≡ q.config
  unfolding schedule_drain
  schedule_drain-config q = ground (arith, drain-config q)

  release-config : (e : String) (q : EventQueue P) → (release e q).0.config ≡ q.config
  unfolding release cancel_hold arm_timeout notify_item calls
  release-config e q = elim (Option-cases (find_item e q.queued)) [
    | inl missing ↦ rw (missing, release) refl
    | inr (item, found) ↦
        rw (found, release)
          (if_elim (λ (r : EventQueue P). r.config ≡ q.config) item.held _ _
            (λ _. schedule_drain-config _) (λ _. refl))
  ]

  take_queued-config : (e : String) (q : EventQueue P) → (take_queued e q).0.config ≡ q.config
  unfolding take_queued cancel_hold cancel_timeout
  take_queued-config e q = elim (Option-cases (find_item e q.queued)) [
    | inl missing ↦ rw (missing, take_queued) refl
    | inr (item, found) ↦ rw (found, take_queued) refl
  ]

  finish_queued-config :
      (item : QueueItem P) (state : EventState) (meta : Meta) (q : EventQueue P)
      → (finish_queued item state meta q).config ≡ q.config
  unfolding finish_queued notify_positions calls call
  finish_queued-config item state meta q = schedule_drain-config _

  cancel_queued-config :
      (e reason : String) (q : EventQueue P) → (cancel_queued e reason q).0.config ≡ q.config
  unfolding cancel_queued
  cancel_queued-config e reason q =
      if_elim (λ (r : EventQueue P × Bool). r.0.config ≡ q.config) q.config.cancelable_queued _ _
        (λ _. elim (Option-cases (take_queued e q).1) [
          | inl missing ↦ rw missing (take_queued-config e q)
          | inr (item, found) ↦ rw found (finish_queued-config item _ _ _ ∙ take_queued-config e q)
        ])
        (λ _. refl)

  remove_queued-config : (e : String) (q : EventQueue P) → (remove_queued e q).0.config ≡ q.config
  unfolding remove_queued notify_positions calls
  remove_queued-config e q = elim (Option-cases (take_queued e q).1) [
    | inl missing ↦ rw (missing, remove_queued) (take_queued-config e q)
    | inr (item, found) ↦
        rw (found, remove_queued) (schedule_drain-config _ ∙ take_queued-config e q)
  ]

  timeout_event-config : (e : String) (q : EventQueue P) → (timeout_event e q).config ≡ q.config
  unfolding timeout_event cancel_timeout
  timeout_event-config e q = elim (Option-cases (take_queued e (cancel_timeout e q)).1) [
    | inl missing ↦ rw (missing, timeout_event) (take_queued-config e _)
    | inr (item, found) ↦
        rw (found, timeout_event) (finish_queued-config item _ _ _ ∙ take_queued-config e _)
  ]

  cancel_each-config :
      (reason : String) (items : List (QueueItem P)) (q : EventQueue P)
      → (cancel_each reason items q).config ≡ q.config
  unfolding cancel_each call cancel_hold cancel_timeout
  cancel_each-config reason [] q = refl
  cancel_each-config reason (item ∷ rest) q = cancel_each-config reason rest _

  drop_timers-config :
      (items : List (QueueItem P)) (q : EventQueue P) → (drop_timers items q).config ≡ q.config
  unfolding drop_timers cancel_hold cancel_timeout
  drop_timers-config [] q = refl
  drop_timers-config (item ∷ rest) q = drop_timers-config rest _

  clear-config :
      (session owner reason : String) (q : EventQueue P)
      → (clear session owner reason q).0.config ≡ q.config
  unfolding clear
  clear-config session owner reason q =
      let cleared = keep (in_session session owner) q.queued in
      let remaining = keep (λ item. not (in_session session owner item)) q.queued in
      let emptied = cancel_each reason cleared (record q { queued = remaining }) in
      let kept = cancel_each-config reason cleared (record q { queued = remaining }) in
      if_elim (λ (r : EventQueue P). r.config ≡ q.config) (is_empty cleared) emptied
        (schedule_drain emptied) (λ _. kept) (λ _. schedule_drain-config emptied ∙ kept)

  reorder-config :
      (session : String) (ids : List String) (owner : String) (q : EventQueue P)
      → (reorder session ids owner q).0.config ≡ q.config
  unfolding reorder notify_positions calls
  reorder-config session ids owner q =
      let session_items = keep (in_session session owner) q.queued in
      let reordered = wished ids session_items in
      let moved = record q { queued = fill_slots (in_session session owner) q.queued reordered } in
      if_elim (λ (r : EventQueue P × List String). r.0.config ≡ q.config) (is_empty session_items)
        (q, []) _ (λ _. refl)
        (λ _.
          if_elim (λ (r : EventQueue P). r.config ≡ q.config) (differs reordered session_items)
            (schedule_drain (notify_positions session owner moved)) q
            (λ _. schedule_drain-config (notify_positions session owner moved)) (λ _. refl))

  submit-config : (item : QueueItem P) (q : EventQueue P) → (submit item q).0.config ≡ q.config
  unfolding submit enqueue call arm_timeout start arm_run_timeout
  submit-config item q = ground arith

  hold-config :
      (e reason : String) (ttl_ms : ℕ) (q : EventQueue P)
      → (hold e reason ttl_ms q).0.config ≡ q.config
  unfolding hold arm_hold cancel_hold cancel_timeout notify_item calls
  hold-config e reason ttl_ms q = elim (Option-cases (find_item e q.queued)) [
    | inl missing ↦ rw (missing, hold) refl
    | inr (item, found) ↦ rw (found, hold) refl
  ]

  edit-config : (e text : String) (q : EventQueue P) → (edit e text q).0.config ≡ q.config
  unfolding edit
  edit-config e text q = elim (Option-cases (find_item e q.queued)) [
    | inl missing ↦ rw (missing, edit) refl
    | inr (item, found) ↦ rw (found, edit) (release-config e _)
  ]

  complete-config : (e : String) (q : EventQueue P) → (complete e q).config ≡ q.config
  unfolding complete cancel_run_timeout cancel_timeout
  complete-config e q = schedule_drain-config _

  note_progress-config : (e : String) (q : EventQueue P) → (note_progress e q).config ≡ q.config
  unfolding note_progress arm_run_timeout
  note_progress-config e q = elim (Option-cases (find_item e q.running)) [
    | inl missing ↦ rw (missing, note_progress) refl
    | inr (item, found) ↦ rw (found, note_progress) refl
  ]

  run_timeout_event-config :
      (e : String) (q : EventQueue P) → (run_timeout_event e q).config ≡ q.config
  unfolding run_timeout_event cancel_run_timeout call
  run_timeout_event-config e q = elim (Option-cases (find_item e q.running)) [
    | inl missing ↦ rw (missing, run_timeout_event) refl
    | inr (item, found) ↦ rw (found, run_timeout_event) (schedule_drain-config _)
  ]

  step-config : (c : Call P) (q : EventQueue P) → (step c q).config ≡ q.config
  unfolding step drain_all_queued destroy pause resume run_scheduled hold_expired cancel_hold
      pause_run_timeout cancel_run_timeout
  step-config (Call.submit item) q = submit-config item q
  step-config (Call.complete e) q = complete-config e q
  step-config (Call.note_progress e) q = note_progress-config e q
  step-config (Call.pause_run_timeout e) q = ground arith
  step-config (Call.hold e reason ttl_ms) q = hold-config e reason ttl_ms q
  step-config (Call.release e) q = release-config e q
  step-config (Call.edit e text) q = edit-config e text q
  step-config (Call.cancel_queued e reason) q = cancel_queued-config e reason q
  step-config (Call.remove_queued e) q = remove_queued-config e q
  step-config (Call.clear session owner reason) q = clear-config session owner reason q
  step-config (Call.reorder session ids owner) q = reorder-config session ids owner q
  step-config Call.drain_all_queued q = drop_timers-config q.queued (record q { queued = [] })
  step-config Call.destroy q = refl
  step-config (Call.pause reason) q = ground arith
  step-config (Call.resume reason) q =
      let opened = record q { pause_reasons = keep (λ r. not (r == reason)) q.pause_reasons } in
      ground (arith, drain-config opened)
  step-config (Call.queue_timer e) q = ground (arith, timeout_event-config e q)
  step-config (Call.run_timer e) q = ground (arith, run_timeout_event-config e q)
  step-config (Call.hold_timer e) q =
      if_elim (λ (r : EventQueue P). r.config ≡ q.config) (has e q.hold_handles) (hold_expired e q)
        q (λ _. release-config e (cancel_hold e q)) (λ _. refl)
  step-config Call.tick q =
      if_elim (λ (r : EventQueue P). r.config ≡ q.config) q.drain_scheduled (run_scheduled q) q
        (λ _. drain-config (record q { drain_scheduled = false })) (λ _. refl)

  pub run-config : (cs : List (Call P)) (q : EventQueue P) → (run cs q).config ≡ q.config
  unfolding run
  run-config [] q = refl
  run-config (c ∷ cs) q = run-config cs (step c q) ∙ step-config c q
