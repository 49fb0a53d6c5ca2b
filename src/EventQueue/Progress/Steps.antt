-- ===== src/EventQueue/Progress/Steps.antt =====
-- Each operation of grix_hermes/event_queue.py and settled queues.
use grix_hermes_python.Prelude.{
  ℕ, String, ◌≡◌, refl, inl, inr, Bool, true, false, List, [], ◌∷◌, arith, not, eq_iff, count, keep,
  keep-append, append-nil, Bool-cases, Option-cases, if_elim, ◌&&◌, ◌||◌, length, length-keep,
  length-append, ◌<◌,
}
use grix_hermes_python.EventQueue.State.{
  QueueItem, EventQueue, has_id, in_group, find_item, update_item, call,
}
use grix_hermes_python.EventQueue.Items.{put_item_new}
use grix_hermes_python.EventQueue.Query.{is_running, is_queued, group_busy}
use grix_hermes_python.EventQueue.Drain.{ready, start}
use grix_hermes_python.EventQueue.Invariant.{IsWellFormed, quiet-IsWellFormed}
use grix_hermes_python.EventQueue.Notify.{notify_item}
use grix_hermes_python.EventQueue.Timers.{
  cancel_timeout, cancel_hold, cancel_run_timeout, arm_timeout, arm_run_timeout, arm_hold,
}
use grix_hermes_python.EventQueue.Hold.{hold, release, edit, hold_expired, held_for, with_text}
use grix_hermes_python.EventQueue.Submit.{
  SubmitResult, submit, enqueue, is_full, complete, note_progress, pause_run_timeout,
  run_timeout_event,
}
use grix_hermes_python.EventQueue.Progress.{IsSettled, can_start, schedule_drain-IsSettled}
use grix_hermes_python.EventQueue.Invariant.Hold.{
  cancel_hold-IsWellFormed, released-IsWellFormed, retexted-IsWellFormed,
}
use grix_hermes_python.EventQueue.Invariant.Submit.{
  absent_of_test, finished-IsWellFormed, cancel_timeout-IsWellFormed,
}

module _ {P : Type 0} where
  -- A change of an item that keeps its group, and leaves it held if it was, starts nothing.
  can_start-update :
      (p : QueueItem P → Bool) (f : QueueItem P → QueueItem P)
      → ((i : QueueItem P) → p (f i) ≡ p i)
      → ((i : QueueItem P) → i.held ≡ true → (f i).held ≡ true)
      → (e : String) (running xs : List (QueueItem P)) → can_start running (keep p xs) ≡ false
      → can_start running (keep p (update_item e f xs)) ≡ false
  unfolding update_item
  can_start-update p f same held e running [] h = h
  can_start-update p f same held e running (x ∷ xs) h =
      ground (arith, same x, held x, can_start-update p f same held e running xs)

  busy_lane :
      (running queued : List (QueueItem P)) → 0 < length running → can_start running queued ≡ false
  busy_lane [] queued h = absurd (omega arith)
  busy_lane (r ∷ running) queued h = refl

  start-IsSettled :
      (item : QueueItem P) (q : EventQueue P)
      → count (has_id item.event_id) q.running ≡ 0
      → IsSettled q
      → IsSettled (start item q)
  unfolding start
  start-IsSettled item q alone h = record {
    at = λ opened idle g.
        rw (put_item_new item q.running alone, keep-append (in_group g) q.running (item ∷ []))
          (elim (Bool-cases (in_group g item)) [
            | inl own ↦ rw own (
                busy_lane _ _
                  (omega (arith, length-append (keep (in_group g) q.running) (item ∷ []))))
            | inr other ↦ rw (other, append-nil (keep (in_group g) q.running)) (h.at opened idle g)
          ]);
  }

  enqueue-IsSettled :
      (item : QueueItem P) (q : EventQueue P)
      → ready q && not (group_busy item.group_key q) ≡ false
      → IsSettled q
      → IsSettled (enqueue item q)
  unfolding enqueue call arm_timeout group_busy
  enqueue-IsSettled item q waits h = record {
    at = λ opened idle g.
        rw (keep-append (in_group g) q.queued (item ∷ [])) (elim (Bool-cases (in_group g item)) [
          | inl own ↦ busy_lane _ _ (
              ground (
                arith,
                length-keep (in_group g) q.running,
                (eq_iff item.group_key g).0 own,
                waits,
                opened,
              ))
          | inr other ↦ rw (other, append-nil (keep (in_group g) q.queued)) (h.at opened idle g)
        ]);
  }

  pub submit-IsSettled :
      (item : QueueItem P) (q : EventQueue P) → IsSettled q → IsSettled (submit item q).0
  unfolding submit is_running call
  submit-IsSettled item q h =
      if_elim (λ (r : EventQueue P × SubmitResult). IsSettled r.0)
        (is_running item.event_id q || is_queued item.event_id q) _ _ (λ _. h)
        λ new.
          if_elim (λ (r : EventQueue P × SubmitResult). IsSettled r.0)
            (ready q && not (group_busy item.group_key q)) _ _
            (λ _. start-IsSettled item q (absent_of_test item.event_id q.running (ground arith)) h)
            λ waits.
              if_elim (λ (r : EventQueue P × SubmitResult). IsSettled r.0) (is_full item q) _ _
                (λ _. record { at = h.at }) (λ _. enqueue-IsSettled item q waits h)

  pub note_progress-IsSettled :
      (e : String) (q : EventQueue P) → IsSettled q → IsSettled (note_progress e q)
  unfolding note_progress arm_run_timeout
  note_progress-IsSettled e q h = elim (Option-cases (find_item e q.running)) [
    | inl missing ↦ rw (missing, note_progress) h
    | inr (item, found) ↦ rw (found, note_progress) (record { at = h.at })
  ]

  pub pause_run_timeout-IsSettled :
      (e : String) (q : EventQueue P) → IsSettled q → IsSettled (pause_run_timeout e q)
  unfolding pause_run_timeout cancel_run_timeout
  pause_run_timeout-IsSettled e q h =
      if_elim IsSettled (is_running e q) _ q (λ _. record { at = h.at }) (λ _. h)

  pub hold-IsSettled :
      (e reason : String) (ttl_ms : ℕ) (q : EventQueue P)
      → IsSettled q
      → IsSettled (hold e reason ttl_ms q).0
  unfolding hold notify_item arm_hold cancel_hold cancel_timeout
  hold-IsSettled e reason ttl_ms q h = elim (Option-cases (find_item e q.queued)) [
    | inl missing ↦ rw (missing, hold) h
    | inr (item, found) ↦
        rw (found, hold)
          (record {
            at = λ opened idle g.
                can_start-update (in_group g) (held_for reason) (λ i. refl) (λ i _. refl) e
                  (keep (in_group g) q.running) q.queued (h.at opened idle g);
          })
  ]

  pub release-IsSettled :
      (e : String) (q : EventQueue P) → IsWellFormed q → IsSettled q → IsSettled (release e q).0
  unfolding release notify_item arm_timeout cancel_hold
  release-IsSettled e q h k = elim (Option-cases (find_item e q.queued)) [
    | inl missing ↦ rw (missing, release) k
    | inr (item, found) ↦
        rw (found, release)
          (if_elim IsSettled item.held _ (cancel_hold e q)
            (λ held.
              schedule_drain-IsSettled _
                (quiet-IsWellFormed _ _ _ _ (released-IsWellFormed e q item found held h)))
            (λ _. record { at = k.at }))
  ]

  pub edit-IsSettled :
      (e text : String) (q : EventQueue P)
      → IsWellFormed q
      → IsSettled q
      → IsSettled (edit e text q).0
  unfolding edit
  edit-IsSettled e text q h k = elim (Option-cases (find_item e q.queued)) [
    | inl missing ↦ rw (missing, edit) k
    | inr (item, found) ↦
        rw (found, edit)
          (release-IsSettled e _ (retexted-IsWellFormed e text q item found h) (record {
            at = λ opened idle g.
                can_start-update (in_group g) (with_text text) (λ i. refl) (λ i held. held) e
                  (keep (in_group g) q.running) q.queued (k.at opened idle g);
          }))
  ]

  pub hold_expired-IsSettled :
      (e : String) (q : EventQueue P) → IsWellFormed q → IsSettled q → IsSettled (hold_expired e q)
  unfolding hold_expired cancel_hold
  hold_expired-IsSettled e q h k =
      release-IsSettled e _ (cancel_hold-IsWellFormed e q h) (record { at = k.at })

  pub complete-IsSettled :
      (e : String) (q : EventQueue P) → IsWellFormed q → IsSettled (complete e q)
  unfolding complete cancel_run_timeout cancel_timeout
  complete-IsSettled e q h =
      schedule_drain-IsSettled _ (cancel_timeout-IsWellFormed e _ (finished-IsWellFormed e q h))

  pub run_timeout_event-IsSettled :
      (e : String) (q : EventQueue P)
      → IsWellFormed q
      → IsSettled q
      → IsSettled (run_timeout_event e q)
  unfolding run_timeout_event cancel_run_timeout call
  run_timeout_event-IsSettled e q h k = elim (Option-cases (find_item e q.running)) [
    | inl missing ↦ rw (missing, run_timeout_event) (record { at = k.at })
    | inr (item, found) ↦
        rw (found, run_timeout_event)
          (schedule_drain-IsSettled _ (quiet-IsWellFormed _ _ _ _ (finished-IsWellFormed e q h)))
  ]
