-- ===== src/EventQueue/Progress/Removals.antt =====
-- Each removal and reordering of grix_hermes/event_queue.py and settled queues.
use grix_hermes_python.Prelude.{
  String, ◌≡◌, refl, inl, inr, Bool, true, false, none, List, [], ◌∷◌, arith, not, keep,
  Option-cases, if_elim,
}
use grix_hermes_python.EventQueue.State.{QueueItem, EventQueue, in_session, find_item, call}
use grix_hermes_python.EventQueue.Invariant.{IsWellFormed, quiet-IsWellFormed}
use grix_hermes_python.EventQueue.Notify.{notify_positions}
use grix_hermes_python.EventQueue.Timers.{cancel_timeout, cancel_hold}
use grix_hermes_python.EventQueue.Progress.{IsSettled, can_start, schedule_drain-IsSettled}
use grix_hermes_python.EventQueue.State.{EventState, Meta}
use grix_hermes_python.EventQueue.Drain.{is_empty}
use grix_hermes_python.EventQueue.Remove.{
  take_queued, finish_queued, cancel_queued, remove_queued, timeout_event, cancel_each, clear,
  drop_timers, drain_all_queued, destroy,
}
use grix_hermes_python.EventQueue.Reorder.{wished, differs, reorder}
use grix_hermes_python.EventQueue.Invariant.Remove.{
  take_queued-IsWellFormed, cancel_each-IsWellFormed, emptied-IsLeaving,
}
use grix_hermes_python.EventQueue.Invariant.Reorder.{recounted-IsWellFormed, count-reordered}
use grix_hermes_python.EventQueue.Invariant.Submit.{cancel_timeout-IsWellFormed}

module _ {P : Type 0} where
  taken_or_same :
      (e : String) (q : EventQueue P) → (take_queued e q).1 ≡ none → (take_queued e q).0 ≡ q
  unfolding take_queued
  taken_or_same e q h = elim (Option-cases (find_item e q.queued)) [
    | inl missing ↦ rw (missing, take_queued)
    | inr (item, found) ↦ cc (rw (found, take_queued) at h)
  ]

  finish_queued-IsSettled :
      (item : QueueItem P) (state : EventState) (meta : Meta) (q : EventQueue P)
      → IsWellFormed q
      → IsSettled (finish_queued item state meta q)
  unfolding finish_queued notify_positions call
  finish_queued-IsSettled item state meta q h =
      schedule_drain-IsSettled _ (quiet-IsWellFormed q _ _ _ h)

  pub cancel_queued-IsSettled :
      (e reason : String) (q : EventQueue P)
      → IsWellFormed q
      → IsSettled q
      → IsSettled (cancel_queued e reason q).0
  unfolding cancel_queued
  cancel_queued-IsSettled e reason q h k =
      if_elim (λ (r : EventQueue P × Bool). IsSettled r.0) q.config.cancelable_queued _ _
        (λ _. elim (Option-cases (take_queued e q).1) [
          | inl missing ↦ rw (missing, taken_or_same e q missing) k
          | inr (item, found) ↦
              rw found (finish_queued-IsSettled item _ _ _ (take_queued-IsWellFormed e q h))
        ])
        (λ _. k)

  pub remove_queued-IsSettled :
      (e : String) (q : EventQueue P)
      → IsWellFormed q
      → IsSettled q
      → IsSettled (remove_queued e q).0
  unfolding remove_queued notify_positions
  remove_queued-IsSettled e q h k = elim (Option-cases (take_queued e q).1) [
    | inl missing ↦ rw (missing, remove_queued, taken_or_same e q missing) k
    | inr (item, found) ↦
        rw (found, remove_queued)
          (schedule_drain-IsSettled _ (quiet-IsWellFormed _ _ _ _ (take_queued-IsWellFormed e q h)))
  ]

  pub timeout_event-IsSettled :
      (e : String) (q : EventQueue P) → IsWellFormed q → IsSettled q → IsSettled (timeout_event e q)
  unfolding timeout_event cancel_timeout
  timeout_event-IsSettled e q h k =
      let taken = take_queued-IsWellFormed e _ (cancel_timeout-IsWellFormed e q h) in
      let calm : IsSettled (cancel_timeout e q) = record { at = k.at } in
      elim (Option-cases (take_queued e (cancel_timeout e q)).1) [
        | inl missing ↦
            rw (missing, timeout_event) (rw (taken_or_same e (cancel_timeout e q) missing) calm)
        | inr (item, found) ↦ rw (found, timeout_event) (finish_queued-IsSettled item _ _ _ taken)
      ]

  -- With nothing cleared, all remains.
  remaining_all :
      (mine : QueueItem P → Bool) (xs : List (QueueItem P))
      → is_empty (keep mine xs) ≡ true
      → keep (λ i. not (mine i)) xs ≡ xs
  remaining_all mine [] h = refl
  remaining_all mine (x ∷ xs) h = ground (arith, remaining_all mine xs)

  empty_of_test : (xs : List (QueueItem P)) → is_empty xs ≡ true → xs ≡ []
  empty_of_test [] h = refl
  empty_of_test (x ∷ xs) h = cc

  pub clear-IsSettled :
      (session owner reason : String) (q : EventQueue P)
      → IsWellFormed q
      → IsSettled q
      → IsSettled (clear session owner reason q).0
  unfolding clear cancel_each
  clear-IsSettled session owner reason q h k =
      let mine : QueueItem P → Bool = in_session session owner in
      if_elim IsSettled (is_empty (keep mine q.queued)) _ _
        (λ none_left.
          rw (empty_of_test (keep mine q.queued) none_left)
            (record { at = rw (remaining_all mine q.queued none_left) k.at }))
        (λ _.
          schedule_drain-IsSettled _
            (cancel_each-IsWellFormed reason _ _ (emptied-IsLeaving mine q h)))

  drop_timers-queued :
      (xs : List (QueueItem P)) (q : EventQueue P) → (drop_timers xs q).queued ≡ q.queued
  unfolding drop_timers cancel_hold cancel_timeout
  drop_timers-queued [] q = refl
  drop_timers-queued (x ∷ xs) q = drop_timers-queued xs _

  nothing_starts : (running : List (QueueItem P)) → can_start running [] ≡ false
  nothing_starts [] = refl
  nothing_starts (r ∷ running) = refl

  pub drain_all_queued-IsSettled : (q : EventQueue P) → IsSettled (drain_all_queued q).0
  unfolding drain_all_queued
  drain_all_queued-IsSettled q = record {
    at = λ opened idle g.
        rw (drop_timers-queued q.queued (record q { queued = [] })) (nothing_starts _);
  }

  pub destroy-IsSettled : (q : EventQueue P) → IsSettled (destroy q)
  unfolding destroy
  destroy-IsSettled q = record { at = λ opened idle g. refl }

  pub reorder-IsSettled :
      (session owner : String) (ids : List String) (q : EventQueue P)
      → IsWellFormed q
      → IsSettled q
      → IsSettled (reorder session ids owner q).0
  unfolding reorder notify_positions
  reorder-IsSettled session owner ids q h k =
      let mine : QueueItem P → Bool = in_session session owner in
      if_elim (λ (r : EventQueue P × List String). IsSettled r.0) (is_empty (keep mine q.queued)) _
        _ (λ _. k)
        λ _.
          if_elim IsSettled (differs (wished ids (keep mine q.queued)) (keep mine q.queued)) _ q
            (λ _. schedule_drain-IsSettled _ (
              quiet-IsWellFormed _ _ _ _
                (recounted-IsWellFormed _ q (λ p. count-reordered p mine ids q.queued) h)))
            (λ _. k)
