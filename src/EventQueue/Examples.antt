-- ===== src/EventQueue/Examples.antt =====
-- Runs of the queue of grix_hermes/event_queue.py, at which its theorems are applied.
use grix_hermes_python.Prelude.{
  ℕ, ◌≤◌, String, ◌≡◌, ◌≢◌, ◌↔◌, refl, inl, true, false, List, [], ◌∷◌, ◌++◌, arith, eq_iff, count,
  keep, member, not, ◌&&◌,
}
use grix_hermes_python.Prelude.Dict.{get, put, pop}
use grix_hermes_python.EventQueue.State.{
  QueueItem, EventQueue, EventQueueConfig, EventState, Effect, Meta, new, in_group, in_session,
  find_item, remove_item, update_item, put_item, call, calls,
}
use grix_hermes_python.EventQueue.Query.{is_running, is_queued, group_busy}
use grix_hermes_python.EventQueue.Timers
use grix_hermes_python.EventQueue.Notify
use grix_hermes_python.EventQueue.Drain
use grix_hermes_python.EventQueue.Drain.{ready, drain}
use grix_hermes_python.EventQueue.Hold
use grix_hermes_python.EventQueue.Hold.{build_preview}
use grix_hermes_python.EventQueue.Submit
use grix_hermes_python.EventQueue.Submit.{SubmitResult, is_full}
use grix_hermes_python.EventQueue.Reorder
use grix_hermes_python.EventQueue.Lanes.{lane, drain_lane}
use grix_hermes_python.EventQueue.Lanes.Refine.{HasIdsApart, lane-drain}
use grix_hermes_python.EventQueue.Invariant.{IsWellFormed, new-IsWellFormed}
use grix_hermes_python.EventQueue.Step.{Call, step, run}
use grix_hermes_python.EventQueue.Safety.{run-IsWellFormed}
use grix_hermes_python.EventQueue.Progress.{IsSettled, can_start_in}
use grix_hermes_python.EventQueue.Liveness.{run-IsSettled, new-IsSettled, tick_starts}
use grix_hermes_python.EventQueue.Submission.{
  IsNew, arrive, submit_in_order, submit_overtakes, submit_refuses,
}
use grix_hermes_python.EventQueue.Order.{IsReordered, reorder-IsReordered}

abbrev event : String → String → QueueItem ℕ
event event_id group_key = record {
  event_id = event_id;
  session_id = "s";
  group_key = group_key;
  owner_key = "";
  preview = event_id;
  payload = 7;
  content = event_id;
  held = false;
  held_reason = "";
}

abbrev config : EventQueueConfig
config = record {
  max_queued = 2;
  queue_timeout_ms = 5_000;
  run_timeout_ms = 90_000;
  cancelable_queued = true;
  cancelable_running = true;
}

abbrev begun : EventQueue ℕ
begun = new config true

-- One group runs an event and has two waiting, of which the first is held; a second group runs too.
abbrev morning : List (Call ℕ)
morning =
    Call.submit (event "a" "g")
    ∷ Call.submit (event "b" "g")
    ∷ Call.submit (event "c" "g")
    ∷ Call.submit (event "d" "h")
    ∷ Call.hold "b" "editing" 1_000
    ∷ []

abbrev after_morning : EventQueue ℕ
after_morning = run morning begun

morning_queued : after_morning.queued ≡ Hold.held_for "editing" (event "b" "g") ∷ event "c" "g" ∷ []
unfolding run step Submit.submit Submit.is_full Submit.enqueue Submit.complete Drain.start
    Drain.schedule_drain is_running is_queued group_busy find_item put_item update_item remove_item
    call calls Timers.arm_timeout Timers.arm_run_timeout Timers.rearm Timers.cancel_timeout
    Timers.cancel_hold Timers.cancel_run_timeout Timers.arm_hold Timers.hold_delay Hold.hold
    Hold.release Notify.notify_item Notify.position_of get put pop
morning_queued = refl

morning_open : ready after_morning ≡ true
unfolding run step Submit.submit Submit.is_full Submit.enqueue Submit.complete Drain.start
    Drain.schedule_drain is_running is_queued group_busy find_item put_item update_item remove_item
    call calls Timers.arm_timeout Timers.arm_run_timeout Timers.rearm Timers.cancel_timeout
    Timers.cancel_hold Timers.cancel_run_timeout Timers.arm_hold Timers.hold_delay Hold.hold
    Hold.release Notify.notify_item Notify.position_of get put pop
morning_open = refl

run-IsWellFormed_example : IsWellFormed after_morning
run-IsWellFormed_example =
    run-IsWellFormed morning begun (refl, (refl, (refl, (refl, (tt, tt)))))
      (new-IsWellFormed config true)

run-IsSettled_example : IsSettled after_morning
run-IsSettled_example =
    run-IsSettled morning begun (refl, (refl, (refl, (refl, (tt, tt)))))
      (new-IsWellFormed config true) (new-IsSettled config true)

-- The group's event is done, and the hold is taken back.
abbrev noon : List (Call ℕ)
noon =
    Call.submit (event "a" "g")
    ∷ Call.submit (event "b" "g")
    ∷ Call.hold "b" "editing" 0
    ∷ Call.complete "a"
    ∷ Call.release "b"
    ∷ []

noon_open : ready (run noon begun) ≡ true
unfolding run step Submit.submit Submit.is_full Submit.enqueue Submit.complete Drain.start
    Drain.schedule_drain is_running is_queued group_busy find_item put_item update_item remove_item
    call calls Timers.arm_timeout Timers.arm_run_timeout Timers.rearm Timers.cancel_timeout
    Timers.cancel_hold Timers.cancel_run_timeout Timers.arm_hold Timers.hold_delay Hold.hold
    Hold.release Notify.notify_item Notify.position_of get put pop
noon_open = refl

tick_starts_example : can_start_in "g" (step Call.tick (run noon begun)) ≡ false
tick_starts_example =
    tick_starts config true noon "g" (refl, (refl, (tt, (tt, (tt, tt))))) noon_open

-- A queue whose group "g" is free while its first event is held, and "h" is free with two waiting.
abbrev held_head : EventQueue ℕ
held_head = record begun {
  queued =
      Hold.held_for "editing" (event "b" "g") ∷ event "c" "g" ∷ event "d" "h" ∷ event "e" "h" ∷ [];
}

held_head-HasIdsApart : HasIdsApart held_head
unfolding run step Submit.submit Submit.is_full Submit.enqueue Submit.complete Drain.start
    Drain.schedule_drain is_running is_queued group_busy member find_item put_item update_item
    remove_item call calls Timers.arm_timeout Timers.arm_run_timeout Timers.rearm
    Timers.cancel_timeout Timers.cancel_hold Timers.cancel_run_timeout Timers.arm_hold
    Timers.hold_delay Drain.pause Hold.hold Hold.release Notify.notify_item Notify.position_of get
    put pop
held_head-HasIdsApart = record {
  apart =
      (run-IsWellFormed
        (Call.pause "night"
          ∷ Call.submit (event "b" "g")
          ∷ Call.submit (event "c" "g")
          ∷ Call.submit (event "d" "h")
          ∷ Call.submit (event "e" "h")
          ∷ Call.hold "b" "editing" 0
          ∷ [])
        begun (tt, (refl, (refl, (refl, (refl, (tt, tt)))))) (new-IsWellFormed config true)).apart;
}

lane-drain_example : lane "h" (drain held_head) ≡ drain_lane (lane "h" held_head)
lane-drain_example = lane-drain held_head "h" held_head-HasIdsApart refl

f-IsNew : IsNew (event "f" "g") held_head
unfolding is_running is_queued find_item
f-IsNew = (refl, refl)

false_not_true : false ≢ true
false_not_true h = ground arith

f_not_b : ◌≢◌ {A = String} "f" "b"
f_not_b same = false_not_true ((eq_iff "f" "b").1 same)

submit_overtakes_example :
    ((Submit.submit (event "f" "g") held_head).1 ≡ SubmitResult.running)
    × (lane "g" (Submit.submit (event "f" "g") held_head).0 ≡ record {
      running = event "f" "g" ∷ [];
      queued = Hold.held_for "editing" (event "b" "g") ∷ event "c" "g" ∷ [];
    })
    × ((Submit.submit (event "f" "g") held_head).0.effects
        ≡ (held_head.effects
            ++ Effect.state_change (event "f" "g") EventState.running Meta.bare ∷ [])
          ++ Effect.deliver (event "f" "g") ∷ [])
    × (lane "g" (Submit.submit (event "f" "g") held_head).0
        ≢ arrive (event "f" "g") (lane "g" held_head))
submit_overtakes_example =
    submit_overtakes (event "f" "g") (Hold.held_for "editing" (event "b" "g")) (event "c" "g" ∷ [])
      held_head f-IsNew f_not_b refl refl refl

abbrev busy : EventQueue ℕ
busy = record begun { running = event "a" "g" ∷ []; queued = event "b" "g" ∷ [] }

f-IsNew-busy : IsNew (event "f" "g") busy
unfolding is_running is_queued find_item
f-IsNew-busy = (refl, refl)

room : is_full (event "f" "g") busy ≡ false
unfolding is_full
room = refl

a_runs : keep (in_group "g") busy.running ≢ []
a_runs none = cc

submit_in_order_example :
    lane "g" (Submit.submit (event "f" "g") busy).0 ≡ arrive (event "f" "g") (lane "g" busy)
submit_in_order_example =
    submit_in_order (event "f" "g") busy f-IsNew-busy refl refl (inl (a_runs, room))

abbrev full : EventQueue ℕ
full = record busy { queued = event "b" "g" ∷ event "c" "g" ∷ [] }

submit_refuses_example :
    (((Submit.submit (event "f" "g") full).1 ≡ SubmitResult.rejected) ↔ (
      IsNew (event "f" "g") full
      × (ready full && not (group_busy "g" full) ≡ false)
      × (full.config.max_queued ≤ count (in_group "g") full.queued)))
    × ((Submit.submit (event "f" "g") full).1 ≡ SubmitResult.rejected
        → (Submit.submit (event "f" "g") full).0 ≡ record full {
          effects =
              full.effects
              ++ Effect.state_change (event "f" "g") EventState.failed (Meta.reason "queue full")
                ∷ [];
        })
submit_refuses_example = submit_refuses (event "f" "g") full

reorder-IsReordered_example :
    IsReordered
      (in_session "s" "")
      ("e" ∷ "x" ∷ "c" ∷ [])
      held_head.queued
      (Reorder.reorder "s" ("e" ∷ "x" ∷ "c" ∷ []) "" held_head).0.queued
      (Reorder.reorder "s" ("e" ∷ "x" ∷ "c" ∷ []) "" held_head).1
reorder-IsReordered_example =
    reorder-IsReordered "s" "" ("e" ∷ "x" ∷ "c" ∷ []) held_head refl
      (λ e. omega (arith, held_head-HasIdsApart.apart e))
