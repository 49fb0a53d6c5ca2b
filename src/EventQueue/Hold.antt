-- ===== src/EventQueue/Hold.antt =====
-- `hold`, `release`, `edit` and the hold timer of grix_hermes/event_queue.py.
use grix_hermes_python.Prelude.{
  ℕ, String, Bool, true, false, Option, none, some, ◌==◌, if◌then◌else◌, ltb,
}
use grix_hermes_python.Prelude.Text.{split, join, size, take}
use Prim.Native.String
use grix_hermes_python.EventQueue.State.{QueueItem, EventQueue, find_item, update_item}
use grix_hermes_python.EventQueue.Timers.{cancel_timeout, cancel_hold, arm_timeout, arm_hold}
use grix_hermes_python.EventQueue.Notify.{notify_item}
use grix_hermes_python.EventQueue.Drain.{schedule_drain}

abbrev pub preview_max_chars : ℕ
preview_max_chars = 64

unfoldable pub build_preview : String → String
build_preview text =
    let collapsed = join " " (split text) in
    if collapsed == ""
    then "Message"
    else if ltb preview_max_chars (size collapsed)
    then String.◌++◌ (take preview_max_chars collapsed) "..."
    else collapsed

module _ {P : Type 0} where
  abbrev pub held_for : String → QueueItem P → QueueItem P
  held_for reason item = record item { held = true; held_reason = reason }

  abbrev pub not_held : QueueItem P → QueueItem P
  not_held item = record item { held = false; held_reason = "" }

  abbrev pub with_text : String → QueueItem P → QueueItem P
  with_text text item = record item { content = text; preview = build_preview text }

  -- Answers whether a queued event was hit.
  unfoldable pub hold : String → String → ℕ → EventQueue P → EventQueue P × Bool
  hold event_id reason ttl_ms q = elim (find_item event_id q.queued) [
    | none ↦ (q, false)
    | some item ↦ (
      notify_item (held_for reason item) (
          arm_hold event_id ttl_ms (
            cancel_hold event_id (
              cancel_timeout event_id
                (record q { queued = update_item event_id (held_for reason) q.queued })))),
      true,
    )
  ]

  unfoldable pub release : String → EventQueue P → EventQueue P × Bool
  release event_id q = elim (find_item event_id q.queued) [
    | none ↦ (q, false)
    | some item ↦ (
      if item.held
          then schedule_drain (
              notify_item (not_held item) (
                arm_timeout (not_held item) (record (cancel_hold event_id q) {
                  queued = update_item event_id not_held q.queued;
                })))
          else cancel_hold event_id q,
      true,
    )
  ]

  -- The answer is the item as it stands at the end of the call, since it is the queue's own.
  unfoldable pub edit : String → String → EventQueue P → EventQueue P × Option (QueueItem P)
  edit event_id new_text q = elim (find_item event_id q.queued) [
    | none ↦ (q, none)
    | some item ↦ (
      (release event_id
          (record q { queued = update_item event_id (with_text new_text) q.queued })).0,
      some (if item.held then not_held (with_text new_text item) else with_text new_text item),
    )
  ]

  -- The callback of the hold timer.
  unfoldable pub hold_expired : String → EventQueue P → EventQueue P
  hold_expired event_id q = (release event_id (cancel_hold event_id q)).0
