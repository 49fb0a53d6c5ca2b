-- ===== src/EventQueue/Reorder.antt =====
-- `reorder` of grix_hermes/event_queue.py.
use grix_hermes_python.Prelude.{
  String, Bool, false, none, some, List, [], ◌∷◌, map, ◌||◌, ◌==◌, not, keep, if◌then◌else◌,
}
use grix_hermes_python.EventQueue.State.{QueueItem, EventQueue, find_item, remove_item, in_session}
use grix_hermes_python.EventQueue.Notify.{notify_positions}
use grix_hermes_python.EventQueue.Drain.{schedule_drain, is_empty}

module _ {P : Type 0} where
  -- The two loops over `pending`: first what the list names, in its order, then what is left over.
  unfoldable pub wished : List String → List (QueueItem P) → List (QueueItem P)
  wished [] pending = pending
  wished (event_id ∷ ids) pending = elim (find_item event_id pending) [
    | none ↦ wished ids pending
    | some item ↦ item ∷ wished ids (remove_item event_id pending)
  ]

  -- The items go into the slots of the session, one after the other.
  unfoldable pub fill_slots :
      (QueueItem P → Bool) → List (QueueItem P) → List (QueueItem P) → List (QueueItem P)
  fill_slots mine [] new = []
  fill_slots mine (item ∷ rest) [] = item ∷ rest
  fill_slots mine (item ∷ rest) (n ∷ new) =
      let moved = n ∷ fill_slots mine rest new in
      let kept = item ∷ fill_slots mine rest (n ∷ new) in if mine item then moved else kept

  -- `any(new is not old for ...)`: entries differ by their ids.
  unfoldable pub differs : List (QueueItem P) → List (QueueItem P) → Bool
  differs (n ∷ new) (o ∷ old) = not (n.event_id == o.event_id) || differs new old
  differs _ _ = false

  unfoldable pub reorder : String → List String → String → EventQueue P → EventQueue P × List String
  reorder session_id ordered_event_ids owner_key q =
      let session_items = keep (in_session session_id owner_key) q.queued in
      let reordered = wished ordered_event_ids session_items in
      let moved = record q {
        queued = fill_slots (in_session session_id owner_key) q.queued reordered;
      } in
      if is_empty session_items then (q, []) else (
        if differs reordered session_items
            then schedule_drain (notify_positions session_id owner_key moved)
            else q,
        map (λ item. item.event_id) reordered,
      )
