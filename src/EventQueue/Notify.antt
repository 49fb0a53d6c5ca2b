-- ===== src/EventQueue/Notify.antt =====
-- How grix_hermes/event_queue.py tells positions: `_notify_item` and `_notify_positions`.
use grix_hermes_python.Prelude.{ℕ, suc, String, List, [], ◌∷◌, length, keep, ◌==◌, if◌then◌else◌}
use grix_hermes_python.EventQueue.State.{
  QueueItem, EventQueue, EventState, Meta, Effect, in_session, calls,
}

module _ {P : Type 0} where
  -- One call for each item, with its position counted from `n`.
  unfoldable pub positions_from : ℕ → ℕ → List (QueueItem P) → List (Effect P)
  positions_from total n [] = []
  positions_from total n (item ∷ rest) =
      Effect.state_change item EventState.queued (Meta.position n total)
      ∷ positions_from total (suc n) rest

  unfoldable pub notify_positions : String → String → EventQueue P → EventQueue P
  unfolding positions_from calls
  notify_positions session_id owner_key q =
      let session_items = keep (in_session session_id owner_key) q.queued in
      calls (positions_from (length session_items) 1 session_items) q

  -- The call for the entry that is `item`, if it is there. Entries differ by their ids.
  unfoldable pub position_of : QueueItem P → ℕ → ℕ → List (QueueItem P) → List (Effect P)
  position_of item total n [] = []
  position_of item total n (entry ∷ rest) =
      let later = position_of item total (suc n) rest in
      if entry.event_id == item.event_id
      then Effect.state_change item EventState.queued (Meta.position n total) ∷ []
      else later

  unfoldable pub notify_item : QueueItem P → EventQueue P → EventQueue P
  unfolding position_of calls
  notify_item item q =
      let session_items = keep (in_session item.session_id item.owner_key) q.queued in
      calls (position_of item (length session_items) 1 session_items) q
