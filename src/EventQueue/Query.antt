-- ===== src/EventQueue/Query.antt =====
-- The queries of grix_hermes/event_queue.py.
use grix_hermes_python.Prelude.{
  ℕ, suc, String, Bool, Option, none, some, List, [], ◌∷◌, map, keep, count, is_some, ltb, length,
}
use grix_hermes_python.EventQueue.State.{QueueItem, EventQueue, find_item, in_group, in_session}

-- An entry of `queued` in a snapshot.
pub record QueuedView : Type 0 where
  pub event_id : String
  pub position : ℕ
  pub content_preview : String
  pub content : String
  pub held : Bool
  pub held_reason : String

pub record RunningView : Type 0 where
  pub event_id : String
  pub content_preview : String

pub record Snapshot : Type 0 where
  pub running : List String
  pub running_items : List RunningView
  pub queued : List QueuedView

module _ {P : Type 0} where
  unfoldable pub running_count : EventQueue P → ℕ
  running_count q = length q.running

  unfoldable pub queued_count : EventQueue P → ℕ
  queued_count q = length q.queued

  unfoldable pub is_running : String → EventQueue P → Bool
  is_running event_id q = is_some (find_item event_id q.running)

  unfoldable pub is_queued : String → EventQueue P → Bool
  is_queued event_id q = is_some (find_item event_id q.queued)

  unfoldable pub find : String → EventQueue P → Option (QueueItem P)
  find event_id q = elim (find_item event_id q.running) [
    | some item ↦ some item
    | none ↦ find_item event_id q.queued
  ]

  unfoldable pub group_busy : String → EventQueue P → Bool
  group_busy group_key q = ltb 0 (count (in_group group_key) q.running)

  unfoldable pub queued_items : EventQueue P → List (QueueItem P)
  queued_items q = q.queued

  -- enumerate(items, start=n)
  unfoldable pub views_from : ℕ → List (QueueItem P) → List QueuedView
  views_from n [] = []
  views_from n (item ∷ rest) =
      (record {
        event_id = item.event_id;
        position = n;
        content_preview = item.preview;
        content = item.content;
        held = item.held;
        held_reason = item.held_reason;
      })
      ∷ views_from (suc n) rest

  unfoldable pub snapshot : String → String → EventQueue P → Snapshot
  unfolding views_from
  snapshot session_id owner_key q = record {
    running = map (λ item. item.event_id) (keep (in_session session_id owner_key) q.running);
    running_items =
        map (λ item. record { event_id = item.event_id; content_preview = item.preview })
          (keep (in_session session_id owner_key) q.running);
    queued = views_from 1 (keep (in_session session_id owner_key) q.queued);
  }
