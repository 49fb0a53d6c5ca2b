-- ===== src/EventQueue/Lanes.antt =====
-- What `_drain` of grix_hermes/event_queue.py is for, one group at a time: the comment on `_drain`
-- says that the one list with its skipping scan stands for a queue to each group. A lane is that
-- queue: the running and the queued events of one group.
pub mod Scan
pub mod Refine
use grix_hermes_python.Prelude.{
  String, ◌≡◌, refl, Bool, true, false, List, [], ◌∷◌, arith, not, keep, if◌then◌else◌,
}
use grix_hermes_python.EventQueue.State.{QueueItem, EventQueue, in_group}

pub record Lane (P : Type 0) : Type 0 where
  pub running : List (QueueItem P)
  pub queued : List (QueueItem P)

module _ {P : Type 0} where
  abbrev pub lane : String → EventQueue P → Lane P
  lane g q = record { running = keep (in_group g) q.running; queued = keep (in_group g) q.queued }

  -- A free lane starts its first event, unless that is held; a busy one waits.
  unfoldable pub advance : List (QueueItem P) → List (QueueItem P) → Lane P
  advance (r ∷ running) queued = record { running = r ∷ running; queued = queued }
  advance [] [] = record { running = []; queued = [] }
  advance [] (item ∷ rest) =
      if item.held
      then record { running = []; queued = item ∷ rest }
      else record { running = item ∷ []; queued = rest }

  unfoldable pub drain_lane : Lane P → Lane P
  unfolding advance
  drain_lane l = advance l.running l.queued

  -- A lane that was drained has nothing more to start.
  pub drain_lane_idem : (l : Lane P) → drain_lane (drain_lane l) ≡ drain_lane l
  unfolding drain_lane
  drain_lane_idem l = ground arith
