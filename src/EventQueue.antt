-- ===== src/EventQueue.antt =====
-- grix_hermes/event_queue.py: the in-process queue of events. The definitions stand in State,
-- Timers, Drain, Hold, Submit, Remove and Reorder; the other children are about what they prove.
pub mod State
pub mod Query
pub mod Timers
pub mod Notify
pub mod Drain
pub mod Hold
pub mod Submit
pub mod Remove
pub mod Reorder
pub mod Items
pub mod Lanes
pub mod Invariant
pub mod Step
pub mod Safety
pub mod Progress
pub mod Liveness
pub mod Submission
pub mod Wishes
pub mod Order
pub mod Bounds
pub mod Config
mod Examples
