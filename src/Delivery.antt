-- ===== src/Delivery.antt =====
-- grix_hermes/terminal_delivery.py: from a terminal result to its acknowledgement. What stands
-- between two `await`s is one definition.
pub mod Controller
pub mod Schedule
pub mod Send
pub mod SendStop
pub mod Attempt
pub mod Flight
pub mod Loop
pub mod Settling
pub mod FirstWins
pub mod SameStores
pub mod Acknowledged
pub mod StopAttempt
pub mod StopSettling
mod Examples
mod LoopExamples
