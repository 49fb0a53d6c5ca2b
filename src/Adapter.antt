-- ===== src/Adapter.antt =====
-- grix_hermes/adapter.py: how the adapter makes its event queue of the settings of the connection, and
-- what it does with the packets that change the queue.
pub mod QueueSettings
pub mod QueueBounds
pub mod QueueHandlers
pub mod SessionHandlers
pub mod Owners
pub mod OwnersApart
mod Examples
mod HandlerExamples
