-- ===== src/Persistence.antt =====
-- grix_hermes/persistence: the stores that survive a crash.
pub mod Payload
pub mod File
pub mod Fields
pub mod TerminalOutbox
pub mod Committed
pub mod Tokens
pub mod StopResults
pub mod ToolbarModels
mod Examples
mod StopExamples
mod ToolbarExamples
mod RestartExamples
