-- ===== src/Protocol.antt =====
-- grix_hermes/protocol.py: the settings, the packets, the events and the messages of the protocol.
-- Names, Settings, Auth, Packets, Events, Controls, Sanitize, Cards and Inbound hold the
-- definitions; the others are about what they prove.
pub mod Names
pub mod Settings
pub mod Auth
pub mod Packets
pub mod Events
pub mod Controls
pub mod Sanitize
pub mod Cards
pub mod Inbound
pub mod Clamp
pub mod RoundTrip
pub mod Distinct
pub mod Message
pub mod Checked
pub mod Capabilities
mod Examples
mod MessageExamples
