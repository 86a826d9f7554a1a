-- ===== src/Events.antt =====
-- src/tts_studio/events.py: the durable event store of the Core.
pub mod Text
pub mod Payload
pub mod Store
pub mod Numbered
pub mod Log
pub mod Safe
pub mod Progress
mod Tests
