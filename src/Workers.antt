-- ===== src/Workers.antt =====
-- src/tts_studio/workers: what the Core knows of a Worker, and how it leases one.
pub mod Domain
pub mod Capabilities
pub mod Alignment
pub mod Lease
pub mod Asks
pub mod Streams
pub mod Pool
pub mod Loading
pub mod Calls
pub mod Slot
pub mod Sessions
mod Tests
