-- ===== src/Generation.antt =====
-- src/tts_studio/generation/service.py: the checks of the service on requests and on what a Worker
-- answers.
pub mod Pcm
pub mod State
pub mod Stream
pub mod Run
pub mod Create
pub mod Created
pub mod Withdrawn
pub mod Ending
pub mod Kept
pub mod Pieces
pub mod Steps
pub mod Finals
pub mod Ends
pub mod Cleaned
pub mod Finished
pub mod Alignment
pub mod Accepted
pub mod Handover
mod Tests
mod Cases
