-- ===== src/Registry.antt =====
-- src/tts_studio/generation/registry.py: typed persistence of Generation Jobs, Audio Artifacts and
-- alignments.
pub mod Domain
pub mod Paths
pub mod Jobs
pub mod Evolution
pub mod Artifacts
pub mod Shape
pub mod Alignments
pub mod Calls
mod Tests
