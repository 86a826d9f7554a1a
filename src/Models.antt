-- ===== src/Models.antt =====
-- src/tts_studio/models/registry.py: typed persistence of engines, Download Jobs and models.
pub mod Domain
pub mod Paths
pub mod Downloads
pub mod Installations
pub mod Engines
pub mod Activate
pub mod Calls
pub mod Evolution
pub mod Steps
pub mod Activation
pub mod Life
pub mod Replicas
pub mod Replaced
mod Tests
