-- ===== src/Providers.antt =====
-- src/tts_studio/providers: the profiles of remote providers, and where the Core may connect to.
pub mod Egress
pub mod Profiles
pub mod Policy
pub mod Table
pub mod Usage
mod Tests
