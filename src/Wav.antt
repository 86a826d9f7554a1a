-- ===== src/Wav.antt =====
-- src/tts_studio/generation/wav.py: staging of validated PCM and its atomic publication.
pub mod Header
pub mod Writer
pub mod Publish
pub mod Failure
pub mod Total
mod Tests
