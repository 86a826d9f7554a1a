-- ===== src/Audio.antt =====
-- src/tts_studio/generation/audio.py: the validator of a Worker's PCM stream and the queue that
-- carries its bytes.
pub mod Pcm
pub mod Queue
mod Tests
