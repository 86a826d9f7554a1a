-- ===== src/Server.antt =====
-- src/tts_studio/server: the event stream of the HTTP server.
pub mod Sse
pub mod Delivered
pub mod Reaches
mod Tests
