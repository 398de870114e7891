-- ===== src/Mobile.antt =====
-- apps/mobile/src: the run store and the event stream client of the mobile application.
pub mod RunStore
pub mod SseFrames
pub mod RunEvents
mod Tests
