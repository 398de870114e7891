-- ===== src/Events.antt =====
-- apps/control-plane/src/events and the route of a run's event stream.
pub mod Service
pub mod Wire
pub mod Stream
mod Tests
