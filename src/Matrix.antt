-- ===== src/Matrix.antt =====
-- apps/control-plane/src/matrix: the outbox of messages to the chat room, and its worker.
pub mod Renderer
pub mod Outbox
pub mod Worker
mod Tests
