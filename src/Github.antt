-- ===== src/Github.antt =====
-- apps/control-plane/src/github: GitHub mutations behind write grants and approvals.
pub mod Types
pub mod World
pub mod Calls
pub mod Gates
pub mod Worker
pub mod Enqueue
pub mod Protocol
pub mod Guarantees
mod Tests
