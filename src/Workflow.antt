-- ===== src/Workflow.antt =====
-- apps/control-plane/src/workflows: the durable specialist run workflow.
pub mod Types
pub mod Registry
pub mod Checkpoints
pub mod World
pub mod Calls
pub mod Specialist
pub mod Finalize
pub mod Schedule
pub mod Execute
pub mod Protocol
pub mod Guarantees
mod Tests
