-- ===== src/Agents.antt =====
-- apps/control-plane/src/agents: the specialists' configuration and the prompt-injection policy.
pub mod Config
pub mod Injection
mod Tests
