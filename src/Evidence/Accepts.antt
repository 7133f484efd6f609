-- ===== src/Evidence/Accepts.antt =====
-- The validator on the orchestrator's own artifacts.
pub mod Events
pub mod Agents
pub mod Verdicts
pub mod Bundles
