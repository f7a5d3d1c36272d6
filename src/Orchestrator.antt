-- ===== src/Orchestrator.antt =====
-- apps/desktop/src/agent/task-orchestrator.ts, one module for each group of its methods; the
-- theorems stand in the modules named for what they show.
pub mod Host
pub mod Records
pub mod Start
pub mod Execution
pub mod Process
pub mod Quiet
pub mod Ownership
pub mod Safety
pub mod Queue
pub mod Receipts
mod Tests
