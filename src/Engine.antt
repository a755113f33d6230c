-- ===== src/Engine.antt =====
-- internal/engine: verdicts, diagnostics, run status and policies.
pub mod Verdict
pub mod Lattices
pub mod Diagnostics
pub mod Findings
pub mod Filter
pub mod Status
pub mod Coverage
pub mod Timeout
