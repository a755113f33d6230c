-- ===== src/Cfg/Invariant.antt =====
-- What `Build` of internal/cfg/cfg.go guarantees of its graph.
pub mod Blocks
pub mod Primitives
pub mod Chain
pub mod Wiring
pub mod Statements
pub mod Whole
