-- ===== src/Cfg.antt =====
-- internal/cfg: the control-flow graph of a function body.
pub mod Ast
pub mod Types
pub mod Render
pub mod Builder
pub mod Build
pub mod Invariant
