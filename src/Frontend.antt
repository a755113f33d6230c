-- ===== src/Frontend.antt =====
-- internal/frontend/frontend.go: the parts of it that stand apart from the syntax trees that they
-- are run on.
pub mod Balance
pub mod Rounds
pub mod Paths
pub mod Effects
pub mod Stops
pub mod Ordering
