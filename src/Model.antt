-- ===== src/Model.antt =====
-- The data and the graph algorithms of internal/model: model.go and dataflow.go.
pub mod Source
pub mod Graph
pub mod Facts
pub mod Effects
pub mod Dataflow
