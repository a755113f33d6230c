-- ===== src/Tests.antt =====
-- Sample functions and graphs, runs of the definitions on them, and theorems at these inputs.
mod Graphs
mod Engine
mod Frontend
mod Decoding
mod Loops
mod Dataflow
