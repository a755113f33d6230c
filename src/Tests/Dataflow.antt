-- ===== src/Tests/Dataflow.antt =====
-- Dataflow over a sample graph: a group whose `Wait` stands in one block, and the stops of a worker.
use lifeline.Prelude.{◌-◌, ◌<◌, true, some, ◌≡◌, ◌↔◌, ◌==◌, arith, length}
use lifeline.Model.Graph.{BlockId}
use lifeline.Model.Graph.Routes.{Flow}
use lifeline.Model.Graph.Tarjan.{ok}
use lifeline.Model.Dataflow.{Problem, solve, rounds_bound}
use lifeline.Model.Dataflow.Lattice.{Le, equation}
use lifeline.Model.Dataflow.Solution.{solve-least}
use lifeline.Engine.Lattices.{
  JoinObligation, join_none, join_required, join_satisfied, obligation_level, StopCapability,
  stop_none, stop_available, stop_proven_consumed, stop_capability_dataflow,
}
use lifeline.Engine.Lattices.Obligations.{obligation_problem, obligation_problem-IsMonotone}
use lifeline.Engine.Lattices.Stops.{IsConsumed, stop_capability_dataflow-decides}
use lifeline.Tests.Graphs.{loop_graph, loop_graph_formed}

-- A `Wait` in the third block, after a start before the graph.
abbrev waits : Problem JoinObligation
waits = obligation_problem (λ v. v == 2) join_required join_satisfied

solve-least_example :
    (out : BlockId → JoinObligation) × (solve waits loop_graph (rounds_bound 3 loop_graph) ≡ ok out)
    × ((v : BlockId) → Flow loop_graph loop_graph.entry v → out v ≡ equation waits loop_graph out v)
    × ((v : BlockId)
        → v < length loop_graph.blocks
        → (Flow loop_graph loop_graph.entry v → ⊥)
        → out v ≡ join_none)
    × ((x : BlockId → JoinObligation)
        → ((v : BlockId)
            → v < length loop_graph.blocks
            → Flow loop_graph loop_graph.entry v
            → Le waits (equation waits loop_graph x v) (x v))
        → (v : BlockId) → v < length loop_graph.blocks
        → Le waits (out v) (x v))
solve-least_example =
    solve-least waits (λ s. 3 - obligation_level s)
      (obligation_problem-IsMonotone (λ v. v == 2) join_required join_satisfied) loop_graph
      loop_graph_formed (rounds_bound 3 loop_graph) (omega arith)

stop_capability_dataflow-decides_example :
    (out : BlockId → StopCapability) × (stop_capability_dataflow (some loop_graph) true ≡ ok out)
    × ((v : BlockId)
        → Flow loop_graph loop_graph.entry v
        → ((out v ≡ stop_proven_consumed) ↔ IsConsumed loop_graph loop_graph_formed v)
          × ((IsConsumed loop_graph loop_graph_formed v → ⊥) → out v ≡ stop_available))
    × ((v : BlockId)
        → v < length loop_graph.blocks
        → (Flow loop_graph loop_graph.entry v → ⊥)
        → out v ≡ stop_none)
stop_capability_dataflow-decides_example =
    stop_capability_dataflow-decides loop_graph loop_graph_formed
