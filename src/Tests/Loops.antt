-- ===== src/Tests/Loops.antt =====
-- Components of graphs, loops that are left and loops that are not, and the goroutines that run them.
use lifeline.Prelude.{Bool, true, none, some, List, [], ◌∷◌, length, ◌∈◌, ◌≡◌, ◌↔◌, ltb}
use lifeline.Prelude.{if◌then◌else◌}
use lifeline.Model.Graph.{BlockId, Cfg}
use lifeline.Model.Graph.Tarjan.{ok, sccs}
use lifeline.Model.Graph.Tarjan.State.{total, AreComponents}
use lifeline.Model.Graph.Tarjan.Components.{sccs-AreComponents}
use lifeline.Model.Facts.{Goroutine}
use lifeline.Config.{default}
use lifeline.Engine.Diagnostics.{Diagnostic}
use lifeline.Engine.Verdict.{unresolved_loop}
use lifeline.Engine.Verdict.Loops.{SomeTrapped, unresolved_loop-decides}
use lifeline.Engine.Findings.{goroutine_finding, goroutine_findings}
use lifeline.Engine.Findings.Goroutines.{HasNoStop, goroutine_findings_iff}
use lifeline.Cfg.Ast.{
  Stmts, ident, call_expr, mk_call, no_exprs, expr_stmt, simple, for_stmt, nil_stmt, block_stmt,
  no_stmts, more_stmts,
}
use lifeline.Cfg.Build.{build_context}
use lifeline.Cfg.Invariant.Whole.{build_context-IsWellFormed, build_context_terminal}
use lifeline.Tests.Graphs.{plain, loop_body, loop_graph, loop_graph_formed}
use lifeline.Tests.Engine.{fmt, sample, sample_function, opaque_target}

-- for { work() }
abbrev endless : Stmts
endless =
    more_stmts
      (for_stmt 1 nil_stmt none nil_stmt (
        block_stmt 2 (
          more_stmts (simple (expr_stmt 3 (call_expr (mk_call 4 (ident 5 "work") no_exprs))))
            no_stmts)))
      no_stmts

abbrev endless_graph : Cfg
endless_graph = (build_context plain "g" (some (0, endless))).0

abbrev spinning : Goroutine
spinning = record opaque_target { evidence = []; cfg = some endless_graph }

abbrev stoppable : Goroutine
stoppable = record opaque_target { evidence = []; cfg = some loop_graph }

abbrev started : List Goroutine
started = stoppable ∷ spinning ∷ opaque_target ∷ []

sccs-AreComponents_example :
    (comps : List (List BlockId)) × (sccs loop_graph ≡ ok comps)
    × ((v : BlockId) → total v comps ≡ (if ltb v (length loop_graph.blocks) then 1 else 0))
    × AreComponents loop_graph comps
sccs-AreComponents_example = sccs-AreComponents loop_graph loop_graph_formed

unresolved_loop-decides_example :
    (b : Bool) × (unresolved_loop endless_graph ≡ ok b)
    × ((b ≡ true) ↔ ∥ SomeTrapped endless_graph ∥₁)
unresolved_loop-decides_example =
    unresolved_loop-decides endless_graph (build_context-IsWellFormed plain "g" 0 endless)
      ((build_context_terminal plain "g" 0 endless).1)

goroutine_findings_iff_example :
    (ds : List Diagnostic) × (goroutine_findings fmt sample default sample_function started ≡ ok ds)
    × ((d : Diagnostic)
        → (d ∈ ds) ↔ (
            (g : Goroutine) × (g ∈ started)
            × HasNoStop g.cfg g.imported_unresolved_loop g
            × (d ≡ goroutine_finding fmt sample default sample_function g)))
goroutine_findings_iff_example = goroutine_findings_iff fmt sample default sample_function started (
  (loop_graph_formed, (build_context_terminal plain "f" 0 loop_body).1),
  (
    (
      build_context-IsWellFormed plain "g" 0 endless,
      (build_context_terminal plain "g" 0 endless).1,
    ),
    (tt, tt),
  ),
)
