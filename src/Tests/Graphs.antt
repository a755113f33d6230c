-- ===== src/Tests/Graphs.antt =====
-- Graphs of sample bodies, built by the model of internal/cfg/cfg.go, and searches on them.
use lifeline.Prelude.{◌≡◌, ◌↔◌, Bool, true, false, none, some, [], ◌==◌}
use lifeline.Model.Graph.{
  BlockId, Cfg, done, reachable, can_reach, reachable_avoiding, reachable_avoiding_edges,
}
use lifeline.Model.Graph.WellFormed.{succs, IsWellFormed}
use lifeline.Model.Graph.Routes.{
  Route, Flow, Decides, no_skip, reachable_decides, can_reach_decides,
  reachable_avoiding_edges_decides,
}
use lifeline.Model.Graph.Dominance.{Meets, reachable_avoiding_dominates}
use lifeline.Cfg.Ast.{
  Stmts, ident, call_expr, mk_call, no_exprs, expr_stmt, simple, for_stmt, nil_stmt, block_stmt,
  return_stmt, if_stmt, no_stmts, more_stmts,
}
use lifeline.Cfg.Builder.{Env}
use lifeline.Cfg.Build.{run_build, build_context}
use lifeline.Cfg.Invariant.Whole.{build_context-IsWellFormed, build_context_terminal}

-- No positions, no types, no trusted call, and a context that is never cancelled.
abbrev pub plain : Env
plain = record {
  ctx_err = λ k. false;
  fset = none;
  info = none;
  is_trusted_terminator = none;
  type_name = λ s. "";
}

-- for { if stop { return }; work() }
abbrev pub loop_body : Stmts
loop_body =
    more_stmts
      (for_stmt 1 nil_stmt none nil_stmt (
        block_stmt 2 (
          more_stmts
            (if_stmt 3 nil_stmt (ident 4 "stop")
              (block_stmt 5 (more_stmts (return_stmt 6 no_exprs) no_stmts)) nil_stmt)
            (more_stmts (simple (expr_stmt 7 (call_expr (mk_call 8 (ident 9 "work") no_exprs))))
              no_stmts))))
      no_stmts

abbrev pub loop_graph : Cfg
loop_graph = (build_context plain "f" (some (0, loop_body))).0

pub loop_graph_formed : IsWellFormed loop_graph
loop_graph_formed = build_context-IsWellFormed plain "f" 0 loop_body

build_context-IsWellFormed_example : IsWellFormed (build_context plain "f" (some (0, loop_body))).0
build_context-IsWellFormed_example = build_context-IsWellFormed plain "f" 0 loop_body

build_context_terminal_example :
    ((run_build plain (some (0, loop_body))).panicked ≡ false)
    × (succs loop_graph.blocks loop_graph.exit ≡ [])
build_context_terminal_example = build_context_terminal plain "f" 0 loop_body

reachable_decides_example :
    (seen : BlockId → Bool) × (reachable loop_graph loop_graph.entry ≡ done seen)
    × Decides seen (Flow loop_graph loop_graph.entry)
reachable_decides_example =
    reachable_decides loop_graph loop_graph_formed loop_graph.entry loop_graph_formed.entry_fits

can_reach_decides_example :
    (seen : BlockId → Bool) × (can_reach loop_graph loop_graph.exit ≡ done seen)
    × Decides seen (λ v. Flow loop_graph v loop_graph.exit)
can_reach_decides_example =
    can_reach_decides loop_graph loop_graph_formed loop_graph.exit loop_graph_formed.exit_fits

abbrev only_two : BlockId → Bool
only_two v = v == 2

reachable_avoiding_edges_decides_example :
    (seen : BlockId → Bool) × (reachable_avoiding_edges loop_graph loop_graph.entry only_two no_skip
      ≡ done seen)
    × ((v : BlockId)
        → (seen v ≡ true) ↔ (
            (only_two loop_graph.entry ≡ false)
            × ∥ Route loop_graph only_two no_skip loop_graph.entry v ∥₁))
reachable_avoiding_edges_decides_example =
    reachable_avoiding_edges_decides loop_graph loop_graph_formed loop_graph.entry only_two no_skip
      loop_graph_formed.entry_fits

reachable_avoiding_dominates_example :
    (seen : BlockId → Bool) × (reachable_avoiding loop_graph loop_graph.entry only_two ≡ done seen)
    × ((v : BlockId)
        → (seen v ≡ false) ↔ (
            (r : Flow loop_graph loop_graph.entry v)
            → Meets loop_graph loop_graph.entry only_two r))
reachable_avoiding_dominates_example =
    reachable_avoiding_dominates loop_graph loop_graph_formed loop_graph.entry only_two
      loop_graph_formed.entry_fits
