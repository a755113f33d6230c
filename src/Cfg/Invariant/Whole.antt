-- ===== src/Cfg/Invariant/Whole.antt =====
-- `BuildContext` of internal/cfg/cfg.go as a whole: labels, statements and the edge at the end.
use lifeline.Prelude.{◌≡◌, refl, String, false}
use lifeline.Prelude.{some, [], arith}
use lifeline.Model.Graph.{edge_normal}
use lifeline.Model.Graph.WellFormed.{succs, IsWellFormed}
use lifeline.Cfg.Ast.{
  NodeId, Stmt, Stmts, Clauses, Comms, nil_stmt, block_stmt, labeled_stmt, if_stmt, for_stmt,
  range_stmt, switch_stmt, type_switch_stmt, select_stmt, no_stmts, more_stmts, no_clauses, clause,
  no_comms, comm,
}
use lifeline.Cfg.Builder.{Env, Builder, new_block, span_of}
use lifeline.Cfg.Builder.Wiring.{label_kind}
use lifeline.Cfg.Build.{
  labels_in, labels_in_list, labels_in_clauses, labels_in_comms, allocate_label, start, finish,
  run_build, span_of_body, build_context,
}
use lifeline.Cfg.Invariant.Blocks.{AreWellFormed-fresh, AreWellFormed-nil}
use lifeline.Cfg.Invariant.Primitives.{
  Inv, Extends, Extends-refl, Extends-trans, Keeps, new_block-Extends, new_block-IsLive,
  set_label-Extends, add_edge-Extends, on_some-Extends, if-Extends,
}
use lifeline.Cfg.Invariant.Chain.{polled-Keeps, run_then, Inv-exit_lt, current-IsLive}
use lifeline.Cfg.Invariant.Statements.{stmt_list-Keeps}

allocate_label-Keeps : (name : String) → Keeps (allocate_label name)
unfolding allocate_label
allocate_label-Keeps name b i =
    let e = new_block-Extends (label_kind name) b i in
    Extends-trans e (set_label-Extends name _ _ e.inv (new_block-IsLive (label_kind name) b i))

module _ (env : Env) where
  mutual
    unfolding labels_in

    labels_in-Keeps : (s : Stmt) → Keeps (labels_in env s)
    labels_in-Keeps nil_stmt = λ b i. Extends-refl i
    labels_in-Keeps (block_stmt n body) = polled-Keeps env _ (labels_in_list-Keeps body)
    labels_in-Keeps (labeled_stmt n name s) =
        polled-Keeps env _ (λ b i. run_then (allocate_label-Keeps name b i) (labels_in-Keeps s))
    labels_in-Keeps (if_stmt n init cond body els) = polled-Keeps env _ (λ b i.
        run_then (run_then (labels_in-Keeps init b i) (labels_in-Keeps body)) (labels_in-Keeps els))
    labels_in-Keeps (for_stmt n init cond post body) = polled-Keeps env _ (λ b i.
        run_then (run_then (labels_in-Keeps init b i) (labels_in-Keeps post))
          (labels_in-Keeps body))
    labels_in-Keeps (range_stmt n x body) = polled-Keeps env _ (labels_in-Keeps body)
    labels_in-Keeps (switch_stmt n init cs) =
        polled-Keeps env _ (λ b i. run_then (labels_in-Keeps init b i) (labels_in_clauses-Keeps cs))
    labels_in-Keeps (type_switch_stmt n init cs) =
        polled-Keeps env _ (λ b i. run_then (labels_in-Keeps init b i) (labels_in_clauses-Keeps cs))
    labels_in-Keeps (select_stmt n cs) = polled-Keeps env _ (labels_in_comms-Keeps cs)
    labels_in-Keeps _ = polled-Keeps env _ (λ b i. Extends-refl i)

    labels_in_list-Keeps : (ss : Stmts) → Keeps (labels_in_list env ss)
    labels_in_list-Keeps no_stmts = λ b i. Extends-refl i
    labels_in_list-Keeps (more_stmts s rest) =
        λ b i. run_then (labels_in-Keeps s b i) (labels_in_list-Keeps rest)

    labels_in_clauses-Keeps : (cs : Clauses) → Keeps (labels_in_clauses env cs)
    labels_in_clauses-Keeps no_clauses = λ b i. Extends-refl i
    labels_in_clauses-Keeps (clause n list body rest) = λ b i.
        run_then (polled-Keeps env _ (labels_in_list-Keeps body) b i) (labels_in_clauses-Keeps rest)

    labels_in_comms-Keeps : (cs : Comms) → Keeps (labels_in_comms env cs)
    labels_in_comms-Keeps no_comms = λ b i. Extends-refl i
    labels_in_comms-Keeps (comm n s body rest) = λ b i.
        run_then
          (polled-Keeps env _ (λ b i. run_then (labels_in-Keeps s b i) (labels_in_list-Keeps body))
            b i)
          (labels_in_comms-Keeps rest)

  start-Inv : Inv (start env)
  unfolding start new_block succs
  start-Inv = record {
    formed =
        AreWellFormed-fresh _ refl refl refl
          (AreWellFormed-fresh _ refl refl refl AreWellFormed-nil);
    exit_one = refl;
    has_exit = omega arith;
    current_live = (omega arith, omega arith);
    frames_live = tt;
    labels_live = λ name id e. absurd (cc);
    terminal = refl;
    in_range = refl;
  }

  finish-Extends : (n : NodeId) (b : Builder) → Inv b → Extends b (finish env (some n) b)
  unfolding finish span_of_body
  finish-Extends n b i = if-Extends b.err (Extends-refl i) (
      on_some-Extends b.current b _ i (λ cur e.
        add_edge-Extends cur b.exit edge_normal "" (span_of env n) b i (current-IsLive b i cur e)
          (Inv-exit_lt i)))

  run_build-Inv : (n : NodeId) (body : Stmts) → Inv (run_build env (some (n, body)))
  unfolding run_build
  run_build-Inv n body =
      let labels = polled-Keeps env _ (labels_in_list-Keeps body) _ start-Inv in
      (finish-Extends n _ (run_then labels (stmt_list-Keeps env body)).inv).inv

-- On every body, under every context, with or without positions and types, the graph that
-- `BuildContext` returns is well formed: block numbers are positions, entry and exit are blocks of
-- it, edges start at the block that lists them and end in the graph, and predecessor lists mirror
-- successor lists with their multiplicities. This holds of a partial graph too.
pub build_context-IsWellFormed :
    (env : Env) (name : String) (n : NodeId) (body : Stmts)
    → IsWellFormed (build_context env name (some (n, body))).0
unfolding build_context
build_context-IsWellFormed env name n body =
    let i = run_build-Inv env n body in
    record {
      entry_fits = omega (arith, i.has_exit);
      exit_fits = Inv-exit_lt i;
      blocks_fit = i.formed;
    }

-- On every body, no block list is read or written out of range and no frame is popped that is not
-- there, so building the graph does not panic; and the exit block of the graph has no successors.
pub build_context_terminal :
    (env : Env) (name : String) (n : NodeId) (body : Stmts)
    → ((run_build env (some (n, body))).panicked ≡ false)
      × (succs
            (build_context env name (some (n, body))).0.blocks
            (build_context env name (some (n, body))).0.exit
          ≡ [])
unfolding build_context
build_context_terminal env name n body =
    let i = run_build-Inv env n body in (i.in_range, rw i.exit_one i.terminal)
