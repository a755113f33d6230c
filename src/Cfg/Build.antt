-- ===== src/Cfg/Build.antt =====
-- `Build` and `BuildContext` of internal/cfg/cfg.go, and the recursion over the statements of a
-- body. The recursion is on the syntax, so it needs no fuel.
use lifeline.Prelude.{String, Bool, true, false, Option, none, some, List, [], ◌∷◌}
use lifeline.Prelude.{if◌then◌else◌}
use lifeline.Model.Source.{Span, no_span}
use lifeline.Model.Graph.{BlockId, Cfg, edge_normal, edge_case, edge_fallthrough}
use lifeline.Cfg.Ast.{
  NodeId, Exprs, Call, Simple, Stmt, Stmts, Clauses, Comms, tok_fallthrough, nil_stmt, block_stmt,
  labeled_stmt, simple, var_decl, decl_stmt, go_stmt, defer_stmt, empty_stmt, if_stmt, for_stmt,
  range_stmt, switch_stmt, type_switch_stmt, select_stmt, return_stmt, branch_stmt, other_stmt,
  no_stmts, more_stmts, no_clauses, clause, no_comms, comm, call_id,
}
use lifeline.Cfg.Types.{callee_name}
use lifeline.Cfg.Render.{render_expr_list, render_comm_clause}
use lifeline.Cfg.Builder.{
  Env, Builder, CallSite, on_some, new_block, add_edge, set_current, span_of, emit, record_call,
  mark_async, set_label,
}
use lifeline.Cfg.Builder.Traverse.{simple_stmt, simple_id, record_results}
use lifeline.Cfg.Builder.Wiring.{
  polled, link_current, if_wiring, for_wiring, range_wiring, switch_frame, branch_wiring,
  label_wiring, label_kind, return_wiring,
}

abbrev pub is_nil : Stmt → Bool
is_nil nil_stmt = true
is_nil s = false

abbrev pub stmt_id : Stmt → NodeId
stmt_id nil_stmt = 0
stmt_id (block_stmt n body) = n
stmt_id (labeled_stmt n name s) = n
stmt_id (simple s) = simple_id s
stmt_id (var_decl n specs) = n
stmt_id (decl_stmt n) = n
stmt_id (go_stmt n c) = n
stmt_id (defer_stmt n c) = n
stmt_id (empty_stmt n) = n
stmt_id (if_stmt n init cond body els) = n
stmt_id (for_stmt n init cond post body) = n
stmt_id (range_stmt n x body) = n
stmt_id (switch_stmt n init cs) = n
stmt_id (type_switch_stmt n init cs) = n
stmt_id (select_stmt n cs) = n
stmt_id (return_stmt n results) = n
stmt_id (branch_stmt n tok label) = n
stmt_id (other_stmt n) = n

unfoldable pub is_fallthrough : Stmt → Bool
is_fallthrough (branch_stmt n tok_fallthrough label) = true
is_fallthrough s = false

unfoldable pub is_last : Stmts → Bool
is_last no_stmts = true
is_last (more_stmts s rest) = false

unfoldable pub has_default : Clauses → Bool
has_default no_clauses = false
has_default (clause n none body rest) = true
has_default (clause n (some list) body rest) = has_default rest

-- The loop that allocates one block for each clause.
unfoldable pub case_blocks : Clauses → Builder → List BlockId × Builder
case_blocks no_clauses b = ([], b)
case_blocks (clause n list body rest) b =
    let (blk, b₁) = new_block "case" b in let (blks, b₂) = case_blocks rest b₁ in (blk ∷ blks, b₂)

unfoldable pub clause_label : Option Exprs → String
clause_label none = "default"
clause_label (some list) = render_expr_list list

-- The step of `preAllocateLabels` at a labelled statement.
unfoldable pub allocate_label : String → Builder → Builder
allocate_label name b = let (id, b₁) = new_block (label_kind name) b in set_label name id b₁

module _ (env : Env) where
  unfoldable pub var_specs : List Simple → Builder → Builder
  var_specs [] b = b
  var_specs (s ∷ specs) b = var_specs specs (simple_stmt env s b)

  unfoldable pub comm_label : Stmt → String
  comm_label nil_stmt = "default"
  comm_label s = render_comm_clause env.type_name s

  -- The end of a case of a switch: an edge to the next case where the body falls through and there
  -- is a next case, and else to the block after the switch.
  unfoldable pub end_case : NodeId → Bool → List BlockId → BlockId → Builder → Builder
  end_case n true (next ∷ rest) after b = link_current next edge_fallthrough (span_of env n) b
  end_case n falls blks after b = link_current after edge_normal no_span b

  unfoldable pub go_wiring : NodeId → Call → Builder → Builder
  go_wiring n c b =
      emit env "go" n (callee_name env.info c) (mark_async (call_id c) (record_call (call_id c) b))

  unfoldable pub defer_wiring : NodeId → Call → Builder → Builder
  defer_wiring n c b = emit env "defer" n (callee_name env.info c) (record_call (call_id c) b)

  -- What `switchStmt` and `typeSwitchStmt` do between the push and the pop of their frame; `run` is
  -- the call of `switchCaseBodies`.
  unfoldable pub switch_cases :
      NodeId
      → Clauses
      → (BlockId → List BlockId → BlockId → Builder → Builder)
      → BlockId
      → BlockId
      → Builder
      → Builder
  switch_cases n cs run head after b =
      let (blks, b₁) = case_blocks cs b in
      run head blks after (
        if has_default cs
        then b₁
        else add_edge head after edge_normal "no match" (span_of env n) b₁)

  unfoldable mutual
    pub stmt : Stmt → String → Builder → Builder
    stmt nil_stmt label b = polled env (λ b. b) b
    stmt (block_stmt n body) label b = polled env (stmt_list body) b
    stmt (labeled_stmt n name s) label b =
        polled env (λ b. stmt s name (label_wiring env n name b)) b
    stmt (simple s) label b = polled env (simple_stmt env s) b
    stmt (var_decl n specs) label b = polled env (var_specs specs) b
    stmt (decl_stmt n) label b = polled env (emit env "decl" n "") b
    stmt (go_stmt n c) label b = polled env (go_wiring n c) b
    stmt (defer_stmt n c) label b = polled env (defer_wiring n c) b
    stmt (empty_stmt n) label b = polled env (λ b. b) b
    stmt (if_stmt n init cond body els) label b =
        polled env
          (λ b.
            if_wiring env cond (stmt body "") (if is_nil els then none else some (stmt els ""))
              (if is_nil init then b else stmt init "" b))
          b
    stmt (for_stmt n init cond post body) label b =
        polled env
          (λ b.
            for_wiring env n label cond
              (if is_nil post then none else some (stmt_id post, stmt post "")) (stmt body "")
              (if is_nil init then b else stmt init "" b))
          b
    stmt (range_stmt n x body) label b = polled env (range_wiring env n label x (stmt body "")) b
    stmt (switch_stmt n init cs) label b =
        polled env
          (λ b.
            switch_frame "switch-after" label (switch_cases n cs (case_bodies cs))
              (if is_nil init then b else stmt init "" b))
          b
    stmt (type_switch_stmt n init cs) label b =
        polled env
          (λ b.
            switch_frame "switch-after" label (switch_cases n cs (case_bodies cs))
              (if is_nil init then b else stmt init "" b))
          b
    stmt (select_stmt n cs) label b =
        polled env (switch_frame "select-after" label (comm_cases cs)) b
    stmt (return_stmt n results) label b =
        polled env (λ b. return_wiring env n (record_results results b)) b
    stmt (branch_stmt n tok label') label b = polled env (branch_wiring env n tok label') b
    stmt (other_stmt n) label b = polled env (emit env "stmt" n "") b

    pub stmt_list : Stmts → Builder → Builder
    stmt_list no_stmts b = b
    stmt_list (more_stmts s rest) b = polled env (λ b. stmt_list rest (stmt s "" b)) b

    -- The body of a case up to a fallthrough statement, and whether that one is the last.
    pub case_body : Stmts → Builder → Bool × Builder
    case_body no_stmts b = (false, b)
    case_body (more_stmts s rest) b =
        if is_fallthrough s then (is_last rest, b) else case_body rest (stmt s "" b)

    -- `switchCaseBodies`.
    pub case_bodies : Clauses → BlockId → List BlockId → BlockId → Builder → Builder
    case_bodies no_clauses head blks after b = b
    case_bodies (clause n list body rest) head [] after b = record b { panicked = true }
    case_bodies (clause n list body rest) head (blk ∷ blks) after b =
        let b₁ = add_edge head blk edge_case (clause_label list) (span_of env n) b in
        let (falls, b₂) = case_body body (set_current (some blk) b₁) in
        case_bodies rest head blks after (end_case n falls blks after b₂)

    -- The loop of `selectStmt`.
    pub comm_cases : Comms → BlockId → BlockId → Builder → Builder
    comm_cases no_comms head after b = b
    comm_cases (comm n s body rest) head after b =
        let (blk, b₁) = new_block "comm-case" b in
        let b₂ = add_edge head blk edge_case (comm_label s) (span_of env n) b₁ in
        let b₃ = stmt_list body (set_current (some blk) b₂) in
        comm_cases rest head after (link_current after edge_normal no_span b₃)

  -- `preAllocateLabels`. The polls made on the visit of expressions, which hold no statement outside
  -- of function literals, are not counted: an error that one of them meets, the next poll meets.
  unfoldable mutual
    pub labels_in : Stmt → Builder → Builder
    labels_in nil_stmt b = b
    labels_in (block_stmt n body) b = polled env (labels_in_list body) b
    labels_in (labeled_stmt n name s) b = polled env (λ b. labels_in s (allocate_label name b)) b
    labels_in (if_stmt n init cond body els) b =
        polled env (λ b. labels_in els (labels_in body (labels_in init b))) b
    labels_in (for_stmt n init cond post body) b =
        polled env (λ b. labels_in body (labels_in post (labels_in init b))) b
    labels_in (range_stmt n x body) b = polled env (labels_in body) b
    labels_in (switch_stmt n init cs) b =
        polled env (λ b. labels_in_clauses cs (labels_in init b)) b
    labels_in (type_switch_stmt n init cs) b =
        polled env (λ b. labels_in_clauses cs (labels_in init b)) b
    labels_in (select_stmt n cs) b = polled env (labels_in_comms cs) b
    labels_in (simple s) b = polled env (λ b. b) b
    labels_in (var_decl n specs) b = polled env (λ b. b) b
    labels_in (decl_stmt n) b = polled env (λ b. b) b
    labels_in (go_stmt n c) b = polled env (λ b. b) b
    labels_in (defer_stmt n c) b = polled env (λ b. b) b
    labels_in (empty_stmt n) b = polled env (λ b. b) b
    labels_in (return_stmt n results) b = polled env (λ b. b) b
    labels_in (branch_stmt n tok label) b = polled env (λ b. b) b
    labels_in (other_stmt n) b = polled env (λ b. b) b

    pub labels_in_list : Stmts → Builder → Builder
    labels_in_list no_stmts b = b
    labels_in_list (more_stmts s rest) b = labels_in_list rest (labels_in s b)

    pub labels_in_clauses : Clauses → Builder → Builder
    labels_in_clauses no_clauses b = b
    labels_in_clauses (clause n list body rest) b =
        labels_in_clauses rest (polled env (labels_in_list body) b)

    pub labels_in_comms : Comms → Builder → Builder
    labels_in_comms no_comms b = b
    labels_in_comms (comm n s body rest) b =
        labels_in_comms rest (polled env (λ b. labels_in_list body (labels_in s b)) b)

  -- The builder before its first block.
  abbrev pub initial : Builder
  initial = record {
    polls = 0;
    err = false;
    blocks = [];
    current = none;
    frames = [];
    labels = λ name. none;
    exit = 0;
    call_sites = λ c. none;
    panicked = false;
  }

  -- The blocks of entry and exit.
  unfoldable pub start : Builder
  start =
      let (entry, b₁) = new_block "entry" initial in
      let (exit, b₂) = new_block "exit" b₁ in record b₂ { exit = exit; current = some entry }

  -- `spanOf` of the body, a pointer that may be nil: without a file set nothing is read of it, and with one its
  -- `Pos` is, which a nil pointer does not have.
  unfoldable pub span_of_body : Option NodeId → Option Span
  span_of_body (some n) = some (span_of env n)
  span_of_body none = elim env.fset [ none ↦ some no_span | some positions ↦ none ]

  -- The edge from the end of the body to the exit; a read through a nil pointer is a panic.
  unfoldable pub finish : Option NodeId → Builder → Builder
  finish body b =
      if b.err
      then b
      else on_some b.current b (λ cur. elim (span_of_body body) [
        | some span ↦ add_edge cur b.exit edge_normal "" span b
        | none ↦ record b { panicked = true }
      ])

  -- The builder at the end of `BuildContext`, on a body or on nil.
  unfoldable pub run_build : Option (NodeId × Stmts) → Builder
  run_build none = finish none start
  run_build (some (n, body)) =
      finish (some n) (stmt_list body (polled env (labels_in_list body) start))

  -- `BuildContext`: the graph, the call sites, and whether an error was met.
  unfoldable pub build_context :
      String → Option (NodeId × Stmts) → Cfg × (NodeId → Option CallSite) × Bool
  build_context name body =
      let b = run_build body in
      (record { function = name; entry = 0; exit = b.exit; blocks = b.blocks }, b.call_sites, b.err)

-- `Build`: the same with a context that never reports an error.
unfoldable pub build : Env → String → Option (NodeId × Stmts) → Cfg × (NodeId → Option CallSite)
build env name body =
    let (g, sites, err) = build_context (record env { ctx_err = λ k. false }) name body in
    (g, sites)
