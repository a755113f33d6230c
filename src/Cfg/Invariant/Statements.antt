-- ===== src/Cfg/Invariant/Statements.antt =====
-- Every statement keeps the builder's invariant, and so does `BuildContext` as a whole: the graph
-- that it returns is well formed and its exit is terminal.
use lifeline.Prelude.{ℕ, ◌≤◌, String, Bool, true, false}
use lifeline.Prelude.{Option, none, some, List, [], ◌∷◌, if◌then◌else◌}
use lifeline.Model.Source.{no_span}
use lifeline.Model.Graph.{BlockId, edge_normal, edge_case, edge_panic, edge_trusted_stop}
use lifeline.Cfg.Ast.{
  NodeId, Expr, Exprs, Call, Simple, Stmt, Stmts, Clauses, Comms, call_id, nil_stmt, block_stmt,
  labeled_stmt, simple, var_decl, decl_stmt, go_stmt, defer_stmt, empty_stmt, if_stmt, for_stmt,
  range_stmt, switch_stmt, type_switch_stmt, select_stmt, return_stmt, branch_stmt, other_stmt,
  no_stmts, more_stmts, no_clauses, clause, no_comms, comm, call_expr, no_exprs, more_exprs,
  expr_stmt, assign_stmt, inc_dec_stmt, send_stmt, value_spec,
}
use lifeline.Cfg.Types.{callee_name, is_panic_call}
use lifeline.Cfg.Builder.{Env, Builder, size, span_of}
use lifeline.Cfg.Builder.Traverse.{
  record_expr, record_exprs, record_direct_calls, record_results, unparen, panic_stmt, trusted_stmt,
  simple_stmt, by_call, find_call, trusted_call, simple_op, simple_id, simple_callee,
}
use lifeline.Cfg.Build.{
  var_specs, end_case, go_wiring, defer_wiring, is_nil, stmt_id, is_fallthrough, has_default,
  case_blocks, clause_label, comm_label, stmt, stmt_list, case_body, case_bodies, switch_cases,
  comm_cases,
}
use lifeline.Cfg.Invariant.Primitives.{
  IsLive, Inv, Extends, Extends-refl, Extends-trans, Keeps, IsLive-mono, new_block-Extends,
  new_block-IsLive, ensure_current-Extends, ensure_current-IsLive, emit-Extends,
  record_call-Extends, mark_async-Extends, if-Extends, if-Extends_state,
}
use lifeline.Cfg.Invariant.Chain.{
  polled-Keeps, run_then, stop_then, enter_then, edge_then, link_then, Inv-exit_lt,
}
use lifeline.Cfg.Invariant.Wiring.{
  OptionKeeps, PostKeeps, if_wiring-Keeps, for_wiring-Keeps, range_wiring-Keeps, switch_frame-Keeps,
  branch_wiring-Keeps, label_wiring-Keeps, return_wiring-Keeps,
}

record_expr-Keeps : (e : Expr) → Keeps (record_expr e)
unfolding record_expr
record_expr-Keeps (call_expr c) b i = record_call-Extends (call_id c) b i
record_expr-Keeps _ b i = Extends-refl i

record_exprs-Keeps : (es : Exprs) → Keeps (record_exprs es)
unfolding record_exprs
record_exprs-Keeps no_exprs b i = Extends-refl i
record_exprs-Keeps (more_exprs e es) b i =
    run_then (record_expr-Keeps e b i) (record_exprs-Keeps es)

record_results-Keeps : (es : Exprs) → Keeps (record_results es)
unfolding record_results
record_results-Keeps no_exprs b i = Extends-refl i
record_results-Keeps (more_exprs e es) b i =
    run_then (record_expr-Keeps (unparen e) b i) (record_results-Keeps es)

record_direct_calls-Keeps : (s : Simple) → Keeps (record_direct_calls s)
unfolding record_direct_calls
record_direct_calls-Keeps (value_spec id names values) b i = record_exprs-Keeps values b i
record_direct_calls-Keeps (expr_stmt id x) b i = record_expr-Keeps x b i
record_direct_calls-Keeps (assign_stmt id lhs rhs) b i = record_exprs-Keeps rhs b i
record_direct_calls-Keeps (inc_dec_stmt id x) b i = Extends-refl i
record_direct_calls-Keeps (send_stmt id chan value) b i = Extends-refl i

abbrev AreLive : ℕ → List BlockId → Type 0
AreLive n [] = Unit
AreLive n (id ∷ ids) = IsLive n id × AreLive n ids

-- One live block for each clause.
abbrev AreCases : ℕ → Clauses → List BlockId → Type 0
AreCases n no_clauses ids = AreLive n ids
AreCases n (clause m list body rest) [] = ⊥
AreCases n (clause m list body rest) (id ∷ ids) = IsLive n id × AreCases n rest ids

AreLive-AreCases : (n : ℕ) (cs : Clauses) (ids : List BlockId) → AreCases n cs ids → AreLive n ids
AreLive-AreCases n no_clauses ids l = l
AreLive-AreCases n (clause m list body rest) [] l = absurd l
AreLive-AreCases n (clause m list body rest) (id ∷ ids) l = (l.0, AreLive-AreCases n rest ids l.1)

AreLive-mono : (n m : ℕ) (ids : List BlockId) → AreLive n ids → n ≤ m → AreLive m ids
AreLive-mono n m [] l h = tt
AreLive-mono n m (id ∷ ids) l h = (IsLive-mono id l.0 h, AreLive-mono n m ids l.1 h)

AreCases-mono :
    (n m : ℕ) (cs : Clauses) (ids : List BlockId) → AreCases n cs ids → n ≤ m → AreCases m cs ids
AreCases-mono n m no_clauses ids l h = AreLive-mono n m ids l h
AreCases-mono n m (clause k list body rest) [] l h = absurd l
AreCases-mono n m (clause k list body rest) (id ∷ ids) l h =
    (IsLive-mono id l.0 h, AreCases-mono n m rest ids l.1 h)

module _ (env : Env) where
  panic_stmt-Keeps : (n : NodeId) → Keeps (panic_stmt env n)
  unfolding panic_stmt
  panic_stmt-Keeps n b i =
      let e₁ = emit-Extends env "panic" n "panic" b i in
      let e₂ = ensure_current-Extends _ e₁.inv in
      let l₂ = ensure_current-IsLive _ e₁.inv in
      Extends-trans (Extends-trans e₁ e₂)
        (stop_then (edge_then (Extends-refl e₂.inv) l₂ (Inv-exit_lt e₂.inv) edge_panic "" _))

  trusted_stmt-Keeps : (n : NodeId) (c : Call) → Keeps (trusted_stmt env n c)
  unfolding trusted_stmt
  trusted_stmt-Keeps n c b i =
      let e₁ = emit-Extends env "trusted-call" n (callee_name env.info c) b i in
      let e₂ = ensure_current-Extends _ e₁.inv in
      let l₂ = ensure_current-IsLive _ e₁.inv in
      let e₃ = new_block-Extends "after-trusted-call" _ e₂.inv in
      let l₃ = new_block-IsLive "after-trusted-call" _ e₂.inv in
      let cur = IsLive-mono _ l₂ e₃.grows in
      let e₄ = edge_then (Extends-refl e₃.inv) cur l₃.0 edge_normal "" (span_of env n) in
      let e₅ =
        edge_then (Extends-refl e₄.inv) (IsLive-mono _ cur e₄.grows) (Inv-exit_lt e₄.inv)
          edge_trusted_stop "" (span_of env n) in
      Extends-trans (Extends-trans e₁ (Extends-trans e₂ e₃)) (enter_then (Extends-trans e₄ e₅) l₃)

  by_call-Extends :
      (o : Option Call) (f : Call → Builder) {a b : Builder}
      → ((c : Call) → Extends a (f c))
      → Extends a b
      → Extends a (by_call o f b)
  unfolding by_call
  by_call-Extends (some c) f k e = k c
  by_call-Extends none f k e = e

  simple_stmt-Keeps : (s : Simple) → Keeps (simple_stmt env s)
  unfolding simple_stmt
  simple_stmt-Keeps s b i =
      let e = record_direct_calls-Keeps s b i in
      Extends-trans e (
        by_call-Extends (find_call (is_panic_call env.info) s) _
          (λ c. panic_stmt-Keeps (simple_id s) _ e.inv)
          (by_call-Extends (trusted_call env s) _ (λ c. trusted_stmt-Keeps (simple_id s) c _ e.inv)
            (emit-Extends env (simple_op s) (simple_id s) (simple_callee env s) _ e.inv)))

  var_specs-Keeps : (specs : List Simple) → Keeps (var_specs env specs)
  unfolding var_specs
  var_specs-Keeps [] b i = Extends-refl i
  var_specs-Keeps (s ∷ specs) b i = run_then (simple_stmt-Keeps s b i) (var_specs-Keeps specs)

  go_wiring-Keeps : (n : NodeId) (c : Call) → Keeps (go_wiring env n c)
  unfolding go_wiring
  go_wiring-Keeps n c b i =
      run_then (run_then (record_call-Extends (call_id c) b i) (mark_async-Extends (call_id c)))
        (emit-Extends env "go" n (callee_name env.info c))

  defer_wiring-Keeps : (n : NodeId) (c : Call) → Keeps (defer_wiring env n c)
  unfolding defer_wiring
  defer_wiring-Keeps n c b i =
      run_then (record_call-Extends (call_id c) b i)
        (emit-Extends env "defer" n (callee_name env.info c))

  end_case-Extends :
      (n : NodeId) (falls : Bool) (blks : List BlockId) (after : BlockId) (b : Builder)
      → Inv b
      → AreLive (size b) blks
      → IsLive (size b) after
      → Extends b (end_case env n falls blks after b)
  unfolding end_case
  end_case-Extends n true (next ∷ rest) after b i l m = link_then (Extends-refl i) l.0.0 _ _
  end_case-Extends n true [] after b i l m = link_then (Extends-refl i) m.0 _ _
  end_case-Extends n false blks after b i l m = link_then (Extends-refl i) m.0 _ _

  case_blocks-Extends :
      (cs : Clauses) (b : Builder)
      → Inv b
      → Extends b (case_blocks cs b).1
        × AreCases (size (case_blocks cs b).1) cs (case_blocks cs b).0
  unfolding case_blocks
  case_blocks-Extends no_clauses b i = (Extends-refl i, tt)
  case_blocks-Extends (clause n list body rest) b i =
      let e = new_block-Extends "case" b i in
      let (f, l) = case_blocks-Extends rest _ e.inv in
      (Extends-trans e f, (IsLive-mono _ (new_block-IsLive "case" b i) f.grows, l))

  -- The wiring of a switch keeps the invariant if that of its cases does.
  abbrev RunKeeps : Clauses → (BlockId → List BlockId → BlockId → Builder → Builder) → Type 0
  RunKeeps cs run =
      (head : BlockId) (blks : List BlockId) (after : BlockId) (b : Builder)
      → Inv b
      → IsLive (size b) head
      → AreCases (size b) cs blks
      → IsLive (size b) after
      → Extends b (run head blks after b)

  switch_cases-Extends :
      (n : NodeId) (cs : Clauses) (run : BlockId → List BlockId → BlockId → Builder → Builder)
      → RunKeeps cs run
      → (head after : BlockId) (b : Builder) → Inv b
      → IsLive (size b) head
      → IsLive (size b) after
      → Extends b (switch_cases env n cs run head after b)
  unfolding switch_cases
  switch_cases-Extends n cs run k head after b i l m =
      let (e, blks) = case_blocks-Extends cs b i in
      let at_head = IsLive-mono head l e.grows in
      let at_after = IsLive-mono after m e.grows in
      let f = if-Extends (has_default cs) (Extends-refl e.inv) (
        edge_then (Extends-refl e.inv) at_head at_after.0 edge_normal "no match" (span_of env n)) in
      Extends-trans (Extends-trans e f) (
        k head _ after _ f.inv (IsLive-mono head at_head f.grows)
          (AreCases-mono _ _ cs _ blks f.grows) (IsLive-mono after at_after f.grows))

  -- The optional parts of a statement.
  init-Extends :
      (init : Stmt) (b : Builder)
      → Inv b
      → Extends b (stmt env init "" b)
      → Extends b (if is_nil init then b else stmt env init "" b)
  init-Extends init b i e = if-Extends (is_nil init) (Extends-refl i) e

  else-Keeps :
      (els : Stmt)
      → Keeps (stmt env els "")
      → OptionKeeps env (if is_nil els then none else some (stmt env els ""))
  else-Keeps els k =
      elim (is_nil els) as (λ t. OptionKeeps env (if t then none else some (stmt env els ""))) [
        | true ↦ tt
        | false ↦ k
      ]

  post-Keeps :
      (post : Stmt)
      → Keeps (stmt env post "")
      → PostKeeps env (if is_nil post then none else some (stmt_id post, stmt env post ""))
  post-Keeps post k =
      elim (is_nil post)
        as (λ t. PostKeeps env (if t then none else some (stmt_id post, stmt env post ""))) [
          | true ↦ tt
          | false ↦ k
        ]

  mutual
    unfolding stmt

    stmt-Keeps : (s : Stmt) (label : String) → Keeps (stmt env s label)
    stmt-Keeps nil_stmt label = polled-Keeps env _ (λ b i. Extends-refl i)
    stmt-Keeps (block_stmt n body) label = polled-Keeps env _ (stmt_list-Keeps body)
    stmt-Keeps (labeled_stmt n name s) label =
        polled-Keeps env _ (λ b i. run_then (label_wiring-Keeps env n name b i) (stmt-Keeps s name))
    stmt-Keeps (simple s) label = polled-Keeps env _ (simple_stmt-Keeps s)
    stmt-Keeps (var_decl n specs) label = polled-Keeps env _ (var_specs-Keeps specs)
    stmt-Keeps (decl_stmt n) label = polled-Keeps env _ (emit-Extends env "decl" n "")
    stmt-Keeps (go_stmt n c) label = polled-Keeps env _ (go_wiring-Keeps n c)
    stmt-Keeps (defer_stmt n c) label = polled-Keeps env _ (defer_wiring-Keeps n c)
    stmt-Keeps (empty_stmt n) label = polled-Keeps env _ (λ b i. Extends-refl i)
    stmt-Keeps (if_stmt n init cond body els) label = polled-Keeps env _ (λ b i.
        run_then (init-Extends init b i (stmt-Keeps init "" b i))
          (if_wiring-Keeps env cond _ _ (stmt-Keeps body "") (else-Keeps els (stmt-Keeps els ""))))
    stmt-Keeps (for_stmt n init cond post body) label = polled-Keeps env _ (λ b i.
        run_then (init-Extends init b i (stmt-Keeps init "" b i)) (
          for_wiring-Keeps env n label cond _ _ (post-Keeps post (stmt-Keeps post ""))
            (stmt-Keeps body "")))
    stmt-Keeps (range_stmt n x body) label =
        polled-Keeps env _ (range_wiring-Keeps env n label x _ (stmt-Keeps body ""))
    stmt-Keeps (switch_stmt n init cs) label = polled-Keeps env _ (λ b i.
        run_then (init-Extends init b i (stmt-Keeps init "" b i)) (
          switch_frame-Keeps "switch-after" label _
            (switch_cases-Extends n cs _ (case_bodies-Extends cs))))
    stmt-Keeps (type_switch_stmt n init cs) label = polled-Keeps env _ (λ b i.
        run_then (init-Extends init b i (stmt-Keeps init "" b i)) (
          switch_frame-Keeps "switch-after" label _
            (switch_cases-Extends n cs _ (case_bodies-Extends cs))))
    stmt-Keeps (select_stmt n cs) label =
        polled-Keeps env _ (switch_frame-Keeps "select-after" label _ (comm_cases-Extends cs))
    stmt-Keeps (return_stmt n results) label =
        polled-Keeps env _
          (λ b i. run_then (record_results-Keeps results b i) (return_wiring-Keeps env n))
    stmt-Keeps (branch_stmt n tok label') label =
        polled-Keeps env _ (branch_wiring-Keeps env n tok label')
    stmt-Keeps (other_stmt n) label = polled-Keeps env _ (emit-Extends env "stmt" n "")

    pub stmt_list-Keeps : (ss : Stmts) → Keeps (stmt_list env ss)
    stmt_list-Keeps no_stmts = λ b i. Extends-refl i
    stmt_list-Keeps (more_stmts s rest) =
        polled-Keeps env _ (λ b i. run_then (stmt-Keeps s "" b i) (stmt_list-Keeps rest))

    case_body-Extends : (ss : Stmts) (b : Builder) → Inv b → Extends b (case_body env ss b).1
    case_body-Extends no_stmts b i = Extends-refl i
    case_body-Extends (more_stmts s rest) b i =
        let e = stmt-Keeps s "" b i in
        if-Extends_state (is_fallthrough s) b _ _ (Extends-refl i)
          (Extends-trans e (case_body-Extends rest (stmt env s "" b) e.inv))

    case_bodies-Extends : (cs : Clauses) → RunKeeps cs (case_bodies env cs)
    case_bodies-Extends no_clauses head blks after b i l ls m = Extends-refl i
    case_bodies-Extends (clause n list body rest) head [] after b i l ls m = absurd ls
    case_bodies-Extends (clause n list body rest) head (blk ∷ blks) after b i l ls m =
        let e₁ =
          enter_then
            (edge_then (Extends-refl i) l ls.0.0 edge_case (clause_label list) (span_of env n))
            ls.0 in
        let e₂ = Extends-trans e₁ (case_body-Extends body _ e₁.inv) in
        let at_after = IsLive-mono after m e₂.grows in
        let cases = AreCases-mono _ _ rest blks ls.1 e₂.grows in
        let e₃ = Extends-trans e₂ (
          end_case-Extends n (case_body env body _).0 blks after _ e₂.inv
            (AreLive-AreCases _ rest blks cases) at_after) in
        Extends-trans e₃ (
          case_bodies-Extends rest head blks after _ e₃.inv (IsLive-mono head l e₃.grows)
            (AreCases-mono _ _ rest blks ls.1 e₃.grows) (IsLive-mono after m e₃.grows))

    comm_cases-Extends :
        (cs : Comms) (head after : BlockId) (b : Builder)
        → Inv b
        → IsLive (size b) head
        → IsLive (size b) after
        → Extends b (comm_cases env cs head after b)
    comm_cases-Extends no_comms head after b i l m = Extends-refl i
    comm_cases-Extends (comm n s body rest) head after b i l m =
        let e₁ = new_block-Extends "comm-case" b i in
        let l₁ = new_block-IsLive "comm-case" b i in
        let e₂ =
          enter_then
            (edge_then (Extends-refl e₁.inv) (IsLive-mono head l e₁.grows) l₁.0 edge_case
              (comm_label env s) (span_of env n))
            l₁ in
        let e₃ = Extends-trans e₁ (run_then e₂ (stmt_list-Keeps body)) in
        let e₄ =
          Extends-trans e₃ (
            link_then (Extends-refl e₃.inv) (IsLive-mono after m e₃.grows).0 edge_normal no_span) in
        Extends-trans e₄ (
          comm_cases-Extends rest head after _ e₄.inv (IsLive-mono head l e₄.grows)
            (IsLive-mono after m e₄.grows))
