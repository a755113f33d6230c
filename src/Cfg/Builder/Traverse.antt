-- ===== src/Cfg/Builder/Traverse.antt =====
-- The traversals of cfg.go below a statement: the calls that it holds, and what `simpleStmt` does.
use lifeline.Prelude.{String, Bool, Option, none, some, if◌then◌else◌}
use lifeline.Model.Graph.{edge_normal, edge_panic, edge_trusted_stop}
use lifeline.Cfg.Ast.{
  NodeId, Expr, Exprs, Call, Simple, ident, selector_expr, call_expr, index_expr, paren_expr,
  unary_expr, binary_expr, basic_lit, func_lit, other_expr, mk_call, no_exprs, more_exprs,
  expr_stmt, assign_stmt, inc_dec_stmt, send_stmt, value_spec, call_id,
}
use lifeline.Cfg.Types.{callee_name, is_panic_call}
use lifeline.Cfg.Builder.{
  Env, Builder, new_block, add_edge, ensure_current, set_current, span_of, emit, record_call,
}

-- The first call found, or else what the rest of the visit finds.
unfoldable pub or_call : Option Call → Option Call → Option Call
or_call (some c) rest = some c
or_call none rest = rest

-- The visit of `findCall`, in preorder and never into a function literal.
module _ (predicate : Call → Bool) where
  unfoldable mutual
    pub call_in_expr : Expr → Option Call
    call_in_expr (ident id name) = none
    call_in_expr (selector_expr id x sel name) = call_in_expr x
    call_in_expr (call_expr c) = call_in_call c
    call_in_expr (index_expr id x indices) = or_call (call_in_expr x) (call_in_exprs indices)
    call_in_expr (paren_expr id x) = call_in_expr x
    call_in_expr (unary_expr id op x) = call_in_expr x
    call_in_expr (binary_expr id x op y) = or_call (call_in_expr x) (call_in_expr y)
    call_in_expr (basic_lit id value) = none
    call_in_expr (func_lit id) = none
    call_in_expr (other_expr id children) = call_in_exprs children

    pub call_in_call : Call → Option Call
    call_in_call (mk_call id fun args) =
        if predicate (mk_call id fun args)
        then some (mk_call id fun args)
        else or_call (call_in_expr fun) (call_in_exprs args)

    pub call_in_exprs : Exprs → Option Call
    call_in_exprs no_exprs = none
    call_in_exprs (more_exprs e es) = or_call (call_in_expr e) (call_in_exprs es)

  unfoldable pub find_call : Simple → Option Call
  find_call (expr_stmt id x) = call_in_expr x
  find_call (assign_stmt id lhs rhs) = or_call (call_in_exprs lhs) (call_in_exprs rhs)
  find_call (inc_dec_stmt id x) = call_in_expr x
  find_call (send_stmt id chan value) = or_call (call_in_expr chan) (call_in_expr value)
  find_call (value_spec id names values) = or_call (call_in_exprs names) (call_in_exprs values)

-- A call expression is recorded, another expression is passed over.
unfoldable pub record_expr : Expr → Builder → Builder
record_expr (call_expr c) b = record_call (call_id c) b
record_expr e b = b

unfoldable pub record_exprs : Exprs → Builder → Builder
record_exprs no_exprs b = b
record_exprs (more_exprs e es) b = record_exprs es (record_expr e b)

unfoldable pub record_direct_calls : Simple → Builder → Builder
record_direct_calls (value_spec id names values) b = record_exprs values b
record_direct_calls (expr_stmt id x) b = record_expr x b
record_direct_calls (assign_stmt id lhs rhs) b = record_exprs rhs b
record_direct_calls (inc_dec_stmt id x) b = b
record_direct_calls (send_stmt id chan value) b = b

-- `ast.Unparen`.
unfoldable pub unparen : Expr → Expr
unparen (paren_expr id x) = unparen x
unparen e = e

-- The loop of a return statement over its results.
unfoldable pub record_results : Exprs → Builder → Builder
record_results no_exprs b = b
record_results (more_exprs e es) b = record_results es (record_expr (unparen e) b)

unfoldable pub simple_id : Simple → NodeId
simple_id (expr_stmt id x) = id
simple_id (assign_stmt id lhs rhs) = id
simple_id (inc_dec_stmt id x) = id
simple_id (send_stmt id chan value) = id
simple_id (value_spec id names values) = id

-- The operation and the callee of a statement that is neither a panic nor trusted.
unfoldable pub simple_op : Simple → String
simple_op (value_spec id names values) = "decl"
simple_op (assign_stmt id lhs rhs) = "assign"
simple_op (expr_stmt id (call_expr c)) = "call"
simple_op s = "stmt"

unfoldable pub simple_callee : Env → Simple → String
simple_callee env (expr_stmt id (call_expr c)) = callee_name env.info c
simple_callee env s = ""

-- The call that ends the worker or may end it, if the predicate is given.
unfoldable pub trusted_call : Env → Simple → Option Call
trusted_call env s = elim env.is_trusted_terminator [
  | none ↦ none
  | some trusted ↦ find_call trusted s
]

-- A statement with a panic: an edge to the exit, and no block goes on.
unfoldable pub panic_stmt : Env → NodeId → Builder → Builder
panic_stmt env n b =
    let b₁ = emit env "panic" n "panic" b in
    let (cur, b₂) = ensure_current b₁ in
    set_current none (add_edge cur b₂.exit edge_panic "" (span_of env n) b₂)

-- A statement with a trusted call: a branch to the exit and to a new block.
unfoldable pub trusted_stmt : Env → NodeId → Call → Builder → Builder
trusted_stmt env n c b =
    let b₁ = emit env "trusted-call" n (callee_name env.info c) b in
    let (cur, b₂) = ensure_current b₁ in
    let (next, b₃) = new_block "after-trusted-call" b₂ in
    let b₄ = add_edge cur next edge_normal "" (span_of env n) b₃ in
    let b₅ = add_edge cur b₄.exit edge_trusted_stop "" (span_of env n) b₄ in
    set_current (some next) b₅

-- What is done with a call that is found, or else without one.
unfoldable pub by_call : Option Call → (Call → Builder) → Builder → Builder
by_call (some c) f otherwise = f c
by_call none f otherwise = otherwise

unfoldable pub simple_stmt : Env → Simple → Builder → Builder
simple_stmt env s b =
    let b₁ = record_direct_calls s b in
    by_call (find_call (is_panic_call env.info) s) (λ c. panic_stmt env (simple_id s) b₁)
      (by_call (trusted_call env s) (λ c. trusted_stmt env (simple_id s) c b₁)
        (emit env (simple_op s) (simple_id s) (simple_callee env s) b₁))
