-- ===== src/Cfg/Render.antt =====
-- The labels of edges: `renderExpr`, `renderExprList` and `renderCommClause` of
-- internal/cfg/cfg.go.
use Prim.Native.String.{◌++◌}
use lifeline.Prelude.{String}
use lifeline.Cfg.Ast.{
  Expr, Exprs, Call, Stmt, ident, selector_expr, call_expr, index_expr, paren_expr, unary_expr,
  binary_expr, basic_lit, func_lit, other_expr, mk_call, no_exprs, more_exprs, expr_stmt,
  assign_stmt, send_stmt, simple,
}

mutual
  pub render_expr : Expr → String
  render_expr (ident id name) = name
  render_expr (selector_expr id x sel name) = render_expr x ++ "." ++ name
  render_expr (call_expr c) = render_call c
  render_expr (unary_expr id op x) = op ++ render_expr x
  render_expr (binary_expr id x op y) = render_expr x ++ " " ++ op ++ " " ++ render_expr y
  render_expr (basic_lit id value) = value
  render_expr (paren_expr id x) = "(" ++ render_expr x ++ ")"
  render_expr (index_expr id x indices) = "..."
  render_expr (func_lit id) = "..."
  render_expr (other_expr id children) = "..."

  -- the case of a call: `Fun` and three dots
  render_call : Call → String
  render_call (mk_call id fun args) = render_expr fun ++ "(...)"

-- The entries after the first one, each behind a comma.
render_rest : Exprs → String
render_rest no_exprs = ""
render_rest (more_exprs e es) = ", " ++ render_expr e ++ render_rest es

pub render_expr_list : Exprs → String
unfolding render_rest
render_expr_list no_exprs = ""
render_expr_list (more_exprs e es) = render_expr e ++ render_rest es

module _ (type_name : Stmt → String) where
  -- `type_name` is the verb %T of the package fmt.
  pub render_comm_clause : Stmt → String
  render_comm_clause (simple (send_stmt id chan value)) =
      render_expr chan ++ " <- " ++ render_expr value
  render_comm_clause (simple (expr_stmt id x)) = render_expr x
  render_comm_clause (simple (assign_stmt id lhs (more_exprs e no_exprs))) = render_expr e
  render_comm_clause (simple (assign_stmt id lhs rhs)) = "..."
  render_comm_clause s = type_name s
