-- ===== src/Cfg/Ast.antt =====
-- The syntax of go/ast as far as internal/cfg/cfg.go reads it. A node carries a number that stands
-- for its identity: the keys of the maps over nodes, and what a position is looked up by. A nil
-- statement, as an absent `Init`, `Post` or `Else`, is `nil_stmt`; an absent expression is `none`.
use lifeline.Prelude.{ℕ, String, Option, List}

abbrev pub NodeId : Type 0
NodeId = ℕ

mutual
  pub data Expr : Type 0 where
    ident : NodeId → String → Expr
    -- `X.Sel`, with the identity and the name of the identifier `Sel`
    selector_expr : NodeId → Expr → NodeId → String → Expr
    call_expr : Call → Expr
    -- `*ast.IndexExpr` and `*ast.IndexListExpr`
    index_expr : NodeId → Expr → Exprs → Expr
    paren_expr : NodeId → Expr → Expr
    unary_expr : NodeId → String → Expr → Expr
    binary_expr : NodeId → Expr → String → Expr → Expr
    basic_lit : NodeId → String → Expr
    func_lit : NodeId → Expr
    -- a node of any other kind, with the expressions below it in the order of their visit
    other_expr : NodeId → Exprs → Expr

  -- `*ast.CallExpr`: its identity, `Fun` and `Args`
  pub data Call : Type 0 where
    mk_call : NodeId → Expr → Exprs → Call

  pub data Exprs : Type 0 where
    no_exprs : Exprs
    more_exprs : Expr → Exprs → Exprs

-- What `simpleStmt` is called on: four kinds of statement, and the specs of a `var` declaration,
-- whose names and type come before their values.
pub data Simple : Type 0 where
  expr_stmt : NodeId → Expr → Simple
  assign_stmt : NodeId → Exprs → Exprs → Simple
  inc_dec_stmt : NodeId → Expr → Simple
  send_stmt : NodeId → Expr → Expr → Simple
  value_spec : NodeId → Exprs → Exprs → Simple

pub data BranchTok : Type 0 where
  tok_break tok_continue tok_goto tok_fallthrough : BranchTok

mutual
  pub data Stmt : Type 0 where
    nil_stmt : Stmt
    block_stmt : NodeId → Stmts → Stmt
    labeled_stmt : NodeId → String → Stmt → Stmt
    simple : Simple → Stmt
    -- a `var` declaration, and one of another kind
    var_decl : NodeId → List Simple → Stmt
    decl_stmt : NodeId → Stmt
    go_stmt : NodeId → Call → Stmt
    defer_stmt : NodeId → Call → Stmt
    empty_stmt : NodeId → Stmt
    -- `Init`, `Cond`, `Body`, `Else`
    if_stmt : NodeId → Stmt → Expr → Stmt → Stmt → Stmt
    -- `Init`, `Cond`, `Post`, `Body`
    for_stmt : NodeId → Stmt → Option Expr → Stmt → Stmt → Stmt
    range_stmt : NodeId → Expr → Stmt → Stmt
    switch_stmt : NodeId → Stmt → Clauses → Stmt
    type_switch_stmt : NodeId → Stmt → Clauses → Stmt
    select_stmt : NodeId → Comms → Stmt
    return_stmt : NodeId → Exprs → Stmt
    -- the label is "" where there is none
    branch_stmt : NodeId → BranchTok → String → Stmt
    other_stmt : NodeId → Stmt

  pub data Stmts : Type 0 where
    no_stmts : Stmts
    more_stmts : Stmt → Stmts → Stmts

  -- `*ast.CaseClause`s; a list that is `none` is nil, which marks the default clause
  pub data Clauses : Type 0 where
    no_clauses : Clauses
    clause : NodeId → Option Exprs → Stmts → Clauses → Clauses

  -- `*ast.CommClause`s; the default clause has a nil statement
  pub data Comms : Type 0 where
    no_comms : Comms
    comm : NodeId → Stmt → Stmts → Comms → Comms

abbrev pub call_id : Call → NodeId
call_id (mk_call id fun args) = id
