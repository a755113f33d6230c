-- ===== src/Cfg/Builder/Wiring.antt =====
-- The control-flow statements of cfg.go: how `ifStmt`, `forStmt`, `rangeStmt`, the switches,
-- `selectStmt` and `branchStmt` allocate blocks and join them by edges. The calls that they make of
-- `stmt` and `stmtList` on their parts are arguments here.
use lifeline.Prelude.{String, Bool, true, false, not, Option, none, some, ◌==◌}
use lifeline.Prelude.{if◌then◌else◌}
use Prim.Native.String.{◌++◌}
use lifeline.Model.Source.{Span, no_span}
use lifeline.Model.Graph.{
  BlockId, EdgeKind, edge_normal, edge_true, edge_false, edge_break, edge_continue, edge_loop_back,
  edge_goto, edge_return,
}
use lifeline.Cfg.Ast.{NodeId, Expr, BranchTok, tok_break, tok_continue, tok_goto, tok_fallthrough}
use lifeline.Cfg.Types.{constant_bool, expr_id}
use lifeline.Cfg.Render.{render_expr}
use lifeline.Cfg.Builder.{
  Env, Builder, Frame, on_some, new_block, add_edge, ensure_current, set_current, cancelled,
  span_of, emit, push_frame, pop_frame, resolve_break, resolve_continue, set_label,
}

-- `if b.cancelled() { return }`
unfoldable pub polled : Env → (Builder → Builder) → Builder → Builder
polled env run b = let (stop, b₁) = cancelled env b in if stop then b₁ else run b₁

-- `if b.current != invalidBlock { b.addEdge(b.current, to, …) }`
unfoldable pub link_current : BlockId → EdgeKind → Span → Builder → Builder
link_current to kind span b = on_some b.current b (λ cur. add_edge cur to kind "" span b)

-- `b.addEdge(b.ensureCurrent(), to, …)`
unfoldable pub link_ensured : BlockId → EdgeKind → String → Span → Builder → Builder
link_ensured to kind label span b =
    let (cur, b₁) = ensure_current b in add_edge cur to kind label span b₁

-- The kind of a label's block.
unfoldable pub label_kind : String → String
label_kind name = "label:" ++ name

-- Whether a condition with this constant value has a true edge, and a false edge.
abbrev pub may_hold : Option Bool → Bool
may_hold none = true
may_hold (some v) = v

abbrev pub may_fail : Option Bool → Bool
may_fail none = true
may_fail (some v) = not v

unfoldable pub edge_if : Bool → BlockId → BlockId → EdgeKind → String → Span → Builder → Builder
edge_if test from to kind label span b = if test then add_edge from to kind label span b else b

-- The start and the end of a switch or a select: the block after it and its frame, between which
-- `run` wires the cases from the head to that block.
unfoldable pub switch_frame :
    String → String → (BlockId → BlockId → Builder → Builder) → Builder → Builder
switch_frame kind label run b =
    let (head, b₁) = ensure_current b in
    let (after, b₂) = new_block kind b₁ in
    let f : Frame = record { label = label; is_loop = false; break_to = after; continue_to = 0 } in
    set_current (some after) (pop_frame (run head after (push_frame f b₂)))

module _ (env : Env) where
  abbrev cond_value : Expr → Option Bool
  cond_value cond = constant_bool (some cond) env.info

  abbrev cond_span : Expr → Span
  cond_span cond = span_of env (expr_id cond)

  -- The second half of `ifStmt`. The option is the call on `Else`, if there is one.
  unfoldable pub else_wiring :
      Expr → BlockId → BlockId → Option (Builder → Builder) → Builder → Builder
  else_wiring cond head after none b =
      edge_if (may_fail (cond_value cond)) head after edge_false "" (cond_span cond) b
  else_wiring cond head after (some else_body) b =
      let (else_blk, b₁) = new_block "if-else" b in
      let b₂ =
        edge_if (may_fail (cond_value cond)) head else_blk edge_false "" (cond_span cond) b₁ in
      link_current after edge_normal no_span (else_body (set_current (some else_blk) b₂))

  -- `ifStmt` after its `Init`.
  unfoldable pub if_wiring :
      Expr → (Builder → Builder) → Option (Builder → Builder) → Builder → Builder
  if_wiring cond then_body els b =
      let (head, b₁) = ensure_current b in
      let (then_blk, b₂) = new_block "if-then" b₁ in
      let (after, b₃) = new_block "if-after" b₂ in
      let b₄ =
        edge_if (may_hold (cond_value cond)) head then_blk edge_true (render_expr cond)
          (cond_span cond) b₃ in
      let b₅ =
        link_current after edge_normal no_span (then_body (set_current (some then_blk) b₄)) in
      set_current (some after) (else_wiring cond head after els b₅)

  -- The edges out of a loop's header.
  unfoldable pub header_edges :
      NodeId → Option Expr → BlockId → BlockId → BlockId → Builder → Builder
  header_edges n none header body after b = add_edge header body edge_normal "" (span_of env n) b
  header_edges n (some cond) header body after b =
      edge_if (may_fail (cond_value cond)) header after edge_false "" (cond_span cond) (
        edge_if (may_hold (cond_value cond)) header body edge_true (render_expr cond)
          (cond_span cond) b)

  -- The body of a loop between the push and the pop of its frame.
  unfoldable pub framed : Frame → BlockId → (Builder → Builder) → Builder → Builder
  framed f start run b = run (set_current (some start) (push_frame f b))

  -- `forStmt` after its `Init`. `post` is the identity of `Post` and the call on it.
  unfoldable pub for_wiring :
      NodeId
      → String
      → Option Expr
      → Option (NodeId × (Builder → Builder))
      → (Builder → Builder)
      → Builder
      → Builder
  for_wiring n label cond none run b =
      let (header, b₁) = new_block "loop-header" b in
      let b₂ = link_ensured header edge_normal "" (span_of env n) b₁ in
      let (body, b₃) = new_block "loop-body" b₂ in
      let (after, b₄) = new_block "loop-after" b₃ in
      let f : Frame = record {
        label = label;
        is_loop = true;
        break_to = after;
        continue_to = header;
      } in
      let b₅ = framed f body run (header_edges n cond header body after b₄) in
      set_current (some after) (pop_frame (link_current header edge_loop_back (span_of env n) b₅))
  for_wiring n label cond (some (post_id, run_post)) run b =
      let (header, b₁) = new_block "loop-header" b in
      let b₂ = link_ensured header edge_normal "" (span_of env n) b₁ in
      let (body, b₃) = new_block "loop-body" b₂ in
      let (after, b₄) = new_block "loop-after" b₃ in
      let (post, b₅) = new_block "loop-post" b₄ in
      let f : Frame = record {
        label = label;
        is_loop = true;
        break_to = after;
        continue_to = post;
      } in
      let b₆ = framed f body run (header_edges n cond header body after b₅) in
      let b₇ = run_post (set_current (some post) (link_current post edge_normal no_span b₆)) in
      set_current (some after)
        (pop_frame (link_ensured header edge_loop_back "" (span_of env post_id) b₇))

  unfoldable pub range_label : Expr → String
  range_label x = elim env.info [
    | none ↦ "sequence exhausted"
    | some info ↦ if info.is_chan (expr_id x) then "channel closed" else "sequence exhausted"
  ]

  -- `rangeStmt`.
  unfoldable pub range_wiring : NodeId → String → Expr → (Builder → Builder) → Builder → Builder
  range_wiring n label x run b =
      let (header, b₁) = new_block "range-header" b in
      let b₂ = link_ensured header edge_normal "" (span_of env n) b₁ in
      let (body, b₃) = new_block "range-body" b₂ in
      let (after, b₄) = new_block "range-after" b₃ in
      let b₅ = add_edge header body edge_true "has next" (span_of env (expr_id x)) b₄ in
      let b₆ = add_edge header after edge_false (range_label x) (span_of env (expr_id x)) b₅ in
      let f : Frame = record {
        label = label;
        is_loop = true;
        break_to = after;
        continue_to = header;
      } in
      let b₇ = framed f body run b₆ in
      set_current (some after) (pop_frame (link_current header edge_loop_back (span_of env n) b₇))

  -- `branchStmt`.
  unfoldable pub branch_wiring : NodeId → BranchTok → String → Builder → Builder
  branch_wiring n tok_break label b = set_current none (
      on_some (resolve_break label b.frames) b
        (λ target. link_ensured target edge_break label (span_of env n) b))
  branch_wiring n tok_continue label b = set_current none (
      on_some (resolve_continue label b.frames) b
        (λ target. link_ensured target edge_continue label (span_of env n) b))
  branch_wiring n tok_goto label b =
      set_current none (
        on_some (b.labels label) b
          (λ target. link_ensured target edge_goto label (span_of env n) b))
  branch_wiring n tok_fallthrough label b = emit env "fallthrough" n "" b

  -- The block of a labelled statement is entered from the current block.
  unfoldable pub enter_label : NodeId → String → BlockId → Builder → Builder
  enter_label n name target b = set_current (some target) (
      on_some b.current b
        (λ cur. if cur == target then b else add_edge cur target edge_normal "" (span_of env n) b))

  -- The block of a label, which is allocated and noted if the labels do not have it.
  unfoldable pub label_block : String → Option BlockId → Builder → BlockId × Builder
  label_block name (some target) b = (target, b)
  label_block name none b =
      let (target, b₁) = new_block (label_kind name) b in (target, set_label name target b₁)

  unfoldable pub label_wiring : NodeId → String → Builder → Builder
  label_wiring n name b =
      let (target, b₁) = label_block name (b.labels name) b in enter_label n name target b₁

  -- The end of a return statement, after its calls are recorded.
  unfoldable pub return_wiring : NodeId → Builder → Builder
  return_wiring n b =
      let b₁ = emit env "return" n "" b in
      let (cur, b₂) = ensure_current b₁ in
      set_current none (add_edge cur b₂.exit edge_return "" (span_of env n) b₂)
