-- ===== src/Cfg/Invariant/Wiring.antt =====
-- The control-flow statements of internal/cfg/cfg.go keep the builder's invariant, if the calls on
-- their parts do.
use lifeline.Prelude.{ℕ, ◌<◌, ◌≡◌, refl, String}
use lifeline.Prelude.{Option, none, some, List, [], ◌∷◌, arith, ◌==◌}
use lifeline.Model.Graph.{
  BlockId, EdgeKind, edge_normal, edge_false, edge_break, edge_continue, edge_goto, edge_return,
}
use lifeline.Cfg.Ast.{NodeId, Expr, BranchTok, tok_break, tok_continue, tok_goto, tok_fallthrough}
use lifeline.Cfg.Builder.{
  Env, Builder, Frame, size, set_current, span_of, push_frame, resolve_break, resolve_continue,
  set_label, on_some,
}
use lifeline.Cfg.Builder.Wiring.{
  link_ensured, else_wiring, if_wiring, header_edges, framed, for_wiring, range_label, range_wiring,
  switch_frame, branch_wiring, enter_label, label_block, label_wiring, label_kind, return_wiring,
}
use lifeline.Cfg.Invariant.Primitives.{
  IsLive, FramesAreLive, Inv, Extends, Extends-refl, Extends-trans, Keeps, IsLive-mono,
  new_block-Extends, new_block-IsLive, ensure_current-Extends, ensure_current-IsLive,
  on_some-Extends, if-Extends, emit-Extends, set_label-Extends,
}
use lifeline.Cfg.Invariant.Chain.{
  Inv-exit_lt, current-IsLive, run_then, stop_then, enter_then, edge_then, edge_if_then, link_then,
  ensured_then, bracket_then,
}

module _ (env : Env) where
  abbrev pub OptionKeeps : Option (Builder → Builder) → Type 0
  OptionKeeps none = Unit
  OptionKeeps (some f) = Keeps f

  else_wiring-Extends :
      (cond : Expr) (head after : BlockId) (els : Option (Builder → Builder)) (b : Builder)
      → OptionKeeps els
      → Inv b
      → IsLive (size b) head
      → IsLive (size b) after
      → Extends b (else_wiring env cond head after els b)
  unfolding else_wiring
  else_wiring-Extends cond head after none b k i l m = edge_if_then (Extends-refl i) l m.0 _ _ _ _
  else_wiring-Extends cond head after (some run) b k i l m =
      let e = new_block-Extends "if-else" b i in
      let fresh = new_block-IsLive "if-else" b i in
      let base = edge_if_then (Extends-refl e.inv) (IsLive-mono head l e.grows) fresh.0 _ _ _ _ in
      Extends-trans e
        (link_then (run_then (enter_then base fresh) k) (omega (arith, e.grows, m.0)) _ _)

  pub if_wiring-Keeps :
      (cond : Expr) (then_body : Builder → Builder) (els : Option (Builder → Builder))
      → Keeps then_body
      → OptionKeeps els
      → Keeps (if_wiring env cond then_body els)
  unfolding if_wiring
  if_wiring-Keeps cond then_body els k ke b i =
      let e₁ = ensure_current-Extends b i in
      let l₁ = ensure_current-IsLive b i in
      let e₂ = new_block-Extends "if-then" _ e₁.inv in
      let l₂ = new_block-IsLive "if-then" _ e₁.inv in
      let e₃ = new_block-Extends "if-after" _ e₂.inv in
      let l₃ = new_block-IsLive "if-after" _ e₂.inv in
      let head = IsLive-mono _ l₁ (Extends-trans e₂ e₃).grows in
      let then_blk = IsLive-mono _ l₂ e₃.grows in
      let base = edge_if_then (Extends-refl e₃.inv) head then_blk.0 _ _ _ _ in
      let body = link_then (run_then (enter_then base then_blk) k) l₃.0 _ _ in
      let rest =
        else_wiring-Extends cond _ _ els _ ke body.inv (IsLive-mono _ head body.grows)
          (IsLive-mono _ l₃ body.grows) in
      Extends-trans (Extends-trans e₁ (Extends-trans e₂ e₃))
        (enter_then (Extends-trans body rest) l₃)

  header_edges-Extends :
      (n : NodeId) (cond : Option Expr) (header body after : BlockId) (b : Builder)
      → Inv b
      → IsLive (size b) header
      → body < size b
      → after < size b
      → Extends b (header_edges env n cond header body after b)
  unfolding header_edges
  header_edges-Extends n none header body after b i l h k = edge_then (Extends-refl i) l h _ _ _
  header_edges-Extends n (some cond) header body after b i l h k =
      edge_if_then (edge_if_then (Extends-refl i) l h _ _ _ _) l k _ _ _ _

  abbrev pub PostKeeps : Option (NodeId × (Builder → Builder)) → Type 0
  PostKeeps none = Unit
  PostKeeps (some (n, f)) = Keeps f

  pub for_wiring-Keeps :
      (n : NodeId) (label : String) (cond : Option Expr)
      (post : Option (NodeId × (Builder → Builder))) (run : Builder → Builder)
      → PostKeeps post
      → Keeps run
      → Keeps (for_wiring env n label cond post run)
  unfolding for_wiring framed push_frame
  for_wiring-Keeps n label cond none run kp k b i =
      let e₁ = new_block-Extends "loop-header" b i in
      let l₁ = new_block-IsLive "loop-header" b i in
      let e₂ = ensured_then (Extends-refl e₁.inv) l₁.0 edge_normal "" (span_of env n) in
      let e₃ = new_block-Extends "loop-body" _ e₂.inv in
      let l₃ = new_block-IsLive "loop-body" _ e₂.inv in
      let e₄ = new_block-Extends "loop-after" _ e₃.inv in
      let l₄ = new_block-IsLive "loop-after" _ e₃.inv in
      let header = IsLive-mono _ l₁ (Extends-trans e₂ (Extends-trans e₃ e₄)).grows in
      let body = IsLive-mono _ l₃ e₄.grows in
      let e₅ = header_edges-Extends n cond _ _ _ _ e₄.inv header body.0 l₄.0 in
      let at₅ = λ (id : BlockId) (l : IsLive _ id). IsLive-mono id l e₅.grows in
      Extends-trans (Extends-trans e₁ (Extends-trans e₂ (Extends-trans e₃ e₄))) (
        enter_then
          (bracket_then _ e₅ (at₅ _ l₄) (at₅ _ header) (λ j.
            link_then (run_then (enter_then (Extends-refl j) (at₅ _ body)) k) (at₅ _ header).0 _ _))
          l₄)
  for_wiring-Keeps n label cond (some (m, run_post)) run kp k b i =
      let e₁ = new_block-Extends "loop-header" b i in
      let l₁ = new_block-IsLive "loop-header" b i in
      let e₂ = ensured_then (Extends-refl e₁.inv) l₁.0 edge_normal "" (span_of env n) in
      let e₃ = new_block-Extends "loop-body" _ e₂.inv in
      let l₃ = new_block-IsLive "loop-body" _ e₂.inv in
      let e₄ = new_block-Extends "loop-after" _ e₃.inv in
      let l₄ = new_block-IsLive "loop-after" _ e₃.inv in
      let e₅ = new_block-Extends "loop-post" _ e₄.inv in
      let l₅ = new_block-IsLive "loop-post" _ e₄.inv in
      let header =
        IsLive-mono _ l₁ (Extends-trans e₂ (Extends-trans e₃ (Extends-trans e₄ e₅))).grows in
      let body = IsLive-mono _ l₃ (Extends-trans e₄ e₅).grows in
      let after = IsLive-mono _ l₄ e₅.grows in
      let e₆ = header_edges-Extends n cond _ _ _ _ e₅.inv header body.0 after.0 in
      let at₆ = λ (id : BlockId) (l : IsLive _ id). IsLive-mono id l e₆.grows in
      Extends-trans (Extends-trans e₁ (Extends-trans e₂ (Extends-trans e₃ (Extends-trans e₄ e₅)))) (
        enter_then
          (bracket_then _ e₆ (at₆ _ after) (at₆ _ l₅) (λ j.
            ensured_then
              (run_then
                (enter_then
                  (link_then (run_then (enter_then (Extends-refl j) (at₆ _ body)) k) (at₆ _ l₅).0 _
                    _)
                  (at₆ _ l₅))
                kp)
              (at₆ _ header).0 _ _ _))
          after)

  pub range_wiring-Keeps :
      (n : NodeId) (label : String) (x : Expr) (run : Builder → Builder)
      → Keeps run
      → Keeps (range_wiring env n label x run)
  unfolding range_wiring framed push_frame
  range_wiring-Keeps n label x run k b i =
      let e₁ = new_block-Extends "range-header" b i in
      let l₁ = new_block-IsLive "range-header" b i in
      let e₂ = ensured_then (Extends-refl e₁.inv) l₁.0 edge_normal "" (span_of env n) in
      let e₃ = new_block-Extends "range-body" _ e₂.inv in
      let l₃ = new_block-IsLive "range-body" _ e₂.inv in
      let e₄ = new_block-Extends "range-after" _ e₃.inv in
      let l₄ = new_block-IsLive "range-after" _ e₃.inv in
      let header = IsLive-mono _ l₁ (Extends-trans e₂ (Extends-trans e₃ e₄)).grows in
      let body = IsLive-mono _ l₃ e₄.grows in
      let e₅ =
        edge_then (edge_then (Extends-refl e₄.inv) header body.0 _ _ _) header l₄.0 edge_false
          (range_label env x) _ in
      let at₅ = λ (id : BlockId) (l : IsLive _ id). IsLive-mono id l e₅.grows in
      Extends-trans (Extends-trans e₁ (Extends-trans e₂ (Extends-trans e₃ e₄))) (
        enter_then
          (bracket_then _ e₅ (at₅ _ l₄) (at₅ _ header) (λ j.
            link_then (run_then (enter_then (Extends-refl j) (at₅ _ body)) k) (at₅ _ header).0 _ _))
          l₄)

pub switch_frame-Keeps :
    (kind label : String) (run : BlockId → BlockId → Builder → Builder)
    → ((head after : BlockId) (b : Builder)
        → Inv b
        → IsLive (size b) head
        → IsLive (size b) after
        → Extends b (run head after b))
    → Keeps (switch_frame kind label run)
unfolding switch_frame push_frame
switch_frame-Keeps kind label run k b i =
    let e₁ = ensure_current-Extends b i in
    let l₁ = ensure_current-IsLive b i in
    let e₂ = new_block-Extends kind _ e₁.inv in
    let l₂ = new_block-IsLive kind _ e₁.inv in
    let head = IsLive-mono _ l₁ e₂.grows in
    let zero_live : IsLive _ 0 = (omega (arith, e₂.inv.has_exit), omega arith) in
    Extends-trans (Extends-trans e₁ e₂)
      (enter_then (bracket_then _ (Extends-refl e₂.inv) l₂ zero_live (λ j. k _ _ _ j head l₂)) l₂)

resolve_break-IsLive :
    (n : ℕ) (label : String) (fs : List Frame) (id : BlockId)
    → FramesAreLive n fs
    → resolve_break label fs ≡ some id
    → IsLive n id
unfolding resolve_break
resolve_break-IsLive n label [] id l e = absurd (cc)
resolve_break-IsLive n label (f ∷ fs) id l e = ground (arith, resolve_break-IsLive n label fs id)

resolve_continue-IsLive :
    (n : ℕ) (label : String) (fs : List Frame) (id : BlockId)
    → FramesAreLive n fs
    → resolve_continue label fs ≡ some id
    → IsLive n id
unfolding resolve_continue
resolve_continue-IsLive n label [] id l e = absurd (cc)
resolve_continue-IsLive n label (f ∷ fs) id l e =
    ground (arith, resolve_continue-IsLive n label fs id)

module _ (env : Env) where
  -- A jump to a block that is resolved, if one is.
  jump-Extends :
      (o : Option BlockId) (kind : EdgeKind) (label : String) (n : NodeId) (b : Builder)
      → Inv b
      → ((id : BlockId) → o ≡ some id → IsLive (size b) id)
      → Extends b (
          set_current none
            (on_some o b (λ target. link_ensured target kind label (span_of env n) b)))
  jump-Extends o kind label n b i l =
      stop_then
        (on_some-Extends o b _ i (λ id e. ensured_then (Extends-refl i) (l id e).0 kind label _))

  pub branch_wiring-Keeps :
      (n : NodeId) (tok : BranchTok) (label : String) → Keeps (branch_wiring env n tok label)
  unfolding branch_wiring
  branch_wiring-Keeps n tok_break label b i =
      jump-Extends (resolve_break label b.frames) edge_break label n b i
        (λ id. resolve_break-IsLive _ label b.frames id i.frames_live)
  branch_wiring-Keeps n tok_continue label b i =
      jump-Extends (resolve_continue label b.frames) edge_continue label n b i
        (λ id. resolve_continue-IsLive _ label b.frames id i.frames_live)
  branch_wiring-Keeps n tok_goto label b i =
      jump-Extends (b.labels label) edge_goto label n b i (i.labels_live label)
  branch_wiring-Keeps n tok_fallthrough label b i = emit-Extends env "fallthrough" n "" b i

  label_block-Extends :
      (name : String) (o : Option BlockId) (b : Builder)
      → Inv b
      → ((id : BlockId) → o ≡ some id → IsLive (size b) id)
      → Extends b (label_block env name o b).1
        × IsLive (size (label_block env name o b).1) (label_block env name o b).0
  unfolding label_block set_label
  label_block-Extends name (some id) b i l = (Extends-refl i, l id refl)
  label_block-Extends name none b i l =
      let e = new_block-Extends (label_kind name) b i in
      let fresh = new_block-IsLive (label_kind name) b i in
      (Extends-trans e (set_label-Extends name _ _ e.inv fresh), fresh)

  enter_label-Extends :
      (n : NodeId) (name : String) (target : BlockId) (b : Builder)
      → Inv b
      → IsLive (size b) target
      → Extends b (enter_label env n name target b)
  unfolding enter_label
  enter_label-Extends n name target b i l =
      let e = on_some-Extends b.current b _ i (λ cur eq.
        if-Extends (cur == target) (Extends-refl i) (
          edge_then (Extends-refl i) (current-IsLive b i cur eq) l.0 edge_normal ""
            (span_of env n))) in
      enter_then e l

  pub label_wiring-Keeps : (n : NodeId) (name : String) → Keeps (label_wiring env n name)
  unfolding label_wiring
  label_wiring-Keeps n name b i =
      let (e, l) = label_block-Extends name (b.labels name) b i (i.labels_live name) in
      Extends-trans e (enter_label-Extends n name _ _ e.inv l)

  pub return_wiring-Keeps : (n : NodeId) → Keeps (return_wiring env n)
  unfolding return_wiring
  return_wiring-Keeps n b i =
      let e₁ = emit-Extends env "return" n "" b i in
      let e₂ = ensure_current-Extends _ e₁.inv in
      let l₂ = ensure_current-IsLive _ e₁.inv in
      Extends-trans (Extends-trans e₁ e₂)
        (stop_then (edge_then (Extends-refl e₂.inv) l₂ (Inv-exit_lt e₂.inv) edge_return "" _))
