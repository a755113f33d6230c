-- ===== src/Cfg/Invariant/Chain.antt =====
-- Steps of a chain of the builder's operations from one state, and operations inside a frame, for the
-- proofs on the statements of internal/cfg/cfg.go.
use lifeline.Prelude.{ℕ, ◌≤◌, ◌<◌, ◌≡◌, String, Bool}
use lifeline.Prelude.{Option, none, some, List, [], ◌∷◌, arith}
use lifeline.Model.Source.{Span}
use lifeline.Model.Graph.{BlockId, EdgeKind}
use lifeline.Cfg.Builder.{
  Env, Builder, Frame, size, add_edge, ensure_current, set_current, cancelled, push_frame,
  pop_frame, pop_from,
}
use lifeline.Cfg.Builder.Wiring.{polled, link_current, link_ensured, edge_if}
use lifeline.Cfg.Invariant.Primitives.{
  IsLive, CurrentIsLive, FramesAreLive, Inv, Extends, Extends-trans, Keeps, IsLive-mono,
  set_current-Extends, add_edge-Extends, ensure_current-Extends, ensure_current-IsLive,
  on_some-Extends, if-Extends, cancelled-Extends,
}

pub Inv-exit_lt : {b : Builder} → Inv b → b.exit < size b
Inv-exit_lt i = omega (arith, i.exit_one, i.has_exit)

pub polled-Keeps : (env : Env) (run : Builder → Builder) → Keeps run → Keeps (polled env run)
unfolding polled
polled-Keeps env run k b i =
    let e = cancelled-Extends env b i in
    if-Extends (cancelled env b).0 e (Extends-trans e (k (cancelled env b).1 e.inv))

IsLive-current :
    (n : ℕ) (c : Option BlockId) (cur : BlockId) → c ≡ some cur → CurrentIsLive n c → IsLive n cur
IsLive-current n none cur e l = absurd (cc)
IsLive-current n (some id) cur e l = ground arith

pub current-IsLive :
    (b : Builder) → Inv b → (cur : BlockId) → b.current ≡ some cur → IsLive (size b) cur
current-IsLive b i cur e = IsLive-current (size b) b.current cur e i.current_live

-- The steps of a chain from a state `a` whose blocks are at hand.
module _ {a b : Builder} (e : Extends a b) where
  pub run_then : {run : Builder → Builder} → Keeps run → Extends a (run b)
  run_then k = Extends-trans e (k b e.inv)

  pub stop_then : Extends a (set_current none b)
  stop_then = Extends-trans e (set_current-Extends none b e.inv tt)

  pub enter_then : {id : BlockId} → IsLive (size a) id → Extends a (set_current (some id) b)
  enter_then {id} l =
      Extends-trans e (set_current-Extends (some id) b e.inv (IsLive-mono id l e.grows))

  pub edge_then :
      {from to : BlockId}
      → IsLive (size a) from
      → to < size a
      → (kind : EdgeKind) (label : String) (span : Span)
      → Extends a (add_edge from to kind label span b)
  edge_then {from} {to} l h kind label span = Extends-trans e (
      add_edge-Extends from to kind label span b e.inv (IsLive-mono from l e.grows)
        (omega (arith, e.grows)))

  pub edge_if_then :
      {from to : BlockId}
      → IsLive (size a) from
      → to < size a
      → (test : Bool) (kind : EdgeKind) (label : String) (span : Span)
      → Extends a (edge_if test from to kind label span b)
  unfolding edge_if
  edge_if_then l h test kind label span = if-Extends test (edge_then l h kind label span) e

  pub link_then :
      {to : BlockId}
      → to < size a
      → (kind : EdgeKind) (span : Span) → Extends a (link_current to kind span b)
  unfolding link_current
  link_then {to} h kind span = Extends-trans e (
      on_some-Extends b.current b _ e.inv (λ cur eq.
        add_edge-Extends cur to kind "" span b e.inv (current-IsLive b e.inv cur eq)
          (omega (arith, e.grows))))

  pub ensured_then :
      {to : BlockId}
      → to < size a
      → (kind : EdgeKind) (label : String) (span : Span)
      → Extends a (link_ensured to kind label span b)
  unfolding link_ensured
  ensured_then {to} h kind label span =
      let f = ensure_current-Extends b e.inv in
      Extends-trans e (
        Extends-trans f (
          add_edge-Extends (ensure_current b).0 to kind label span (ensure_current b).1 f.inv
            (ensure_current-IsLive b e.inv) (omega (arith, e.grows, f.grows))))

-- Inside its brackets an operation works on one frame more.
push_frame-Inv :
    (f : Frame) (b : Builder)
    → Inv b
    → IsLive (size b) f.break_to
    → IsLive (size b) f.continue_to
    → Inv (push_frame f b)
unfolding push_frame
push_frame-Inv f b i l m = record {
  formed = i.formed;
  exit_one = i.exit_one;
  has_exit = i.has_exit;
  current_live = i.current_live;
  frames_live = (l, m, i.frames_live);
  labels_live = i.labels_live;
  terminal = i.terminal;
  in_range = i.in_range;
}

pop_from-Extends :
    (fs : List Frame) (f : Frame) (a b : Builder)
    → Inv b
    → size a ≤ size b
    → FramesAreLive (size b) fs
    → fs ≡ f ∷ a.frames
    → Extends a (pop_from fs b)
unfolding pop_from
pop_from-Extends [] f a b i h l e = absurd (cc)
pop_from-Extends (g ∷ gs) f a b i h l e = record {
  inv = record {
    formed = i.formed;
    exit_one = i.exit_one;
    has_exit = i.has_exit;
    current_live = i.current_live;
    frames_live = l.2;
    labels_live = i.labels_live;
    terminal = i.terminal;
    in_range = i.in_range;
  };
  grows = h;
  frames_kept = cc;
}

pop_frame-Extends :
    (f : Frame) (a b : Builder) → Extends (push_frame f a) b → Extends a (pop_frame b)
unfolding pop_frame push_frame
pop_frame-Extends f a b e =
    pop_from-Extends b.frames f a b e.inv e.grows e.inv.frames_live e.frames_kept

-- A frame is pushed, a run keeps the invariant from there, and the frame is popped.
pub bracket_then :
    {a b c : Builder} (f : Frame)
    → Extends a b
    → IsLive (size b) f.break_to
    → IsLive (size b) f.continue_to
    → (Inv (push_frame f b) → Extends (push_frame f b) c)
    → Extends a (pop_frame c)
bracket_then {b} {c} f e l m run =
    Extends-trans e (pop_frame-Extends f b c (run (push_frame-Inv f b e.inv l m)))
