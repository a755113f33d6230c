-- ===== src/Cfg/Invariant/Primitives.antt =====
-- The invariant of the builder of internal/cfg/cfg.go, and its primitive operations: each keeps the
-- invariant, loses no block and leaves the frames alone.
use lifeline.Prelude.{ℕ, ◌≤◌, ◌<◌, ◌≡◌, ◌≢◌, refl, ◌∙◌, String, Bool, true, false}
use lifeline.Prelude.{Option, none, some, List, [], ◌∷◌, length, arith}
use lifeline.Prelude.{length-append, length-modify, lt→ltb, modify, if◌then◌else◌, eq_iff}
use lifeline.Model.Source.{Span}
use lifeline.Model.Graph.{BlockId, EdgeKind, Edge, BasicBlock}
use lifeline.Model.Graph.WellFormed.{succs, AreWellFormed}
use lifeline.Cfg.Ast.{NodeId}
use lifeline.Cfg.Builder.{
  Env, Builder, Frame, CallSite, size, new_block, add_edge, ensure_current, set_current, cancelled,
  emit, put_site, record_call, mark_async, set_label, ensure_from, on_some, extend_span,
  add_instruction,
}
use lifeline.Cfg.Invariant.Blocks.{
  succs-fresh, succs-modify, AreWellFormed-fresh, AreWellFormed-modify, with_edge, length-with_edge,
  succs-with_edge, AreWellFormed-with_edge,
}

-- A block of the graph other than the exit.
abbrev pub IsLive : ℕ → BlockId → Type 0
IsLive n id = (id < n) × (id ≢ 1)

abbrev pub CurrentIsLive : ℕ → Option BlockId → Type 0
CurrentIsLive n none = Unit
CurrentIsLive n (some id) = IsLive n id

abbrev pub FramesAreLive : ℕ → List Frame → Type 0
FramesAreLive n [] = Unit
FramesAreLive n (f ∷ fs) = IsLive n f.break_to × IsLive n f.continue_to × FramesAreLive n fs

-- The graph is well formed, the exit is block 1 and has no successors, and all that an edge may
-- start from is another block. No index was out of range.
pub record Inv (b : Builder) : Type 0 where
  pub formed : AreWellFormed b.blocks
  pub exit_one : b.exit ≡ 1
  pub has_exit : 2 ≤ size b
  pub current_live : CurrentIsLive (size b) b.current
  pub frames_live : FramesAreLive (size b) b.frames
  pub labels_live : (name : String) (id : BlockId) → b.labels name ≡ some id → IsLive (size b) id
  pub terminal : succs b.blocks 1 ≡ []
  pub in_range : b.panicked ≡ false

pub record Extends (b b' : Builder) : Type 0 where
  pub inv : Inv b'
  pub grows : size b ≤ size b'
  pub frames_kept : b'.frames ≡ b.frames

pub Extends-refl : {b : Builder} → Inv b → Extends b b
Extends-refl i = record { inv = i; grows = omega arith; frames_kept = refl }

pub Extends-trans : {a b c : Builder} → Extends a b → Extends b c → Extends a c
Extends-trans e f = record {
  inv = f.inv;
  grows = omega arith;
  frames_kept = f.frames_kept ∙ e.frames_kept;
}

-- An operation that keeps the invariant from every state that has it.
abbrev pub Keeps : (Builder → Builder) → Type 0
Keeps f = (b : Builder) → Inv b → Extends b (f b)

pub IsLive-mono : {n m : ℕ} (id : BlockId) → IsLive n id → n ≤ m → IsLive m id
IsLive-mono id l h = (omega arith, l.1)

CurrentIsLive-mono : (n m : ℕ) (c : Option BlockId) → CurrentIsLive n c → n ≤ m → CurrentIsLive m c
CurrentIsLive-mono n m none l h = tt
CurrentIsLive-mono n m (some id) l h = (omega arith, l.1)

pub FramesAreLive-mono :
    (n m : ℕ) (fs : List Frame) → FramesAreLive n fs → n ≤ m → FramesAreLive m fs
FramesAreLive-mono n m [] l h = tt
FramesAreLive-mono n m (f ∷ fs) l h =
    ((omega arith, l.0.1), (omega arith, l.1.1), FramesAreLive-mono n m fs l.2 h)

-- New blocks that are well formed, no fewer, with a terminal exit.
Inv-blocks :
    {b : Builder} (bs : List BasicBlock)
    → Inv b
    → AreWellFormed bs
    → size b ≤ length bs
    → succs bs 1 ≡ []
    → Extends b (record b { blocks = bs })
Inv-blocks {b} bs i w h t = record {
  inv = record {
    formed = w;
    exit_one = i.exit_one;
    has_exit = omega (arith, i.has_exit);
    current_live = CurrentIsLive-mono _ _ b.current i.current_live h;
    frames_live = FramesAreLive-mono _ _ b.frames i.frames_live h;
    labels_live = λ name id e. IsLive-mono id (i.labels_live name id e) h;
    terminal = t;
    in_range = i.in_range;
  };
  grows = h;
  frames_kept = refl;
}

pub new_block-Extends : (kind : String) (b : Builder) → Inv b → Extends b (new_block kind b).1
unfolding new_block
new_block-Extends kind b i =
    Inv-blocks _ i (AreWellFormed-fresh _ refl refl refl i.formed)
      (omega (arith, length-append b.blocks)) (succs-fresh b.blocks _ 1 refl ∙ i.terminal)

pub new_block-IsLive :
    (kind : String) (b : Builder) → Inv b → IsLive (size (new_block kind b).1) (new_block kind b).0
unfolding new_block
new_block-IsLive kind b i = (omega (arith, length-append b.blocks), omega (arith, i.has_exit))

pub set_current-Extends :
    (c : Option BlockId) (b : Builder)
    → Inv b
    → CurrentIsLive (size b) c
    → Extends b (set_current c b)
set_current-Extends c b i l = record {
  inv = record {
    formed = i.formed;
    exit_one = i.exit_one;
    has_exit = i.has_exit;
    current_live = l;
    frames_live = i.frames_live;
    labels_live = i.labels_live;
    terminal = i.terminal;
    in_range = i.in_range;
  };
  grows = omega arith;
  frames_kept = refl;
}

with_edge-Extends :
    (e : Edge) (b : Builder)
    → Inv b
    → IsLive (size b) e.from
    → e.to < size b
    → Extends b (record b { blocks = with_edge e b.blocks })
with_edge-Extends e b i l h =
    Inv-blocks (with_edge e b.blocks) i (AreWellFormed-with_edge b.blocks e l.0 h i.formed)
      (omega (arith, length-with_edge b.blocks e l.0 h))
      (ground (arith, succs-with_edge b.blocks e l.0 h 1, i.terminal))

pub add_edge-Extends :
    (from to : BlockId) (kind : EdgeKind) (label : String) (span : Span) (b : Builder)
    → Inv b
    → IsLive (size b) from
    → to < size b
    → Extends b (add_edge from to kind label span b)
unfolding add_edge with_edge
add_edge-Extends from to kind label span b i l h =
    rw (lt→ltb from _ l.0, lt→ltb to _ h)
      (with_edge-Extends (record { from = from; to = to; kind = kind; label = label; span = span })
        b i l h)

ensure_from-Extends :
    (c : Option BlockId) (b : Builder)
    → Inv b
    → CurrentIsLive (size b) c
    → Extends b (ensure_from c b).1 × IsLive (size (ensure_from c b).1) (ensure_from c b).0
unfolding ensure_from
ensure_from-Extends (some cur) b i l = (Extends-refl i, l)
ensure_from-Extends none b i l =
    let e = new_block-Extends "unreachable" b i in
    let fresh = new_block-IsLive "unreachable" b i in
    (Extends-trans e (set_current-Extends _ _ e.inv fresh), fresh)

pub ensure_current-Extends : (b : Builder) → Inv b → Extends b (ensure_current b).1
unfolding ensure_current
ensure_current-Extends b i = (ensure_from-Extends b.current b i i.current_live).0

pub ensure_current-IsLive :
    (b : Builder) → Inv b → IsLive (size (ensure_current b).1) (ensure_current b).0
unfolding ensure_current
ensure_current-IsLive b i = (ensure_from-Extends b.current b i i.current_live).1

pub on_some-Extends :
    (o : Option BlockId) (b : Builder) (f : BlockId → Builder)
    → Inv b
    → ((id : BlockId) → o ≡ some id → Extends b (f id))
    → Extends b (on_some o b f)
unfolding on_some
on_some-Extends none b f i h = Extends-refl i
on_some-Extends (some id) b f i h = h id refl

pub if-Extends :
    (t : Bool) {a x y : Builder} → Extends a x → Extends a y → Extends a (if t then x else y)
if-Extends true e f = e
if-Extends false e f = f

pub if-Extends_state :
    (t : Bool) (a : Builder) (x y : Bool × Builder)
    → Extends a x.1
    → Extends a y.1
    → Extends a (if t then x else y).1
if-Extends_state true a x y e f = e
if-Extends_state false a x y e f = f

-- A change of one block that leaves its number and its edges alone.
modify-Extends :
    (id : BlockId) (f : BasicBlock → BasicBlock) (b : Builder)
    → ((blk : BasicBlock) → (f blk).id ≡ blk.id)
    → ((blk : BasicBlock) → (f blk).successors ≡ blk.successors)
    → ((blk : BasicBlock) → (f blk).predecessors ≡ blk.predecessors)
    → Inv b
    → Extends b (record b { blocks = modify b.blocks id f })
modify-Extends id f b same_id same_s same_p i =
    Inv-blocks (modify b.blocks id f) i (AreWellFormed-modify id f same_id same_s same_p i.formed)
      (omega (arith, length-modify b.blocks id f))
      (succs-modify f b.blocks id 1 same_s ∙ i.terminal)

pub emit-Extends :
    (env : Env) (op : String) (n : NodeId) (callee : String) → Keeps (emit env op n callee)
unfolding emit extend_span add_instruction
emit-Extends env op n callee b i =
    let e = ensure_current-Extends b i in
    let l = ensure_current-IsLive b i in
    rw (lt→ltb _ _ l.0) (
      Extends-trans e (
        modify-Extends _ _ _ (λ blk. ground arith) (λ blk. ground arith) (λ blk. ground arith)
          e.inv))

-- The remaining fields that the invariant does not read.
pub put_site-Extends : (c : NodeId) (site : CallSite) → Keeps (put_site c site)
unfolding put_site
put_site-Extends c site b i = record {
  inv = record {
    formed = i.formed;
    exit_one = i.exit_one;
    has_exit = i.has_exit;
    current_live = i.current_live;
    frames_live = i.frames_live;
    labels_live = i.labels_live;
    terminal = i.terminal;
    in_range = i.in_range;
  };
  grows = omega arith;
  frames_kept = refl;
}

pub record_call-Extends : (c : NodeId) → Keeps (record_call c)
unfolding record_call
record_call-Extends c b i =
    let e = ensure_current-Extends b i in
    rw (lt→ltb _ _ (ensure_current-IsLive b i).0) (Extends-trans e (put_site-Extends c _ _ e.inv))

pub mark_async-Extends : (c : NodeId) → Keeps (mark_async c)
unfolding mark_async
mark_async-Extends c b i = put_site-Extends c _ b i

polls-Extends : (k : ℕ) (err : Bool) → Keeps (λ b. record b { polls = k; err = err })
polls-Extends k err b i = record {
  inv = record {
    formed = i.formed;
    exit_one = i.exit_one;
    has_exit = i.has_exit;
    current_live = i.current_live;
    frames_live = i.frames_live;
    labels_live = i.labels_live;
    terminal = i.terminal;
    in_range = i.in_range;
  };
  grows = omega arith;
  frames_kept = refl;
}

pub cancelled-Extends : (env : Env) (b : Builder) → Inv b → Extends b (cancelled env b).1
unfolding cancelled
cancelled-Extends env b i = if-Extends_state b.err b _ _ (Extends-refl i) (
    if-Extends_state (env.ctx_err b.polls) b _ _ (polls-Extends _ true b i)
      (polls-Extends _ b.err b i))

pub set_label-Extends :
    (name : String) (id : BlockId) (b : Builder)
    → Inv b
    → IsLive (size b) id
    → Extends b (set_label name id b)
unfolding set_label
set_label-Extends name id b i l = record {
  inv = record {
    formed = i.formed;
    exit_one = i.exit_one;
    has_exit = i.has_exit;
    current_live = i.current_live;
    frames_live = i.frames_live;
    labels_live = λ k j e. ground (arith, eq_iff name k, i.labels_live k j);
    terminal = i.terminal;
    in_range = i.in_range;
  };
  grows = omega arith;
  frames_kept = refl;
}
