-- ===== src/Cfg/Builder.antt =====
-- The state of the builder in internal/cfg/cfg.go and its primitive operations. `invalidBlock` is
-- `none`, so that `addEdge`, which is only called on block numbers, needs no guard against it. An
-- index out of range, where Go would panic, sets `panicked` and changes nothing else.
pub mod Traverse
pub mod Wiring
use package.lifeline.Prelude.{ℕ, zero, suc, ◌+◌, String, Bool, true, false, ◌&&◌, ◌||◌, not, Option}
use package.lifeline.Prelude.{none, some, List, [], ◌∷◌, ◌++◌, length, get_elem?, modify, ltb, ◌==◌}
use package.lifeline.Prelude.{str_eq, if◌then◌else◌}
use package.lifeline.Model.Source.{Span, no_span, Instruction}
use package.lifeline.Model.Graph.{BlockId, EdgeKind, Edge, BasicBlock}
use package.lifeline.Cfg.Ast.{NodeId, Call, Stmt}
use package.lifeline.Cfg.Types.{Info, FileSet}

pub record CallSite : Type 0 where
  pub block : BlockId
  pub index : ℕ
  pub async : Bool

pub record Frame : Type 0 where
  pub label : String
  pub is_loop : Bool
  pub break_to : BlockId
  pub continue_to : BlockId

-- The fields of `builder` that never change. `ctx_err` says at which poll, counted from 0, the
-- context reports an error; `type_name` is the verb %T of the package fmt on a statement.
pub record Env : Type 0 where
  pub ctx_err : ℕ → Bool
  pub fset : Option FileSet
  pub info : Option Info
  pub is_trusted_terminator : Option (Call → Bool)
  pub type_name : Stmt → String

-- The fields of `builder` that change, with the number of polls of the context. The head of
-- `frames` is the end of the slice.
pub record Builder : Type 0 where
  pub polls : ℕ
  pub err : Bool
  pub blocks : List BasicBlock
  pub current : Option BlockId
  pub frames : List Frame
  pub labels : String → Option BlockId
  pub exit : BlockId
  pub call_sites : NodeId → Option CallSite
  pub panicked : Bool

abbrev pub size : Builder → ℕ
size b = length b.blocks

unfoldable pub new_block : String → Builder → BlockId × Builder
new_block kind b =
    let id = length b.blocks in
    (
      id,
      record b {
        blocks =
            b.blocks
            ++ (record {
              id = id;
              kind = kind;
              span = no_span;
              instructions = [];
              successors = [];
              predecessors = [];
            })
              ∷ [];
      },
    )

unfoldable pub add_successor : Edge → BasicBlock → BasicBlock
add_successor e blk = record blk { successors = blk.successors ++ e ∷ [] }

unfoldable pub add_predecessor : BlockId → BasicBlock → BasicBlock
add_predecessor p blk = record blk { predecessors = blk.predecessors ++ p ∷ [] }

unfoldable pub add_edge : BlockId → BlockId → EdgeKind → String → Span → Builder → Builder
add_edge from to kind label span b =
    let e : Edge = record { from = from; to = to; kind = kind; label = label; span = span } in
    if ltb from (length b.blocks) && ltb to (length b.blocks)
    then record b {
      blocks = modify (modify b.blocks from (add_successor e)) to (add_predecessor from);
    }
    else record b { panicked = true }

-- The block of the option, or a new one with no predecessors, which becomes the current one.
unfoldable pub ensure_from : Option BlockId → Builder → BlockId × Builder
ensure_from (some cur) b = (cur, b)
ensure_from none b =
    let (cur, b') = new_block "unreachable" b in (cur, record b' { current = some cur })

unfoldable pub ensure_current : Builder → BlockId × Builder
ensure_current b = ensure_from b.current b

-- What is done with a block, where there is one.
unfoldable pub on_some : Option BlockId → Builder → (BlockId → Builder) → Builder
on_some none b f = b
on_some (some id) b f = f id

abbrev pub set_current : Option BlockId → Builder → Builder
set_current c b = record b { current = c }

-- `cancelled`: whether an error is recorded or the context reports one now.
unfoldable pub cancelled : Env → Builder → Bool × Builder
cancelled env b =
    if b.err
    then (true, b)
    else if env.ctx_err b.polls
    then (true, record b { polls = suc b.polls; err = true })
    else (false, record b { polls = suc b.polls })

unfoldable pub span_of : Env → NodeId → Span
span_of env n = elim env.fset [ none ↦ no_span | some positions ↦ positions n ]

-- The two halves of `extendSpan` on a block's span that has a file.
unfoldable pub extend_start : Span → Span → Span
extend_start s old =
    if (ltb s.start_offset old.start_offset || ((old.start_offset == 0) && (old.end_offset == 0)))
      && ((old.start_offset == 0) || ltb s.start_offset old.start_offset)
    then record old {
      file = s.file;
      start_line = s.start_line;
      start_column = s.start_column;
      start_offset = s.start_offset;
    }
    else old

unfoldable pub extend_end : Span → Span → Span
extend_end s old =
    if ltb old.end_offset s.end_offset
    then record old { end_line = s.end_line; end_column = s.end_column; end_offset = s.end_offset }
    else old

unfoldable pub extend_span : Span → BasicBlock → BasicBlock
extend_span s blk =
    if str_eq blk.span.file ""
    then record blk { span = s }
    else record blk { span = extend_end s (extend_start s blk.span) }

abbrev pub instructions_at : List BasicBlock → BlockId → ℕ
instructions_at bs id = elim (get_elem? bs id) [ none ↦ 0 | some blk ↦ length blk.instructions ]

unfoldable pub add_instruction : Instruction → BasicBlock → BasicBlock
add_instruction i blk = record blk { instructions = blk.instructions ++ i ∷ [] }

-- `emit`, which is always called with no names defined or used.
unfoldable pub emit : Env → String → NodeId → String → Builder → Builder
emit env op n callee b =
    let (cur, b') = ensure_current b in
    let i : Instruction = record {
      index = instructions_at b'.blocks cur;
      op = op;
      span = span_of env n;
      callee = callee;
      defines = [];
      uses = [];
    } in
    if ltb cur (length b'.blocks)
    then record b' {
      blocks = modify b'.blocks cur (λ blk. extend_span (span_of env n) (add_instruction i blk));
    }
    else record b' { panicked = true }

-- `b.callSites[call] = site`
unfoldable pub put_site : NodeId → CallSite → Builder → Builder
put_site c site b = record b { call_sites = λ k. if c == k then some site else b.call_sites k }

-- `recordCall`, on a call that is not nil.
unfoldable pub record_call : NodeId → Builder → Builder
record_call c b =
    let (cur, b') = ensure_current b in
    if ltb cur (length b'.blocks)
    then put_site c (record { block = cur; index = instructions_at b'.blocks cur; async = false })
        b'
    else record b' { panicked = true }

-- `site := b.callSites[call]; site.Async = true; b.callSites[call] = site`. A missing key reads the
-- zero value.
abbrev site_or_zero : Option CallSite → CallSite
site_or_zero none = record { block = 0; index = 0; async = false }
site_or_zero (some site) = site

unfoldable pub mark_async : NodeId → Builder → Builder
mark_async c b = put_site c (record (site_or_zero (b.call_sites c)) { async = true }) b

unfoldable pub push_frame : Frame → Builder → Builder
push_frame f b = record b { frames = f ∷ b.frames }

-- `b.frames = b.frames[:len(b.frames)-1]`
unfoldable pub pop_from : List Frame → Builder → Builder
pop_from [] b = record b { panicked = true }
pop_from (f ∷ fs) b = record b { frames = fs }

unfoldable pub pop_frame : Builder → Builder
pop_frame b = pop_from b.frames b

abbrev is_empty : String → Bool
is_empty s = str_eq s ""

unfoldable pub resolve_break : String → List Frame → Option BlockId
resolve_break label [] = none
resolve_break label (f ∷ fs) =
    if is_empty label || str_eq f.label label then some f.break_to else resolve_break label fs

unfoldable pub resolve_continue : String → List Frame → Option BlockId
resolve_continue label [] = none
resolve_continue label (f ∷ fs) =
    if f.is_loop && (is_empty label || str_eq f.label label)
    then some f.continue_to
    else resolve_continue label fs

unfoldable pub set_label : String → BlockId → Builder → Builder
set_label name id b = record b { labels = λ k. if str_eq name k then some id else b.labels k }
