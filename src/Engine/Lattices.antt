-- ===== src/Engine/Lattices.antt =====
-- internal/engine/dataflow_lattices.go: three small lattices and the question of where a worker's stop has been
-- reached. A Go constant of an iota block is a constructor, and its number its level.
pub mod Levels
pub mod Stops
pub mod Obligations
use lifeline.Prelude.{
  ℕ, Bool, true, false, ◌||◌, Option, none, some, List, [], ◌∷◌, ltb, ◌==◌, if◌then◌else◌,
}
use lifeline.Model.Graph.{
  BlockId, EdgeKind, edge_normal, edge_true, edge_false, edge_case, edge_fallthrough, edge_break,
  edge_continue, edge_loop_back, edge_goto, edge_return, edge_panic, edge_trusted_stop, Edge, Cfg,
  block,
}
use lifeline.Model.Graph.Tarjan.{Run, ok}
use lifeline.Model.Dataflow.{Problem, solve, rounds_bound}

pub data StopCapability : Type 0 where
  stop_none stop_available stop_proven_consumed : StopCapability

pub data JoinObligation : Type 0 where
  join_none join_required join_satisfied join_escaped : JoinObligation

pub data Ownership : Type 0 where
  ownership_local ownership_transferred ownership_unknown : Ownership

abbrev pub stop_level : StopCapability → ℕ
stop_level stop_none = 0
stop_level stop_available = 1
stop_level stop_proven_consumed = 2

abbrev pub obligation_level : JoinObligation → ℕ
obligation_level join_none = 0
obligation_level join_required = 1
obligation_level join_satisfied = 2
obligation_level join_escaped = 3

abbrev pub ownership_level : Ownership → ℕ
ownership_level ownership_local = 0
ownership_level ownership_transferred = 1
ownership_level ownership_unknown = 2

abbrev pub join_stop_capability : StopCapability → StopCapability → StopCapability
join_stop_capability a b = if ltb (stop_level a) (stop_level b) then b else a

abbrev pub join_join_obligation : JoinObligation → JoinObligation → JoinObligation
join_join_obligation a b = if ltb (obligation_level a) (obligation_level b) then b else a

abbrev pub join_ownership : Ownership → Ownership → Ownership
join_ownership a b = if ltb (ownership_level a) (ownership_level b) then b else a

abbrev pub point_transfer : {S : Type 0} → (BlockId → Bool) → S → BlockId → S → S
point_transfer at_point resolved id s = if at_point id then resolved else s

-- The cases of the `switch` on the kind of an edge.
pub ends_worker : EdgeKind → Bool
ends_worker edge_trusted_stop = true
ends_worker edge_return = true
ends_worker edge_panic = true
ends_worker edge_normal = false
ends_worker edge_true = false
ends_worker edge_false = false
ends_worker edge_case = false
ends_worker edge_fallthrough = false
ends_worker edge_break = false
ends_worker edge_continue = false
ends_worker edge_loop_back = false
ends_worker edge_goto = false

pub some_ends : List Edge → Bool
some_ends [] = false
some_ends (e ∷ es) = ends_worker e.kind || some_ends es

-- `atPoint`
pub at_point : Cfg → BlockId → Bool
at_point g id = elim (block g id) [ none ↦ false | some blk ↦ some_ends blk.successors ]

abbrev pub stop_problem : Cfg → Problem StopCapability
stop_problem g = record {
  same = λ a b. stop_level a == stop_level b;
  zero_state = stop_none;
  bottom = stop_none;
  initial = stop_available;
  transfer = point_transfer (at_point g) stop_proven_consumed;
  join = join_stop_capability;
}

-- `none` is a nil graph, and the empty map reads the zero value `StopNone`.
pub stop_capability_dataflow : Option Cfg → Bool → Run (BlockId → StopCapability)
stop_capability_dataflow none has_context = ok (λ v. stop_none)
stop_capability_dataflow (some g) false = ok (λ v. stop_none)
stop_capability_dataflow (some g) true = solve (stop_problem g) g (rounds_bound 2 g)
