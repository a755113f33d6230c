-- ===== src/Model/Graph.antt =====
-- The control-flow graph of internal/model/model.go and its searches. A block number is a natural
-- number: the graphs of this program hold no negative one, and the builder's `invalidBlock` is the
-- absence of a number. A read of `g.Blocks` out of range is a panic.
pub mod Search
pub mod WellFormed
pub mod Routes
pub mod Dominance
pub mod Tarjan
pub mod Cycles
use package.lifeline.Prelude.{
  ℕ, zero, suc, ◌+◌, String, Bool, true, false, ◌&&◌, ◌||◌, Option, none,
}
use package.lifeline.Prelude.{some, List, [], ◌∷◌, ltb, ◌==◌, if◌then◌else◌, length, get_elem?}
use package.lifeline.Prelude.{mark, no_marks}
use mathlib.Core.Option
use package.lifeline.Model.Source.{Span, Instruction}

abbrev pub BlockId : Type 0
BlockId = ℕ

pub data EdgeKind : Type 0 where
  edge_normal edge_true edge_false edge_case edge_fallthrough edge_break : EdgeKind
  edge_continue edge_loop_back edge_goto edge_return edge_panic edge_trusted_stop : EdgeKind

pub record Edge : Type 0 where
  pub from : BlockId
  pub to : BlockId
  pub kind : EdgeKind
  pub label : String
  pub span : Span

pub record BasicBlock : Type 0 where
  pub id : BlockId
  pub kind : String
  pub span : Span
  pub instructions : List Instruction
  pub successors : List Edge
  pub predecessors : List BlockId

pub record Cfg : Type 0 where
  pub function : String
  pub entry : BlockId
  pub exit : BlockId
  pub blocks : List BasicBlock

-- `(*CFG).Block`, on a graph that is not nil.
pub block : Cfg → BlockId → Option BasicBlock
block g id = if ltb id (length g.blocks) then get_elem? g.blocks id else none

-- How a search ends: with the set of the blocks seen, by an index out of range, or, in the model
-- alone, by the end of its fuel.
pub data Outcome : Type 0 where
  done : (BlockId → Bool) → Outcome
  panic stuck : Outcome

-- The locals of a search. The head of `stack` is the end of the slice.
pub record Progress : Type 0 where
  pub stack : List BlockId
  pub seen : BlockId → Bool

-- The depth-first loop that the searches share. `next` reads the list that a round walks,
-- `blocked` is what makes a round pass over an entry beside its being seen, `dest` is the block
-- that an entry leads to.
module _ {X : Type 0} (next : BlockId → Option (List X)) (blocked : X → Bool)
    (dest : X → BlockId) where
  -- The inner loop of a round, and its body.
  pub push : X → Progress → Progress
  push e p =
      if blocked e || p.seen (dest e)
      then p
      else record { stack = dest e ∷ p.stack; seen = mark (dest e) p.seen }

  pub push_unseen : List X → Progress → Progress
  unfolding push
  push_unseen [] p = p
  push_unseen (e ∷ es) p = push_unseen es (push e p)

  pub search_loop : ℕ → Progress → Outcome
  unfolding push_unseen
  search_loop zero p = elim p.stack [ [] ↦ done p.seen | _ ∷ _ ↦ stuck ]
  search_loop (suc fuel) p = elim p.stack [
    | [] ↦ done p.seen
    | id ∷ rest ↦ elim (next id) [
      | none ↦ panic
      | some es ↦ search_loop fuel (push_unseen es (record { stack = rest; seen = p.seen }))
    ]
  ]

  -- The search from a block that is marked and pushed before the loop.
  pub search_from : ℕ → BlockId → Outcome
  unfolding search_loop
  search_from fuel start =
      search_loop fuel (record { stack = start ∷ []; seen = mark start no_marks })

-- `g.Blocks[id].Successors` and `g.Blocks[id].Predecessors`.
abbrev pub successors_of : Cfg → BlockId → Option (List Edge)
successors_of g id = Option.map (λ (b : BasicBlock). b.successors) (get_elem? g.blocks id)

abbrev pub predecessors_of : Cfg → BlockId → Option (List BlockId)
predecessors_of g id = Option.map (λ (b : BasicBlock). b.predecessors) (get_elem? g.blocks id)

abbrev pub edge_dest : Edge → BlockId
edge_dest e = e.to

abbrev pub fuel_of : Cfg → ℕ
fuel_of g = suc (length g.blocks)

pub reachable : Cfg → BlockId → Outcome
unfolding search_from
reachable g start = search_from (successors_of g) (λ e. false) edge_dest (fuel_of g) start

pub can_reach : Cfg → BlockId → Outcome
unfolding search_from
can_reach g target = search_from (predecessors_of g) (λ p. false) (λ p. p) (fuel_of g) target

-- `skip_edge` is the function that is given, or never true where nil is given.
pub reachable_avoiding_edges : Cfg → BlockId → (BlockId → Bool) → (Edge → Bool) → Outcome
unfolding search_from
reachable_avoiding_edges g start avoid skip_edge =
    if avoid start
    then done no_marks
    else search_from (successors_of g) (λ e. avoid e.to || skip_edge e) edge_dest (fuel_of g) start

pub reachable_avoiding : Cfg → BlockId → (BlockId → Bool) → Outcome
unfolding reachable_avoiding_edges
reachable_avoiding g start avoid = reachable_avoiding_edges g start avoid (λ e. false)

-- `IsPersistentSCC`.
has_edge_to : BlockId → List Edge → Bool
has_edge_to v [] = false
has_edge_to v (e ∷ es) = (e.to == v) || has_edge_to v es

pub is_persistent_scc : Cfg → List BlockId → Option Bool
unfolding has_edge_to
is_persistent_scc g [] = some false
is_persistent_scc g (v ∷ []) = Option.map (has_edge_to v) (successors_of g v)
is_persistent_scc g (v ∷ w ∷ rest) = some true
