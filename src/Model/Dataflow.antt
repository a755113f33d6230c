-- ===== src/Model/Dataflow.antt =====
-- `Solve` of internal/model/dataflow.go: forward propagation over the blocks of a graph with a queue. The
-- rounds of the loop take fuel. A result map is a function: a missing key reads the zero value.
pub mod Lattice
pub mod Rounds
pub mod Advance
pub mod Visits
pub mod Solution
use lifeline.Prelude.{
  ℕ, zero, suc, Bool, true, false, not, ◌||◌, Option, none, some, List, [], ◌∷◌, ◌++◌,
}
use lifeline.Prelude.{length, ltb, ◌==◌, if◌then◌else◌, mark, unmark, no_marks, rounds_of}
use lifeline.Model.Graph.{BlockId, Edge, BasicBlock, Cfg, successors_of, predecessors_of}
use lifeline.Model.Graph.Tarjan.{Run, ok, panic, stuck, ◌>>=◌, put}

-- What a call of `Solve` is given beside the graph: `==` on the states, the zero value of their type, and the
-- arguments.
pub record Problem (S : Type 0) : Type 0 where
  pub same : S → S → Bool
  pub zero_state : S
  pub bottom : S
  pub initial : S
  pub transfer : BlockId → S → S
  pub join : S → S → S

-- The locals of `Solve`. The head of `queue` is the start of the slice.
pub record Solver (S : Type 0) : Type 0 where
  pub out : BlockId → S
  pub processed : BlockId → Bool
  pub in_queue : BlockId → Bool
  pub queue : List BlockId

module _ {S : Type 0} (p : Problem S) where
  pub all_bottom : List BasicBlock → (BlockId → S) → BlockId → S
  all_bottom [] out = out
  all_bottom (b ∷ bs) out = all_bottom bs (put b.id p.bottom out)

  -- The join of the states after the predecessors.
  unfoldable pub join_rest : (BlockId → S) → S → List BlockId → S
  join_rest out s [] = s
  join_rest out s (v ∷ vs) = join_rest out (p.join s (out v)) vs

  unfoldable pub join_outs : (BlockId → S) → List BlockId → S
  join_outs out [] = p.bottom
  join_outs out (v ∷ vs) = join_rest out (out v) vs

  module _ (g : Cfg) where
    pub push_block : BlockId → Solver S → Run (Solver S)
    push_block id s =
        if ltb id (length g.blocks)
        then (if s.in_queue id
            then ok s
            else ok (record s { in_queue = mark id s.in_queue; queue = s.queue ++ id ∷ [] }))
        else panic

    pub push_targets : List Edge → Solver S → Run (Solver S)
    push_targets [] s = ok s
    push_targets (e ∷ es) s = push_block e.to s >>= push_targets es

    -- The state before a block.
    pub in_state : (BlockId → S) → BlockId → Run S
    in_state out id =
        if id == g.entry
        then ok p.initial
        else elim (predecessors_of g id) [ none ↦ panic | some ps ↦ ok (join_outs out ps) ]

    -- A changed block: its state is written and its successors are pushed.
    pub propagate : BlockId → S → Solver S → Run (Solver S)
    propagate id next s = elim (successors_of g id) [
      | none ↦ panic
      | some es ↦ push_targets es (record s { out = put id next s.out })
    ]

    -- A round, after its block is taken off the queue.
    pub visit : BlockId → Solver S → Run (Solver S)
    visit id s = in_state s.out id >>= (λ i.
        let next = p.transfer id i in
        let t = record s { processed = mark id s.processed } in
        if not (s.processed id) || not (p.same next (s.out id)) then propagate id next t else ok t)

    pub solve_loop : ℕ → Solver S → Run (BlockId → S)
    solve_loop zero s = elim s.queue [ [] ↦ ok s.out | _ ∷ _ ↦ stuck ]
    solve_loop (suc fuel) s = elim s.queue [
      | [] ↦ ok s.out
      | id ∷ rest ↦
          visit id (record s { queue = rest; in_queue = unmark id s.in_queue }) >>= solve_loop fuel
    ]

    abbrev pub before_entry : Solver S
    before_entry = record {
      out = all_bottom g.blocks (λ v. p.zero_state);
      processed = no_marks;
      in_queue = no_marks;
      queue = [];
    }

    pub solve : ℕ → Run (BlockId → S)
    solve fuel = push_block g.entry before_entry >>= solve_loop fuel

-- Rounds that are enough on a graph, for states that rise at most `height` times: each change of a state and
-- each first visit puts at most all the blocks on the queue.
abbrev pub rounds_bound : ℕ → Cfg → ℕ
rounds_bound height g = suc (rounds_of (rounds_of (length g.blocks) height) (length g.blocks))
