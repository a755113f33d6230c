-- ===== src/Engine/Verdict.antt =====
-- internal/engine/cfg_verdict.go: what the components of a graph say about termination.
pub mod Facts
pub mod Loops
use lifeline.Prelude.{Bool, false, not, ◌&&◌, ◌||◌, Option, none, some, List, [], ◌∷◌, ◌++◌, ◌==◌}
use lifeline.Prelude.{if◌then◌else◌}
use lifeline.Model.Graph.{
  BlockId, Edge, Cfg, Outcome, done, reachable, can_reach, successors_of, is_persistent_scc,
}
use lifeline.Model.Graph.Tarjan.{Run, ok, panic, stuck, ◌>>=◌, sccs}

pub record SccFacts : Type 0 where
  pub blocks : List BlockId
  pub resolved : Bool

pub record TerminationFacts : Type 0 where
  pub exit_reachable : Bool
  pub persistent_sccs : List SccFacts

-- A search, and a read of the graph, as steps that may panic.
unfoldable pub search : Outcome → Run (BlockId → Bool)
search (done seen) = ok seen
search Outcome.panic = panic
search Outcome.stuck = stuck

unfoldable pub read : {A : Type 0} → Option A → Run A
read none = panic
read (some a) = ok a

unfoldable pub member : BlockId → List BlockId → Bool
member v [] = false
member v (w ∷ ws) = (v == w) || member v ws

-- Some edge of the list leaves the component for a block that can exit.
unfoldable pub escapes : List BlockId → (BlockId → Bool) → List Edge → Bool
escapes scc can_exit [] = false
escapes scc can_exit (e ∷ es) = (not (member e.to scc) && can_exit e.to) || escapes scc can_exit es

module _ (g : Cfg) where
  unfoldable pub resolved_by : List BlockId → (BlockId → Bool) → List BlockId → Run Bool
  resolved_by scc can_exit [] = ok false
  resolved_by scc can_exit (id ∷ ids) =
      read (successors_of g id)
      >>= (λ es. resolved_by scc can_exit ids >>= (λ rest. ok (escapes scc can_exit es || rest)))

  -- `reach[scc[0]]`; a component is never empty.
  unfoldable pub head_reached : (BlockId → Bool) → List BlockId → Run Bool
  head_reached reach [] = panic
  head_reached reach (v ∷ vs) = ok (reach v)

  -- One round of the loop over the components: the facts of a component that counts.
  unfoldable pub scc_facts :
      (BlockId → Bool) → (BlockId → Bool) → List BlockId → Run (List SccFacts)
  scc_facts reach can_exit scc = do
    persistent ← read (is_persistent_scc g scc)
    reached ← if persistent then head_reached reach scc else ok false
    resolved ← if reached then resolved_by scc can_exit scc else ok false
    ok (if reached then (record { blocks = scc; resolved = resolved }) ∷ [] else [])

  unfoldable pub all_scc_facts :
      (BlockId → Bool) → (BlockId → Bool) → List (List BlockId) → Run (List SccFacts)
  all_scc_facts reach can_exit [] = ok []
  all_scc_facts reach can_exit (scc ∷ rest) =
      scc_facts reach can_exit scc
      >>= (λ first. all_scc_facts reach can_exit rest >>= (λ others. ok (first ++ others)))

  -- `SummarizeTermination`, on a graph that is not nil.
  unfoldable pub summarize_termination : Run TerminationFacts
  summarize_termination = do
    reach ← search (reachable g g.entry)
    can_exit ← search (can_reach g g.exit)
    components ← sccs g
    facts ← all_scc_facts reach can_exit components
    ok (record { exit_reachable = reach g.exit; persistent_sccs = facts })

  unfoldable pub any_unresolved : List SccFacts → Bool
  any_unresolved [] = false
  any_unresolved (f ∷ fs) = not f.resolved || any_unresolved fs

  -- `UnresolvedLoop`.
  unfoldable pub unresolved_loop : Run Bool
  unresolved_loop = summarize_termination >>= (λ t. ok (any_unresolved t.persistent_sccs))
