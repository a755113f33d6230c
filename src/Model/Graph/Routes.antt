-- ===== src/Model/Graph/Routes.antt =====
-- What the searches of model.go compute, on a well-formed graph: the routes that lead somewhere.
use lifeline.Prelude.{ℕ, ◌<◌, ◌≡◌, subst, ◌↔◌, ◌⊎◌, inl, inr, arith}
use lifeline.Prelude.{Bool, true, false, ◌||◌, List, [], ◌∷◌, length, ◌∈◌}
use lifeline.Prelude.{no_marks, Bool-cases}
use mathlib.Core.Logic.{∥∥₁_map}
use lifeline.Model.Graph.{BlockId, Edge, Cfg, done, successors_of, predecessors_of, edge_dest}
use lifeline.Model.Graph.{fuel_of, reachable, can_reach, reachable_avoiding_edges}
use lifeline.Model.Graph.WellFormed.{succs, preds, LeadsTo, IsWellFormed, EdgesFit, AllLt, mirror}
use lifeline.Model.Graph.WellFormed.{read-succs, read-preds, successors_of-eq, predecessors_of-eq}
use lifeline.Model.Graph.Search.{
  Leads, Step, Walk, Walk-prepend, AllBelow, Closed, search_from_decides,
}

-- An edge of the list that is not skipped leads to a block that is not avoided.
abbrev pub Enters : (BlockId → Bool) → (Edge → Bool) → List Edge → BlockId → Type 0
Enters avoid skip [] v = ⊥
Enters avoid skip (e ∷ es) v =
    (avoid v ≡ false) × (skip e ≡ false) × (v ≡ e.to) ⊎ Enters avoid skip es v

-- The routes along edges that are not skipped, each block after the first one not avoided.
pub data Route (g : Cfg) (avoid : BlockId → Bool) (skip : Edge → Bool) (src : BlockId)
    : BlockId → Type 0 where
  here : Route g avoid skip src src
  along :
      {u v : BlockId}
      → Route g avoid skip src u
      → Enters avoid skip (succs g.blocks u) v
      → Route g avoid skip src v

abbrev pub no_skip : Edge → Bool
no_skip e = false

-- A route with no block avoided and no edge skipped.
abbrev pub Flow : Cfg → BlockId → BlockId → Type 0
Flow g = Route g no_marks no_skip

-- `seen` holds exactly the blocks that `P` does.
abbrev pub Decides : (BlockId → Bool) → (BlockId → Type 0) → Type 0
Decides seen P = (v : BlockId) → (seen v ≡ true) ↔ ∥ P v ∥₁

module _ (avoid : BlockId → Bool) (skip : Edge → Bool) where
  abbrev blocked : Edge → Bool
  blocked e = avoid e.to || skip e

  Leads-Enters :
      (es : List Edge) (v : BlockId) → Leads blocked edge_dest es v ↔ Enters avoid skip es v
  Leads-Enters [] v = ground arith
  Leads-Enters (e ∷ es) v = ground (arith, Leads-Enters es v)

AllBelow-succs : (n u : ℕ) (es : List Edge) → EdgesFit n u es → AllBelow edge_dest n es
AllBelow-succs n u [] h = tt
AllBelow-succs n u (e ∷ es) h = (h.1, AllBelow-succs n u es h.2)

AllBelow-preds : (n : ℕ) (ps : List BlockId) → AllLt n ps → AllBelow (λ p. p) n ps
AllBelow-preds n [] h = tt
AllBelow-preds n (p ∷ ps) h = (h.0, AllBelow-preds n ps h.1)

Enters-nil :
    (avoid : BlockId → Bool) (skip : Edge → Bool) (es : List Edge) (v : BlockId)
    → es ≡ []
    → ¬ Enters avoid skip es v
Enters-nil avoid skip [] v e h = absurd h
Enters-nil avoid skip (x ∷ es) v e h = cc

module _ (g : Cfg) (avoid : BlockId → Bool) (skip : Edge → Bool) (src : BlockId) where
  abbrev AvoidWalk : BlockId → Type 0
  AvoidWalk = Walk (successors_of g) (blocked avoid skip) edge_dest src

  Route-of-Walk : {v : BlockId} → AvoidWalk v → Route g avoid skip src v
  Route-of-Walk Walk.here = here
  Route-of-Walk (Walk.step {u} {v} w (es, read, l)) =
      let same : es ≡ succs g.blocks u = ground (arith, read-succs g.blocks u) in
      along (Route-of-Walk w)
        (subst (λ xs. Enters avoid skip xs v) same ((Leads-Enters avoid skip es v).0 l))

  Walk-of-Route : {v : BlockId} → Route g avoid skip src v → AvoidWalk v
  Walk-of-Route here = Walk.here
  Walk-of-Route (along {u} {v} r l) = Walk.step (Walk-of-Route r) (elim (read-succs g.blocks u) [
    | inl read ↦ (succs g.blocks u, read, (Leads-Enters avoid skip (succs g.blocks u) v).1 l)
    | inr (_, empty) ↦ absurd (Enters-nil avoid skip (succs g.blocks u) v empty l)
  ])

Leads-mem : (ps : List BlockId) (v : BlockId) → Leads (λ p. false) (λ p. p) ps v ↔ (v ∈ ps)
Leads-mem [] v = ground arith
Leads-mem (p ∷ ps) v = ground (arith, Leads-mem ps v)

pub LeadsTo-Enters : (es : List Edge) (v : BlockId) → LeadsTo v es ↔ Enters no_marks no_skip es v
LeadsTo-Enters [] v = ground arith
LeadsTo-Enters (e ∷ es) v = ground (arith, LeadsTo-Enters es v)

module _ (g : Cfg) (avoid : BlockId → Bool) (skip : Edge → Bool) where
  Route-prepend :
      {u v w : BlockId}
      → Enters avoid skip (succs g.blocks u) v
      → Route g avoid skip v w
      → Route g avoid skip u w
  Route-prepend l here = along here l
  Route-prepend l (along r m) = along (Route-prepend l r) m

  pub Route-join :
      {u v w : BlockId} → Route g avoid skip u v → Route g avoid skip v w → Route g avoid skip u w
  Route-join r here = r
  Route-join r (along s m) = along (Route-join r s) m

module _ (g : Cfg) (wf : IsWellFormed g) where
  Closed-succs : (skip : Edge → Bool) → Closed (successors_of g) skip edge_dest (length g.blocks)
  Closed-succs skip u h =
      (succs g.blocks u, successors_of-eq g u h, AllBelow-succs _ u _ (wf.blocks_fit.edges_fit u))

  Closed-preds : Closed (predecessors_of g) (λ p. false) (λ (p : BlockId). p) (length g.blocks)
  Closed-preds u h =
      (preds g.blocks u, predecessors_of-eq g u h, AllBelow-preds _ _ (wf.blocks_fit.preds_fit u))

  -- On a well-formed graph, from a block of it, the search that avoids blocks and skips edges returns
  -- the set of the blocks that a route leads to, each block of the route but the first one not
  -- avoided and each edge of it not skipped; a start that is avoided gives the empty set.
  pub reachable_avoiding_edges_decides :
      (start : BlockId) (avoid : BlockId → Bool) (skip : Edge → Bool)
      → start < length g.blocks
      → (seen : BlockId → Bool) × (reachable_avoiding_edges g start avoid skip ≡ done seen)
        × ((v : BlockId)
            → (seen v ≡ true) ↔ ((avoid start ≡ false) × ∥ Route g avoid skip start v ∥₁))
  unfolding reachable_avoiding_edges
  reachable_avoiding_edges_decides start avoid skip h = elim (Bool-cases (avoid start)) [
    | inl out ↦ (no_marks, rw out, λ v. ground arith)
    | inr free ↦
        let (seen, ends, exact, _) =
          search_from_decides (successors_of g) (blocked avoid skip) edge_dest (length g.blocks)
            start (Closed-succs (blocked avoid skip)) (fuel_of g) h (omega arith) in
        (
          seen,
          rw free ends,
          λ v. (
            λ m. (free, ∥∥₁_map ((exact v).0 m) (Route-of-Walk g avoid skip start)),
            λ (_, r). (exact v).1 (∥∥₁_map r (Walk-of-Route g avoid skip start)),
          ),
        )
  ]

  -- On a well-formed graph, from a block of it, `Reachable` returns the set of the blocks that some
  -- route from the start leads to.
  pub reachable_decides :
      (start : BlockId)
      → start < length g.blocks
      → (seen : BlockId → Bool) × (reachable g start ≡ done seen) × Decides seen (Flow g start)
  unfolding reachable
  reachable_decides start h =
      let (seen, ends, exact, _) =
        search_from_decides (successors_of g) (blocked no_marks no_skip) edge_dest (length g.blocks)
          start (Closed-succs (blocked no_marks no_skip)) (fuel_of g) h (omega arith) in
      (
        seen,
        ends,
        λ v. (
          λ m. ∥∥₁_map ((exact v).0 m) (Route-of-Walk g no_marks no_skip start),
          λ r. (exact v).1 (∥∥₁_map r (Walk-of-Route g no_marks no_skip start)),
        ),
      )

  abbrev BackWalk : BlockId → BlockId → Type 0
  BackWalk = Walk (predecessors_of g) (λ (p : BlockId). false) (λ p. p)

  Flow-of-BackWalk : (target : BlockId) {v : BlockId} → BackWalk target v → Flow g v target
  Flow-of-BackWalk target Walk.here = here
  Flow-of-BackWalk target (Walk.step {u} {v} w (ps, read, l)) =
      let same : ps ≡ preds g.blocks u = ground (arith, read-preds g.blocks u) in
      let listed : v ∈ preds g.blocks u = subst (λ xs. v ∈ xs) same ((Leads-mem ps v).0 l) in
      Route-prepend g no_marks no_skip
        ((LeadsTo-Enters (succs g.blocks v) u).0 ((mirror wf.blocks_fit v u).1 listed))
        (Flow-of-BackWalk target w)

  Step-mirror :
      (u v : BlockId)
      → Enters no_marks no_skip (succs g.blocks u) v
      → Step (predecessors_of g) (λ (p : BlockId). false) (λ p. p) v u
  Step-mirror u v l =
      let listed = (mirror wf.blocks_fit u v).0 ((LeadsTo-Enters (succs g.blocks u) v).1 l) in
      elim (read-preds g.blocks v) [
        | inl read ↦ (preds g.blocks v, read, (Leads-mem (preds g.blocks v) u).1 listed)
        | inr (_, empty) ↦ absurd (subst (λ ps. u ∈ ps) empty listed)
      ]

  BackWalk-of-Flow : {u v : BlockId} → Flow g u v → BackWalk v u
  BackWalk-of-Flow here = Walk.here
  BackWalk-of-Flow (along {u = w} {v} r l) =
      Walk-prepend (predecessors_of g) (λ p. false) (λ p. p) (Step-mirror w v l)
        (BackWalk-of-Flow r)

  -- On a well-formed graph, for a block of it, `CanReach` returns the set of the blocks from which
  -- some route leads to the target, though it walks the predecessor lists.
  pub can_reach_decides :
      (target : BlockId)
      → target < length g.blocks
      → (seen : BlockId → Bool) × (can_reach g target ≡ done seen)
        × Decides seen (λ v. Flow g v target)
  unfolding can_reach
  can_reach_decides target h =
      let (seen, ends, exact, _) =
        search_from_decides (predecessors_of g) (λ p. false) (λ (p : BlockId). p) (length g.blocks)
          target Closed-preds (fuel_of g) h (omega arith) in
      (
        seen,
        ends,
        λ v. (
          λ m. ∥∥₁_map ((exact v).0 m) (Flow-of-BackWalk target),
          λ r. (exact v).1 (∥∥₁_map r BackWalk-of-Flow),
        ),
      )
