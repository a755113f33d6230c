-- ===== src/Model/Graph/Dominance.antt =====
-- The question that `ReachableAvoiding` of model.go answers: does every path from one block to
-- another pass through some block of a set?
use lifeline.Prelude.{◌<◌, ◌≡◌, ◌↔◌, ◌⊎◌, inl, inr, Bool, true, false, List, [], ◌∷◌, length}
use lifeline.Prelude.{Bool-cases, no_marks, arith, refl}
use mathlib.Core.Logic.{∥∥₁_elim}
use mathlib.Core.HLevel.{⊥_prop}
use lifeline.Model.Graph.{BlockId, Edge, Cfg, done, reachable_avoiding, reachable_avoiding_edges}
use lifeline.Model.Graph.WellFormed.{succs, IsWellFormed}
use lifeline.Model.Graph.Routes.{
  Enters, Route, here, along, Flow, no_skip, reachable_avoiding_edges_decides,
}

-- The first block of the route, or one that it enters later, is in the set.
abbrev pub Meets :
    (g : Cfg) (start : BlockId) (avoid : BlockId → Bool) {v : BlockId} → Flow g start v → Type 0
Meets g start avoid here = avoid start ≡ true
Meets g start avoid (along {u} {v} r l) = Meets g start avoid r ⊎ (avoid v ≡ true)

module _ (avoid : BlockId → Bool) where
  Enters-avoid :
      (es : List Edge) (v : BlockId)
      → avoid v ≡ false
      → Enters no_marks no_skip es v
      → Enters avoid no_skip es v
  Enters-avoid [] v free l = l
  Enters-avoid (e ∷ es) v free l = ground (arith, Enters-avoid es v free)

  Enters-forget :
      (es : List Edge) (v : BlockId)
      → Enters avoid no_skip es v
      → (avoid v ≡ false) × Enters no_marks no_skip es v
  Enters-forget [] v l = absurd l
  Enters-forget (e ∷ es) v l = ground (arith, Enters-forget es v)

  module _ (g : Cfg) (start : BlockId) where
    Meets-or_avoids :
        {v : BlockId} (r : Flow g start v)
        → Meets g start avoid r ⊎ (avoid start ≡ false) × Route g avoid no_skip start v
    Meets-or_avoids here = elim (Bool-cases (avoid start)) [
      | inl met ↦ inl met
      | inr free ↦ inr (free, here)
    ]
    Meets-or_avoids (along {u} {v} r l) = elim (Meets-or_avoids r) [
      | inl met ↦ inl (inl met)
      | inr (free, s) ↦ elim (Bool-cases (avoid v)) [
        | inl met ↦ inl (inr met)
        | inr clear ↦ inr (free, along s (Enters-avoid (succs g.blocks u) v clear l))
      ]
    ]

    forget : {v : BlockId} → Route g avoid no_skip start v → Flow g start v
    forget here = here
    forget (along {u} {v} r l) = along (forget r) (Enters-forget (succs g.blocks u) v l).1

    forget-not-Meets :
        {v : BlockId} (r : Route g avoid no_skip start v)
        → avoid start ≡ false
        → ¬ Meets g start avoid (forget r)
    unfolding forget
    forget-not-Meets here free met = cc
    forget-not-Meets (along {u} {v} r l) free (inl met) = forget-not-Meets r free met
    forget-not-Meets (along {u} {v} r l) free (inr met) =
        let clear = (Enters-forget (succs g.blocks u) v l).0 in cc

-- On a well-formed graph, from a block of it, `ReachableAvoiding` returns a set that leaves a block
-- out exactly when every route from the start to that block meets the avoided set, at its first
-- block or later.
pub reachable_avoiding_dominates :
    (g : Cfg)
    → IsWellFormed g
    → (start : BlockId) (avoid : BlockId → Bool) → start < length g.blocks
    → (seen : BlockId → Bool) × (reachable_avoiding g start avoid ≡ done seen)
      × ((v : BlockId) → (seen v ≡ false) ↔ ((r : Flow g start v) → Meets g start avoid r))
unfolding reachable_avoiding
reachable_avoiding_dominates g wf start avoid h =
    let (seen, ends, exact) = reachable_avoiding_edges_decides g wf start avoid no_skip h in
    (
      seen,
      ends,
      λ v. (
        λ out r. elim (Meets-or_avoids avoid g start r) [
          | inl met ↦ met
          | inr (free, s) ↦ absurd (cc ((exact v).1 (free, ∣ s ∣₁)))
        ],
        λ all. elim (Bool-cases (seen v)) [
          | inr out ↦ out
          | inl inside ↦
              let (free, s) = (exact v).0 inside in
              absurd (
                ∥∥₁_elim s ⊥_prop
                  (λ r. forget-not-Meets avoid g start r free (all (forget avoid g start r))))
        ],
      ),
    )

pub reachable_avoiding-edges :
    (g : Cfg) (start : BlockId) (avoid : BlockId → Bool)
    → reachable_avoiding g start avoid ≡ reachable_avoiding_edges g start avoid no_skip
unfolding reachable_avoiding
reachable_avoiding-edges g start avoid = refl
