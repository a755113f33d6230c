-- ===== src/Model/Graph/Cycles.antt =====
-- What `IsPersistentSCC` of model.go asks, and cycles.
use lifeline.Prelude.{ℕ, ◌<◌, ◌≡◌, refl, sym, ap, subst, ◌↔◌, ◌⊎◌, inl, inr, arith}
use lifeline.Prelude.{Bool, true, some, List, [], ◌∷◌, length, ==_refl, Bool-cases, ltb, ltb→lt}
use mathlib.Core.Option
use lifeline.Model.Graph.{BlockId, Edge, Cfg, has_edge_to, is_persistent_scc}
use lifeline.Model.Graph.WellFormed.{
  succs, LeadsTo, IsWellFormed, EdgesFit, successors_of-eq, count,
}
use lifeline.Model.Graph.Routes.{Flow, here, along, LeadsTo-Enters}
use lifeline.Model.Graph.Tarjan.State.{Arc}

has_edge_to_iff : (v : BlockId) (es : List Edge) → (has_edge_to v es ≡ true) ↔ LeadsTo v es
unfolding has_edge_to
has_edge_to_iff v [] = ground arith
has_edge_to_iff v (e ∷ es) = ground (arith, has_edge_to_iff v es)

-- Some edge leads from `v` to a block from which a route leads back to it.
abbrev pub OnCycle : Cfg → BlockId → Type 0
OnCycle g v = (w : BlockId) × Arc g v w × Flow g w v

module _ (g : Cfg) (wf : IsWellFormed g) where
  -- Every block of the list is a block of the graph.
  abbrev pub AllIn : List BlockId → Type 0
  AllIn ids = (v : BlockId) → 0 < count v ids → v < length g.blocks

  -- A component is a cycle when it has two blocks or an edge to itself.
  pub persistent :
      (h : BlockId) (rest : List BlockId)
      → AllIn (h ∷ rest)
      → (b : Bool) × (is_persistent_scc g (h ∷ rest) ≡ some b)
        × ((b ≡ true) ↔ ((0 < length rest) ⊎ Arc g h h))
  unfolding is_persistent_scc count
  persistent h [] fits =
      let (there, back) = has_edge_to_iff h (succs g.blocks h) in
      (
        has_edge_to h (succs g.blocks h),
        ap (Option.map (has_edge_to h)) (successors_of-eq g h (fits h (ground (arith, ==_refl h)))),
        (λ e. inr (there e), λ x. elim x [ inl l ↦ absurd (omega (arith, l)) | inr a ↦ back a ]),
      )
  persistent h (w ∷ rest) fits = (true, refl, (λ e. inl (omega arith), λ x. refl))

  -- A route is empty or begins with an edge.
  pub Flow-first : {u w : BlockId} → Flow g u w → (u ≡ w) ⊎ ((x : BlockId) × Arc g u x × Flow g x w)
  Flow-first here = inl refl
  Flow-first (along {u = y} {v = w} r a) = elim (Flow-first r) [
    | inl same ↦
        inr (w, subst (λ z. Arc g z w) (sym same) ((LeadsTo-Enters (succs g.blocks y) w).1 a), here)
    | inr (x, b, s) ↦ inr (x, b, along s a)
  ]

  LeadsTo-below : (n u : ℕ) (v : BlockId) (es : List Edge) → EdgesFit n u es → LeadsTo v es → v < n
  LeadsTo-below n u v [] h m = absurd m
  LeadsTo-below n u v (e ∷ es) (f, l, h) (inl same) = subst (λ x. x < n) (sym same) l
  LeadsTo-below n u v (e ∷ es) (f, l, h) (inr m) = LeadsTo-below n u v es h m

  pub Flow-below : {u v : BlockId} → Flow g u v → u < length g.blocks → v < length g.blocks
  Flow-below here l = l
  Flow-below (along {u = y} {v} r a) l =
      LeadsTo-below _ y v _ (wf.blocks_fit.edges_fit y) ((LeadsTo-Enters (succs g.blocks y) v).1 a)

  -- A route from inside a list of blocks to outside leaves it along some edge.
  pub Flow-leaves :
      (c : List BlockId) {u z : BlockId}
      → Flow g u z
      → 0 < count u c
      → count z c ≡ 0
      → (a : BlockId) × (b : BlockId) × (0 < count a c) × Arc g a b × (count b c ≡ 0) × Flow g b z
  Flow-leaves c here h k = absurd (omega (arith, h, k))
  Flow-leaves c (along {u = y} {v = z} r m) h k = elim (Bool-cases (ltb 0 (count y c))) [
    | inl inside ↦
        (y, z, ltb→lt 0 (count y c) inside, (LeadsTo-Enters (succs g.blocks y) z).1 m, k, here)
    | inr outside ↦
        let (a, b, p, q, o, s) = Flow-leaves c r h (ground (arith, outside)) in
        (a, b, p, q, o, along s m)
  ]
