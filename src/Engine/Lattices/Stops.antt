-- ===== src/Engine/Lattices/Stops.antt =====
-- What `StopCapabilityDataflow` finds: after which blocks a stop may have been reached.
use lifeline.Prelude.{ℕ, ◌-◌, ◌<◌, ◌≤◌, ◌≡◌, refl, sym, ap, subst, ◌∙◌, ◌↔◌, ◌⊎◌, inl, inr, arith}
use lifeline.Prelude.{
  true, false, none, some, List, [], ◌∷◌, length, ltb, ◌==◌, if◌then◌else◌, Bool-cases, ◌∈◌,
}
use lifeline.Prelude.{==_refl}
use lifeline.Model.Graph.{
  BlockId, EdgeKind, edge_normal, edge_true, edge_false, edge_case, edge_fallthrough, edge_break,
  edge_continue, edge_loop_back, edge_goto, edge_return, edge_panic, edge_trusted_stop, Edge, Cfg,
}
use lifeline.Model.Graph.WellFormed.{succs, preds, LeadsTo, IsWellFormed, mirror, block-eq}
use lifeline.Model.Graph.Routes.{Route, Flow, here, along, Enters, no_skip, LeadsTo-Enters}
use lifeline.Model.Graph.Cycles.{Flow-below}
use lifeline.Model.Graph.Tarjan.{ok}
use lifeline.Model.Graph.Tarjan.State.{Arc, Flow-snoc}
use lifeline.Model.Dataflow.{join_outs, rounds_bound}
use lifeline.Model.Dataflow.Lattice.{IsMonotone, equation, preds-below}
use lifeline.Model.Dataflow.Rounds.{IsKept}
use lifeline.Model.Dataflow.Solution.{solve-derives}
use lifeline.Engine.Lattices.{
  StopCapability, stop_none, stop_available, stop_proven_consumed, stop_level, ends_worker,
  some_ends, at_point, stop_problem, stop_capability_dataflow,
}
use lifeline.Engine.Lattices.Levels.{points-IsMonotone, join_outs-above, join_outs-source}

of_level : ℕ → StopCapability
of_level k = if k == 0 then stop_none else if k == 1 then stop_available else stop_proven_consumed

of_level-stop_level : (a : StopCapability) → of_level (stop_level a) ≡ a
unfolding of_level
of_level-stop_level stop_none = refl
of_level-stop_level stop_available = refl
of_level-stop_level stop_proven_consumed = refl

pub stops_apart : (a b : StopCapability) → stop_level a ≡ stop_level b → a ≡ b
stops_apart a b h = sym (of_level-stop_level a) ∙ ap of_level h ∙ of_level-stop_level b

pub stops_bounded : (a : StopCapability) → stop_level a ≤ 2
stops_bounded stop_none = omega arith
stops_bounded stop_available = omega arith
stops_bounded stop_proven_consumed = omega arith

pub stop_problem-IsMonotone : (g : Cfg) → IsMonotone (stop_problem g) (λ s. 2 - stop_level s)
stop_problem-IsMonotone g =
    points-IsMonotone stop_level 2 stops_apart stops_bounded stop_none stop_available (at_point g)
      stop_proven_consumed refl

-- The edge is one that ends a worker: to a trusted stop, a return or a panic.
abbrev pub EndsWorker : Edge → Type 0
EndsWorker e = (e.kind ≡ edge_trusted_stop) ⊎ (e.kind ≡ edge_return) ⊎ (e.kind ≡ edge_panic)

ends_worker_iff :
    (k : EdgeKind)
    → (ends_worker k ≡ true) ↔ ((k ≡ edge_trusted_stop) ⊎ (k ≡ edge_return) ⊎ (k ≡ edge_panic))
unfolding ends_worker
ends_worker_iff edge_trusted_stop = (λ h. inl refl, λ h. refl)
ends_worker_iff edge_return = (λ h. inr (inl refl), λ h. refl)
ends_worker_iff edge_panic = (λ h. inr (inr refl), λ h. refl)
ends_worker_iff edge_normal = ground arith
ends_worker_iff edge_true = ground arith
ends_worker_iff edge_false = ground arith
ends_worker_iff edge_case = ground arith
ends_worker_iff edge_fallthrough = ground arith
ends_worker_iff edge_break = ground arith
ends_worker_iff edge_continue = ground arith
ends_worker_iff edge_loop_back = ground arith
ends_worker_iff edge_goto = ground arith

some_ends_iff : (es : List Edge) → (some_ends es ≡ true) ↔ ((e : Edge) × (e ∈ es) × EndsWorker e)
unfolding some_ends
some_ends_iff [] = (λ h. absurd (cc (h)), λ (e, m, k). absurd m)
some_ends_iff (e ∷ es) =
    let (there, back) = some_ends_iff es in
    (
      λ h. elim (Bool-cases (ends_worker e.kind)) [
        | inl first ↦ (e, inl refl, (ends_worker_iff e.kind).0 first)
        | inr other ↦ let (f, m, k) = there (ground (arith, h, other)) in (f, inr m, k)
      ],
      λ (f, m, k). elim m [
        | inl same ↦
            let first : ends_worker e.kind ≡ true =
              (ends_worker_iff e.kind).1 (subst EndsWorker same k) in
            ground (arith, first)
        | inr later ↦ ground (arith, back (f, later, k))
      ],
    )

module _ (g : Cfg) (wf : IsWellFormed g) where
  -- An edge out of the block ends a worker.
  abbrev pub IsStop : BlockId → Type 0
  IsStop u = (e : Edge) × (e ∈ succs g.blocks u) × EndsWorker e

  at_point_iff : (u : BlockId) → u < length g.blocks → (at_point g u ≡ true) ↔ IsStop u
  unfolding at_point
  at_point_iff u l =
      let (b, found, same) = block-eq g u l in
      subst (λ x. (x ≡ true) ↔ IsStop u)
        (sym (
          ap (λ o. elim o [ none ↦ false | some blk ↦ some_ends blk.successors ]) found
          ∙ ap some_ends same))
        (some_ends_iff (succs g.blocks u))

  -- The entry leads to a block that ends a worker, and a route that does not come back to the entry leads on.
  abbrev pub IsConsumed : BlockId → Type 0
  IsConsumed v =
      (u : BlockId) × Flow g g.entry u × IsStop u × Route g (λ w. w == g.entry) no_skip u v

  Arc-Enters :
      (v : BlockId) (es : List Edge)
      → (v == g.entry) ≡ false
      → LeadsTo v es
      → Enters (λ w. w == g.entry) no_skip es v
  Arc-Enters v [] other m = absurd m
  Arc-Enters v (e ∷ es) other (inl same) = inl (other, refl, same)
  Arc-Enters v (e ∷ es) other (inr m) = inr (Arc-Enters v es other m)

  Enters-Arc :
      (v : BlockId) (es : List Edge)
      → Enters (λ w. w == g.entry) no_skip es v
      → ((v == g.entry) ≡ false) × LeadsTo v es
  Enters-Arc v [] m = absurd m
  Enters-Arc v (e ∷ es) (inl (other, x, same)) = (other, inl same)
  Enters-Arc v (e ∷ es) (inr m) = let (other, a) = Enters-Arc v es m in (other, inr a)

  -- The sides of the equation of a block.
  module _ (out : BlockId → StopCapability) (v : BlockId) where
    equation-stop : at_point g v ≡ true → equation (stop_problem g) g out v ≡ stop_proven_consumed
    unfolding equation
    equation-stop here_stop = rw here_stop refl

    equation-entry :
        at_point g v ≡ false
        → (v == g.entry) ≡ true
        → equation (stop_problem g) g out v ≡ stop_available
    unfolding equation
    equation-entry away at_entry = rw away (rw at_entry refl)

    equation-join :
        at_point g v ≡ false
        → (v == g.entry) ≡ false
        → equation (stop_problem g) g out v ≡ join_outs (stop_problem g) out (preds g.blocks v)
    unfolding equation
    equation-join away other = rw away (rw other refl)

  level-equation :
      (out : BlockId → StopCapability) (u v : BlockId)
      → Arc g u v
      → (v == g.entry) ≡ false
      → stop_level (out u) ≤ stop_level (equation (stop_problem g) g out v)
  level-equation out u v arc other = elim (Bool-cases (at_point g v)) [
    | inl here_stop ↦
        subst (λ x. stop_level (out u) ≤ stop_level x) (sym (equation-stop out v here_stop))
          (stops_bounded (out u))
    | inr away ↦
        subst (λ x. stop_level (out u) ≤ stop_level x) (sym (equation-join out v away other))
          (join_outs-above stop_level 2 stops_apart stops_bounded (stop_problem g) (λ a b. refl) out
            (preds g.blocks v) u ((mirror wf.blocks_fit u v).0 arc))
  ]

  -- A stop that is reached comes from a block that ends a worker.
  Consumes : BlockId → StopCapability → Type 0
  Consumes v s = 2 ≤ stop_level s → IsConsumed v

  Consumes-IsKept : IsKept (stop_problem g) g Consumes
  unfolding Consumes
  Consumes-IsKept = (
    (λ v h. absurd (omega (arith, h))),
    (λ out below v l flow h. elim (Bool-cases (at_point g v)) [
      | inl here_stop ↦ (v, flow, (at_point_iff v l).0 here_stop, here)
      | inr away ↦ elim (Bool-cases (v == g.entry)) [
        | inl at_entry ↦
            absurd
              (omega (arith, subst (λ x. 2 ≤ stop_level x) (equation-entry out v away at_entry) h))
        | inr other ↦
            let (w, m, high) =
              join_outs-source stop_level 2 stops_apart stops_bounded (stop_problem g) (λ a b. refl)
                out 2 (preds g.blocks v) (omega arith)
                (subst (λ x. 2 ≤ stop_level x) (equation-join out v away other) h) in
            let (u, f, stop, r) =
              below w
                (preds-below (stop_problem g) g wf (length g.blocks) (preds g.blocks v)
                  (wf.blocks_fit.preds_fit v) w m)
                high in
            (
              u,
              f,
              stop,
              along r (Arc-Enters v (succs g.blocks w) other ((mirror wf.blocks_fit w v).1 m)),
            )
      ]
    ]),
  )

  module _ (out : BlockId → StopCapability)
      (solved : (v : BlockId) → Flow g g.entry v → out v ≡ equation (stop_problem g) g out v) where
    -- From a block that ends a worker on, the stop is reached.
    consumed_high :
        (u : BlockId)
        → Flow g g.entry u
        → IsStop u
        → {v : BlockId} → Route g (λ w. w == g.entry) no_skip u v
        → (2 ≤ stop_level (out v)) × Flow g g.entry v
    consumed_high u f stop here =
        let e =
          solved u f
          ∙ equation-stop out u ((at_point_iff u (Flow-below g wf f wf.entry_fits)).1 stop) in
        (omega (arith, ap stop_level e), f)
    consumed_high u f stop (along {u = w} {v} r m) =
        let (high, flow) = consumed_high u f stop r in
        let (other, arc) = Enters-Arc v (succs g.blocks w) m in
        let next = Flow-snoc g flow arc in
        (omega (arith, high, ap stop_level (solved v next), level-equation out w v arc other), next)

    entry_available :
        (v : BlockId) → Flow g g.entry v → (v == g.entry) ≡ true → 1 ≤ stop_level (out v)
    entry_available v f at_entry = elim (Bool-cases (at_point g v)) [
      | inl here_stop ↦ omega (arith, ap stop_level (solved v f ∙ equation-stop out v here_stop))
      | inr away ↦ omega (arith, ap stop_level (solved v f ∙ equation-entry out v away at_entry))
    ]

    -- A stop is available at least, wherever the entry leads to.
    available : {v : BlockId} → Flow g g.entry v → 1 ≤ stop_level (out v)
    available here = entry_available g.entry here (==_refl g.entry)
    available (along {u} {v} r m) = elim (Bool-cases (v == g.entry)) [
      | inl at_entry ↦ entry_available v (along r m) at_entry
      | inr other ↦ omega (
        arith,
        available r,
        ap stop_level (solved v (along r m)),
        level-equation out u v ((LeadsTo-Enters (succs g.blocks u) v).1 m) other,
      )
    ]

    verdict :
        ((v : BlockId) → v < length g.blocks → Consumes v (out v))
        → (v : BlockId) → Flow g g.entry v
        → ((out v ≡ stop_proven_consumed) ↔ IsConsumed v)
          × ((IsConsumed v → ⊥) → out v ≡ stop_available)
    unfolding Consumes
    verdict consumes v f =
        let source = consumes v (Flow-below g wf f wf.entry_fits) in
        (
          (
            (λ e. source (omega (arith, ap stop_level e))),
            (λ (u, flow, stop, r).
                stops_apart (out v) stop_proven_consumed
                  (omega (arith, (consumed_high u flow stop r).0, stops_bounded (out v)))),
          ),
          (λ none_consumed.
              stops_apart (out v) stop_available (elim (Bool-cases (ltb (stop_level (out v)) 2)) [
                | inl low ↦ ground (arith, low, available f)
                | inr high ↦ absurd (none_consumed (source (ground (arith, high))))
              ])),
        )

  -- On a well-formed graph with a stop mechanism at hand `StopCapabilityDataflow` ends without a panic, and tells
  -- for each block that the entry leads to whether some route from the entry has passed a block with a
  -- trusted stop, a return or a panic, and has not come back to the entry since: if so, the stop is consumed,
  -- and if not, it is available. A block that the entry does not lead to has no stop.
  pub stop_capability_dataflow-decides :
      (out : BlockId → StopCapability) × (stop_capability_dataflow (some g) true ≡ ok out)
      × ((v : BlockId)
          → Flow g g.entry v
          → ((out v ≡ stop_proven_consumed) ↔ IsConsumed v)
            × ((IsConsumed v → ⊥) → out v ≡ stop_available))
      × ((v : BlockId) → v < length g.blocks → (Flow g g.entry v → ⊥) → out v ≡ stop_none)
  unfolding stop_capability_dataflow
  stop_capability_dataflow-decides =
      let (out, run, solved, untouched, consumes) =
        solve-derives (stop_problem g) (λ s. 2 - stop_level s) (stop_problem-IsMonotone g) g wf
          (rounds_bound 2 g) (omega arith) Consumes Consumes-IsKept in
      (out, run, verdict out solved consumes, untouched)
