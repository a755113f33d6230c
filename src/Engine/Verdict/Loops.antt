-- ===== src/Engine/Verdict/Loops.antt =====
-- What `SummarizeTermination` and `UnresolvedLoop` say of a function's graph.
use lifeline.Prelude.{◌<◌, ◌≤◌, ◌≡◌, refl, sym, ap, subst, ◌↔◌, ◌⊎◌, inl, inr, arith}
use lifeline.Prelude.{Bool, true, false, not, ◌||◌, some, List, [], ◌∷◌, ◌++◌, length, ◌==◌}
use lifeline.Prelude.{if◌then◌else◌, Bool-cases, ltb, ltb→lt, ==→≡, ==_refl}
use mathlib.Core.Logic.{∥∥₁_map, ∥∥₁_elim}
use mathlib.Core.HLevel.{⊥_prop}
use lifeline.Model.Graph.{BlockId, Cfg, is_persistent_scc}
use lifeline.Model.Graph.WellFormed.{succs, LeadsTo, IsWellFormed, count}
use lifeline.Model.Graph.Routes.{
  Flow, here, no_skip, Route-join, Decides, reachable_decides, can_reach_decides,
}
use lifeline.Model.Graph.Tarjan.{Run, ok}
use lifeline.Model.Graph.Tarjan.State.{total, Arc, Flow-arc, IsComponent, AreComponents}
use lifeline.Model.Graph.Tarjan.Components.{sccs-AreComponents}
use lifeline.Model.Graph.Cycles.{AllIn, persistent, OnCycle, Flow-first, Flow-below, Flow-leaves}
use lifeline.Engine.Verdict.{
  SccFacts, search, read, head_reached, resolved_by, scc_facts, all_scc_facts,
  summarize_termination, any_unresolved, unresolved_loop,
}
use lifeline.Engine.Verdict.Facts.{IsResolved, resolved_by-IsResolved}

-- A block that runs reach and that runs can come back to, and from which no route leads to the exit.
abbrev pub Trapped : Cfg → BlockId → Type 0
Trapped g v = Flow g g.entry v × OnCycle g v × (Flow g v g.exit → ⊥)

abbrev pub SomeTrapped : Cfg → Type 0
SomeTrapped g = (v : BlockId) × Trapped g v

module _ (g : Cfg) (wf : IsWellFormed g) where
  join : {x y z : BlockId} → Flow g x y → Flow g y z → Flow g x z
  join p q = Route-join g _ no_skip p q

  module _ (reach can_exit : BlockId → Bool) (reached : Decides reach (Flow g g.entry))
      (exits : Decides can_exit (λ v. Flow g v g.exit)) where
    -- A component that counts and is not resolved.
    abbrev Bad : List BlockId → Type 0
    Bad [] = ⊥
    Bad (h ∷ rest) =
        ((0 < length rest) ⊎ Arc g h h)
        × (reach h ≡ true)
        × (IsResolved g wf (h ∷ rest) can_exit (h ∷ rest) → ⊥)

    -- The facts of a component, and whether they make the loop unresolved.
    abbrev Judges : List BlockId → Run (List SccFacts) → Type 0
    Judges c r = (fs : List SccFacts) × (r ≡ ok fs) × ((any_unresolved g fs ≡ true) ↔ Bad c)

    judged :
        (h : BlockId) (rest : List BlockId) (p b : Bool)
        → is_persistent_scc g (h ∷ rest) ≡ some p
        → ((p ≡ true) ↔ ((0 < length rest) ⊎ Arc g h h))
        → resolved_by g (h ∷ rest) can_exit (h ∷ rest) ≡ ok b
        → ((b ≡ true) ↔ IsResolved g wf (h ∷ rest) can_exit (h ∷ rest))
        → (r : Bool) → reach h ≡ r
        → Judges (h ∷ rest) (scc_facts g reach can_exit (h ∷ rest))
    unfolding scc_facts read head_reached any_unresolved
    judged h rest false b e pe f be r re =
        ([], rw e refl, (λ x. absurd (cc), λ (q, x, y). absurd (cc (pe.1 q))))
    judged h rest true b e pe f be false re =
        ([], rw e (rw re refl), (λ x. absurd (cc), λ (q, x, y). absurd (cc (x, re))))
    judged h rest true b e pe f be true re = (
      record { blocks = h ∷ rest; resolved = b } ∷ [],
      rw e (rw re (rw f refl)),
      (λ x. (pe.0 refl, re, λ z. cc (x, be.1 z)), λ (q, x, y). unresolved y),
    )
      where
        unresolved : (IsResolved g wf (h ∷ rest) can_exit (h ∷ rest) → ⊥) → (not b || false) ≡ true
        unresolved y = elim (Bool-cases b) [
          | inl t ↦ absurd (y (be.0 t))
          | inr t ↦ ground (arith, t)
        ]

    any_append :
        (fs gs : List SccFacts)
        → any_unresolved g (fs ++ gs) ≡ (any_unresolved g fs || any_unresolved g gs)
    unfolding any_unresolved
    any_append [] gs = refl
    any_append (f ∷ fs) gs = ground (arith, any_append fs gs)

    abbrev SomeBad : List (List BlockId) → Type 0
    SomeBad [] = ⊥
    SomeBad (c ∷ cs) = Bad c ⊎ SomeBad cs

    abbrev AllFit : List (List BlockId) → Type 0
    AllFit [] = Unit
    AllFit (c ∷ cs) = AllIn g wf c × AllFit cs

    judge :
        (c : List BlockId)
        → AllIn g wf c
        → IsComponent g c
        → Judges c (scc_facts g reach can_exit c)
    unfolding count
    judge [] fits (r, m, x, y) = absurd (omega (arith, m))
    judge (h ∷ rest) fits comp =
        let (p, e, pe) = persistent g wf h rest fits in
        let (b, f, be) = resolved_by-IsResolved g wf (h ∷ rest) can_exit (h ∷ rest) fits in
        judged h rest p b e pe f be (reach h) refl

    judge_all :
        (cs : List (List BlockId))
        → AllFit cs
        → AreComponents g cs
        → (fs : List SccFacts) × (all_scc_facts g reach can_exit cs ≡ ok fs)
          × ((any_unresolved g fs ≡ true) ↔ SomeBad cs)
    unfolding all_scc_facts any_unresolved
    judge_all [] fits comps = ([], refl, (λ h. absurd (cc), λ h. absurd h))
    judge_all (c ∷ cs) (fits, rest) (comp, comps) =
        let (fs, run, (out, into)) = judge c fits comp in
        let (gs, run', (out', into')) = judge_all cs rest comps in
        (
          fs ++ gs,
          rw run (rw run' refl),
          (
            λ h. elim (Bool-cases (any_unresolved g fs)) [
              | inl t ↦ inl (out t)
              | inr t ↦ inr (out' (ground (arith, h, t, any_append fs gs)))
            ],
            λ x. elim x [
              | inl b ↦ ground (arith, any_append fs gs, into b)
              | inr b ↦ ground (arith, any_append fs gs, into' b)
            ],
          ),
        )

    Bad-of_Trapped :
        (c : List BlockId) (v : BlockId) → IsComponent g c → 0 < count v c → Trapped g v → Bad c
    unfolding count
    Bad-of_Trapped [] v comp m t = absurd (omega (arith, m))
    Bad-of_Trapped (h ∷ rest) v (r, m, mutual_flow, all) inside (from_entry, (w, a, back), stays) =
        let in_next =
          all w (join (mutual_flow v inside).0 (Flow-arc g a))
            (join back (mutual_flow v inside).1) in
        (
          cyclic rest refl inside in_next,
          (reached h).1 ∣ join from_entry (join (mutual_flow v inside).1 (mutual_flow h own).0) ∣₁,
          λ (u, k, (z, arc, out, exit)). ∥∥₁_elim ((exits z).0 exit) ⊥_prop (λ f.
              stays (
                join (mutual_flow v inside).1
                  (join (mutual_flow u k).0 (join (Flow-arc g arc) f)))),
        )
      where
        own : 0 < count h (h ∷ rest)
        own = ground (arith, ==_refl h)

        cyclic :
            (xs : List BlockId)
            → xs ≡ rest
            → 0 < count v (h ∷ xs)
            → 0 < count w (h ∷ rest)
            → (0 < length rest) ⊎ Arc g h h
        cyclic [] e i k =
            let single : h ≡ v = ==→≡ h v (ground (arith, i)) in
            let k' : 0 < count w (h ∷ []) = subst (λ s. 0 < count w (h ∷ s)) (sym e) k in
            let same : h ≡ w = ==→≡ h w (ground (arith, k')) in
            inr (subst (Arc g h) (sym same) (subst (λ x. Arc g x w) (sym single) a))
        cyclic (y ∷ xs) e i k = inl (omega (arith, ap length e))

    module _ (terminal : succs g.blocks g.exit ≡ []) where
      no_exit-Arc : (x : BlockId) → Arc g g.exit x → ⊥
      no_exit-Arc x a = subst (λ es. LeadsTo x es) terminal a

      Trapped-of_Bad :
          (c : List BlockId)
          → ((v : BlockId) → count v c ≤ 1)
          → IsComponent g c
          → Bad c
          → ∥ SomeTrapped g ∥₁
      unfolding count
      Trapped-of_Bad [] once comp bad = absurd bad
      Trapped-of_Bad (h ∷ rest) once (r, m, mutual_flow, all) (cycle, start, unresolved) =
          ∥∥₁_map ((reached h).0 start) (λ f. (h, (f, on_cycle rest refl cycle, trapped)))
        where
          own : 0 < count h (h ∷ rest)
          own = ground (arith, ==_refl h)

          on_cycle : (xs : List BlockId) → xs ≡ rest → (0 < length rest) ⊎ Arc g h h → OnCycle g h
          on_cycle xs e (inr a) = (h, a, here)
          on_cycle [] e (inl l) = absurd (omega (arith, l, ap length e))
          on_cycle (w ∷ xs) e (inl l) =
              let few : count h (h ∷ w ∷ xs) ≤ 1 =
                subst (λ s. count h (h ∷ s) ≤ 1) (sym e) (once h) in
              let w_in : 0 < count w (h ∷ rest) =
                subst (λ s. 0 < count w (h ∷ s)) e (ground (arith, ==_refl w)) in
              elim (Flow-first g wf (join (mutual_flow h own).1 (mutual_flow w w_in).0)) [
                | inl same ↦
                    absurd (
                      ground (arith, few, ==_refl h, subst (λ x. (x == h) ≡ true) same (==_refl h)))
                | inr (x, a, s) ↦ (x, a, join s (join (mutual_flow w w_in).1 (mutual_flow h own).0))
              ]

          trapped : Flow g h g.exit → ⊥
          trapped f = elim (Bool-cases (ltb 0 (count g.exit (h ∷ rest)))) [
            | inl inside ↦
                let back = join (mutual_flow g.exit (ltb→lt 0 _ inside)).1 (mutual_flow h own).0 in
                elim (Flow-first g wf back) [
                  | inl same ↦
                      let (x, a, s) = on_cycle rest refl cycle in
                      no_exit-Arc x (subst (λ u. Arc g u x) (sym same) a)
                  | inr (x, a, s) ↦ no_exit-Arc x a
                ]
            | inr outside ↦
                let (a, b, p, q, o, s) =
                  Flow-leaves g wf (h ∷ rest) f own (ground (arith, outside)) in
                unresolved (a, p, (b, q, o, (exits b).1 ∣ s ∣₁))
          ]

      SomeBad-Trapped :
          (cs : List (List BlockId))
          → ((v : BlockId) → total v cs ≤ 1)
          → AreComponents g cs
          → SomeBad cs
          → ∥ SomeTrapped g ∥₁
      unfolding total
      SomeBad-Trapped [] once comps b = absurd b
      SomeBad-Trapped (c ∷ cs) once (comp, comps) (inl b) =
          Trapped-of_Bad c (λ v. omega (arith, once v)) comp b
      SomeBad-Trapped (c ∷ cs) once (comp, comps) (inr b) =
          SomeBad-Trapped cs (λ v. omega (arith, once v)) comps b

    SomeBad-of_Trapped :
        (cs : List (List BlockId)) (v : BlockId)
        → AreComponents g cs
        → 0 < total v cs
        → Trapped g v
        → SomeBad cs
    unfolding total
    SomeBad-of_Trapped [] v comps m t = absurd (omega (arith, m))
    SomeBad-of_Trapped (c ∷ cs) v (comp, comps) m t = elim (Bool-cases (ltb 0 (count v c))) [
      | inl inside ↦ inl (Bad-of_Trapped c v comp (ltb→lt 0 (count v c) inside) t)
      | inr outside ↦ inr (SomeBad-of_Trapped cs v comps (ground (arith, outside, m)) t)
    ]

    AllFit-total :
        (cs : List (List BlockId))
        → ((v : BlockId) → 0 < total v cs → v < length g.blocks)
        → AllFit cs
    unfolding total
    AllFit-total [] h = tt
    AllFit-total (c ∷ cs) h =
        (λ v m. h v (omega (arith, m)), AllFit-total cs (λ v m. h v (omega (arith, m))))

  -- On a well-formed graph whose exit has no successors, as those of `BuildContext` are, `UnresolvedLoop` ends
  -- without a panic. It says yes just when there is a block that a route from the entry leads to, that some
  -- route of at least one edge leads from and back to, and from which no route leads to the exit.
  pub unresolved_loop-decides :
      succs g.blocks g.exit ≡ []
      → (b : Bool) × (unresolved_loop g ≡ ok b) × ((b ≡ true) ↔ ∥ SomeTrapped g ∥₁)
  unfolding unresolved_loop summarize_termination search
  unresolved_loop-decides terminal =
      let (reach, r, reached) = reachable_decides g wf g.entry wf.entry_fits in
      let (can_exit, c, exits) = can_reach_decides g wf g.exit wf.exit_fits in
      let (comps, s, once, are) = sccs-AreComponents g wf in
      let (fs, j, (out, into)) =
        judge_all reach can_exit reached exits comps
          (AllFit-total reach can_exit reached exits comps (λ v m. inside v comps (once v) m))
          are in
      (
        any_unresolved g fs,
        rw r (rw c (rw s (rw j refl))),
        (
          λ h.
              SomeBad-Trapped reach can_exit reached exits terminal comps
                (λ v. at_most_once v comps (once v)) are (out h),
          λ t. truth (any_unresolved g fs) (
              ∥∥₁_map t (λ (v, x). into (
                SomeBad-of_Trapped reach can_exit reached exits comps v are
                  (found v comps (once v) (Flow-below g wf x.0 wf.entry_fits)) x))),
        ),
      )
    where
      inside :
          (v : BlockId) (cs : List (List BlockId))
          → total v cs ≡ (if ltb v (length g.blocks) then 1 else 0)
          → 0 < total v cs
          → v < length g.blocks
      inside v cs e m = ground (arith, e, m)

      at_most_once :
          (v : BlockId) (cs : List (List BlockId))
          → total v cs ≡ (if ltb v (length g.blocks) then 1 else 0)
          → total v cs ≤ 1
      at_most_once v cs e = ground (arith, e)

      found :
          (v : BlockId) (cs : List (List BlockId))
          → total v cs ≡ (if ltb v (length g.blocks) then 1 else 0)
          → v < length g.blocks
          → 0 < total v cs
      found v cs e l = ground (arith, e, l)

      truth : (b : Bool) → ∥ b ≡ true ∥₁ → b ≡ true
      truth true h = refl
      truth false h = absurd (∥∥₁_elim h ⊥_prop (λ e. cc (e)))
