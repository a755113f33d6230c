-- ===== src/Engine/Verdict/Facts.antt =====
-- What `SummarizeTermination` finds out about one strongly connected component.
use lifeline.Prelude.{◌<◌, ◌≡◌, refl, sym, subst, ◌↔◌, inl, inr, arith}
use lifeline.Prelude.{Bool, true, false, not, ◌&&◌, ◌||◌, List, [], ◌∷◌, ◌==◌}
use lifeline.Prelude.{Bool-cases, ==→≡, ==_refl}
use lifeline.Model.Graph.{BlockId, Edge, Cfg}
use lifeline.Model.Graph.WellFormed.{succs, LeadsTo, IsWellFormed, successors_of-eq, count}
use lifeline.Model.Graph.Tarjan.{ok}
use lifeline.Model.Graph.Cycles.{AllIn}
use lifeline.Engine.Verdict.{read, member, escapes, resolved_by}

pub member_iff : (v : BlockId) (ws : List BlockId) → (member v ws ≡ true) ↔ (0 < count v ws)
unfolding member count
member_iff v [] = ground arith
member_iff v (w ∷ ws) = ground (arith, member_iff v ws)

-- An edge of the list leaves the component for a block that can exit.
abbrev pub Leaves : List BlockId → (BlockId → Bool) → List Edge → Type 0
Leaves scc can_exit es = (z : BlockId) × LeadsTo z es × (count z scc ≡ 0) × (can_exit z ≡ true)

escapes_iff :
    (scc : List BlockId) (can_exit : BlockId → Bool) (es : List Edge)
    → (escapes scc can_exit es ≡ true) ↔ Leaves scc can_exit es
unfolding escapes
escapes_iff scc can_exit [] = (λ h. absurd (cc), λ (z, m, k, c). absurd m)
escapes_iff scc can_exit (e ∷ es) =
    let (there, back) = escapes_iff scc can_exit es in
    (
      λ h. elim (Bool-cases (not (member e.to scc) && can_exit e.to)) [
        | inl first ↦
            (e.to, inl refl, ground (arith, first, member_iff e.to scc), ground (arith, first))
        | inr other ↦ let (z, m, k, c) = there (ground (arith, h, other)) in (z, inr m, k, c)
      ],
      λ (z, m, k, c). elim m [
        | inl same ↦
            let k' : count e.to scc ≡ 0 = subst (λ x. count x scc ≡ 0) same k in
            let c' : can_exit e.to ≡ true = subst (λ x. can_exit x ≡ true) same c in
            ground (arith, k', c', member_iff e.to scc)
        | inr rest ↦ ground (arith, back (z, rest, k, c))
      ],
    )

module _ (g : Cfg) (wf : IsWellFormed g) where
  -- Some edge leads from a block of the list out of the component, to a block that can exit.
  abbrev pub IsResolved : List BlockId → (BlockId → Bool) → List BlockId → Type 0
  IsResolved scc can_exit ids =
      (u : BlockId) × (0 < count u ids) × Leaves scc can_exit (succs g.blocks u)

  pub resolved_by-IsResolved :
      (scc : List BlockId) (can_exit : BlockId → Bool) (ids : List BlockId)
      → AllIn g wf ids
      → (b : Bool) × (resolved_by g scc can_exit ids ≡ ok b)
        × ((b ≡ true) ↔ IsResolved scc can_exit ids)
  unfolding resolved_by read count
  resolved_by-IsResolved scc can_exit [] h =
      (false, refl, (λ e. absurd (cc), λ (u, m, x). absurd (omega (arith, m))))
  resolved_by-IsResolved scc can_exit (id ∷ ids) h =
      let (b, run, (there, back)) =
        resolved_by-IsResolved scc can_exit ids (λ v m. h v (ground (arith, m))) in
      let (out, into) = escapes_iff scc can_exit (succs g.blocks id) in
      (
        escapes scc can_exit (succs g.blocks id) || b,
        rw (successors_of-eq g id (h id (ground (arith, ==_refl id)))) (rw run refl),
        (
          λ e. elim (Bool-cases (escapes scc can_exit (succs g.blocks id))) [
            | inl first ↦ (id, ground (arith, ==_refl id), out first)
            | inr other ↦
                let (u, m, x) = there (ground (arith, e, other)) in (u, ground (arith, m), x)
          ],
          λ (u, m, x). elim (Bool-cases (id == u)) [
            | inl same ↦ ground (
              arith,
              into (subst (λ w. Leaves scc can_exit (succs g.blocks w)) (sym (==→≡ id u same)) x),
            )
            | inr other ↦ ground (arith, back (u, ground (arith, m, other), x))
          ],
        ),
      )
