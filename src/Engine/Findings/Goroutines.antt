-- ===== src/Engine/Findings/Goroutines.antt =====
-- Which goroutines are reported.
use lifeline.Prelude.{Bool, true, false, not, ◌||◌, Option, none, some, List, [], ◌∷◌, ◌++◌}
use lifeline.Prelude.{
  ◌∈◌, ◌≡◌, ◌↔◌, inl, inr, refl, subst, arith, mem-append_cases, mem-append_left,
}
use lifeline.Prelude.{mem-append_right, if◌then◌else◌}
use lifeline.Model.Graph.{Cfg}
use lifeline.Model.Graph.WellFormed.{succs, IsWellFormed}
use lifeline.Model.Graph.Tarjan.{ok}
use lifeline.Model.Facts.{Goroutine, Function, Program}
use lifeline.Config.{Config}
use lifeline.Engine.Diagnostics.{Diagnostic, Format}
use lifeline.Engine.Verdict.Loops.{SomeTrapped, unresolved_loop-decides}
use lifeline.Engine.Findings.{goroutine_ok, goroutine_finding, goroutine_findings}
use lifeline.Engine.Findings.Conditions.{mem-unless}

-- The graph, if there is one, is as `BuildContext` makes it.
abbrev pub IsBuilt : Option Cfg → Type 0
IsBuilt none = Unit
IsBuilt (some graph) = IsWellFormed graph × (succs graph.blocks graph.exit ≡ [])

abbrev pub AreBuilt : List Goroutine → Type 0
AreBuilt [] = Unit
AreBuilt (g ∷ gs) = IsBuilt g.cfg × AreBuilt gs

-- A goroutine with a loop that it cannot leave: by its graph, or by what another package found, or, where
-- there is neither, by its syntax.
abbrev pub HasNoStop : Option Cfg → Option Bool → Goroutine → Type 0
HasNoStop (some graph) imported g = ∥ SomeTrapped graph ∥₁
HasNoStop none (some unresolved) g = unresolved ≡ true
HasNoStop none none g =
    (g.infinite_loop ≡ true)
    × (g.has_return ≡ false)
    × (g.context_stop ≡ false)
    × (g.channel_stop ≡ false)
    × (g.explicit_stop ≡ false)

goroutine_ok-decides :
    (g : Goroutine) (graph : Option Cfg) (imported : Option Bool)
    → g.cfg ≡ graph
    → g.imported_unresolved_loop ≡ imported
    → IsBuilt graph
    → (b : Bool) × (goroutine_ok g ≡ ok b) × ((b ≡ false) ↔ HasNoStop graph imported g)
unfolding goroutine_ok
goroutine_ok-decides g (some graph) imported e f (wf, terminal) =
    let (b, run, (there, back)) = unresolved_loop-decides graph wf terminal in
    (not b, rw e (rw run refl), (λ h. there (ground (arith, h)), λ t. ground (arith, back t)))
goroutine_ok-decides g none (some unresolved) e f built =
    (not unresolved, rw e (rw f refl), (λ h. ground (arith, h), λ h. ground (arith, h)))
goroutine_ok-decides g none none e f built = (
  not g.infinite_loop || (g.has_return || (g.context_stop || (g.channel_stop || g.explicit_stop))),
  rw e (rw f refl),
  (λ h. ground (arith, h), λ (a, b, c, d, x). ground (arith, a, b, c, d, x)),
)

module _ (fmt : Format) (p : Program) (cfg : Config) (fn : Function) where
  -- The rule LL1002 ends without a panic on goroutines whose graphs are well formed with no edge out of the
  -- exit. It reports a goroutine, and only then, when it has a loop that it cannot leave: some block that
  -- the entry leads to lies on a cycle and leads to the exit by no route; or, without a graph, another
  -- package found such a loop; or, without either, it has an unconditional loop and no return or stop.
  pub goroutine_findings_iff :
      (gs : List Goroutine)
      → AreBuilt gs
      → (ds : List Diagnostic) × (goroutine_findings fmt p cfg fn gs ≡ ok ds)
        × ((d : Diagnostic)
            → (d ∈ ds) ↔ (
                (g : Goroutine) × (g ∈ gs)
                × HasNoStop g.cfg g.imported_unresolved_loop g
                × (d ≡ goroutine_finding fmt p cfg fn g)))
  unfolding goroutine_findings
  goroutine_findings_iff [] built = ([], refl, λ d. (λ m. absurd m, λ (g, m, h, e). absurd m))
  goroutine_findings_iff (g ∷ gs) (here, later) =
      let (fine, run, (stuck_now, back)) =
        goroutine_ok-decides g g.cfg g.imported_unresolved_loop refl refl here in
      let (ds, run', exact) = goroutine_findings_iff gs later in
      (
        (if fine then [] else goroutine_finding fmt p cfg fn g ∷ []) ++ ds,
        rw run (rw run' refl),
        λ d.
            let one = mem-unless fine (goroutine_finding fmt p cfg fn g) d in
            (
              λ m.
                  elim (mem-append_cases d
                    (if fine then [] else goroutine_finding fmt p cfg fn g ∷ []) ds m) [
                      | inl a ↦ (g, inl refl, stuck_now (one.0 a).0, (one.0 a).1)
                      | inr b ↦ let (x, y, z, w) = (exact d).0 b in (x, inr y, z, w)
                    ],
              λ (x, y, z, w). elim y [
                | inl e ↦
                    mem-append_left d (if fine then [] else goroutine_finding fmt p cfg fn g ∷ [])
                      ds
                      (one.1 (
                        back (subst (λ u. HasNoStop u.cfg u.imported_unresolved_loop u) e z),
                        subst (λ u. d ≡ goroutine_finding fmt p cfg fn u) e w,
                      ))
                | inr rest ↦
                    mem-append_right d (if fine then [] else goroutine_finding fmt p cfg fn g ∷ [])
                      ds ((exact d).1 (x, rest, z, w))
              ],
            ),
      )
