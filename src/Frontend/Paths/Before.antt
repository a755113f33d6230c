-- ===== src/Frontend/Paths/Before.antt =====
-- What the frontend proves to run before what, on a well-formed graph.
use lifeline.Prelude.{
  ◌≡◌, ◌≢◌, sym, ap, subst, ==_refl, ◌∙◌, ◌↔◌, ◌⊎◌, inl, inr, arith, Bool, true, false, not,
}
use lifeline.Prelude.{◌==◌, ◌&&◌, List, [], ◌∷◌, Bool-cases, ==→≡, ==→≢}
use lifeline.Model.Graph.{BlockId, Cfg, done, reachable_avoiding}
use lifeline.Model.Graph.Tarjan.{ok, ◌>>=◌}
use lifeline.Model.Graph.WellFormed.{IsWellFormed}
use lifeline.Model.Graph.Routes.{Flow, here, along}
use lifeline.Model.Graph.Dominance.{Meets, reachable_avoiding_dominates}
use lifeline.Engine.Verdict.{search}
use lifeline.Frontend.Paths.{
  Site, int_lt, block_set_of, wait_before, stop_proven_after_wait, registered_before,
}

-- A block of the set comes before the last block of the route.
abbrev pub MeetsEarlier :
    (g : Cfg) (start : BlockId) (avoid : BlockId → Bool) {v : BlockId} → Flow g start v → Type 0
MeetsEarlier g start avoid here = ⊥
MeetsEarlier g start avoid (along {u} {v} r l) = Meets g start avoid r

Meets-MeetsEarlier :
    (g : Cfg) (start : BlockId) (avoid : BlockId → Bool) {v : BlockId} (r : Flow g start v)
    → avoid v ≡ false
    → Meets g start avoid r
    → MeetsEarlier g start avoid r
Meets-MeetsEarlier g start avoid here free h = cc
Meets-MeetsEarlier g start avoid (along {u} {v} r l) free (inl h) = h
Meets-MeetsEarlier g start avoid (along {u} {v} r l) free (inr h) = absurd (cc)

-- A wait of the list stands earlier in the block of the stop.
abbrev pub SomeEarlier : List Site → Site → Type 0
SomeEarlier [] stop = ⊥
SomeEarlier (w ∷ ws) stop =
    ((w.block ≡ stop.block) × (int_lt w.index stop.index ≡ true)) ⊎ SomeEarlier ws stop

pub wait_before-SomeEarlier :
    (ws : List Site) (stop : Site) → wait_before ws stop ≡ true → SomeEarlier ws stop
unfolding wait_before
wait_before-SomeEarlier [] stop h = cc
wait_before-SomeEarlier (w ∷ ws) stop h =
    elim (Bool-cases ((w.block == stop.block) && int_lt w.index stop.index)) [
      | inl first ↦ inl (==→≡ w.block stop.block (ground (arith, first)), ground (arith, first))
      | inr other ↦ inr (wait_before-SomeEarlier ws stop (ground (arith, h, other)))
    ]

pub wait_before_of-SomeEarlier :
    (ws : List Site) (stop : Site) → SomeEarlier ws stop → wait_before ws stop ≡ true
unfolding wait_before
wait_before_of-SomeEarlier [] stop h = absurd h
wait_before_of-SomeEarlier (w ∷ ws) stop (inl (e, l)) =
    ground (arith, l, subst (λ b. (w.block == b) ≡ true) e (==_refl w.block))
wait_before_of-SomeEarlier (w ∷ ws) stop (inr h) =
    ground (arith, wait_before_of-SomeEarlier ws stop h)

module _ (g : Cfg) (wf : IsWellFormed g) where
  -- If `stopProvenAfterWait`, given the sets that its caller computes from the waits, says that a
  -- stop comes after them, then on a well-formed graph every route from the entry to the block of the
  -- stop passes a block with a wait before it comes to that block, or a wait stands earlier in it.
  pub stop_proven_after_wait-IsSound :
      (waits : List Site) (stop : Site) (seen : BlockId → Bool)
      → reachable_avoiding g g.entry (block_set_of waits) ≡ done seen
      → stop_proven_after_wait waits (block_set_of waits) seen stop ≡ true
      → (r : Flow g g.entry stop.block)
      → MeetsEarlier g g.entry (block_set_of waits) r ⊎ SomeEarlier waits stop
  unfolding stop_proven_after_wait
  stop_proven_after_wait-IsSound waits stop seen ends proven r =
      let (found, found_ends, exact) =
        reachable_avoiding_dominates g wf g.entry (block_set_of waits) wf.entry_fits in
      elim (Bool-cases (block_set_of waits stop.block)) [
        | inl inside ↦ inr (wait_before-SomeEarlier waits stop (ground (arith, inside, proven)))
        | inr outside ↦
            let same : found stop.block ≡ seen stop.block =
              ap (λ f. f stop.block) (done_inj (sym found_ends ∙ ends)) in
            inl (
              Meets-MeetsEarlier g g.entry (block_set_of waits) r outside
                ((exact stop.block).0 (ground (arith, outside, proven, same)) r))
      ]
    where
      done_inj : {f h : BlockId → Bool} → done f ≡ done h → f ≡ h
      done_inj e = cc

  -- On a well-formed graph `registeredBefore` ends, and says yes just when the first site stands
  -- earlier in the block of the second, or every route from the entry to that block passes the block
  -- of the first.
  pub registered_before-decides :
      (a b : Site)
      → (before : Bool) × (registered_before g a b ≡ ok before)
        × ((before ≡ true) ↔ (
            ((a.block ≡ b.block) × (int_lt a.index b.index ≡ true))
            ⊎ ((a.block ≢ b.block)
                × ((r : Flow g g.entry b.block) → Meets g g.entry (λ v. a.block == v) r))))
  unfolding registered_before search
  registered_before-decides a b =
      let (seen, ends, exact) =
        reachable_avoiding_dominates g wf g.entry (λ v. a.block == v) wf.entry_fits in
      elim (Bool-cases (a.block == b.block)) [
        | inl same ↦ (
          int_lt a.index b.index,
          rw same,
          (
            λ h. inl (==→≡ a.block b.block same, h),
            λ h. elim h [ inl (e, l) ↦ l | inr (d, r) ↦ absurd (d (==→≡ a.block b.block same)) ],
          ),
        )
        | inr other ↦ (
          not (seen b.block),
          rw other (ap (λ o. search o >>= (λ s. ok (not (s b.block)))) ends),
          (
            λ h. inr (==→≢ a.block b.block other, (exact b.block).0 (ground (arith, h))),
            λ h. elim h [
              | inl (e, l) ↦ absurd (==→≢ a.block b.block other e)
              | inr (d, r) ↦ ground (arith, (exact b.block).1 r)
            ],
          ),
        )
      ]
