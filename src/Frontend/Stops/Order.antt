-- ===== src/Frontend/Stops/Order.antt =====
-- When all stop signals of a group run only after a Wait, on a well-formed graph.
use lifeline.Prelude.{◌≡◌, ◌≢◌, refl, ◌↔◌, ◌⊎◌, inl, inr, arith}
use lifeline.Prelude.{Bool, true, false, ◌==◌, Option, List, [], ◌∷◌, Bool-cases, if◌then◌else◌}
use mathlib.Core.Logic.{∥∥₁_map, ∥∥₁_elim}
use mathlib.Core.HLevel.{⊥_prop}
use lifeline.Model.Graph.{BlockId, Cfg}
use lifeline.Model.Graph.Tarjan.{ok}
use lifeline.Model.Graph.WellFormed.{IsWellFormed}
use lifeline.Model.Graph.Routes.{Flow}
use lifeline.Model.Graph.Dominance.{Meets, reachable_avoiding_dominates}
use lifeline.Model.Facts.{JoinGroup}
use lifeline.Engine.Verdict.{search}
use lifeline.Cfg.Ast.{NodeId}
use lifeline.Cfg.Builder.{CallSite}
use lifeline.Frontend.Paths.{Site, int_lt, block_set_of, is_empty, stop_proven_after_wait}
use lifeline.Frontend.Paths.Live.{
  Answers, answers_no, answers_yes, answers_map, answers_or, answers_and, answers_if,
}
use lifeline.Frontend.Paths.Before.{
  SomeEarlier, wait_before-SomeEarlier, wait_before_of-SomeEarlier, registered_before-decides,
}
use lifeline.Frontend.Stops.{
  Signal, waits_of, plain_waits, after_plain, registered_later, signal_after, all_after, note_stop,
  order_stops, compute_stop_ordering,
}

module _ (g : Cfg) (wf : IsWellFormed g) where
  -- A plain stop after plain waits: one stands earlier in its block, or, where none is in its block, every
  -- route to it passes a block with one.
  abbrev pub PlainAfter : List Site → Site → Type 0
  PlainAfter waits stop =
      ((block_set_of waits stop.block ≡ true) × SomeEarlier waits stop)
      ⊎ ((block_set_of waits stop.block ≡ false)
          × ((r : Flow g g.entry stop.block) → Meets g g.entry (block_set_of waits) r))

  -- The first site is passed before the second.
  abbrev pub PassedBefore : Site → Site → Type 0
  PassedBefore a b =
      ((a.block ≡ b.block) × (int_lt a.index b.index ≡ true))
      ⊎ ((a.block ≢ b.block)
          × ((r : Flow g g.entry b.block) → Meets g g.entry (λ v. a.block == v) r))

  abbrev pub SomeLater : Site → List Signal → Type 0
  SomeLater stop [] = ⊥
  SomeLater stop (w ∷ ws) = ((w.deferred ≡ true) × PassedBefore stop w.site) ⊎ SomeLater stop ws

  -- A stop that runs only after a wait: there are plain waits, and it is deferred or after them; or it is
  -- deferred and registered before a deferred wait.
  abbrev pub RunsAfter : List Signal → Signal → Type 0
  RunsAfter waits st =
      ((is_empty (plain_waits waits) ≡ false)
        × ((st.deferred ≡ true) ⊎ ((st.deferred ≡ false) × PlainAfter (plain_waits waits) st.site)))
      ⊎ ((st.deferred ≡ true) × SomeLater st.site waits)

  abbrev pub AllAfter : List Signal → List Signal → Type 0
  AllAfter waits [] = Unit
  AllAfter waits (st ∷ sts) = RunsAfter waits st × AllAfter waits sts

  Exact : List Site → (BlockId → Bool) → Type 0
  Exact waits seen =
      (v : BlockId)
      → (seen v ≡ false) ↔ ((r : Flow g g.entry v) → Meets g g.entry (block_set_of waits) r)

  proven_iff :
      (waits : List Site) (seen : BlockId → Bool) (stop : Site)
      → Exact waits seen
      → (stop_proven_after_wait waits (block_set_of waits) seen stop ≡ true) ↔ PlainAfter waits stop
  unfolding stop_proven_after_wait Exact
  proven_iff waits seen stop exact = elim (Bool-cases (block_set_of waits stop.block)) [
    | inl inside ↦ (
      λ h. inl (inside, wait_before-SomeEarlier waits stop (ground (arith, inside, h))),
      λ h. elim h [
        | inl (e, earlier) ↦ ground (arith, inside, wait_before_of-SomeEarlier waits stop earlier)
        | inr (e, r) ↦ absurd (cc (inside, e))
      ],
    )
    | inr outside ↦ (
      λ h. inr (outside, (exact stop.block).0 (ground (arith, outside, h))),
      λ h. elim h [
        | inl (e, earlier) ↦ absurd (cc (outside, e))
        | inr (e, r) ↦ ground (arith, outside, (exact stop.block).1 r)
      ],
    )
  ]

  after_plain_iff :
      (waits : List Site) (seen : BlockId → Bool) (st : Signal)
      → Exact waits seen
      → (after_plain waits seen st ≡ true) ↔ (
          (is_empty waits ≡ false)
          × ((st.deferred ≡ true) ⊎ ((st.deferred ≡ false) × PlainAfter waits st.site)))
  unfolding after_plain
  after_plain_iff [] seen st exact = (λ h. absurd (cc), λ (e, h). absurd (cc))
  after_plain_iff (w ∷ ws) seen st exact =
      let proven = proven_iff (w ∷ ws) seen st.site exact in
      elim (Bool-cases st.deferred) [
        | inl late ↦ (λ h. (refl, inl late), λ h. ground (arith, late))
        | inr plain ↦ (
          λ h. (refl, inr (plain, proven.0 (ground (arith, h, plain)))),
          λ (e, h). elim h [
            | inl late ↦ absurd (cc (late, plain))
            | inr (p, after) ↦ ground (arith, plain, proven.1 after)
          ],
        )
      ]

  registered_later-Answers :
      (stop : Site) (ws : List Signal) → Answers (registered_later g stop ws) (SomeLater stop ws)
  unfolding registered_later
  registered_later-Answers stop [] = answers_no (λ h. h)
  registered_later-Answers stop (w ∷ ws) =
      let rest = registered_later-Answers stop ws in
      answers_if w.deferred _ _
        (λ late.
          let (b, ends, exact) = registered_before-decides g wf stop w.site in
          answers_map _
            (answers_or {P = PassedBefore stop w.site} _ _
              (b, ends, (λ h. ∣ exact.0 h ∣₁, λ h. settle b exact h)) rest)
            (λ x. elim x [ inl p ↦ inl (late, p) | inr q ↦ inr q ])
            (λ x. elim x [ inl (e, p) ↦ inl p | inr q ↦ inr q ]))
        (λ plain.
          answers_map _ rest (λ q. inr q)
            (λ x. elim x [ inl (e, p) ↦ absurd (cc (e, plain)) | inr q ↦ q ]))
    where
      settle : (b : Bool) {P : Type 0} → ((b ≡ true) ↔ P) → ∥ P ∥₁ → b ≡ true
      settle true e h = refl
      settle false e h = absurd (∥∥₁_elim h ⊥_prop (λ p. cc (e.1 p)))

  signal_after-Answers :
      (waits : List Signal) (seen : BlockId → Bool) (st : Signal)
      → Exact (plain_waits waits) seen
      → Answers (signal_after g waits seen st) (RunsAfter waits st)
  unfolding signal_after
  signal_after-Answers waits seen st exact =
      let plain = after_plain_iff (plain_waits waits) seen st exact in
      answers_if (after_plain (plain_waits waits) seen st) _ _
        (λ after. answers_yes (inl (plain.0 after)))
        (λ not_plain.
          answers_if st.deferred _ _
            (λ late.
              answers_map _ (registered_later-Answers st.site waits) (λ h. inr (late, h))
                (λ x. elim x [ inl p ↦ absurd (cc (plain.1 p, not_plain)) | inr (e, h) ↦ h ]))
            (λ direct. answers_no (λ x. elim x [
              | inl p ↦ absurd (cc (plain.1 p, not_plain))
              | inr (e, h) ↦ absurd (cc (e, direct))
            ])))

  all_after-Answers :
      (waits : List Signal) (seen : BlockId → Bool) (sts : List Signal)
      → Exact (plain_waits waits) seen
      → Answers (all_after g waits seen sts) (AllAfter waits sts)
  unfolding all_after
  all_after-Answers waits seen [] exact = answers_yes tt
  all_after-Answers waits seen (st ∷ sts) exact =
      answers_and _ _ (signal_after-Answers waits seen st exact)
        (all_after-Answers waits seen sts exact)

  note_stop-stopped :
      (stops waits : List Signal) (group : JoinGroup)
      → (note_stop stops waits group).stop_after_wait ≡ true
  unfolding note_stop
  note_stop-stopped stops waits group = ground arith

  marked :
      (b : Bool) {P : Type 0} (stops waits : List Signal) (group : JoinGroup)
      → group.stop_after_wait ≡ false
      → ((b ≡ true) ↔ P)
      → ((if b then note_stop stops waits group else group).stop_after_wait ≡ true) ↔ P
  marked true stops waits group unset e = (λ h. e.0 refl, λ p. note_stop-stopped stops waits group)
  marked false stops waits group unset e = (λ h. absurd (cc), λ p. absurd (cc (e.1 p)))

  abbrev pub StopsLate : List Signal → List Signal → Type 0
  StopsLate waits stops = (is_empty waits ≡ false) × AllAfter waits stops

  order_stops-decides :
      (stops waits : List Signal) (group : JoinGroup)
      → group.stop_after_wait ≡ false
      → (out : JoinGroup) × (order_stops g stops waits group ≡ ok out)
        × ((out.stop_after_wait ≡ true) ↔ ∥ StopsLate waits stops ∥₁)
  unfolding order_stops search Exact
  order_stops-decides stops [] group unset =
      (group, refl, (λ h. absurd (cc), λ h. absurd (∥∥₁_elim h ⊥_prop (λ (e, x). cc))))
  order_stops-decides stops (w ∷ ws) group unset =
      let (seen, ends, exact) =
        reachable_avoiding_dominates g wf g.entry (block_set_of (plain_waits (w ∷ ws)))
          wf.entry_fits in
      let (b, all, same) = all_after-Answers (w ∷ ws) seen stops exact in
      (
        if b then note_stop stops (w ∷ ws) group else group,
        rw ends (rw all refl),
        marked b stops (w ∷ ws) group unset
            (λ h. ∥∥₁_map (same.0 h) (λ x. (refl, x)), λ h. same.1 (∥∥₁_map h (λ (e, x). x))),
      )

  -- On a well-formed graph `computeStopOrdering` ends without a panic. It marks the group as stopped after
  -- its Wait just when there is a stop signal, all signals have a place, some wait has one, and every
  -- signal runs only after a wait: where there are plain waits, it is deferred or stands after
  -- one in its block or has a block with one on every route to it; or it is deferred and passed before a
  -- deferred wait.
  pub compute_stop_ordering-decides :
      (sites : NodeId → Option CallSite) (deferred : NodeId → Bool) (stops : List Signal)
      (placeable : Bool) (calls : List NodeId) (group : JoinGroup)
      → group.stop_after_wait ≡ false
      → (out : JoinGroup) × (compute_stop_ordering g sites deferred stops placeable calls group
          ≡ ok out)
        × ((out.stop_after_wait ≡ true)
            ↔ ∥ (is_empty stops ≡ false)
                × (placeable ≡ true)
                × StopsLate (waits_of sites deferred calls) stops ∥₁)
  unfolding compute_stop_ordering
  compute_stop_ordering-decides sites deferred [] placeable calls group unset =
      (group, refl, (λ h. absurd (cc), λ h. absurd (∥∥₁_elim h ⊥_prop (λ (e, p, x). cc))))
  compute_stop_ordering-decides sites deferred (st ∷ sts) false calls group unset =
      (group, refl, (λ h. absurd (cc), λ h. absurd (∥∥₁_elim h ⊥_prop (λ (e, p, x). cc))))
  compute_stop_ordering-decides sites deferred (st ∷ sts) true calls group unset =
      let (out, ends, same) =
        order_stops-decides (st ∷ sts) (waits_of sites deferred calls) group unset in
      (
        out,
        ends,
        (λ h. ∥∥₁_map (same.0 h) (λ x. (refl, refl, x)), λ h. same.1 (∥∥₁_map h (λ (e, p, x). x))),
      )
