-- ===== src/Frontend/Paths/Live.antt =====
-- What `liveExitReachable` decides on a well-formed graph.
use lifeline.Prelude.{ℕ, ◌<◌, ◌≡◌, refl, ap, ◌∙◌, subst, ◌↔◌, ◌⊎◌, inl, inr}
use lifeline.Prelude.{Bool, true, false, not, ◌||◌, List, [], ◌∷◌, length}
use lifeline.Prelude.{arith, ◌==◌, ==→≡, ==_refl, Bool-cases, if◌then◌else◌}
use mathlib.Core.Logic.{∥∥₁_map, ∥∥₁_elim, ∥∥₁_prop}
use mathlib.Core.HLevel.{⊥_prop}
use lifeline.Model.Graph.{
  BlockId, Edge, Cfg, Outcome, done, reachable_avoiding_edges, successors_of,
}
use lifeline.Model.Graph.Tarjan.{Run, ok, ◌>>=◌}
use lifeline.Model.Graph.WellFormed.{succs, IsWellFormed, EdgesFit, successors_of-eq}
use lifeline.Model.Graph.Routes.{Enters, Route, no_skip, reachable_avoiding_edges_decides}
use lifeline.Model.Graph.Dominance.{reachable_avoiding-edges}
use lifeline.Engine.Verdict.{search, read}
use lifeline.Frontend.Paths.{
  Site, int_lt, block_set_of, discharged_after, is_empty, avoid, edges_live, reached_bare,
  origin_live, live_loop, live_exit_reachable,
}

-- A step returns a truth value that says whether something is the case.
abbrev pub Answers : Run Bool → Type 0 → Type 0
Answers r P = (b : Bool) × (r ≡ ok b) × ((b ≡ true) ↔ ∥ P ∥₁)

truncated : {P : Type 0} → ∥ P ∥₁ → (P → ⊥) → ⊥
truncated h k = ∥∥₁_elim h ⊥_prop k

pub answers_no : {P : Type 0} → (P → ⊥) → Answers (ok false) P
answers_no none_such = (false, refl, (λ h. absurd (cc), λ p. absurd (truncated p none_such)))

pub answers_yes : {P : Type 0} → P → Answers (ok true) P
answers_yes p = (true, refl, (λ h. ∣ p ∣₁, λ q. refl))

pub answers_map : {P Q : Type 0} (r : Run Bool) → Answers r P → (P → Q) → (Q → P) → Answers r Q
answers_map r (b, e, f) to back = (b, e, (λ h. ∥∥₁_map (f.0 h) to, λ q. f.1 (∥∥₁_map q back)))

-- Of two steps the second is taken where the first says no.
pub answers_or :
    {P Q : Type 0} (r s : Run Bool)
    → Answers r P
    → Answers s Q
    → Answers (r >>= (λ b. if b then ok true else s)) (P ⊎ Q)
answers_or r s (true, e, f) q = (true, rw e, (λ h. ∥∥₁_map (f.0 refl) (λ p. inl p), λ h. refl))
answers_or r s (false, e, f) (b, d, g) = (
  b,
  rw e d,
  (
    λ h. ∥∥₁_map (g.0 h) (λ q. inr q),
    λ h.
        g.1
          (∥∥₁_elim h ∥∥₁_prop (λ x. elim x [ inl p ↦ absurd (cc (f.1 ∣ p ∣₁)) | inr q ↦ ∣ q ∣₁ ])),
  ),
)

-- And where the first says yes.
pub answers_and :
    {P Q : Type 0} (r s : Run Bool)
    → Answers r P
    → Answers s Q
    → Answers (r >>= (λ b. if b then s else ok false)) (P × Q)
answers_and r s (false, e, f) q =
    (false, rw e, (λ h. absurd (cc), λ h. absurd (truncated h (λ x. cc (f.1 ∣ x.0 ∣₁)))))
answers_and r s (true, e, f) (b, d, g) = (
  b,
  rw e d,
  (
    λ h. ∥∥₁_elim (f.0 refl) ∥∥₁_prop (λ p. ∥∥₁_map (g.0 h) (λ q. (p, q))),
    λ h. g.1 (∥∥₁_map h (λ x. x.1)),
  ),
)

-- A search that ends with a set that decides something, asked for one block, before another step.
answers_search :
    {P Q : Type 0} (o : Outcome) (v : BlockId) (s : Run Bool) (seen : BlockId → Bool)
    → o ≡ done seen
    → ((seen v ≡ true) ↔ ∥ P ∥₁)
    → Answers s Q
    → Answers (search o >>= (λ t. if t v then ok true else s)) (P ⊎ Q)
unfolding search
answers_search o v s seen e f q =
    let (b, d, g) = answers_or (ok (seen v)) s (seen v, refl, f) q in (b, rw e d, g)

pub answers_if :
    {P : Type 0} (c : Bool) (r s : Run Bool)
    → (c ≡ true → Answers r P)
    → (c ≡ false → Answers s P)
    → Answers (if c then r else s) P
answers_if true r s h k = h refl
answers_if false r s h k = k refl

-- The block that an edge of the list leads to, where the edge is not skipped and the block not
-- avoided, and a route on from there.
abbrev pub Escapes : Cfg → (BlockId → Bool) → (Edge → Bool) → List Edge → Type 0
Escapes g avoid skip es = (v : BlockId) × Enters avoid skip es v × Route g avoid skip v g.exit

AllBelow : ℕ → List Edge → Type 0
AllBelow n [] = Unit
AllBelow n (e ∷ es) = (e.to < n) × AllBelow n es

AllBelow-EdgesFit : (n u : ℕ) (es : List Edge) → EdgesFit n u es → AllBelow n es
unfolding AllBelow
AllBelow-EdgesFit n u [] h = tt
AllBelow-EdgesFit n u (e ∷ es) (f, l, h) = (l, AllBelow-EdgesFit n u es h)

either_false : (b : Bool) → b ≡ (b || false)
either_false true = refl
either_false false = refl

either_true : (b : Bool) → true ≡ (b || true)
either_true true = refl
either_true false = refl

-- No site of the list stands later in the block of the origin.
abbrev pub NoneLater : Site → List Site → Type 0
NoneLater o [] = Unit
NoneLater o (d ∷ ds) = (d.block ≡ o.block → int_lt o.index d.index ≡ false) × NoneLater o ds

NoneLater-discharged_after :
    (o : Site) (ds : List Site) → (discharged_after o ds ≡ false) ↔ NoneLater o ds
unfolding discharged_after
NoneLater-discharged_after o [] = (λ h. tt, λ h. refl)
NoneLater-discharged_after o (d ∷ ds) =
    let (there, back) = NoneLater-discharged_after o ds in
    (
      λ h. (
        λ same. ground (arith, h, subst (λ b. (d.block == b) ≡ true) same (==_refl d.block)),
        there (ground (arith, h)),
      ),
      λ (first, rest). elim (Bool-cases (d.block == o.block)) [
        | inl same ↦ ground (arith, same, first (==→≡ d.block o.block same), back rest)
        | inr other ↦ ground (arith, other, back rest)
      ],
    )

module _ (g : Cfg) (wf : IsWellFormed g) (after anywhere : List Site) (skip : Edge → Bool) where
  avoid_of :
      (v : BlockId) {P : Type 0}
      → ∥ (avoid g after anywhere skip v ≡ false) × P ∥₁
      → avoid g after anywhere skip v ≡ false
  avoid_of v h = elim (Bool-cases (avoid g after anywhere skip v)) [
    | inl out ↦ absurd (truncated h (λ x. cc (x.0, out)))
    | inr free ↦ free
  ]

  edges_live-Answers :
      (es : List Edge)
      → AllBelow (length g.blocks) es
      → Answers
          (edges_live g after anywhere skip es)
          (Escapes g (avoid g after anywhere skip) skip es)
  unfolding edges_live AllBelow
  edges_live-Answers [] h = answers_no (λ (v, l, r). absurd l)
  edges_live-Answers (e ∷ es) (l, h) =
      let rest = edges_live-Answers es h in
      let (seen, ends, exact) =
        reachable_avoiding_edges_decides g wf e.to (avoid g after anywhere skip) skip l in
      answers_if (skip e) _ _
        (λ out.
          answers_map _ rest (λ (v, m, r). (v, inr m, r))
            (λ (v, m, r). elim m [ inl (a, b, c) ↦ absurd (cc) | inr m' ↦ (v, m', r) ]))
        (λ kept.
          answers_map _
            (answers_search
              {P = (avoid g after anywhere skip e.to ≡ false)
                × Route g (avoid g after anywhere skip) skip e.to g.exit}
              (reachable_avoiding_edges g e.to (avoid g after anywhere skip) skip) g.exit _ seen
              ends
              (
                λ t. ∥∥₁_map (((exact g.exit).0 t).1) (λ r. (((exact g.exit).0 t).0, r)),
                λ t. (exact g.exit).1 (avoid_of e.to t, ∥∥₁_map t (λ x. x.1)),
              )
              rest)
            (λ x. elim x [
              | inl (a, r) ↦ (e.to, inl (a, kept, refl), r)
              | inr (v, m, r) ↦ (v, inr m, r)
            ])
            (λ (v, m, r). elim m [
              | inl (a, b, c) ↦ inl (
                subst (λ w. avoid g after anywhere skip w ≡ false) c a,
                subst (λ w. Route g (avoid g after anywhere skip) skip w g.exit) c r,
              )
              | inr m' ↦ inr (v, m', r)
            ]))

  -- An origin that no discharge settles in its own block, that can be reached bare, and from whose
  -- block the exit can be reached along unskipped edges and past no discharge.
  abbrev pub Undischarged : Site → Type 0
  Undischarged o =
      ((block_set_of anywhere o.block ≡ false) × NoneLater o after)
      × ((is_empty anywhere ≡ true)
          ⊎ ((block_set_of anywhere g.entry ≡ false)
              × Route g (block_set_of anywhere) no_skip g.entry o.block))
      × Escapes g (avoid g after anywhere skip) skip (succs g.blocks o.block)

  -- A search whose set is asked for one block.
  answers_seen :
      {P : Type 0} (o : Outcome) (v : BlockId) (seen : BlockId → Bool)
      → o ≡ done seen
      → ((seen v ≡ true) ↔ ∥ P ∥₁)
      → Answers (search o >>= (λ t. ok (t v))) P
  unfolding search
  answers_seen o v seen e f = (seen v, rw e, f)

  reached_bare-Answers :
      (o : Site)
      → Answers (reached_bare g after anywhere skip o) (
          (is_empty anywhere ≡ true)
          ⊎ ((block_set_of anywhere g.entry ≡ false)
              × Route g (block_set_of anywhere) no_skip g.entry o.block))
  unfolding reached_bare
  reached_bare-Answers o =
      let (seen, ends, exact) =
        reachable_avoiding_edges_decides g wf g.entry (block_set_of anywhere) no_skip
          wf.entry_fits in
      answers_if (is_empty anywhere) _ _ (λ none_there. answers_yes (inl none_there))
        (λ some_there.
          answers_map _
            (answers_seen
              {P = (block_set_of anywhere g.entry ≡ false)
                × Route g (block_set_of anywhere) no_skip g.entry o.block}
              _ o.block seen (reachable_avoiding-edges g g.entry (block_set_of anywhere) ∙ ends)
              (
                λ t. ∥∥₁_map (((exact o.block).0 t).1) (λ r. (((exact o.block).0 t).0, r)),
                λ t. (exact o.block).1 (free_of t, ∥∥₁_map t (λ x. x.1)),
              ))
            (λ x. inr x) (λ x. elim x [ inl e ↦ absurd (cc) | inr y ↦ y ]))
    where
      free_of :
          {P : Type 0}
          → ∥ (block_set_of anywhere g.entry ≡ false) × P ∥₁
          → block_set_of anywhere g.entry ≡ false
      free_of h = elim (Bool-cases (block_set_of anywhere g.entry)) [
        | inl out ↦ absurd (truncated h (λ x. cc (x.0, out)))
        | inr free ↦ free
      ]

  leave_block :
      (o : Site)
      → o.block < length g.blocks
      → Answers
          (read (successors_of g o.block) >>= edges_live g after anywhere skip)
          (Escapes g (avoid g after anywhere skip) skip (succs g.blocks o.block))
  unfolding read
  leave_block o l =
      let (b, e, f) =
        edges_live-Answers (succs g.blocks o.block)
          (AllBelow-EdgesFit _ o.block _ (wf.blocks_fit.edges_fit o.block)) in
      (b, rw (successors_of-eq g o.block l) e, f)

  origin_live-Answers :
      (o : Site)
      → o.block < length g.blocks
      → Answers (origin_live g after anywhere skip o) (Undischarged o)
  unfolding origin_live
  origin_live-Answers o l =
      answers_if (block_set_of anywhere o.block || discharged_after o after) _ _
        (λ settled. answers_no (λ ((a, k), b, c).
          absurd (ground (arith, settled, a, (NoneLater-discharged_after o after).1 k))))
        (λ owing.
          answers_map _
            (answers_and (reached_bare g after anywhere skip o) _ (reached_bare-Answers o)
              (leave_block o l))
            (λ (a, b). (owes owing, a, b)) (λ (x, b, c). (b, c)))
    where
      owes :
          (block_set_of anywhere o.block || discharged_after o after) ≡ false
          → (block_set_of anywhere o.block ≡ false) × NoneLater o after
      owes h = (ground (arith, h), (NoneLater-discharged_after o after).0 (ground (arith, h)))

  -- Some origin of the list is left undischarged.
  abbrev pub SomeUndischarged : List Site → Type 0
  SomeUndischarged [] = ⊥
  SomeUndischarged (o ∷ os) = Undischarged o ⊎ SomeUndischarged os

  abbrev pub AreInGraph : List Site → Type 0
  AreInGraph [] = Unit
  AreInGraph (o ∷ os) = (o.block < length g.blocks) × AreInGraph os

  live_loop_answers :
      (known : Bool) (os : List Site)
      → AreInGraph os
      → (b : Bool) × (live_loop g after anywhere skip known os ≡ ok (b, known || not (is_empty os)))
        × ((b ≡ true) ↔ ∥ SomeUndischarged os ∥₁)
  unfolding live_loop
  live_loop_answers known [] h = (
    false,
    ap (λ x. ok (false, x)) (either_false known),
    (λ e. absurd (cc), λ p. absurd (truncated p (λ x. x))),
  )
  live_loop_answers known (o ∷ os) (l, h) =
      let first = origin_live-Answers o l in
      let (b, e, f) = live_loop_answers true os h in by_first first.0 first.1 first.2 b e f
    where
      by_first :
          (a : Bool)
          → origin_live g after anywhere skip o ≡ ok a
          → ((a ≡ true) ↔ ∥ Undischarged o ∥₁)
          → (b : Bool) → live_loop g after anywhere skip true os ≡ ok (b, true)
          → ((b ≡ true) ↔ ∥ SomeUndischarged os ∥₁)
          → (c : Bool) × (live_loop g after anywhere skip known (o ∷ os) ≡ ok (c, known || true))
            × ((c ≡ true) ↔ ∥ SomeUndischarged (o ∷ os) ∥₁)
      by_first true e f b d k = (
        true,
        rw e (ap (λ x. ok (true, x)) (either_true known)),
        (λ h. ∥∥₁_map (f.0 refl) (λ u. inl u), λ h. refl),
      )
      by_first false e f b d k = (
        b,
        rw e (d ∙ ap (λ x. ok (b, x)) (either_true known)),
        (
          λ h. ∥∥₁_map (k.0 h) (λ u. inr u),
          λ h. k.1 (
              ∥∥₁_elim h ∥∥₁_prop
                (λ x. elim x [ inl u ↦ absurd (cc (f.1 ∣ u ∣₁)) | inr v ↦ ∣ v ∣₁ ])),
        ),
      )

  -- On a well-formed graph, for origins in it, `liveExitReachable` ends, without a panic. It says that
  -- the answer is known just when there is an origin, and that the exit is reachable alive just when
  -- some origin is undischarged: no discharge that counts anywhere is in its block and no later one
  -- of the others; if there are discharges that count anywhere, some route from the entry reaches it
  -- past all of them; and from an unskipped edge that leaves its block some route of unskipped edges
  -- leads to the exit past every block with a discharge.
  pub live_exit_reachable-decides :
      (origins : List Site)
      → AreInGraph origins
      → (b : Bool) × (live_exit_reachable g after anywhere skip origins
          ≡ ok (b, not (is_empty origins)))
        × ((b ≡ true) ↔ ∥ SomeUndischarged origins ∥₁)
  unfolding live_exit_reachable
  live_exit_reachable-decides origins h = live_loop_answers false origins h
