-- ===== src/Model/Graph/Tarjan/Visit.antt =====
-- The loop of `strongConnect` over the successors of a block.
use lifeline.Prelude.{ℕ, ◌≤◌, ◌<◌, ◌≡◌, refl, sym, ap, subst, ◌∙◌, inl, inr, arith}
use lifeline.Prelude.{true, false, none, some, List, [], ◌∷◌, ◌++◌, length, unseen}
use lifeline.Prelude.{if◌then◌else◌, Bool-cases, Option-cases}
use lifeline.Model.Graph.{BlockId, Edge, Cfg}
use lifeline.Model.Graph.WellFormed.{LeadsTo, count}
use lifeline.Model.Graph.Tarjan.{Tarjan, Run, ok, ◌>>=◌, lower, visit_edge, visit_edges}
use lifeline.Model.Graph.Tarjan.State.{Arc, is_some, Flow-arc, whites, Inv, IsLow, Connected}
use lifeline.Model.Graph.Tarjan.Lower.{
  some_inj, lower-eq, lower_own, ltb-branch, Visited, below_base, Visited-lower, still_stacked,
  IsLow-lowered, Grown-connect, low_same, IsLow-connect,
}

module _ (g : Cfg) where
  module _ (v : BlockId) (t0 : Tarjan) where
    module _ (inv0 : Inv g t0) (white : t0.index v ≡ none) where
      -- What is known of a successor that is done: it has an index, and `low v` is at most that of a block of the old
      -- stack.
      abbrev pub Handled : Tarjan → BlockId → Type 0
      Handled t z =
          ((i : ℕ) × (t.index z ≡ some i))
          × ((i : ℕ) → 0 < count z t0.stack → t0.index z ≡ some i → t.low v ≤ i)

      -- What later visits keep.
      abbrev pub Follows : Tarjan → Tarjan → Type 0
      Follows t t' =
          ((u : BlockId) (i : ℕ) → t.index u ≡ some i → t'.index u ≡ some i)
          × (t'.low v ≤ t.low v)
          × (whites (length g.blocks) t' ≤ whites (length g.blocks) t)

      Handled-Follows : (t t' : Tarjan) (z : BlockId) → Follows t t' → Handled t z → Handled t' z
      Handled-Follows t t' z (keep, le, fewer) ((i, e), bound) =
          ((i, keep z i e), λ j h d. omega (arith, le, bound j h d))

      -- The outcome of a visit.
      abbrev pub Visits : Tarjan → BlockId → Run Tarjan → Type 0
      Visits t w r = (t' : Tarjan) × (r ≡ ok t') × Visited g v t0 t' × Follows t t' × Handled t' w

      -- A successor that is on the stack, and one in a component.
      visit_stacked :
          (t : Tarjan) (w : BlockId) (i : ℕ)
          → Visited g v t0 t
          → Arc g v w
          → t.index w ≡ some i
          → t.on_stack w ≡ true
          → Visits t w (ok (lower v i t))
      visit_stacked t w i (seg, old, low) a e on =
          let (le_i, le_low, same) = lower_own v i t in
          (
            lower v i t,
            refl,
            (
              seg,
              Visited-lower g v t0 inv0 white t seg i old,
              subst (λ (s : Tarjan). IsLow g v t0 seg (s.low v)) (sym (lower-eq v i t))
                  (IsLow-lowered g v t0 inv0 white t seg seg i low
                    (λ l.
                      let (c, e') =
                        below_base g v t0 inv0 white t seg old w i ((old.inv.flags w).0 on) e
                          (omega (arith, l, low.at_most)) in
                      (w, c, e', Flow-arc g a))
                    (λ y z j h b c d. inl (low.bound y z j h b c d))),
            ),
            (
              λ u j d. ap (λ f. f u) same ∙ d,
              le_low,
              omega (arith, ap (λ f. unseen (length g.blocks) (λ u. is_some (f u))) same),
            ),
            (
              (i, ap (λ f. f w) same ∙ e),
              λ j h d. omega (arith, le_i, some_inj (sym (old.keep w j d) ∙ e)),
            ),
          )

      visit_done :
          (t : Tarjan) (w : BlockId) (i : ℕ)
          → Visited g v t0 t
          → t.index w ≡ some i
          → t.on_stack w ≡ false
          → Visits t w (ok t)
      visit_done t w i (seg, old, low) e off = (
        t,
        refl,
        (seg, old, low),
        (λ u j d. d, omega arith, omega arith),
        (
          (i, e),
          λ j h d.
              absurd
                (cc (off, (old.inv.flags w).1 (still_stacked g v t0 inv0 white t seg old w h))),
        ),
      )

      -- The recursive call for `fuel`: it ends, if there are no more blocks without an index than that.
      module _ (fuel : ℕ) (connect : BlockId → Tarjan → Run Tarjan)
          (connects : (w : BlockId) (t : Tarjan)
            → w < length g.blocks
            → t.index w ≡ none
            → Inv g t
            → whites (length g.blocks) t ≤ fuel
            → (t' : Tarjan) × (connect w t ≡ ok t') × Connected g w t t') where
        visit_white :
            (t : Tarjan) (w : BlockId)
            → Visited g v t0 t
            → w < length g.blocks
            → Arc g v w
            → t.index w ≡ none
            → whites (length g.blocks) t ≤ fuel
            → Visits t w (connect w t >>= (λ t'. ok (lower v (t'.low w) t')))
        visit_white t w (seg, old, low) l a e enough =
            let (t1, run, (seg', new, low')) = connects w t l e old.inv enough in
            let (le_k, le_low, same) = lower_own v (t1.low w) t1 in
            (
              lower v (t1.low w) t1,
              rw run refl,
              (
                seg' ++ seg,
                Visited-lower g v t0 inv0 white t1 (seg' ++ seg) (t1.low w)
                    (Grown-connect g v t0 inv0 white t t1 w seg seg' a old new),
                IsLow-connect g v t0 inv0 white t t1 w seg seg' a old new low low',
              ),
              (
                λ u j d. ap (λ f. f u) same ∙ new.keep u j d,
                omega (arith, le_low, low_same g v t0 inv0 white t t1 w seg seg' a old new),
                omega (
                  arith,
                  ap (λ f. unseen (length g.blocks) (λ u. is_some (f u))) same,
                  new.fewer,
                ),
              ),
              ((t.counter, ap (λ f. f w) same ∙ new.own), λ j h d. absurd (cc (e, old.keep w j d))),
            )

        visit_edge-Visits :
            (t : Tarjan) (w : BlockId)
            → Visited g v t0 t
            → w < length g.blocks
            → Arc g v w
            → whites (length g.blocks) t ≤ fuel
            → Visits t w (visit_edge (length g.blocks) connect v w t)
        unfolding visit_edge
        visit_edge-Visits t w h l a enough = elim (Option-cases (t.index w)) [
          | inl e ↦
              subst (Visits t w)
                (sym (
                  ltb-branch w l _ _
                  ∙ ap
                      (λ o. elim o [
                        | none ↦ connect w t >>= (λ t'. ok (lower v (t'.low w) t'))
                        | some i ↦ ok (if t.on_stack w then lower v i t else t)
                      ])
                      e))
                (visit_white t w h l a e enough)
          | inr (i, e) ↦
              subst (Visits t w)
                (sym (
                  ltb-branch w l _ _
                  ∙ ap
                      (λ o. elim o [
                        | none ↦ connect w t >>= (λ t'. ok (lower v (t'.low w) t'))
                        | some i ↦ ok (if t.on_stack w then lower v i t else t)
                      ])
                      e))
                (elim (Bool-cases (t.on_stack w)) [
                  | inl on ↦
                      subst (λ b. Visits t w (ok (if b then lower v i t else t))) (sym on)
                        (visit_stacked t w i h a e on)
                  | inr off ↦
                      subst (λ b. Visits t w (ok (if b then lower v i t else t))) (sym off)
                        (visit_done t w i h e off)
                ])
        ]

        abbrev pub AllHandled : Tarjan → List Edge → Type 0
        AllHandled t [] = Unit
        AllHandled t (e ∷ es) = Handled t e.to × AllHandled t es

        abbrev pub AllArcs : List Edge → Type 0
        AllArcs [] = Unit
        AllArcs (e ∷ es) = (e.to < length g.blocks) × Arc g v e.to × AllArcs es

        pub visit_edges-Visited :
            (es : List Edge) (t : Tarjan)
            → Visited g v t0 t
            → AllArcs es
            → whites (length g.blocks) t ≤ fuel
            → (t' : Tarjan) × (visit_edges (length g.blocks) connect v es t ≡ ok t')
              × Visited g v t0 t'
              × Follows t t'
              × AllHandled t' es
        unfolding visit_edges
        visit_edges-Visited [] t h a enough =
            (t, refl, h, (λ u i e. e, omega arith, omega arith), tt)
        visit_edges-Visited (e ∷ es) t h (l, a, rest) enough =
            let (t1, run, h1, (keep, le, fewer), done) = visit_edge-Visits t e.to h l a enough in
            let (t2, run', h2, (keep', le', fewer'), all_done) =
              visit_edges-Visited es t1 h1 rest (omega (arith, fewer, enough)) in
            (
              t2,
              rw run run',
              h2,
              (
                λ u i d. keep' u i (keep u i d),
                omega (arith, le, le'),
                omega (arith, fewer, fewer'),
              ),
              (Handled-Follows t1 t2 e.to (keep', le', fewer') done, all_done),
            )

        pub Handled-of :
            (t : Tarjan) (es : List Edge) (z : BlockId)
            → AllHandled t es
            → LeadsTo z es
            → Handled t z
        Handled-of t [] z h m = absurd m
        Handled-of t (e ∷ es) z (h, rest) (inl same) = subst (Handled t) (sym same) h
        Handled-of t (e ∷ es) z (h, rest) (inr m) = Handled-of t es z rest m
