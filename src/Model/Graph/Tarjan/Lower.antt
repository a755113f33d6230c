-- ===== src/Model/Graph/Tarjan/Lower.antt =====
-- A write to `low` after a visit of a successor: the bound stays attained and low enough.
use lifeline.Prelude.{ℕ, ◌≤◌, ◌<◌, ◌≡◌, ◌≢◌, refl, sym, ap, subst, ◌∙◌, ◌⊎◌, inl, inr, arith}
use lifeline.Prelude.{Bool, true, false, none, some, List, ◌∷◌, ◌++◌, ltb, ◌==◌}
use lifeline.Prelude.{if◌then◌else◌, Bool-cases, ==→≡}
use lifeline.Model.Graph.{BlockId, Cfg}
use lifeline.Model.Graph.WellFormed.{count}
use lifeline.Model.Graph.Routes.{Flow, no_skip, Route-join}
use lifeline.Model.Graph.Tarjan.{Tarjan, put, lower}
use lifeline.Model.Graph.Tarjan.State.{
  Arc, Flow-arc, Inv, indexed_of_stack, Grown, IsLow, count-append_cases, count-append_left,
  count-append_right, append_assoc,
}

pub some_inj : {i j : ℕ} → some i ≡ some j → i ≡ j
some_inj e = cc (e)

-- A write to `low`.
abbrev pub lowered : BlockId → ℕ → (BlockId → ℕ) → BlockId → ℕ
lowered v k low = if ltb k (low v) then put v k low else low

pub lower-eq :
    (v : BlockId) (k : ℕ) (t : Tarjan) → lower v k t ≡ record t { low = lowered v k t.low }
unfolding lower
lower-eq v k t = by_test (ltb k (t.low v)) (put v k t.low)
  where
    by_test :
        (b : Bool) (f : BlockId → ℕ)
        → (if b then record t { low = f } else t) ≡ record t { low = if b then f else t.low }
    by_test true f = refl
    by_test false f = refl

lowered_own :
    (v : BlockId) (k : ℕ) (low : BlockId → ℕ)
    → ((lowered v k low v ≡ k) × (k < low v)) ⊎ ((lowered v k low v ≡ low v) × (low v ≤ k))
unfolding put
lowered_own v k low = ground arith

lowered_other : (v u : BlockId) (k : ℕ) (low : BlockId → ℕ) → v ≢ u → lowered v k low u ≡ low u
unfolding put
lowered_other v u k low d = ground (arith, d)

pub lower_own :
    (v : BlockId) (k : ℕ) (t : Tarjan)
    → ((lower v k t).low v ≤ k) × ((lower v k t).low v ≤ t.low v) × ((lower v k t).index ≡ t.index)
lower_own v k t =
    subst (λ (s : Tarjan). (s.low v ≤ k) × (s.low v ≤ t.low v) × (s.index ≡ t.index))
      (sym (lower-eq v k t))
      (grind (arith, lowered_own v k t.low), grind (arith, lowered_own v k t.low), refl)

pub ltb-branch :
    {A : Type 0} (w : BlockId) {n : ℕ} → w < n → (x y : A) → (if ltb w n then x else y) ≡ x
ltb-branch w l x y = ground (arith, l)

module _ (g : Cfg) where
  Inv-low : (t : Tarjan) (f : BlockId → ℕ) → Inv g t → Inv g (record t { low = f })
  Inv-low t f inv = record {
    placed = inv.placed;
    flags = inv.flags;
    below = inv.below;
    closed = inv.closed;
    components = inv.components;
  }

  module _ (v : BlockId) (t0 : Tarjan) where
    Grown-low :
        (base : List BlockId) (t : Tarjan) (seg : List BlockId) (f : BlockId → ℕ)
        → Grown g v base t0 t seg
        → ((u : BlockId) (i : ℕ) → t0.index u ≡ some i → f u ≡ t.low u)
        → Grown g v base t0 (record t { low = f }) seg
    Grown-low base t seg f w same = record {
      inv = Inv-low t f w.inv;
      keep = w.keep;
      low_keep = λ u i e. same u i e ∙ w.low_keep u i e;
      own = w.own;
      stack = w.stack;
      later = w.later;
      fewer = w.fewer;
      fresh = w.fresh;
      explored = w.explored;
      down = w.down;
      up = w.up;
    }

    abbrev pub Visited : Tarjan → Type 0
    Visited t =
        (seg : List BlockId) × Grown g v (v ∷ t0.stack) t0 t seg × IsLow g v t0 seg (t.low v)

    module _ (inv0 : Inv g t0) (white : t0.index v ≡ none) where
      -- A block of the stack with an index below that of `v` was there before.
      pub below_base :
          (t : Tarjan) (seg : List BlockId)
          → Grown g v (v ∷ t0.stack) t0 t seg
          → (x : BlockId) (k : ℕ) → 0 < count x t.stack
          → t.index x ≡ some k
          → k < t0.counter
          → (0 < count x t0.stack) × (t0.index x ≡ some k)
      unfolding count
      below_base t seg w x k h e l =
          let there : 0 < count x t0.stack =
            elim (count-append_cases x seg (v ∷ t0.stack) (subst (λ s. 0 < count x s) w.stack h)) [
              | inl new ↦ absurd (omega (arith, w.fresh x k new e, l))
              | inr old ↦ elim (Bool-cases (v == x)) [
                | inl same ↦ absurd (own_low (==→≡ v x same))
                | inr other ↦ ground (arith, old, other)
              ]
            ] in
          (there, found there)
        where
          own_low : v ≡ x → ⊥
          own_low same = omega (arith, some_inj (sym w.own ∙ (ap t.index same ∙ e)), l)

          found : 0 < count x t0.stack → t0.index x ≡ some k
          found h0 =
              let (j, f) = indexed_of_stack g t0 inv0 x h0 in
              f ∙ ap some (some_inj (sym (w.keep x j f) ∙ e))

      pub Visited-lower :
          (t : Tarjan) (seg : List BlockId) (k : ℕ)
          → Grown g v (v ∷ t0.stack) t0 t seg
          → Grown g v (v ∷ t0.stack) t0 (lower v k t) seg
      Visited-lower t seg k w =
          subst (λ s. Grown g v (v ∷ t0.stack) t0 s seg) (sym (lower-eq v k t))
            (Grown-low (v ∷ t0.stack) t seg (lowered v k t.low) w
              (λ u i e. lowered_other v u k t.low (λ same. cc (same, e, white))))

      pub still_stacked :
          (t : Tarjan) (seg : List BlockId)
          → Grown g v (v ∷ t0.stack) t0 t seg
          → (z : BlockId) → 0 < count z t0.stack
          → 0 < count z t.stack
      unfolding count
      still_stacked t seg old z h =
          subst (λ s. 0 < count z s) (sym old.stack)
            (count-append_right z seg (v ∷ t0.stack) (ground (arith, h)))

      -- What the number `k` must satisfy to be written to `low v`.
      pub IsLow-lowered :
          (t : Tarjan) (seg seg' : List BlockId) (k : ℕ)
          → IsLow g v t0 seg (t.low v)
          → (k < t.low v
              → (x : BlockId) × (0 < count x t0.stack) × (t0.index x ≡ some k) × Flow g v x)
          → ((y z : BlockId) (i : ℕ)
              → 0 < count y seg'
              → Arc g y z
              → 0 < count z t0.stack
              → t0.index z ≡ some i
              → (t.low v ≤ i) ⊎ (k ≤ i))
          → IsLow g v t0 seg' (lowered v k t.low v)
      IsLow-lowered t seg seg' k low reason bound = elim (lowered_own v k t.low) [
        | inl (e, l) ↦ record {
          at_most = omega (arith, e, l, low.at_most);
          of = λ m. let (x, a, b, f) = reason l in (x, a, b ∙ ap some (sym e), f);
          bound = λ y z i a b c d. grind (arith, e, l, bound y z i a b c d);
        }
        | inr (e, l) ↦ record {
          at_most = omega (arith, e, l, low.at_most);
          of = λ m.
              let (x, a, b, f) = low.of (omega (arith, m, e)) in (x, a, b ∙ ap some (sym e), f);
          bound = λ y z i a b c d. grind (arith, e, l, bound y z i a b c d);
        }
      ]

      -- A call for a successor without an index.
      module _ (t t1 : Tarjan) (w : BlockId) (seg seg' : List BlockId) (a : Arc g v w)
          (old : Grown g v (v ∷ t0.stack) t0 t seg) (new : Grown g w t.stack t t1 seg') where
        pub Grown-connect : Grown g v (v ∷ t0.stack) t0 t1 (seg' ++ seg)
        Grown-connect = record {
          inv = new.inv;
          keep = λ u i e. new.keep u i (old.keep u i e);
          low_keep = λ u i e. new.low_keep u i (old.keep u i e) ∙ old.low_keep u i e;
          own = new.keep v _ old.own;
          stack =
              new.stack
              ∙ (ap (λ s. seg' ++ s) old.stack ∙ sym (append_assoc seg' seg (v ∷ t0.stack)));
          later = omega (arith, old.later, new.later);
          fewer = omega (arith, old.fewer, new.fewer);
          fresh = λ y i h e. elim (count-append_cases y seg' seg h) [
            | inl h1 ↦ omega (arith, new.fresh y i h1 e, old.later)
            | inr h2 ↦
                let (j, f) = indexed_of_stack g t old.inv y (on_stack y h2) in
                omega (arith, old.fresh y j h2 f, some_inj (sym (new.keep y j f) ∙ e))
          ];
          explored = λ y z h b. elim (count-append_cases y seg' seg h) [
            | inl h1 ↦ new.explored y z h1 b
            | inr h2 ↦ let (j, f) = old.explored y z h2 b in (j, new.keep z j f)
          ];
          down = λ y h. elim (count-append_cases y seg' seg h) [
            | inl h1 ↦ Route-join g _ no_skip (Flow-arc g a) (new.down y h1)
            | inr h2 ↦ old.down y h2
          ];
          up = λ y h. elim (count-append_cases y seg' seg h) [
            | inl h1 ↦
                let (x, b, f) = new.up y h1 in
                elim (count-append_cases x seg (v ∷ t0.stack)
                  (subst (λ s. 0 < count x s) old.stack b)) [
                    | inl b1 ↦ let (x', c, f') = old.up x b1 in (x', c, Route-join g _ no_skip f f')
                    | inr b2 ↦ (x, b2, f)
                  ]
            | inr h2 ↦ old.up y h2
          ];
        }
          where
            on_stack : (y : BlockId) → 0 < count y seg → 0 < count y t.stack
            on_stack y h =
                subst (λ s. 0 < count y s) (sym old.stack)
                  (count-append_left y seg (v ∷ t0.stack) h)

        pub low_same : t1.low v ≡ t.low v
        low_same = new.low_keep v _ old.own

        pub IsLow-connect :
            IsLow g v t0 seg (t.low v)
            → IsLow g w t seg' (t1.low w)
            → IsLow g v t0 (seg' ++ seg) ((lower v (t1.low w) t1).low v)
        IsLow-connect low low' =
            subst (λ (s : Tarjan). IsLow g v t0 (seg' ++ seg) (s.low v))
              (sym (lower-eq v (t1.low w) t1))
              (IsLow-lowered t1 seg (seg' ++ seg) (t1.low w)
                (subst (IsLow g v t0 seg) (sym low_same) low)
                (λ l.
                  let (x, b, e, f) = low'.of (omega (arith, l, low_same, low.at_most, old.later)) in
                  let (c, e') =
                    below_base t seg old x (t1.low w) b e
                      (omega (arith, l, low_same, low.at_most)) in
                  (x, c, e', Route-join g _ no_skip (Flow-arc g a) f))
                (λ y z i h b c e. elim (count-append_cases y seg' seg h) [
                  | inl h1 ↦
                      inr (low'.bound y z i h1 b (still_stacked t seg old z c) (old.keep z i e))
                  | inr h2 ↦ inl (omega (arith, low_same, low.bound y z i h2 b c e))
                ]))
