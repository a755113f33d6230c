-- ===== src/Model/Graph/Tarjan/Connect.antt =====
-- The start and the end of a call of `strongConnect`.
use lifeline.Prelude.{
  ℕ, suc, ◌+◌, ◌≤◌, ◌<◌, ◌≡◌, ◌↔◌, refl, sym, ap, subst, ◌∙◌, ◌⊎◌, inl, inr, arith,
}
use lifeline.Prelude.{
  Bool, true, Option, none, some, List, [], ◌∷◌, ◌++◌, length, ◌==◌, unseen-mark, unseen-congr,
}
use lifeline.Prelude.{if◌then◌else◌, Bool-cases, ==→≡, ==→≢, ==_refl, ltb, ltb→lt, mark}
use lifeline.Model.Graph.{BlockId, Cfg}
use lifeline.Model.Graph.WellFormed.{succs, count}
use lifeline.Model.Graph.Routes.{Flow, here, along, no_skip, Route-join, LeadsTo-Enters}
use lifeline.Model.Graph.Tarjan.{Tarjan, ok, put, enter, is_root, pop_until, pop_component}
use lifeline.Model.Graph.Tarjan.State.{
  total, total-append, Arc, is_some, held, IsComponent, AreComponents-append, whites, Inv,
  Flow-closed, indexed_of_stack, Grown, IsLow, Connected, count-append, count-append_cases,
  append_assoc,
}
use lifeline.Model.Graph.Tarjan.Visit.{Handled}
use lifeline.Model.Graph.Tarjan.Lower.{Visited, some_inj}
use lifeline.Model.Graph.Tarjan.Pop.{Clears, pop_until-eq, on_true, on_false}

count-one : (y v : BlockId) → 0 < count y (v ∷ []) → v ≡ y
unfolding count
count-one y v h = ground (arith, h)

count-cons_cases :
    (y v : BlockId) (xs : List BlockId) → 0 < count y (v ∷ xs) → (v ≡ y) ⊎ (0 < count y xs)
unfolding count
count-cons_cases y v xs h = elim (Bool-cases (v == y)) [
  | inl same ↦ inl (==→≡ v y same)
  | inr other ↦ inr (ground (arith, h, other))
]

pub none_in : (y : BlockId) → 0 < count y [] → ⊥
unfolding count
none_in y h = omega (arith, h)

module _ (g : Cfg) (v : BlockId) (t0 : Tarjan) (inv0 : Inv g t0) (fits : v < length g.blocks)
    (white : t0.index v ≡ none) where
  white_at : (w : BlockId) → (v == w) ≡ true → t0.index w ≡ none
  white_at w e = subst (λ x. t0.index x ≡ none) (==→≡ v w e) white

  fits_at : (w : BlockId) → (v == w) ≡ true → w < length g.blocks
  fits_at w e = subst (λ x. x < length g.blocks) (==→≡ v w e) fits

  Inv-enter : Inv g (enter v t0)
  unfolding enter put count
  Inv-enter = record {
    placed = λ w. ground (arith, inv0.placed w, white_at w, ap held);
    flags = λ w. ground (arith, inv0.flags w);
    below = λ w i e. ground (arith, e, inv0.below w i, fits_at w);
    closed = inv0.closed;
    components = inv0.components;
  }

  pub whites-enter : suc (whites (length g.blocks) (enter v t0)) ≡ whites (length g.blocks) t0
  unfolding enter put
  whites-enter =
      ap suc (unseen-congr (length g.blocks) _ _ same)
      ∙ unseen-mark (length g.blocks) v (λ w. is_some (t0.index w)) fits (ap is_some white)
    where
      same :
          (w : BlockId)
          → is_some (if v == w then some t0.counter else t0.index w)
            ≡ mark v (λ w. is_some (t0.index w)) w
      same w = ground arith

  -- After the first lines of the call nothing is visited yet.
  pub Visited-enter : Visited g v t0 (enter v t0)
  unfolding enter put
  Visited-enter = (
    [],
    record {
      inv = Inv-enter;
      keep = λ u i e. ground (arith, e, white_at u);
      low_keep = λ u i e. ground (arith, e, white_at u);
      own = ground (arith, ==_refl v);
      stack = refl;
      later = omega arith;
      fewer = omega (arith, whites-enter);
      fresh = λ y i h e. absurd (none_in y h);
      explored = λ y z h a. absurd (none_in y h);
      down = λ y h. absurd (none_in y h);
      up = λ y h. absurd (none_in y h);
    },
    record {
      at_most = ground (arith, ==_refl v);
      of = λ l. absurd (ground (arith, l, ==_refl v));
      bound = λ y z i h a b e. absurd (none_in y h);
    },
  )

  -- The end of the call: all successors are done.
  module _ (t : Tarjan) (seg : List BlockId) (w : Grown g v (v ∷ t0.stack) t0 t seg)
      (low : IsLow g v t0 seg (t.low v))
      (handled : (z : BlockId) → Arc g v z → Handled g v t0 inv0 white t z) where
    abbrev whole : List BlockId
    whole = seg ++ (v ∷ [])

    whole_stack : t.stack ≡ whole ++ t0.stack
    whole_stack = w.stack ∙ sym (append_assoc seg (v ∷ []) t0.stack)

    explored_whole :
        (y z : BlockId) → 0 < count y whole → Arc g y z → (i : ℕ) × (t.index z ≡ some i)
    explored_whole y z h a = elim (count-append_cases y seg (v ∷ []) h) [
      | inl h1 ↦ w.explored y z h1 a
      | inr h2 ↦ (handled z (subst (λ x. Arc g x z) (sym (count-one y v h2)) a)).0
    ]

    bound_whole :
        (y z : BlockId) (i : ℕ)
        → 0 < count y whole
        → Arc g y z
        → 0 < count z t0.stack
        → t0.index z ≡ some i
        → t.low v ≤ i
    bound_whole y z i h a b e = elim (count-append_cases y seg (v ∷ []) h) [
      | inl h1 ↦ low.bound y z i h1 a b e
      | inr h2 ↦ (handled z (subst (λ x. Arc g x z) (sym (count-one y v h2)) a)).1 i b e
    ]

    down_whole : (y : BlockId) → 0 < count y whole → Flow g v y
    down_whole y h = elim (count-append_cases y seg (v ∷ []) h) [
      | inl h1 ↦ w.down y h1
      | inr h2 ↦ subst (Flow g v) (count-one y v h2) here
    ]

    -- `v` is no root: its blocks stay on the stack.
    Connected-kept : t.low v < t0.counter → Connected g v t0 t
    Connected-kept l =
        let (x0, b0, e0, f0) = low.of l in
        (
          whole,
          record {
            inv = w.inv;
            keep = w.keep;
            low_keep = w.low_keep;
            own = w.own;
            stack = whole_stack;
            later = w.later;
            fewer = w.fewer;
            fresh = λ y i h e. elim (count-append_cases y seg (v ∷ []) h) [
              | inl h1 ↦ w.fresh y i h1 e
              | inr h2 ↦ omega (arith, some_inj (sym w.own ∙ (ap t.index (count-one y v h2) ∙ e)))
            ];
            explored = explored_whole;
            down = down_whole;
            up = λ y h. elim (count-append_cases y seg (v ∷ []) h) [
              | inl h1 ↦
                  let (x, b, f) = w.up y h1 in
                  elim (count-cons_cases x v t0.stack b) [
                    | inl same ↦ (x0, b0, Route-join g _ no_skip (subst (Flow g y) (sym same) f) f0)
                    | inr old ↦ (x, old, f)
                  ]
              | inr h2 ↦ (x0, b0, subst (λ u. Flow g u x0) (count-one y v h2) f0)
            ];
          },
          record { at_most = low.at_most; of = low.of; bound = bound_whole },
        )

    -- `v` is the root of a component, which is popped.
    module _ (f : BlockId → Bool) (clears : Clears whole t.on_stack f)
        (root : t.low v ≡ t0.counter) where
      abbrev popped : Tarjan
      popped = record t { on_stack = f; stack = t0.stack; result = t.result ++ (whole ∷ []) }

      total-popped : (u : BlockId) → total u popped.result ≡ total u t.result + count u whole
      unfolding total
      total-popped u = omega (arith, total-append u t.result (whole ∷ []))

      counts :
          (u : BlockId) → total u t.result + (count u whole + count u t0.stack) ≡ held (t.index u)
      counts u =
          omega (arith, w.inv.placed u, ap (count u) whole_stack, count-append u whole t0.stack)

      held-le : (o : Option ℕ) → held o ≤ 1
      held-le none = omega arith
      held-le (some i) = omega arith

      -- No edge leads from the component to a block further down the stack.
      not_stacked : (u z : BlockId) → 0 < count u whole → Arc g u z → 0 < count z t0.stack → ⊥
      not_stacked u z h a b =
          let (j, e) = indexed_of_stack g t0 inv0 z b in
          omega (arith, bound_whole u z j h a b e, (inv0.below z j e).1, root)

      closed_popped :
          (u z : BlockId) → 0 < total u popped.result → Arc g u z → 0 < total z popped.result
      closed_popped u z h a = elim (Bool-cases (ltb 0 (total u t.result))) [
        | inl old ↦
            omega (arith, total-popped z, w.inv.closed u z (ltb→lt 0 (total u t.result) old) a)
        | inr new ↦
            let in_whole : 0 < count u whole = ground (arith, new, h, total-popped u) in
            let (i, e) = explored_whole u z in_whole a in
            elim (Bool-cases (ltb 0 (count z t0.stack))) [
              | inl stacked ↦
                  absurd (not_stacked u z in_whole a (ltb→lt 0 (count z t0.stack) stacked))
              | inr free ↦ ground (arith, free, total-popped z, counts z, ap held e)
            ]
      ]

      Flow-popped :
          {u z : BlockId} → Flow g u z → 0 < total u popped.result → 0 < total z popped.result
      Flow-popped here h = h
      Flow-popped (along {u} {v = z} r a) h =
          closed_popped u z (Flow-popped r h) ((LeadsTo-Enters (succs g.blocks u) z).1 a)

      own_whole : 0 < count v whole
      unfolding count
      own_whole = ground (arith, count-append v seg (v ∷ []), ==_refl v)

      in_result : (u : BlockId) → 0 < count u whole → 0 < total u popped.result
      in_result u h = omega (arith, total-popped u, h)

      up_whole : (y : BlockId) → 0 < count y whole → Flow g y v
      up_whole y h = elim (count-append_cases y seg (v ∷ []) h) [
        | inr h2 ↦ subst (λ u. Flow g u v) (count-one y v h2) here
        | inl h1 ↦
            let (x, b, r) = w.up y h1 in
            elim (count-cons_cases x v t0.stack b) [
              | inl same ↦ subst (Flow g y) (sym same) r
              | inr old ↦ absurd (
                  omega (
                    arith,
                    Flow-popped r (in_result y h),
                    old,
                    total-popped x,
                    counts x,
                    held-le (t.index x),
                  ))
            ]
      ]

      IsComponent-whole : IsComponent g whole
      IsComponent-whole = (
        v,
        own_whole,
        λ u h. (down_whole u h, up_whole u h),
        λ u r back. elim (Bool-cases (ltb 0 (count u whole))) [
          | inl inside ↦ ltb→lt 0 (count u whole) inside
          | inr outside ↦
              let old : 0 < total u t.result =
                ground (arith, outside, Flow-popped r (in_result v own_whole), total-popped u) in
              absurd (
                omega
                  (arith, Flow-closed g t w.inv back old, own_whole, counts v, held-le (t.index v)))
        ],
      )

      flags_popped : (u : BlockId) → (f u ≡ true) ↔ (0 < count u t0.stack)
      flags_popped u = elim (Bool-cases (ltb 0 (count u whole))) [
        | inl inside ↦
            let h = ltb→lt 0 (count u whole) inside in
            (
              λ e. absurd (cc (e, clears.0 u h)),
              λ b. absurd (omega (arith, h, b, counts u, held-le (t.index u))),
            )
        | inr outside ↦
            let nothing : count u whole ≡ 0 = ground (arith, outside) in
            let (there, back) = w.inv.flags u in
            (
              λ e. omega (
                arith,
                there (sym (clears.1 u nothing) ∙ e),
                ap (count u) whole_stack,
                count-append u whole t0.stack,
                nothing,
              ),
              λ b.
                  clears.1 u nothing
                  ∙ back
                      (omega (arith, b, ap (count u) whole_stack, count-append u whole t0.stack)),
            )
      ]

      Inv-popped : Inv g popped
      Inv-popped = record {
        placed = λ u. omega (arith, total-popped u, counts u);
        flags = flags_popped;
        below = w.inv.below;
        closed = closed_popped;
        components =
            AreComponents-append g t.result (whole ∷ []) w.inv.components (IsComponent-whole, tt);
      }

      Connected-popped : Connected g v t0 popped
      Connected-popped = (
        [],
        record {
          inv = Inv-popped;
          keep = w.keep;
          low_keep = w.low_keep;
          own = w.own;
          stack = refl;
          later = w.later;
          fewer = w.fewer;
          fresh = λ y i h e. absurd (none_in y h);
          explored = λ y z h a. absurd (none_in y h);
          down = λ y h. absurd (none_in y h);
          up = λ y h. absurd (none_in y h);
        },
        record {
          at_most = omega (arith, root);
          of = λ l. absurd (omega (arith, l, root));
          bound = λ y z i h a b e. absurd (none_in y h);
        },
      )

    not_twice : count v seg ≡ 0
    unfolding count
    not_twice = ground (
      arith,
      w.inv.placed v,
      ap (count v) w.stack,
      count-append v seg (v ∷ t0.stack),
      ==_refl v,
      ap held w.own,
    )

    is_root-own : is_root v t ≡ (t.low v == t0.counter)
    unfolding is_root
    is_root-own = rw (w.own, is_root) refl

    pub pop_component-Connected : (t' : Tarjan) × (pop_component v t ≡ ok t') × Connected g v t0 t'
    unfolding pop_component
    pop_component-Connected = elim (Bool-cases (t.low v == t0.counter)) [
      | inl root ↦
          let (f, run, clears) = pop_until-eq v seg t0.stack [] t not_twice in
          (
            popped f clears (==→≡ (t.low v) t0.counter root),
            on_true (is_root v t) _ _ (is_root-own ∙ root)
                ∙ (ap (λ s. pop_until v s [] t) w.stack ∙ run),
            Connected-popped f clears (==→≡ (t.low v) t0.counter root),
          )
      | inr other ↦ (
        t,
        on_false (is_root v t) _ _ (is_root-own ∙ other),
        Connected-kept (ground (arith, low.at_most, ==→≢ (t.low v) t0.counter other)),
      )
    ]
