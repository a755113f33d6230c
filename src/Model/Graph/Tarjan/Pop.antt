-- ===== src/Model/Graph/Tarjan/Pop.antt =====
-- The loop of `strongConnect` that pops a component.
use lifeline.Prelude.{◌<◌, ◌≡◌, refl, ap, ◌∙◌, arith}
use lifeline.Prelude.{Bool, true, false, List, [], ◌∷◌, ◌++◌, ◌==◌, ==_refl, if◌then◌else◌}
use lifeline.Model.Graph.{BlockId}
use lifeline.Model.Graph.WellFormed.{count}
use lifeline.Model.Graph.Tarjan.{Tarjan, ok, put, pop_until}
use lifeline.Model.Graph.Tarjan.State.{append_assoc}

pub on_true : {A : Type 0} (b : Bool) (x y : A) → b ≡ true → (if b then x else y) ≡ x
on_true true x y e = refl
on_true false x y e = absurd (cc)

pub on_false : {A : Type 0} (b : Bool) (x y : A) → b ≡ false → (if b then x else y) ≡ y
on_false true x y e = absurd (cc)
on_false false x y e = refl

-- The flags after the blocks of `c` are popped.
abbrev pub Clears : List BlockId → (BlockId → Bool) → (BlockId → Bool) → Type 0
Clears c on f =
    ((w : BlockId) → 0 < count w c → f w ≡ false) × ((w : BlockId) → count w c ≡ 0 → f w ≡ on w)

Clears-own : (v : BlockId) (on : BlockId → Bool) → Clears (v ∷ []) on (put v false on)
unfolding count put
Clears-own v on = (λ w h. ground (arith, h), λ w h. ground (arith, h))

Clears-cons :
    (w : BlockId) (c : List BlockId) (on f : BlockId → Bool)
    → Clears c (put w false on) f
    → Clears (w ∷ c) on f
unfolding count put
Clears-cons w c on f (out, same) =
    (λ x h. ground (arith, h, out x, same x), λ x h. ground (arith, h, out x, same x))

pub pop_until-eq :
    (v : BlockId) (seg old scc : List BlockId) (t : Tarjan)
    → count v seg ≡ 0
    → (f : BlockId → Bool) × (pop_until v (seg ++ (v ∷ old)) scc t
        ≡ ok (record t {
          on_stack = f;
          stack = old;
          result = t.result ++ (scc ++ (seg ++ (v ∷ []))) ∷ [];
        }))
      × Clears (seg ++ (v ∷ [])) t.on_stack f
unfolding pop_until count
pop_until-eq v [] old scc t h =
    (put v false t.on_stack, on_true (v == v) _ _ (==_refl v), Clears-own v t.on_stack)
pop_until-eq v (w ∷ seg) old scc t h =
    let t' = record t { on_stack = put w false t.on_stack } in
    let (f, run, clears) = pop_until-eq v seg old (scc ++ (w ∷ [])) t' (ground (arith, h)) in
    (
      f,
      on_false (w == v) _ _ (ground (arith, h))
          ∙ (run
              ∙ ap (λ c. ok (record t { on_stack = f; stack = old; result = t.result ++ (c ∷ []) }))
                  (append_assoc scc (w ∷ []) (seg ++ (v ∷ [])))),
      Clears-cons w (seg ++ (v ∷ [])) t.on_stack f clears,
    )
