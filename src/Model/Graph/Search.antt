-- ===== src/Model/Graph/Search.antt =====
-- The shared depth-first loop decides which blocks a walk leads to, and ends within its fuel.
use lifeline.Prelude.{ℕ, zero, suc, ◌+◌, ◌≤◌, ◌<◌, ◌≡◌, refl, ◌⊎◌, inl, inr, ◌↔◌, Bool}
use lifeline.Prelude.{subst, true, false, Option, some, List, [], ◌∷◌, length, ◌∈◌, arith}
use lifeline.Prelude.{mark, no_marks, unseen, unseen-mark, unseen-le}
use mathlib.Core.Bool.{So-prop}
use mathlib.Core.Logic.{∥∥₁_elim}
use lifeline.Model.Graph.{BlockId, done, Progress, push, push_unseen, search_loop}
use lifeline.Model.Graph.{search_from}

-- Some entry of the list that is not blocked leads to `w`.
abbrev pub Leads : {X : Type 0} → (X → Bool) → (X → BlockId) → List X → BlockId → Type 0
Leads blocked dest [] w = ⊥
Leads blocked dest (e ∷ es) w = (blocked e ≡ false) × (w ≡ dest e) ⊎ Leads blocked dest es w

-- Every entry leads to a block below `n`.
abbrev pub AllBelow : {X : Type 0} → (X → BlockId) → ℕ → List X → Type 0
AllBelow dest n [] = Unit
AllBelow dest n (e ∷ es) = (dest e < n) × AllBelow dest n es

module _ {X : Type 0} (next : BlockId → Option (List X)) (blocked : X → Bool)
    (dest : X → BlockId) where
  abbrev pub Step : BlockId → BlockId → Type 0
  Step u v = (es : List X) × (next u ≡ some es) × Leads blocked dest es v

  pub data Walk (src : BlockId) : BlockId → Type 0 where
    here : Walk src src
    step : {u v : BlockId} → Walk src u → Step u v → Walk src v

  pub Walk-prepend : {u v w : BlockId} → Step u v → Walk v w → Walk u w
  Walk-prepend s here = step here s
  Walk-prepend s (step w t) = step (Walk-prepend s w) t

  -- From each of the first `n` blocks the search reads a list, and this leads to such blocks.
  abbrev pub Closed : ℕ → Type 0
  Closed n = (u : BlockId) → u < n → (es : List X) × (next u ≡ some es) × AllBelow dest n es

  seen-push_unseen :
      (es : List X) (p : Progress) (w : BlockId)
      → ((push_unseen next blocked dest es p).seen w ≡ true)
        ↔ ((p.seen w ≡ true) ⊎ Leads blocked dest es w)
  unfolding push_unseen
  seen-push_unseen [] p w = ground arith
  seen-push_unseen (e ∷ es) p w = ground (arith, seen-push_unseen es (push next blocked dest e p) w)

  stack-push_unseen :
      (es : List X) (p : Progress) (w : BlockId)
      → (w ∈ (push_unseen next blocked dest es p).stack) ↔ (
          (w ∈ p.stack) ⊎ ((push_unseen next blocked dest es p).seen w ≡ true) × (p.seen w ≡ false))
  unfolding push_unseen
  stack-push_unseen [] p w = ground arith
  stack-push_unseen (e ∷ es) p w = ground (
    arith,
    stack-push_unseen es (push next blocked dest e p) w,
    seen-push_unseen es (push next blocked dest e p) w,
  )

  -- What is still to be pushed or popped.
  abbrev work : ℕ → Progress → ℕ
  work n p = unseen n p.seen + length p.stack

  work-push_unseen :
      (n : ℕ) (es : List X) (p : Progress)
      → AllBelow dest n es
      → work n (push_unseen next blocked dest es p) ≡ work n p
  unfolding push_unseen
  work-push_unseen n [] p h = refl
  work-push_unseen n (e ∷ es) p h =
      ground
        (arith, work-push_unseen n es (push next blocked dest e p), unseen-mark n (dest e) p.seen)

  module _ (n : ℕ) (src : BlockId) (closed : Closed n) where
    record Inv (p : Progress) : Type 0 where
      source : p.seen src ≡ true
      queued : (v : BlockId) → v ∈ p.stack → p.seen v ≡ true
      below : (v : BlockId) → p.seen v ≡ true → v < n
      sound : (v : BlockId) → p.seen v ≡ true → Walk src v
      expanded : (u v : BlockId) → p.seen u ≡ true → Step u v → (u ∈ p.stack) ⊎ (p.seen v ≡ true)

    below_of_Leads :
        (es : List X) (w : BlockId) → AllBelow dest n es → Leads blocked dest es w → w < n
    below_of_Leads [] w h l = absurd l
    below_of_Leads (e ∷ es) w h l = ground (arith, below_of_Leads es w)

    Inv-start : src < n → Inv (record { stack = src ∷ []; seen = mark src no_marks })
    Inv-start h = record {
      source = ground arith;
      queued = λ v q. ground arith;
      below = λ v m. ground arith;
      sound = λ v m. let e : src ≡ v = ground arith in subst (Walk src) e here;
      expanded = λ u v m s. ground arith;
    }

    Inv-round :
        (id : BlockId) (rest : List BlockId) (p : Progress) (es : List X)
        → p.stack ≡ id ∷ rest
        → next id ≡ some es
        → AllBelow dest n es
        → Inv p
        → Inv (push_unseen next blocked dest es (record { stack = rest; seen = p.seen }))
    Inv-round id rest p es top read fits i =
        let q = record p { stack = rest } in
        let flags = λ (w : BlockId). seen-push_unseen es q w in
        let here_now : p.seen id ≡ true = i.queued id (ground arith) in
        record {
          source = (flags src).1 (inl i.source);
          queued = λ v m. ground (arith, stack-push_unseen es q v, flags v, i.queued v);
          below = λ v m. ground (arith, flags v, i.below v, below_of_Leads es v fits);
          sound = λ v m. elim ((flags v).0 m) [
            | inl old ↦ i.sound v old
            | inr new ↦ step (i.sound id here_now) (es, read, new)
          ];
          expanded = λ u v m s.
              ground (arith, stack-push_unseen es q u, flags v, flags u, i.expanded u v, s);
        }

    -- With enough fuel the loop ends, in a state that keeps the invariant and has no block left.
    search_loop_ends :
        (fuel : ℕ) (stack : List BlockId) (seen : BlockId → Bool)
        → Inv (record { stack = stack; seen = seen })
        → unseen n seen + length stack ≤ fuel
        → (out : BlockId → Bool) × (search_loop next blocked dest fuel
              (record { stack = stack; seen = seen })
            ≡ done out)
          × Inv (record { stack = []; seen = out })
    unfolding search_loop
    search_loop_ends zero [] seen i h = (seen, refl, i)
    search_loop_ends (suc fuel) [] seen i h = (seen, refl, i)
    search_loop_ends zero (id ∷ rest) seen i h = absurd (omega arith)
    search_loop_ends (suc fuel) (id ∷ rest) seen i h =
        let (es, read, fits) = closed id (i.below id (i.queued id (inl refl))) in
        let q : Progress = record { stack = rest; seen = seen } in
        let t = push_unseen next blocked dest es q in
        let (out, ends, final) =
          search_loop_ends fuel t.stack t.seen
            (Inv-round id rest (record { stack = id ∷ rest; seen = seen }) es refl read fits i)
            (omega (arith, work-push_unseen n es q fits)) in
        (out, rw (read, search_loop) ends, final)

    complete :
        (seen : BlockId → Bool) {v : BlockId}
        → Inv (record { stack = []; seen = seen })
        → Walk src v
        → seen v ≡ true
    complete seen i here = i.source
    complete seen i (step {u} {v} w s) = elim (i.expanded u v (complete seen i w) s) [
      | inl waiting ↦ absurd waiting
      | inr m ↦ m
    ]

    -- From one of the `n` blocks the search returns the set of the blocks that a walk leads to.
    pub search_from_decides :
        (fuel : ℕ)
        → src < n
        → n ≤ fuel
        → (seen : BlockId → Bool) × (search_from next blocked dest fuel src ≡ done seen)
          × ((v : BlockId) → (seen v ≡ true) ↔ ∥ Walk src v ∥₁)
          × ((v : BlockId) → seen v ≡ true → v < n)
    unfolding search_from
    search_from_decides fuel h f =
        let (out, ends, final) =
          search_loop_ends fuel (src ∷ []) (mark src no_marks) (Inv-start h)
            (omega (arith, unseen-mark n src no_marks h refl, unseen-le n no_marks)) in
        (
          out,
          ends,
          λ v. (λ m. ∣ final.sound v m ∣₁, λ w. ∥∥₁_elim w (So-prop _) (complete out final)),
          final.below,
        )
