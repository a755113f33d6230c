-- ===== src/Engine/Lattices/Levels.antt =====
-- The joins of dataflow_lattices.go take the greater of two numbers.
use lifeline.Prelude.{ℕ, ◌-◌, ◌<◌, ◌≤◌, ◌≡◌, refl, sym, ap, subst, ◌∙◌, ◌⊎◌, inl, inr, arith}
use lifeline.Prelude.{
  Bool, true, List, [], ◌∷◌, ltb, ◌==◌, if◌then◌else◌, Bool-cases, ◌∈◌, ==→≡, ==_refl,
}
use lifeline.Model.Graph.{BlockId}
use lifeline.Model.Dataflow.{Problem, join_rest, join_outs}
use lifeline.Model.Dataflow.Lattice.{IsMonotone}
use lifeline.Engine.Lattices.{point_transfer}

module _ {S : Type 0} (level : S → ℕ) where
  -- The join of a lattice whose values are compared by their levels.
  abbrev pub greater : S → S → S
  greater a b = if ltb (level a) (level b) then b else a

  pub level-greater :
      (a b : S) → level (greater a b) ≡ (if ltb (level a) (level b) then level b else level a)
  level-greater a b = elim (Bool-cases (ltb (level a) (level b))) [
    | inl below ↦ rw below refl
    | inr above ↦ rw above refl
  ]

  -- A problem of `Solve` over such a lattice, from a set of points on.
  abbrev pub points : S → S → (BlockId → Bool) → S → Problem S
  points bottom initial at_point resolved = record {
    same = λ a b. level a == level b;
    zero_state = bottom;
    bottom = bottom;
    initial = initial;
    transfer = point_transfer at_point resolved;
    join = greater;
  }

  module _ (top : ℕ) (apart : (a b : S) → level a ≡ level b → a ≡ b)
      (bounded : (a : S) → level a ≤ top) where
    pub level-of_Le : (a b : S) → greater a b ≡ b → level a ≤ level b
    level-of_Le a b h = ground (arith, ap level h, level-greater a b)

    -- `Solve` is given what it asks for.
    pub points-IsMonotone :
        (bottom initial : S) (at_point : BlockId → Bool) (resolved : S)
        → level bottom ≡ 0
        → IsMonotone (points bottom initial at_point resolved) (λ s. top - level s)
    points-IsMonotone bottom initial at_point resolved zero_level = record {
      same_iff = λ a b. (
        (λ h. apart a b (==→≡ (level a) (level b) h)),
        (λ e. subst (λ x. (level a == level x) ≡ true) e (==_refl (level a))),
      );
      idempotent = λ a. apart _ _ (ground (arith, level-greater a a));
      commutative = λ a b. apart _ _ (ground (arith, level-greater a b, level-greater b a));
      associative = λ a b c. apart _ _ (
          ground (
            arith,
            level-greater a b,
            level-greater b c,
            level-greater (greater a b) c,
            level-greater a (greater b c),
          ));
      least = λ a. apart _ _ (ground (arith, level-greater bottom a, zero_level));
      monotone = λ v a b h. elim (Bool-cases (at_point v)) [
        | inl here ↦ rw here (apart _ _ (ground (arith, level-greater resolved resolved)))
        | inr away ↦ rw away h
      ];
      rises = λ a b h. elim (Bool-cases (level a == level b)) [
        | inl same ↦ inl (apart a b (==→≡ (level a) (level b) same))
        | inr other ↦ inr (ground (arith, other, level-of_Le a b h, bounded b))
      ];
    }

    module _ (p : Problem S) (joins : (a b : S) → p.join a b ≡ greater a b)
        (out : BlockId → S) where
      level-join :
          (a b : S) → level (p.join a b) ≡ (if ltb (level a) (level b) then level b else level a)
      level-join a b = ap level (joins a b) ∙ level-greater a b

      join_rest-above :
          (a : S) (vs : List BlockId)
          → (level a ≤ level (join_rest p out a vs))
            × ((w : BlockId) → w ∈ vs → level (out w) ≤ level (join_rest p out a vs))
      unfolding join_rest
      join_rest-above a [] = (omega arith, λ w m. absurd m)
      join_rest-above a (v ∷ vs) =
          let (start, rest) = join_rest-above (p.join a (out v)) vs in
          (
            ground (arith, start, level-join a (out v)),
            (λ w m. elim m [
              | inl same ↦
                  subst (λ x. level (out x) ≤ level (join_rest p out (p.join a (out v)) vs))
                    (sym same) (ground (arith, start, level-join a (out v)))
              | inr later ↦ rest w later
            ]),
          )

      -- The join of several states lies above each, and where it is above a level, one of them is.
      pub join_outs-above :
          (vs : List BlockId) (w : BlockId) → w ∈ vs → level (out w) ≤ level (join_outs p out vs)
      unfolding join_outs
      join_outs-above [] w m = absurd m
      join_outs-above (v ∷ vs) w (inl same) =
          subst (λ x. level (out x) ≤ level (join_rest p out (out v) vs)) (sym same)
            (join_rest-above (out v) vs).0
      join_outs-above (v ∷ vs) w (inr later) = (join_rest-above (out v) vs).1 w later

      join_rest-source :
          (k : ℕ) (a : S) (vs : List BlockId)
          → k ≤ level (join_rest p out a vs)
          → (k ≤ level a) ⊎ ((w : BlockId) × (w ∈ vs) × (k ≤ level (out w)))
      unfolding join_rest
      join_rest-source k a [] h = inl h
      join_rest-source k a (v ∷ vs) h = elim (join_rest-source k (p.join a (out v)) vs h) [
        | inl joined ↦ elim (Bool-cases (ltb (level a) (level (out v)))) [
          | inl below ↦ inr (v, inl refl, ground (arith, joined, below, level-join a (out v)))
          | inr above ↦ inl (ground (arith, joined, above, level-join a (out v)))
        ]
        | inr (w, m, high) ↦ inr (w, inr m, high)
      ]

      pub join_outs-source :
          (k : ℕ) (vs : List BlockId)
          → level p.bottom < k
          → k ≤ level (join_outs p out vs)
          → (w : BlockId) × (w ∈ vs) × (k ≤ level (out w))
      unfolding join_outs
      join_outs-source k [] low h = absurd (omega (arith, low, h))
      join_outs-source k (v ∷ vs) low h = elim (join_rest-source k (out v) vs h) [
        | inl first ↦ (v, inl refl, first)
        | inr (w, m, high) ↦ (w, inr m, high)
      ]
