-- ===== src/Model/Dataflow/Lattice.antt =====
-- What dataflow.go asks of the arguments of `Solve`, and what the equations of the blocks are.
use lifeline.Prelude.{ℕ, ◌<◌, ◌≡◌, refl, sym, ap, subst, ◌∙◌, ◌↔◌, ◌⊎◌, inl, inr}
use lifeline.Prelude.{true, List, [], ◌∷◌, length, ◌==◌, if◌then◌else◌, Bool-cases, ◌∈◌}
use lifeline.Prelude.{==→≡}
use lifeline.Model.Graph.{BlockId, Cfg}
use lifeline.Model.Graph.WellFormed.{preds, IsWellFormed, AllLt, predecessors_of-eq}
use lifeline.Model.Graph.Tarjan.{ok, put}
use lifeline.Model.Dataflow.{Problem, join_rest, join_outs, in_state}

-- The order of the semilattice.
abbrev pub Le : {S : Type 0} → Problem S → S → S → Type 0
Le p a b = p.join a b ≡ b

-- The join is that of a semilattice with `bottom` at its bottom, `transfer` is monotone, and a value rises
-- fewer times than `left` says.
pub record IsMonotone {S : Type 0} (p : Problem S) (left : S → ℕ) : Type 0 where
  pub same_iff : (a b : S) → (p.same a b ≡ true) ↔ (a ≡ b)
  pub idempotent : (a : S) → p.join a a ≡ a
  pub commutative : (a b : S) → p.join a b ≡ p.join b a
  pub associative : (a b c : S) → p.join (p.join a b) c ≡ p.join a (p.join b c)
  pub least : (a : S) → p.join p.bottom a ≡ a
  pub monotone : (v : BlockId) (a b : S) → Le p a b → Le p (p.transfer v a) (p.transfer v b)
  pub rises : (a b : S) → Le p a b → (a ≡ b) ⊎ (left b < left a)

module _ {S : Type 0} (p : Problem S) (left : S → ℕ) (laws : IsMonotone p left) where
  pub Le_trans : (a b c : S) → Le p a b → Le p b c → Le p a c
  Le_trans a b c h k =
      ap (p.join a) (sym k) ∙ sym (laws.associative a b c) ∙ ap (λ x. p.join x c) h ∙ k

  join_mono : (a b c d : S) → Le p a b → Le p c d → Le p (p.join a c) (p.join b d)
  join_mono a b c d h k =
      laws.associative a c (p.join b d)
      ∙ ap (p.join a) (
          sym (laws.associative c b d)
          ∙ ap (λ x. p.join x d) (laws.commutative c b)
          ∙ laws.associative b c d
          ∙ ap (p.join b) k)
      ∙ sym (laws.associative a b d)
      ∙ ap (λ x. p.join x d) h

  -- The first state lies below the second at each of the blocks.
  abbrev pub Below : List BlockId → (BlockId → S) → (BlockId → S) → Type 0
  Below vs out other = (v : BlockId) → v ∈ vs → Le p (out v) (other v)

  join_rest-Le :
      (vs : List BlockId) (out other : BlockId → S) (a b : S)
      → Le p a b
      → Below vs out other
      → Le p (join_rest p out a vs) (join_rest p other b vs)
  unfolding join_rest
  join_rest-Le [] out other a b h k = h
  join_rest-Le (v ∷ vs) out other a b h k =
      join_rest-Le vs out other (p.join a (out v)) (p.join b (other v))
        (join_mono a b (out v) (other v) h (k v (inl refl))) (λ w m. k w (inr m))

  join_outs-Le :
      (vs : List BlockId) (out other : BlockId → S)
      → Below vs out other
      → Le p (join_outs p out vs) (join_outs p other vs)
  unfolding join_outs
  join_outs-Le [] out other k = laws.idempotent p.bottom
  join_outs-Le (v ∷ vs) out other k =
      join_rest-Le vs out other (out v) (other v) (k v (inl refl)) (λ w m. k w (inr m))

module _ {S : Type 0} (p : Problem S) where
  abbrev Agree : List BlockId → (BlockId → S) → (BlockId → S) → Type 0
  Agree vs out other = (v : BlockId) → v ∈ vs → out v ≡ other v

  join_rest-congr :
      (vs : List BlockId) (out other : BlockId → S) (a : S)
      → Agree vs out other
      → join_rest p out a vs ≡ join_rest p other a vs
  unfolding join_rest
  join_rest-congr [] out other a k = refl
  join_rest-congr (v ∷ vs) out other a k =
      ap (λ x. join_rest p out (p.join a x) vs) (k v (inl refl))
      ∙ join_rest-congr vs out other (p.join a (other v)) (λ w m. k w (inr m))

  join_outs-congr :
      (vs : List BlockId) (out other : BlockId → S)
      → Agree vs out other
      → join_outs p out vs ≡ join_outs p other vs
  unfolding join_outs
  join_outs-congr [] out other k = refl
  join_outs-congr (v ∷ vs) out other k =
      ap (λ x. join_rest p out x vs) (k v (inl refl))
      ∙ join_rest-congr vs out other (other v) (λ w m. k w (inr m))

  -- The state that the states after the other blocks give to one: the right side of its equation.
  unfoldable pub equation : Cfg → (BlockId → S) → BlockId → S
  equation g out v =
      p.transfer v (if v == g.entry then p.initial else join_outs p out (preds g.blocks v))

module _ {S : Type 0} (p : Problem S) (g : Cfg) (wf : IsWellFormed g) where
  -- A block below the length has its predecessors below the length.
  pub preds-below : (n : ℕ) (vs : List BlockId) → AllLt n vs → (v : BlockId) → v ∈ vs → v < n
  preds-below n [] h v m = absurd m
  preds-below n (w ∷ ws) (l, h) v (inl same) = subst (λ x. x < n) (sym same) l
  preds-below n (w ∷ ws) (l, h) v (inr m) = preds-below n ws h v m

  pub equation_mono :
      (left : S → ℕ)
      → IsMonotone p left
      → (out other : BlockId → S) → ((v : BlockId) → v < length g.blocks → Le p (out v) (other v))
      → (v : BlockId) → Le p (equation p g out v) (equation p g other v)
  unfolding equation
  equation_mono left laws out other h v = elim (Bool-cases (v == g.entry)) [
    | inl at_entry ↦
        rw (at_entry, equation) (laws.monotone v p.initial p.initial (laws.idempotent p.initial))
    | inr other_block ↦
        rw (other_block, equation)
          (laws.monotone v _ _ (
            join_outs-Le p left laws (preds g.blocks v) out other (λ w m.
              h w (
                preds-below (length g.blocks) (preds g.blocks v) (wf.blocks_fit.preds_fit v) w m))))
  ]

  -- A write to a block that does not precede another leaves the equation of that one as it is.
  pub equation-put :
      (out : BlockId → S) (u v : BlockId) (s : S)
      → (u ∈ preds g.blocks v → ⊥)
      → equation p g (put u s out) v ≡ equation p g out v
  unfolding equation put
  equation-put out u v s h =
      ap (λ x. p.transfer v (if v == g.entry then p.initial else x))
        (join_outs-congr p (preds g.blocks v) (put u s out) out (λ w m. elim (Bool-cases (u == w)) [
          | inl same ↦ absurd (h (subst (λ x. x ∈ preds g.blocks v) (sym (==→≡ u w same)) m))
          | inr away ↦ rw away refl
        ]))

  -- The state before a block, of the code.
  pub in_state-eq :
      (out : BlockId → S) (v : BlockId)
      → v < length g.blocks
      → in_state p g out v
        ≡ ok (if v == g.entry then p.initial else join_outs p out (preds g.blocks v))
  unfolding in_state
  in_state-eq out v l = elim (Bool-cases (v == g.entry)) [
    | inl at_entry ↦ rw at_entry refl
    | inr other_block ↦ rw other_block (rw (predecessors_of-eq g v l) refl)
  ]
