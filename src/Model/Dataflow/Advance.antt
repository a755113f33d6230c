-- ===== src/Model/Dataflow/Advance.antt =====
-- The locals after a round of `Solve` are as they should be, and leave no more to do than before.
use lifeline.Prelude.{ℕ, suc, ◌+◌, ◌<◌, ◌≤◌, ◌≡◌, refl, sym, ap, subst, ◌∙◌, ◌⊎◌, inl, inr, arith}
use lifeline.Prelude.{
  true, false, not, ◌||◌, List, ◌∷◌, length, ◌==◌, if◌then◌else◌, Bool-cases, ◌∈◌,
}
use lifeline.Prelude.{
  unmark, ==→≡, ==_refl, unseen, unseen-unmark, sum_below, sum_below-le, sum_below-lt,
}
use lifeline.Model.Graph.{BlockId, Cfg}
use lifeline.Model.Graph.WellFormed.{IsWellFormed}
use lifeline.Model.Graph.Routes.{Flow}
use lifeline.Model.Graph.Cycles.{Flow-below}
use lifeline.Model.Graph.Tarjan.State.{Arc, Flow-snoc}
use lifeline.Model.Dataflow.{Problem, Solver}
use lifeline.Model.Dataflow.Lattice.{Le, IsMonotone, Le_trans, equation, equation_mono}
use lifeline.Model.Dataflow.Rounds.{IsSolving, IsAdvanced}

module _ {S : Type 0} (p : Problem S) (left : S → ℕ) (laws : IsMonotone p left) (g : Cfg)
    (wf : IsWellFormed g) where
  -- How many more rounds may change the state of a block, at most, and of all the blocks.
  unfoldable pub slack_at : Solver S → BlockId → ℕ
  slack_at s v = (if s.processed v then 0 else 1) + left (s.out v)

  unfoldable pub slack : Solver S → ℕ
  slack s = sum_below (length g.blocks) (slack_at s)

  left-le : (a b : S) → Le p a b → left b ≤ left a
  left-le a b h = elim (laws.rises a b h) [
    | inl same ↦ subst (λ x. left x ≤ left a) same (omega arith)
    | inr less ↦ omega (arith, less)
  ]

  -- The round took the block off, and changed its state or saw it for the first time, or left all as it was.
  abbrev pub Nearer : List BlockId → Solver S → Solver S → Type 0
  Nearer rest s t = (slack t < slack s) ⊎ ((slack t ≤ slack s) × (t.queue ≡ rest))

  module _ (id : BlockId) (rest : List BlockId) (s t : Solver S) (inv : IsSolving p g s)
      (q : s.queue ≡ id ∷ rest) (adv : IsAdvanced p g id rest s t) where
    id_waits : Flow g g.entry id
    id_waits = inv.waiting id (subst (λ ks. id ∈ ks) (sym q) (inl refl))

    id_below : id < length g.blocks
    id_below = Flow-below g wf id_waits wf.entry_fits

    in_rest : (v : BlockId) → unmark id s.in_queue v ≡ true → v ∈ rest
    in_rest v h =
        let m : v ∈ (id ∷ rest) = subst (λ ks. v ∈ ks) q (inv.queued v (ground (arith, h))) in
        elim m [ inl same ↦ absurd (ground (arith, same, h)) | inr later ↦ later ]

    room_left : length rest + unseen (length g.blocks) (unmark id s.in_queue) ≤ length g.blocks
    room_left =
        let full : suc (length rest) + unseen (length g.blocks) s.in_queue ≤ length g.blocks =
          subst (λ ks. length ks + unseen (length g.blocks) s.in_queue ≤ length g.blocks) q
            inv.room in
        omega (arith, full, unseen-unmark (length g.blocks) id s.in_queue)

    -- The state of a block rises, or is as it was.
    grown : (v : BlockId) → v < length g.blocks → Le p (s.out v) (t.out v)
    grown v l = elim (Bool-cases (id == v)) [
      | inl same ↦
          subst (λ x. Le p (s.out x) (t.out x)) (==→≡ id v same)
            (subst (Le p (s.out id)) (sym adv.updated) (inv.rising id id_below))
      | inr other ↦ subst (Le p (s.out v)) (sym (adv.agree v other)) (laws.idempotent (s.out v))
    ]

    risen : (v : BlockId) → Le p (equation p g s.out v) (equation p g t.out v)
    risen = equation_mono p g wf left laws s.out t.out grown

    -- A block that was seen or queued is so after the round.
    carried :
        (v : BlockId)
        → (s.processed v ≡ true) ⊎ (s.in_queue v ≡ true)
        → (t.processed v ≡ true) ⊎ (t.in_queue v ≡ true)
    carried v h = elim (Bool-cases (id == v)) [
      | inl same ↦ inl (ground (arith, adv.marked v, same))
      | inr other ↦ elim h [
        | inl seen ↦ inl (ground (arith, adv.marked v, seen))
        | inr waits ↦ inr (adv.kept v (ground (arith, waits, other)))
      ]
    ]

    -- What holds of a block by its being the block of the round, or held before and another one.
    split : (P : BlockId → Type 0) (v : BlockId) → P id → ((id == v) ≡ false → P v) → P v
    split P v here other = elim (Bool-cases (id == v)) [
      | inl same ↦ subst P (==→≡ id v same) here
      | inr away ↦ other away
    ]

    pub advanced-IsSolving : IsSolving p g t
    advanced-IsSolving = record {
      queued = adv.queued in_rest;
      room = adv.room room_left;
      waiting = λ v m. elim (adv.source v m) [
        | inl before ↦ inv.waiting v (subst (λ ks. v ∈ ks) (sym q) (inr before))
        | inr arc ↦ Flow-snoc g id_waits arc
      ];
      reached = λ v h.
          split (λ x. Flow g g.entry x) v id_waits
            (λ other. inv.reached v (ground (arith, h, adv.marked v, other)));
      fresh = λ v l h.
          adv.agree v (ground (arith, h, adv.marked v))
          ∙ inv.fresh v l (ground (arith, h, adv.marked v));
      closed = λ u v h arc. elim (Bool-cases (id == u)) [
        | inl same ↦ elim (adv.onward v (subst (λ x. Arc g x v) (sym (==→≡ id u same)) arc)) [
          | inl seen ↦ inl (adv.marked v ∙ seen)
          | inr waits ↦ inr waits
        ]
        | inr other ↦ carried v (inv.closed u v (ground (arith, h, adv.marked u, other)) arc)
      ];
      started = carried g.entry inv.started;
      rising = λ v l.
          split (λ x. Le p (t.out x) (equation p g t.out x)) v
            (subst (λ x. Le p x (equation p g t.out id)) (sym adv.updated) (risen id))
            (λ other.
              subst (λ x. Le p x (equation p g t.out v)) (sym (adv.agree v other))
                (Le_trans p left laws (s.out v) (equation p g s.out v) (equation p g t.out v)
                  (inv.rising v l) (risen v)));
      settled = λ v h. elim (adv.touched v) [
        | inl waits ↦ inl waits
        | inr same_equation ↦ elim (Bool-cases (id == v)) [
          | inl same ↦ inr (
              subst (λ x. t.out x ≡ equation p g s.out x) (==→≡ id v same) adv.updated
              ∙ sym same_equation)
          | inr other ↦ elim (inv.settled v (ground (arith, h, adv.marked v, other))) [
            | inl waits ↦ inl (adv.kept v (ground (arith, waits, other)))
            | inr solved ↦ inr (adv.agree v other ∙ solved ∙ sym same_equation)
          ]
        ]
      ];
      derived = λ P kept v l.
          split (λ x. P x (t.out x)) v
            (subst (P id) (sym adv.updated)
              (kept.1 s.out (inv.derived P kept) id id_below id_waits))
            (λ other. subst (P v) (sym (adv.agree v other)) (inv.derived P kept v l));
    }

    lowered : (v : BlockId) → v < length g.blocks → slack_at t v ≤ slack_at s v
    unfolding slack_at
    lowered v l = ground (arith, adv.marked v, left-le (s.out v) (t.out v) (grown v l))

    pub slack-le : slack t ≤ slack s
    unfolding slack
    slack-le = sum_below-le (length g.blocks) (slack_at t) (slack_at s) lowered

    lowered_here :
        (not (s.processed id) || not (p.same (equation p g s.out id) (s.out id))) ≡ true
        → slack_at t id < slack_at s id
    unfolding slack_at
    lowered_here changed = elim (laws.rises (s.out id) (t.out id) (grown id id_below)) [
      | inl as_before ↦ ground (
        arith,
        changed,
        adv.marked id,
        ==_refl id,
        ap left as_before,
        (laws.same_iff (equation p g s.out id) (s.out id)).1 (sym adv.updated ∙ sym as_before),
      )
      | inr less ↦ ground (arith, adv.marked id, ==_refl id, less)
    ]

    pub slack-lt :
        (not (s.processed id) || not (p.same (equation p g s.out id) (s.out id))) ≡ true
        → slack t < slack s
    unfolding slack
    slack-lt changed =
        sum_below-lt (length g.blocks) id (slack_at t) (slack_at s) lowered id_below
          (lowered_here changed)
