-- ===== src/Model/Dataflow/Solution.antt =====
-- What `Solve` returns, and how many rounds it takes at most.
use lifeline.Prelude.{ℕ, zero, suc, ◌+◌, ◌<◌, ◌≤◌, ◌≡◌, refl, sym, ap, subst, ◌∙◌, inl, inr, arith}
use lifeline.Prelude.{
  true, false, List, [], ◌∷◌, length, ◌==◌, Bool-cases, ◌∈◌, mark, unmark, no_marks,
}
use lifeline.Prelude.{ltb, ==_refl, unseen-le, unseen-mark, rounds_of, sum_below-rounds}
use lifeline.Model.Graph.{BlockId, BasicBlock, Cfg}
use lifeline.Model.Graph.WellFormed.{IsWellFormed, IdsFrom}
use lifeline.Model.Graph.Routes.{Flow, here, along, LeadsTo-Enters}
use lifeline.Model.Graph.Tarjan.{Run, ok, put}
use lifeline.Model.Dataflow.{
  Problem, Solver, all_bottom, push_block, before_entry, visit, solve_loop, solve, rounds_bound,
}
use lifeline.Model.Dataflow.Lattice.{Le, IsMonotone, Le_trans, equation, equation_mono}
use lifeline.Model.Dataflow.Rounds.{IsKept, IsSolving}
use lifeline.Model.Dataflow.Advance.{slack, slack_at}
use lifeline.Model.Dataflow.Visits.{visit-IsSolving}

-- The blocks of the graph start at the bottom.
module _ {S : Type 0} (p : Problem S) where
  all_bottom-below :
      (k : ℕ) (bs : List BasicBlock) (out : BlockId → S)
      → IdsFrom k bs
      → (v : BlockId) → v < k
      → all_bottom p bs out v ≡ out v
  unfolding all_bottom put
  all_bottom-below k [] out h v l = refl
  all_bottom-below k (b ∷ bs) out (e, h) v l =
      let apart : (b.id == v) ≡ false = ground (arith, e, l) in
      all_bottom-below (suc k) bs (put b.id p.bottom out) h v (omega (arith, l)) ∙ rw apart refl

  all_bottom-within :
      (k : ℕ) (bs : List BasicBlock) (out : BlockId → S)
      → IdsFrom k bs
      → (v : BlockId) → k ≤ v
      → v < k + length bs
      → all_bottom p bs out v ≡ p.bottom
  unfolding all_bottom put
  all_bottom-within k [] out h v l m = absurd (omega (arith, l, m))
  all_bottom-within k (b ∷ bs) out (e, h) v l m = elim (Bool-cases (b.id == v)) [
    | inl same ↦
        all_bottom-below (suc k) bs (put b.id p.bottom out) h v (ground (arith, e, same))
        ∙ rw same refl
    | inr other ↦
        all_bottom-within (suc k) bs (put b.id p.bottom out) h v (ground (arith, e, other, l))
          (omega (arith, m))
  ]

module _ {S : Type 0} (p : Problem S) (left : S → ℕ) (laws : IsMonotone p left) (g : Cfg)
    (wf : IsWellFormed g) where
  -- The entry waits, and nothing else.
  abbrev entered : Solver S
  entered = record (before_entry p g) { in_queue = mark g.entry no_marks; queue = g.entry ∷ [] }

  push_block-entered : push_block p g g.entry (before_entry p g) ≡ ok entered
  unfolding push_block
  push_block-entered =
      let below : ltb g.entry (length g.blocks) ≡ true = ground (arith, wf.entry_fits) in
      rw below refl

  out_bottom : (v : BlockId) → v < length g.blocks → entered.out v ≡ p.bottom
  out_bottom v l =
      all_bottom-within p 0 g.blocks (λ w. p.zero_state) wf.blocks_fit.ids v (omega arith)
        (omega (arith, l))

  entered-IsSolving : IsSolving p g entered
  entered-IsSolving = record {
    queued = λ v h. ground (arith, h);
    room = omega (
      arith,
      unseen-mark (length g.blocks) g.entry no_marks wf.entry_fits refl,
      unseen-le (length g.blocks) no_marks,
    );
    waiting = λ v m. elim m [
      | inl same ↦ subst (Flow g g.entry) (sym same) here
      | inr none_left ↦ absurd none_left
    ];
    reached = λ v h. absurd (cc (h));
    fresh = λ v l h. out_bottom v l;
    closed = λ u v h arc. absurd (cc (h));
    started = inr (ground (arith, ==_refl g.entry));
    rising = λ v l.
        subst (λ x. Le p x (equation p g entered.out v)) (sym (out_bottom v l)) (laws.least _);
    settled = λ v h. absurd (cc (h));
    derived = λ P kept v l. subst (P v) (sym (out_bottom v l)) (kept.0 v);
  }

  round_eq :
      (fuel : ℕ) (s t : Solver S) (id : BlockId) (rest : List BlockId) (r : Run (BlockId → S))
      → s.queue ≡ id ∷ rest
      → visit p g id (record s { queue = rest; in_queue = unmark id s.in_queue }) ≡ ok t
      → solve_loop p g fuel t ≡ r
      → solve_loop p g (suc fuel) s ≡ r
  unfolding solve_loop
  round_eq fuel s t id rest r q run ran = rw q (rw run ran)

  -- The rounds end with an empty queue, and what holds before each round holds then.
  loop-ends :
      (fuel m : ℕ) (s : Solver S) (ks : List BlockId)
      → IsSolving p g s
      → s.queue ≡ ks
      → slack p left laws g wf s ≤ m
      → rounds_of m (length g.blocks) + length ks ≤ fuel
      → (t : Solver S) × (solve_loop p g fuel s ≡ ok t.out) × IsSolving p g t × (t.queue ≡ [])
  unfolding solve_loop
  loop-ends zero m s [] inv q few enough = (s, rw q refl, inv, q)
  loop-ends zero m s (id ∷ rest) inv q few enough = absurd (omega (arith, enough))
  loop-ends (suc fuel) m s [] inv q few enough = (s, rw q refl, inv, q)
  loop-ends (suc fuel) m s (id ∷ rest) inv q few enough =
      let (t, run, kept, nearer) = visit-IsSolving p left laws g wf id rest s inv q in
      elim nearer [
        | inl less ↦
            let (k, e, low) = one_less _ _ m less few in
            let room : rounds_of (suc k) (length g.blocks) + suc (length rest) ≤ suc fuel =
              subst (λ x. rounds_of x (length g.blocks) + suc (length rest) ≤ suc fuel) e enough in
            let (last, ran, at_end, no_more) =
              loop-ends fuel k t t.queue kept refl low (omega (arith, room, kept.room)) in
            (last, round_eq fuel s t id rest _ q run ran, at_end, no_more)
        | inr (most, same) ↦
            let (last, ran, at_end, no_more) =
              loop-ends fuel m t rest kept same (omega (arith, most, few))
                (omega (arith, enough)) in
            (last, round_eq fuel s t id rest _ q run ran, at_end, no_more)
      ]
    where
      one_less : (a b m : ℕ) → a < b → b ≤ m → (k : ℕ) × (m ≡ suc k) × (a ≤ k)
      one_less a b zero l h = absurd (omega (arith, l, h))
      one_less a b (suc m) l h = (m, refl, omega (arith, l, h))

  few_changes : slack p left laws g wf entered ≤ rounds_of (length g.blocks) (left p.bottom)
  unfolding slack slack_at
  few_changes =
      sum_below-rounds (length g.blocks) (left p.bottom) (slack_at p left laws g wf entered)
        (λ v l. omega (arith, ap left (out_bottom v l)))

  solve-ends :
      (fuel : ℕ)
      → rounds_bound (left p.bottom) g ≤ fuel
      → (t : Solver S) × (solve p g fuel ≡ ok t.out) × IsSolving p g t × (t.queue ≡ [])
  unfolding solve
  solve-ends fuel enough =
      let (t, run, inv, q) =
        loop-ends fuel _ entered (g.entry ∷ []) entered-IsSolving refl few_changes
          (omega (arith, enough)) in
      (t, rw push_block-entered run, inv, q)

  module _ (t : Solver S) (inv : IsSolving p g t) (q : t.queue ≡ []) where
    idle : (v : BlockId) → t.in_queue v ≡ true → ⊥
    idle v h = subst (λ ks. v ∈ ks) q (inv.queued v h)

    all_processed : {v : BlockId} → Flow g g.entry v → t.processed v ≡ true
    all_processed here = elim inv.started [
      | inl seen ↦ seen
      | inr waits ↦ absurd (idle g.entry waits)
    ]
    all_processed (along {u} {v} r m) =
        elim (inv.closed u v (all_processed r) ((LeadsTo-Enters _ v).1 m)) [
          | inl seen ↦ seen
          | inr waits ↦ absurd (idle v waits)
        ]

    solved : (v : BlockId) → Flow g g.entry v → t.out v ≡ equation p g t.out v
    solved v r = elim (inv.settled v (all_processed r)) [
      | inl waits ↦ absurd (idle v waits)
      | inr e ↦ e
    ]

    untouched : (v : BlockId) → v < length g.blocks → (Flow g g.entry v → ⊥) → t.out v ≡ p.bottom
    untouched v l away = elim (Bool-cases (t.processed v)) [
      | inl seen ↦ absurd (away (inv.reached v seen))
      | inr fresh ↦ inv.fresh v l fresh
    ]

    below_all :
        (x : BlockId → S)
        → ((v : BlockId) → v < length g.blocks → Flow g g.entry v → Le p (equation p g x v) (x v))
        → (v : BlockId) → v < length g.blocks
        → Le p (t.out v) (x v)
    below_all x h =
        inv.derived (λ v s. Le p s (x v))
          (
            (λ v. laws.least (x v)),
            (λ out below v l r.
                Le_trans p left laws _ _ _ (equation_mono p g wf left laws out x below v)
                  (h v l r)),
          )

  -- On a well-formed graph, for a semilattice of finite height with a monotone transfer, and for any fuel of at
  -- least `rounds_bound`, `Solve` ends without a panic, with the least solution: the state of each block
  -- that the entry leads to is the transfer of the join of its predecessors' states (of `initial` at the
  -- entry), every other block is at the bottom, and any states that lie above what these equations give
  -- them lie above the result.
  pub solve-least :
      (fuel : ℕ)
      → rounds_bound (left p.bottom) g ≤ fuel
      → (out : BlockId → S) × (solve p g fuel ≡ ok out)
        × ((v : BlockId) → Flow g g.entry v → out v ≡ equation p g out v)
        × ((v : BlockId) → v < length g.blocks → (Flow g g.entry v → ⊥) → out v ≡ p.bottom)
        × ((x : BlockId → S)
            → ((v : BlockId)
                → v < length g.blocks
                → Flow g g.entry v
                → Le p (equation p g x v) (x v))
            → (v : BlockId) → v < length g.blocks
            → Le p (out v) (x v))
  solve-least fuel enough =
      let (t, run, inv, q) = solve-ends fuel enough in
      (t.out, run, solved t inv q, untouched t inv q, below_all t inv q)

  -- What a result has beyond that: it holds what bottom has and the equations keep.
  pub solve-derives :
      (fuel : ℕ)
      → rounds_bound (left p.bottom) g ≤ fuel
      → (P : BlockId → S → Type 0) → IsKept p g P
      → (out : BlockId → S) × (solve p g fuel ≡ ok out)
        × ((v : BlockId) → Flow g g.entry v → out v ≡ equation p g out v)
        × ((v : BlockId) → v < length g.blocks → (Flow g g.entry v → ⊥) → out v ≡ p.bottom)
        × ((v : BlockId) → v < length g.blocks → P v (out v))
  solve-derives fuel enough P kept =
      let (t, run, inv, q) = solve-ends fuel enough in
      (t.out, run, solved t inv q, untouched t inv q, inv.derived P kept)
