-- ===== src/Model/Dataflow/Rounds.antt =====
-- What a round of `Solve` keeps.
use lifeline.Prelude.{ℕ, ◌+◌, ◌<◌, ◌≤◌, ◌≡◌, refl, sym, subst, ◌⊎◌, inl, inr, arith}
use lifeline.Prelude.{Bool, true, false, List, [], ◌∷◌, ◌++◌, length, ◌==◌, Bool-cases, ◌∈◌}
use lifeline.Prelude.{mark, unmark, ltb, ==→≡, mem-append_left, mem-append_right, mem-append_cases}
use lifeline.Prelude.{length-append, unseen, unseen-mark}
use lifeline.Model.Graph.{BlockId, Edge, Cfg}
use lifeline.Model.Graph.WellFormed.{LeadsTo, EdgesFit}
use lifeline.Model.Graph.Routes.{Flow}
use lifeline.Model.Graph.Tarjan.{ok}
use lifeline.Model.Graph.Tarjan.State.{Arc}
use lifeline.Model.Dataflow.{Problem, Solver, push_block, push_targets}
use lifeline.Model.Dataflow.Lattice.{Le, equation}

-- What pushing the targets of a list of edges does to the marks and the queue.
pub record ArePushed (n : ℕ) (es : List Edge) (in_queue : BlockId → Bool) (queue : List BlockId)
    (in_queue' : BlockId → Bool) (queue' : List BlockId) : Type 0 where
  pub kept : (v : BlockId) → in_queue v ≡ true → in_queue' v ≡ true
  pub covered : (v : BlockId) → LeadsTo v es → in_queue' v ≡ true
  pub source : (v : BlockId) → v ∈ queue' → (v ∈ queue) ⊎ LeadsTo v es
  pub queued :
      ((v : BlockId) → in_queue v ≡ true → v ∈ queue)
      → (v : BlockId) → in_queue' v ≡ true
      → v ∈ queue'
  pub room : length queue + unseen n in_queue ≤ n → length queue' + unseen n in_queue' ≤ n

module _ {S : Type 0} (p : Problem S) (g : Cfg) where
  -- A push_block of a block that is queued does nothing; any other goes to the end.
  push_block-eq :
      (v : BlockId) (s : Solver S)
      → v < length g.blocks
      → ((push_block p g v s ≡ ok s) × (s.in_queue v ≡ true))
        ⊎ ((push_block p g v s
              ≡ ok (record s { in_queue = mark v s.in_queue; queue = s.queue ++ v ∷ [] }))
            × (s.in_queue v ≡ false))
  unfolding push_block
  push_block-eq v s l =
      let below : ltb v (length g.blocks) ≡ true = ground (arith, l) in
      elim (Bool-cases (s.in_queue v)) [
        | inl there ↦ inl (rw below (rw there refl), there)
        | inr away ↦ inr (rw below (rw away refl), away)
      ]

  pub push_targets-ArePushed :
      (u : BlockId) (es : List Edge) (s : Solver S)
      → EdgesFit (length g.blocks) u es
      → (q : BlockId → Bool) × (ks : List BlockId) × (push_targets p g es s
          ≡ ok (record s { in_queue = q; queue = ks }))
        × ArePushed (length g.blocks) es s.in_queue s.queue q ks
  unfolding push_targets
  push_targets-ArePushed u [] s fits = (
    s.in_queue,
    s.queue,
    refl,
    record {
      kept = λ v h. h;
      covered = λ v m. absurd m;
      source = λ v m. inl m;
      queued = λ h. h;
      room = λ h. h;
    },
  )
  push_targets-ArePushed u (e ∷ es) s (f, l, fits) = elim (push_block-eq e.to s l) [
    | inl (run, there) ↦
        let (q, ks, rest, a) = push_targets-ArePushed u es s fits in
        (
          q,
          ks,
          rw run rest,
          record {
            kept = a.kept;
            covered = λ v m. elim m [
              | inl same ↦ a.kept v (subst (λ x. s.in_queue x ≡ true) (sym same) there)
              | inr later ↦ a.covered v later
            ];
            source = λ v m. ground (arith, a.source v m);
            queued = a.queued;
            room = a.room;
          },
        )
    | inr (run, away) ↦
        let s' : Solver S = record s {
          in_queue = mark e.to s.in_queue;
          queue = s.queue ++ e.to ∷ [];
        } in
        let (q, ks, rest, a) = push_targets-ArePushed u es s' fits in
        (
          q,
          ks,
          rw run rest,
          record {
            kept = λ v h. a.kept v (ground (arith, h));
            covered = λ v m. elim m [
              | inl same ↦ a.kept v (ground (arith, same))
              | inr later ↦ a.covered v later
            ];
            source = λ v m. elim (a.source v m) [
              | inl before ↦ elim (mem-append_cases v s.queue (e.to ∷ []) before) [
                | inl old ↦ inl old
                | inr new ↦ ground (arith, new)
              ]
              | inr later ↦ inr (inr later)
            ];
            queued = λ h. a.queued (λ v m. elim (Bool-cases (e.to == v)) [
              | inl same ↦ mem-append_right v s.queue (e.to ∷ []) (inl (sym (==→≡ e.to v same)))
              | inr other ↦ mem-append_left v s.queue (e.to ∷ []) (h v (ground (arith, m, other)))
            ]);
            room = λ h. a.room (
                omega (
                  arith,
                  h,
                  length-append s.queue (e.to ∷ []),
                  unseen-mark (length g.blocks) e.to s.in_queue l away,
                ));
          },
        )
  ]

  -- A property of values that bottom has and that the equation of a block that the entry leads to keeps.
  abbrev pub IsKept : (BlockId → S → Type 0) → Type 0
  IsKept P =
      ((v : BlockId) → P v p.bottom)
      × ((out : BlockId → S)
          → ((v : BlockId) → v < length g.blocks → P v (out v))
          → (v : BlockId) → v < length g.blocks
          → Flow g g.entry v
          → P v (equation p g out v))

  -- What holds of the locals of `Solve` before each round.
  pub record IsSolving (s : Solver S) : Type 1 where
    pub queued : (v : BlockId) → s.in_queue v ≡ true → v ∈ s.queue
    pub room : length s.queue + unseen (length g.blocks) s.in_queue ≤ length g.blocks
    pub waiting : (v : BlockId) → v ∈ s.queue → Flow g g.entry v
    pub reached : (v : BlockId) → s.processed v ≡ true → Flow g g.entry v
    pub fresh : (v : BlockId) → v < length g.blocks → s.processed v ≡ false → s.out v ≡ p.bottom
    pub closed :
        (u v : BlockId)
        → s.processed u ≡ true
        → Arc g u v
        → (s.processed v ≡ true) ⊎ (s.in_queue v ≡ true)
    pub started : (s.processed g.entry ≡ true) ⊎ (s.in_queue g.entry ≡ true)
    pub rising : (v : BlockId) → v < length g.blocks → Le p (s.out v) (equation p g s.out v)
    pub settled :
        (v : BlockId)
        → s.processed v ≡ true
        → (s.in_queue v ≡ true) ⊎ (s.out v ≡ equation p g s.out v)
    pub derived :
        (P : BlockId → S → Type 0) → IsKept P → (v : BlockId) → v < length g.blocks → P v (s.out v)

  -- How the locals after the round of a block follow from those before it, with `rest` behind it.
  pub record IsAdvanced (id : BlockId) (rest : List BlockId) (s t : Solver S) : Type 0 where
    pub marked : (v : BlockId) → t.processed v ≡ mark id s.processed v
    pub agree : (v : BlockId) → (id == v) ≡ false → t.out v ≡ s.out v
    pub updated : t.out id ≡ equation p g s.out id
    pub kept : (v : BlockId) → unmark id s.in_queue v ≡ true → t.in_queue v ≡ true
    pub onward : (v : BlockId) → Arc g id v → (mark id s.processed v ≡ true) ⊎ (t.in_queue v ≡ true)
    pub touched :
        (v : BlockId) → (t.in_queue v ≡ true) ⊎ (equation p g t.out v ≡ equation p g s.out v)
    pub source : (v : BlockId) → v ∈ t.queue → (v ∈ rest) ⊎ Arc g id v
    pub queued :
        ((v : BlockId) → unmark id s.in_queue v ≡ true → v ∈ rest)
        → (v : BlockId) → t.in_queue v ≡ true
        → v ∈ t.queue
    pub room :
        length rest + unseen (length g.blocks) (unmark id s.in_queue) ≤ length g.blocks
        → length t.queue + unseen (length g.blocks) t.in_queue ≤ length g.blocks
