-- ===== src/Model/Dataflow/Visits.antt =====
-- A round of `Solve` goes well.
use lifeline.Prelude.{ℕ, ◌<◌, ◌≡◌, refl, sym, ap, subst, ◌∙◌, ◌⊎◌, inl, inr, arith}
use lifeline.Prelude.{
  Bool, true, false, not, ◌||◌, none, some, List, ◌∷◌, length, ◌==◌, Bool-cases, ◌∈◌,
}
use lifeline.Prelude.{mark, unmark, ==_refl}
use lifeline.Model.Graph.{BlockId, Cfg}
use lifeline.Model.Graph.WellFormed.{succs, IsWellFormed, mirror, successors_of-eq}
use lifeline.Model.Graph.Routes.{Flow}
use lifeline.Model.Graph.Cycles.{Flow-below}
use lifeline.Model.Graph.Tarjan.{ok, panic, put}
use lifeline.Model.Dataflow.{Problem, Solver, push_targets, propagate, visit}
use lifeline.Model.Dataflow.Lattice.{IsMonotone, equation, equation-put, in_state-eq}
use lifeline.Model.Dataflow.Rounds.{ArePushed, push_targets-ArePushed, IsSolving, IsAdvanced}
use lifeline.Model.Dataflow.Advance.{advanced-IsSolving, slack-le, slack-lt, Nearer}

module _ {S : Type 0} (p : Problem S) (left : S → ℕ) (laws : IsMonotone p left) (g : Cfg)
    (wf : IsWellFormed g) where
  propagate-eq :
      (id : BlockId) (next : S) (s : Solver S)
      → id < length g.blocks
      → propagate p g id next s
        ≡ push_targets p g (succs g.blocks id) (record s { out = put id next s.out })
  unfolding propagate
  propagate-eq id next s l =
      ap
        (λ o. elim o [
          | none ↦ panic
          | some es ↦ push_targets p g es (record s { out = put id next s.out })
        ])
        (successors_of-eq g id l)

  module _ (id : BlockId) (rest : List BlockId) (s : Solver S) (inv : IsSolving p g s)
      (q : s.queue ≡ id ∷ rest) where
    abbrev next : S
    next = equation p g s.out id

    put-here : put id next s.out id ≡ next
    unfolding put
    put-here = rw (==_refl id) refl

    put-other : (v : BlockId) → (id == v) ≡ false → put id next s.out v ≡ s.out v
    unfolding put
    put-other v other = rw other refl

    here_waits : Flow g g.entry id
    here_waits = inv.waiting id (subst (λ ks. id ∈ ks) (sym q) (inl refl))

    here_below : id < length g.blocks
    here_below = Flow-below g wf here_waits wf.entry_fits

    abbrev popped : Solver S
    popped = record s { queue = rest; in_queue = unmark id s.in_queue }

    abbrev popped_marked : Solver S
    popped_marked = record popped { processed = mark id s.processed }

    abbrev is_changed : Bool
    is_changed = not (s.processed id) || not (p.same next (s.out id))

    pub changed_round :
        is_changed ≡ true
        → (t : Solver S) × (propagate p g id next popped_marked ≡ ok t)
          × IsSolving p g t
          × Nearer p left laws g wf rest s t
    changed_round changed =
        let before : Solver S = record popped_marked { out = put id next s.out } in
        let (marks, ks, run, a) =
          push_targets-ArePushed p g id (succs g.blocks id) before (wf.blocks_fit.edges_fit id) in
        let t : Solver S = record before { in_queue = marks; queue = ks } in
        let adv = changed_IsAdvanced marks ks a in
        (
          t,
          propagate-eq id next popped_marked here_below ∙ run,
          advanced-IsSolving p left laws g wf id rest s t inv q adv,
          inl (slack-lt p left laws g wf id rest s t inv q adv changed),
        )
      where
        changed_IsAdvanced :
            (marks : BlockId → Bool) (ks : List BlockId)
            → ArePushed (length g.blocks) (succs g.blocks id) (unmark id s.in_queue) rest marks ks
            → IsAdvanced p g id rest s (record {
              out = put id next s.out;
              processed = mark id s.processed;
              in_queue = marks;
              queue = ks;
            })
        changed_IsAdvanced marks ks a = record {
          marked = λ v. refl;
          agree = λ v other. put-other v other;
          updated = put-here;
          kept = a.kept;
          onward = λ v arc. inr (a.covered v arc);
          touched = λ v. elim (Bool-cases (marks v)) [
            | inl waits ↦ inl waits
            | inr none_waits ↦ inr (
                equation-put p g wf s.out id v next
                  (λ m. cc (a.covered v ((mirror wf.blocks_fit id v).1 m), none_waits)))
          ];
          source = a.source;
          queued = a.queued;
          room = a.room;
        }

    pub unchanged_round :
        is_changed ≡ false
        → IsSolving p g popped_marked × Nearer p left laws g wf rest s popped_marked
    unchanged_round unchanged = (
      advanced-IsSolving p left laws g wf id rest s popped_marked inv q adv,
      inr (slack-le p left laws g wf id rest s popped_marked inv q adv, refl),
    )
      where
        seen : s.processed id ≡ true
        seen = ground (arith, unchanged)

        solved : s.out id ≡ equation p g s.out id
        solved = sym ((laws.same_iff next (s.out id)).0 (ground (arith, unchanged)))

        onward :
            (v : BlockId)
            → (s.processed v ≡ true) ⊎ (s.in_queue v ≡ true)
            → (mark id s.processed v ≡ true) ⊎ (unmark id s.in_queue v ≡ true)
        onward v h = ground (arith, h)

        adv : IsAdvanced p g id rest s popped_marked
        adv = record {
          marked = λ v. refl;
          agree = λ v other. refl;
          updated = solved;
          kept = λ v h. h;
          onward = λ v arc. onward v (inv.closed id v seen arc);
          touched = λ v. inr refl;
          source = λ v m. inl m;
          queued = λ h. h;
          room = λ h. h;
        }

  -- A round goes well: it leaves the locals as they should be, and nearer to the end.
  pub visit-IsSolving :
      (id : BlockId) (rest : List BlockId) (s : Solver S)
      → IsSolving p g s
      → s.queue ≡ id ∷ rest
      → (t : Solver S) × (visit p g id (record s { queue = rest; in_queue = unmark id s.in_queue })
          ≡ ok t)
        × IsSolving p g t
        × Nearer p left laws g wf rest s t
  unfolding visit equation
  visit-IsSolving id rest s inv q =
      let entered = in_state-eq p g wf s.out id (here_below id rest s inv q) in
      elim (Bool-cases (is_changed id rest s inv q)) [
        | inl changed ↦
            let (t, run, kept, nearer) = changed_round id rest s inv q changed in
            (t, rw entered (rw changed run), kept, nearer)
        | inr unchanged ↦ (
          popped_marked id rest s inv q,
          rw entered (rw unchanged refl),
          (unchanged_round id rest s inv q unchanged).0,
          (unchanged_round id rest s inv q unchanged).1,
        )
      ]
