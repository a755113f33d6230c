-- ===== src/Model/Graph/Tarjan/Components.antt =====
-- What `SCCs` returns on a well-formed graph.
use lifeline.Prelude.{ℕ, zero, suc, ◌+◌, ◌≤◌, ◌<◌, ◌≡◌, refl, sym, ap, subst, ◌∙◌, inl, inr, arith}
use lifeline.Prelude.{none, some, List, [], ◌∷◌, length, unseen-le, ltb}
use lifeline.Prelude.{if◌then◌else◌, Bool-cases, Option-cases, ltb→lt, ==_refl, ==→≡, ◌==◌}
use lifeline.Model.Graph.{BlockId, Edge, Cfg}
use lifeline.Model.Graph.WellFormed.{
  succs, LeadsTo, EdgesFit, IsWellFormed, successors_of-eq, count,
}
use lifeline.Model.Graph.Tarjan.{
  Tarjan, Run, ok, ◌>>=◌, enter, visit_edges, pop_component, strong_connect, connect_from, fresh,
  sccs,
}
use lifeline.Model.Graph.Tarjan.State.{
  total, Arc, held, is_some, AreComponents, whites, Inv, Grown, Connected,
}
use lifeline.Model.Graph.Tarjan.Visit.{AllArcs, Handled-of, visit_edges-Visited}
use lifeline.Model.Graph.Tarjan.Connect.{
  Visited-enter, whites-enter, pop_component-Connected, none_in,
}

module _ (g : Cfg) (wf : IsWellFormed g) where
  abbrev n : ℕ
  n = length g.blocks

  AllArcs-succs :
      (v : BlockId) (t0 : Tarjan) (inv0 : Inv g t0) (white : t0.index v ≡ none) (fuel : ℕ)
      (connect : BlockId → Tarjan → Run Tarjan)
      (connects : (w : BlockId) (t : Tarjan)
        → w < n
        → t.index w ≡ none
        → Inv g t
        → whites n t ≤ fuel
        → (t' : Tarjan) × (connect w t ≡ ok t') × Connected g w t t')
      (es : List Edge)
      → EdgesFit n v es
      → ((z : BlockId) → LeadsTo z es → Arc g v z)
      → AllArcs g v t0 inv0 white fuel connect connects es
  AllArcs-succs v t0 inv0 white fuel connect connects [] fit arcs = tt
  AllArcs-succs v t0 inv0 white fuel connect connects (e ∷ es) (f, l, fit) arcs = (
    l,
    arcs e.to (inl refl),
    AllArcs-succs v t0 inv0 white fuel connect connects es fit (λ z m. arcs z (inr m)),
  )

  strong_connect-eq :
      (fuel : ℕ) (v : BlockId) (t : Tarjan)
      → v < n
      → strong_connect g (suc fuel) v t ≡ (
          visit_edges n (strong_connect g fuel) v (succs g.blocks v) (enter v t)
          >>= pop_component v)
  unfolding strong_connect
  strong_connect-eq fuel v t l =
      ap
        (λ o. elim o [
          | none ↦ Run.panic
          | some es ↦ visit_edges n (strong_connect g fuel) v es (enter v t) >>= pop_component v
        ])
        (successors_of-eq g v l)

  -- With as much fuel as there are blocks without an index the call ends.
  strong_connect-Connected :
      (fuel : ℕ) (v : BlockId) (t0 : Tarjan)
      → v < n
      → t0.index v ≡ none
      → Inv g t0
      → whites n t0 ≤ fuel
      → (t : Tarjan) × (strong_connect g fuel v t0 ≡ ok t) × Connected g v t0 t
  unfolding strong_connect
  strong_connect-Connected zero v t0 l white inv0 enough =
      absurd (omega (arith, whites-enter g v t0 inv0 l white, enough))
  strong_connect-Connected (suc fuel) v t0 l white inv0 enough =
      let connects = strong_connect-Connected fuel in
      let (t, run, (seg, grown, low), follows, handled) =
        visit_edges-Visited g v t0 inv0 white fuel (strong_connect g fuel) connects
          (succs g.blocks v) (enter v t0) (Visited-enter g v t0 inv0 l white)
          (AllArcs-succs v t0 inv0 white fuel (strong_connect g fuel) connects (succs g.blocks v)
            (wf.blocks_fit.edges_fit v) (λ z m. m))
          (omega (arith, whites-enter g v t0 inv0 l white, enough)) in
      let (t', popped, connected) =
        pop_component-Connected g v t0 inv0 l white t seg grown low (λ z a.
          Handled-of g v t0 inv0 white fuel (strong_connect g fuel) connects t (succs g.blocks v) z
            handled a) in
      (
        t',
        strong_connect-eq fuel v t0 l ∙ (ap (λ r. r >>= pop_component v) run ∙ popped),
        connected,
      )

  -- Between two rounds of the last loop the stack is empty.
  record Between (v : BlockId) (t : Tarjan) : Type 0 where
    inv : Inv g t
    stack : t.stack ≡ []
    indexed : (u : BlockId) → u < v → (i : ℕ) × (t.index u ≡ some i)

  no_seg :
      (v : BlockId) (base : List BlockId) (t0 t : Tarjan) (seg : List BlockId)
      → Grown g v base t0 t seg
      → base ≡ []
      → t.stack ≡ []
  unfolding count
  no_seg v base t0 t [] w e = w.stack ∙ e
  no_seg v base t0 t (y ∷ seg) w e =
      let (x, b, r) = w.up y (ground (arith, ==_refl y)) in
      absurd (none_in x (subst (λ s. 0 < count x s) e b))

  Between-round :
      (v : BlockId) (t : Tarjan)
      → Between v t
      → v < n
      → (t' : Tarjan) × ((elim (t.index v) [ none ↦ strong_connect g (suc n) v t | some i ↦ ok t ])
          ≡ ok t')
        × Between (suc v) t'
  Between-round v t b l = elim (Option-cases (t.index v)) [
    | inr (i, e) ↦ (
      t,
      rw e refl,
      record {
        inv = b.inv;
        stack = b.stack;
        indexed = λ u h. elim (Bool-cases (u == v)) [
          | inl same ↦ (i, subst (λ x. t.index x ≡ some i) (sym (==→≡ u v same)) e)
          | inr other ↦ b.indexed u (ground (arith, other, h))
        ];
      },
    )
    | inl e ↦
        let (t', run, (seg, grown, low)) =
          strong_connect-Connected (suc n) v t l e b.inv
            (omega (arith, unseen-le n (λ u. is_some (t.index u)))) in
        (
          t',
          rw e run,
          record {
            inv = grown.inv;
            stack = no_seg v t.stack t t' seg grown b.stack;
            indexed = λ u h. elim (Bool-cases (u == v)) [
              | inl same ↦ (
                t.counter,
                subst (λ x. t'.index x ≡ some t.counter) (sym (==→≡ u v same)) grown.own,
              )
              | inr other ↦
                  let (i, d) = b.indexed u (ground (arith, other, h)) in (i, grown.keep u i d)
            ];
          },
        )
  ]

  connect_from-Between :
      (left : ℕ) (v : BlockId) (t : Tarjan)
      → v + left ≡ n
      → Between v t
      → (t' : Tarjan) × (connect_from g left v t ≡ ok t') × Between n t'
  unfolding connect_from
  connect_from-Between zero v t e b = (t, refl, subst (λ k. Between k t) (omega (arith, e)) b)
  connect_from-Between (suc left) v t e b =
      let (t1, run, b1) = Between-round v t b (omega (arith, e)) in
      let (t2, run', b2) = connect_from-Between left (suc v) t1 (omega (arith, e)) b1 in
      (t2, ap (λ r. r >>= connect_from g left (suc v)) run ∙ run', b2)

  Between-fresh : Between 0 (fresh g)
  unfolding total count
  Between-fresh = record {
    inv = record {
      placed = λ v. omega arith;
      flags = λ v. (λ h. absurd (cc), λ h. absurd (omega (arith, h)));
      below = λ v i e. absurd (cc);
      closed = λ u v h a. absurd (omega (arith, h));
      components = tt;
    };
    stack = refl;
    indexed = λ u h. absurd (omega (arith, h));
  }

  -- On a well-formed graph `SCCs` ends, with no index out of range. The lists that it returns hold each
  -- block of the graph in one of them, once, and no other number; and each is a strongly connected
  -- component: it has a root among its blocks, every block of it is reached from the root and reaches it,
  -- and every block that is reached from the root and reaches it is in the list.
  pub sccs-AreComponents :
      (comps : List (List BlockId)) × (sccs g ≡ ok comps)
      × ((v : BlockId) → total v comps ≡ (if ltb v (length g.blocks) then 1 else 0))
      × AreComponents g comps
  unfolding sccs count
  sccs-AreComponents =
      let (t, run, b) = connect_from-Between n 0 (fresh g) (omega arith) Between-fresh in
      (
        t.result,
        rw run refl,
        λ v. elim (Bool-cases (ltb v n)) [
          | inl inside ↦
              let (i, e) = b.indexed v (ltb→lt v n inside) in
              ground (arith, inside, b.inv.placed v, ap (count v) b.stack, ap held e)
          | inr outside ↦ elim (Option-cases (t.index v)) [
            | inl e ↦ ground (arith, outside, b.inv.placed v, ap (count v) b.stack, ap held e)
            | inr (i, e) ↦ absurd (ground (arith, outside, (b.inv.below v i e).0))
          ]
        ],
        b.inv.components,
      )
