-- ===== src/Cfg/Invariant/Blocks.antt =====
-- The list of blocks under the changes that the builder makes: a fresh block, an edge, and an
-- instruction keep it well formed.
use lifeline.Prelude.{ℕ, zero, suc, ◌+◌, ◌≤◌, ◌<◌, ◌≡◌, refl, List, [], ◌∷◌, ◌++◌, length, modify}
use lifeline.Prelude.{
  ◌==◌, if◌then◌else◌, length-append, length-modify, arith, Bool-cases, ==→≡, inl, inr,
}
use lifeline.Model.Graph.{BlockId, Edge, BasicBlock}
use lifeline.Model.Graph.WellFormed.{
  succs, preds, count_to, count, EdgesFit, AllLt, IdsFrom, AreWellFormed,
}
use lifeline.Cfg.Builder.{add_successor, add_predecessor}

count_to-append :
    (v : BlockId) (es : List Edge) (e : Edge)
    → count_to v (es ++ e ∷ []) ≡ count_to v es + (if e.to == v then 1 else 0)
unfolding count_to
count_to-append v [] e = omega arith
count_to-append v (x ∷ es) e = omega (arith, count_to-append v es e)

count-append :
    (u : BlockId) (ps : List BlockId) (p : BlockId)
    → count u (ps ++ p ∷ []) ≡ count u ps + (if p == u then 1 else 0)
unfolding count
count-append u [] p = omega arith
count-append u (x ∷ ps) p = omega (arith, count-append u ps p)

EdgesFit-mono : (n m u : ℕ) (es : List Edge) → n ≤ m → EdgesFit n u es → EdgesFit m u es
EdgesFit-mono n m u [] h f = tt
EdgesFit-mono n m u (e ∷ es) h f = (f.0, omega arith, EdgesFit-mono n m u es h f.2)

EdgesFit-append :
    (n u : ℕ) (es : List Edge) (e : Edge)
    → EdgesFit n u es
    → e.from ≡ u
    → e.to < n
    → EdgesFit n u (es ++ e ∷ [])
EdgesFit-append n u [] e f a b = (a, b, tt)
EdgesFit-append n u (x ∷ es) e f a b = (f.0, f.1, EdgesFit-append n u es e f.2 a b)

AllLt-mono : (n m : ℕ) (ps : List BlockId) → n ≤ m → AllLt n ps → AllLt m ps
AllLt-mono n m [] h f = tt
AllLt-mono n m (p ∷ ps) h f = (omega arith, AllLt-mono n m ps h f.1)

AllLt-append :
    (n : ℕ) (ps : List BlockId) (p : BlockId) → AllLt n ps → p < n → AllLt n (ps ++ p ∷ [])
AllLt-append n [] p f h = (h, tt)
AllLt-append n (x ∷ ps) p f h = (f.0, AllLt-append n ps p f.1 h)

IdsFrom-append :
    (k : ℕ) (bs : List BasicBlock) (b : BasicBlock)
    → IdsFrom k bs
    → b.id ≡ k + length bs
    → IdsFrom k (bs ++ b ∷ [])
IdsFrom-append k [] b i e = (omega arith, tt)
IdsFrom-append k (x ∷ bs) b i e = (i.0, IdsFrom-append (suc k) bs b i.1 (omega arith))

module _ (f : BasicBlock → BasicBlock) where
  IdsFrom-modify :
      (k : ℕ) (bs : List BasicBlock) (i : ℕ)
      → ((b : BasicBlock) → (f b).id ≡ b.id)
      → IdsFrom k bs
      → IdsFrom k (modify bs i f)
  IdsFrom-modify k [] i same h = h
  IdsFrom-modify k (b ∷ bs) zero same h = (ground (arith, same b), h.1)
  IdsFrom-modify k (b ∷ bs) (suc i) same h = (h.0, IdsFrom-modify (suc k) bs i same h.1)

  pub succs-modify :
      (bs : List BasicBlock) (i u : ℕ)
      → ((b : BasicBlock) → (f b).successors ≡ b.successors)
      → succs (modify bs i f) u ≡ succs bs u
  unfolding succs
  succs-modify [] i u same = refl
  succs-modify (b ∷ bs) zero zero same = same b
  succs-modify (b ∷ bs) zero (suc u) same = refl
  succs-modify (b ∷ bs) (suc i) zero same = refl
  succs-modify (b ∷ bs) (suc i) (suc u) same = succs-modify bs i u same

  pub preds-modify :
      (bs : List BasicBlock) (i u : ℕ)
      → ((b : BasicBlock) → (f b).predecessors ≡ b.predecessors)
      → preds (modify bs i f) u ≡ preds bs u
  unfolding preds
  preds-modify [] i u same = refl
  preds-modify (b ∷ bs) zero zero same = same b
  preds-modify (b ∷ bs) zero (suc u) same = refl
  preds-modify (b ∷ bs) (suc i) zero same = refl
  preds-modify (b ∷ bs) (suc i) (suc u) same = preds-modify bs i u same

pub succs-add_successor :
    (bs : List BasicBlock) (i u : ℕ) (e : Edge)
    → i < length bs
    → succs (modify bs i (add_successor e)) u
      ≡ (if i == u then succs bs u ++ e ∷ [] else succs bs u)
unfolding succs add_successor
succs-add_successor [] i u e h = elim h [ ]
succs-add_successor (b ∷ bs) zero zero e h = refl
succs-add_successor (b ∷ bs) zero (suc u) e h = ground arith
succs-add_successor (b ∷ bs) (suc i) zero e h = ground arith
succs-add_successor (b ∷ bs) (suc i) (suc u) e h = ground (arith, succs-add_successor bs i u e)

pub preds-add_predecessor :
    (bs : List BasicBlock) (i u p : ℕ)
    → i < length bs
    → preds (modify bs i (add_predecessor p)) u
      ≡ (if i == u then preds bs u ++ p ∷ [] else preds bs u)
unfolding preds add_predecessor
preds-add_predecessor [] i u p h = elim h [ ]
preds-add_predecessor (b ∷ bs) zero zero p h = refl
preds-add_predecessor (b ∷ bs) zero (suc u) p h = ground arith
preds-add_predecessor (b ∷ bs) (suc i) zero p h = ground arith
preds-add_predecessor (b ∷ bs) (suc i) (suc u) p h = ground (arith, preds-add_predecessor bs i u p)

-- A block with no edges at the end.
pub succs-fresh :
    (bs : List BasicBlock) (b : BasicBlock) (u : ℕ)
    → b.successors ≡ []
    → succs (bs ++ b ∷ []) u ≡ succs bs u
unfolding succs
succs-fresh [] b zero h = h
succs-fresh [] b (suc u) h = refl
succs-fresh (x ∷ bs) b zero h = refl
succs-fresh (x ∷ bs) b (suc u) h = succs-fresh bs b u h

pub preds-fresh :
    (bs : List BasicBlock) (b : BasicBlock) (u : ℕ)
    → b.predecessors ≡ []
    → preds (bs ++ b ∷ []) u ≡ preds bs u
unfolding preds
preds-fresh [] b zero h = h
preds-fresh [] b (suc u) h = refl
preds-fresh (x ∷ bs) b zero h = refl
preds-fresh (x ∷ bs) b (suc u) h = preds-fresh bs b u h

pub AreWellFormed-fresh :
    {bs : List BasicBlock} (b : BasicBlock)
    → b.id ≡ length bs
    → b.successors ≡ []
    → b.predecessors ≡ []
    → AreWellFormed bs
    → AreWellFormed (bs ++ b ∷ [])
AreWellFormed-fresh {bs} b i s p w = record {
  ids = IdsFrom-append 0 bs b w.ids (omega arith);
  edges_fit = λ u. rw (succs-fresh bs b u s) (
      EdgesFit-mono (length bs) _ u (succs bs u) (omega (arith, length-append bs (b ∷ [])))
        (w.edges_fit u));
  preds_fit = λ v. rw (preds-fresh bs b v p) (
      AllLt-mono (length bs) _ (preds bs v) (omega (arith, length-append bs (b ∷ [])))
        (w.preds_fit v));
  mirrored = λ u v. rw (succs-fresh bs b u s, preds-fresh bs b v p) (w.mirrored u v);
}

pub AreWellFormed-nil : AreWellFormed []
unfolding succs preds count_to count
AreWellFormed-nil = record {
  ids = tt;
  edges_fit = λ u. tt;
  preds_fit = λ v. tt;
  mirrored = λ u v. refl;
}

-- A change of one block that leaves its number and its edges alone.
pub AreWellFormed-modify :
    {bs : List BasicBlock} (i : ℕ) (f : BasicBlock → BasicBlock)
    → ((b : BasicBlock) → (f b).id ≡ b.id)
    → ((b : BasicBlock) → (f b).successors ≡ b.successors)
    → ((b : BasicBlock) → (f b).predecessors ≡ b.predecessors)
    → AreWellFormed bs
    → AreWellFormed (modify bs i f)
AreWellFormed-modify {bs} i f same_id same_s same_p w = record {
  ids = IdsFrom-modify f 0 bs i same_id w.ids;
  edges_fit = λ u. rw (succs-modify f bs i u same_s, length-modify bs i f) (w.edges_fit u);
  preds_fit = λ v. rw (preds-modify f bs i v same_p, length-modify bs i f) (w.preds_fit v);
  mirrored =
      λ u v. rw (succs-modify f bs i u same_s, preds-modify f bs i v same_p) (w.mirrored u v);
}

-- The two writes of `addEdge`.
unfoldable pub with_edge : Edge → List BasicBlock → List BasicBlock
with_edge e bs = modify (modify bs e.from (add_successor e)) e.to (add_predecessor e.from)

module _ (bs : List BasicBlock) (e : Edge) (from_fits : e.from < length bs)
    (to_fits : e.to < length bs) where
  pub length-with_edge : length (with_edge e bs) ≡ length bs
  unfolding with_edge
  length-with_edge = omega (
    arith,
    length-modify (modify bs e.from (add_successor e)) e.to (add_predecessor e.from),
    length-modify bs e.from (add_successor e),
  )

  pub succs-with_edge :
      (u : ℕ)
      → succs (with_edge e bs) u ≡ (if e.from == u then succs bs u ++ e ∷ [] else succs bs u)
  unfolding with_edge add_predecessor
  succs-with_edge u =
      rw
        (succs-modify (add_predecessor e.from) (modify bs e.from (add_successor e)) e.to u
          (λ b. refl))
        (succs-add_successor bs e.from u e from_fits)

  pub preds-with_edge :
      (v : ℕ)
      → preds (with_edge e bs) v ≡ (if e.to == v then preds bs v ++ e.from ∷ [] else preds bs v)
  unfolding with_edge add_successor
  preds-with_edge v = ground (
    arith,
    preds-add_predecessor (modify bs e.from (add_successor e)) e.to v e.from,
    length-modify bs e.from (add_successor e),
    preds-modify (add_successor e) bs e.from v (λ b. refl),
  )

  IdsFrom-with_edge : IdsFrom 0 bs → IdsFrom 0 (with_edge e bs)
  unfolding with_edge add_successor add_predecessor
  IdsFrom-with_edge h =
      IdsFrom-modify (add_predecessor e.from) 0 (modify bs e.from (add_successor e)) e.to
        (λ b. refl) (IdsFrom-modify (add_successor e) 0 bs e.from (λ b. refl) h)

  pub AreWellFormed-with_edge : AreWellFormed bs → AreWellFormed (with_edge e bs)
  AreWellFormed-with_edge w = record {
    ids = IdsFrom-with_edge w.ids;
    edges_fit = λ u.
        rw (length-with_edge, succs-with_edge u)
          (elim (Bool-cases (e.from == u)) [
            | inl same ↦ rw same (
                EdgesFit-append (length bs) u (succs bs u) e (w.edges_fit u) (==→≡ _ _ same)
                  to_fits)
            | inr other ↦ rw other (w.edges_fit u)
          ]);
    preds_fit = λ v.
        rw (length-with_edge, preds-with_edge v)
          (elim (Bool-cases (e.to == v)) [
            | inl same ↦
                rw same (AllLt-append (length bs) (preds bs v) e.from (w.preds_fit v) from_fits)
            | inr other ↦ rw other (w.preds_fit v)
          ]);
    mirrored = λ u v. ground (
      arith,
      w.mirrored u v,
      succs-with_edge u,
      preds-with_edge v,
      count_to-append v (succs bs u) e,
      count-append u (preds bs v) e.from,
    );
  }
