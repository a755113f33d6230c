-- ===== src/Model/Graph/WellFormed.antt =====
-- What the searches of model.go take for granted of a graph: its edges stay inside it, and the
-- predecessor lists mirror the successor lists.
use lifeline.Prelude.{ℕ, zero, suc, ◌+◌, ◌<◌, ◌≡◌, refl, ◌↔◌, ◌⊎◌, inl, inr, List, [], ◌∷◌, length}
use lifeline.Prelude.{
  Option, some, none, get_elem?, get_elem?-eq-some, ◌∈◌, ◌==◌, if◌then◌else◌, arith, ltb, true,
}
use mathlib.Core.Option
use lifeline.Model.Graph.{BlockId, Edge, BasicBlock, Cfg, block, successors_of, predecessors_of}

-- The lists of a block; a block that is not there has none.
unfoldable pub succs : List BasicBlock → BlockId → List Edge
succs [] u = []
succs (b ∷ bs) zero = b.successors
succs (b ∷ bs) (suc u) = succs bs u

unfoldable pub preds : List BasicBlock → BlockId → List BlockId
preds [] u = []
preds (b ∷ bs) zero = b.predecessors
preds (b ∷ bs) (suc u) = preds bs u

abbrev pub read_succs : List BasicBlock → BlockId → Option (List Edge)
read_succs bs u = Option.map (λ (b : BasicBlock). b.successors) (get_elem? bs u)

abbrev pub read_preds : List BasicBlock → BlockId → Option (List BlockId)
read_preds bs u = Option.map (λ (b : BasicBlock). b.predecessors) (get_elem? bs u)

-- A read of the graph fails, or returns these lists.
pub read-succs :
    (bs : List BasicBlock) (u : BlockId)
    → (read_succs bs u ≡ some (succs bs u)) ⊎ (read_succs bs u ≡ none) × (succs bs u ≡ [])
unfolding succs
read-succs [] u = inr (refl, refl)
read-succs (b ∷ bs) zero = inl refl
read-succs (b ∷ bs) (suc u) = read-succs bs u

pub read-preds :
    (bs : List BasicBlock) (u : BlockId)
    → (read_preds bs u ≡ some (preds bs u)) ⊎ (read_preds bs u ≡ none) × (preds bs u ≡ [])
unfolding preds
read-preds [] u = inr (refl, refl)
read-preds (b ∷ bs) zero = inl refl
read-preds (b ∷ bs) (suc u) = read-preds bs u

-- How many of the edges lead to `v`, and how often `u` stands in a list.
unfoldable pub count_to : BlockId → List Edge → ℕ
count_to v [] = 0
count_to v (e ∷ es) = (if e.to == v then 1 else 0) + count_to v es

unfoldable pub count : BlockId → List BlockId → ℕ
count u [] = 0
count u (p ∷ ps) = (if p == u then 1 else 0) + count u ps

-- Each edge starts at `u` and ends below `n`.
abbrev pub EdgesFit : ℕ → BlockId → List Edge → Type 0
EdgesFit n u [] = Unit
EdgesFit n u (e ∷ es) = (e.from ≡ u) × (e.to < n) × EdgesFit n u es

abbrev pub AllLt : ℕ → List BlockId → Type 0
AllLt n [] = Unit
AllLt n (p ∷ ps) = (p < n) × AllLt n ps

-- The blocks bear the numbers from `k` on, in order.
abbrev pub IdsFrom : ℕ → List BasicBlock → Type 0
IdsFrom k [] = Unit
IdsFrom k (b ∷ bs) = (b.id ≡ k) × IdsFrom (suc k) bs

pub record AreWellFormed (bs : List BasicBlock) : Type 0 where
  pub ids : IdsFrom 0 bs
  pub edges_fit : (u : BlockId) → EdgesFit (length bs) u (succs bs u)
  pub preds_fit : (v : BlockId) → AllLt (length bs) (preds bs v)
  pub mirrored : (u v : BlockId) → count_to v (succs bs u) ≡ count u (preds bs v)

pub record IsWellFormed (g : Cfg) : Type 0 where
  pub entry_fits : g.entry < length g.blocks
  pub exit_fits : g.exit < length g.blocks
  pub blocks_fit : AreWellFormed g.blocks

pub successors_of-eq :
    (g : Cfg) (u : BlockId) → u < length g.blocks → successors_of g u ≡ some (succs g.blocks u)
successors_of-eq g u h =
    let (b, e) = get_elem?-eq-some g.blocks u h in ground (arith, read-succs g.blocks u)

-- A block of the graph is found by its number, with its edges.
pub block-eq :
    (g : Cfg) (u : BlockId)
    → u < length g.blocks
    → (b : BasicBlock) × (block g u ≡ some b) × (b.successors ≡ succs g.blocks u)
unfolding block
block-eq g u h =
    let (b, e) = get_elem?-eq-some g.blocks u h in
    let below : ltb u (length g.blocks) ≡ true = ground (arith, h) in
    (b, rw below e, same_edges g.blocks u b e)
  where
    same_edges :
        (bs : List BasicBlock) (u : BlockId) (b : BasicBlock)
        → get_elem? bs u ≡ some b
        → b.successors ≡ succs bs u
    same_edges bs u b e = ground (arith, e, read-succs bs u)

pub predecessors_of-eq :
    (g : Cfg) (u : BlockId) → u < length g.blocks → predecessors_of g u ≡ some (preds g.blocks u)
predecessors_of-eq g u h =
    let (b, e) = get_elem?-eq-some g.blocks u h in ground (arith, read-preds g.blocks u)

-- Some edge of the list leads to `v`.
abbrev pub LeadsTo : BlockId → List Edge → Type 0
LeadsTo v [] = ⊥
LeadsTo v (e ∷ es) = (v ≡ e.to) ⊎ LeadsTo v es

pub count_to_iff : (v : BlockId) (es : List Edge) → (0 < count_to v es) ↔ LeadsTo v es
unfolding count_to
count_to_iff v [] = ground arith
count_to_iff v (e ∷ es) = ground (arith, count_to_iff v es)

pub count_iff : (u : BlockId) (ps : List BlockId) → (0 < count u ps) ↔ (u ∈ ps)
unfolding count
count_iff u [] = ground arith
count_iff u (p ∷ ps) = ground (arith, count_iff u ps)

-- An edge leads from `u` to `v` exactly when `v` names `u` as a predecessor.
pub mirror :
    {bs : List BasicBlock}
    → AreWellFormed bs
    → (u v : BlockId) → LeadsTo v (succs bs u) ↔ (u ∈ preds bs v)
mirror {bs} w u v =
    ground (arith, count_to_iff v (succs bs u), count_iff u (preds bs v), w.mirrored u v)
