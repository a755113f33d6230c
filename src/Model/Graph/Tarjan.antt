-- ===== src/Model/Graph/Tarjan.antt =====
-- `SCCs` of internal/model/model.go: Tarjan's algorithm. The recursion of `strongConnect` takes fuel,
-- one unit for each call inside another; each call gives an index to a block that had none, so as
-- many units as there are blocks are enough, and one more for the call that finds nothing.
pub mod State
pub mod Lower
pub mod Visit
pub mod Pop
pub mod Connect
pub mod Components
use lifeline.Prelude.{ℕ, zero, suc, Bool, true, false, Option, none, some, List, [], ◌∷◌, ◌++◌}
use lifeline.Prelude.{length, ltb, ◌==◌, if◌then◌else◌}
use lifeline.Model.Graph.{BlockId, Edge, Cfg, successors_of}

-- A result, an index out of range, or, in the model alone, the end of the fuel.
pub data Run (A : Type 0) : Type 0 where
  ok : A → Run A
  panic stuck : Run A

infixl 5 ◌>>=◌
abbrev pub ◌>>=◌ : {A B : Type 0} → Run A → (A → Run B) → Run B
ok a >>= f = f a
panic >>= f = panic
stuck >>= f = stuck

-- The locals of `SCCs`. An index of -1 is `none`; the head of `stack` is the end of the slice.
pub record Tarjan : Type 0 where
  pub index : BlockId → Option ℕ
  pub low : BlockId → ℕ
  pub on_stack : BlockId → Bool
  pub stack : List BlockId
  pub result : List (List BlockId)
  pub counter : ℕ

-- A write to one place of a slice.
unfoldable pub put : {A : Type 0} → BlockId → A → (BlockId → A) → BlockId → A
put v a f w = if v == w then a else f w

-- The start of `strongConnect`.
unfoldable pub enter : BlockId → Tarjan → Tarjan
enter v t = record {
  index = put v (some t.counter) t.index;
  low = put v t.counter t.low;
  on_stack = put v true t.on_stack;
  stack = v ∷ t.stack;
  result = t.result;
  counter = suc t.counter;
}

unfoldable pub lower : BlockId → ℕ → Tarjan → Tarjan
lower v k t = if ltb k (t.low v) then record t { low = put v k t.low } else t

-- The loop that pops a component, as far as `v`.
unfoldable pub pop_until : BlockId → List BlockId → List BlockId → Tarjan → Run Tarjan
pop_until v [] scc t = panic
pop_until v (w ∷ rest) scc t =
    let next = pop_until v rest (scc ++ w ∷ []) (record t { on_stack = put w false t.on_stack }) in
    if w == v
    then ok (record t {
      on_stack = put w false t.on_stack;
      stack = rest;
      result = t.result ++ (scc ++ w ∷ []) ∷ [];
    })
    else next

unfoldable pub is_root : BlockId → Tarjan → Bool
is_root v t = elim (t.index v) [ none ↦ false | some i ↦ t.low v == i ]

unfoldable pub pop_component : BlockId → Tarjan → Run Tarjan
pop_component v t = if is_root v t then pop_until v t.stack [] t else ok t

module _ (n : ℕ) (connect : BlockId → Tarjan → Run Tarjan) where
  -- The body of the loop over the successors; `connect` is the recursive call.
  unfoldable pub visit_edge : BlockId → BlockId → Tarjan → Run Tarjan
  visit_edge v w t =
      if ltb w n
      then elim (t.index w) [
        | none ↦ connect w t >>= (λ t'. ok (lower v (t'.low w) t'))
        | some i ↦ ok (if t.on_stack w then lower v i t else t)
      ]
      else panic

  unfoldable pub visit_edges : BlockId → List Edge → Tarjan → Run Tarjan
  visit_edges v [] t = ok t
  visit_edges v (e ∷ es) t = visit_edge v e.to t >>= visit_edges v es

module _ (g : Cfg) where
  unfoldable pub strong_connect : ℕ → BlockId → Tarjan → Run Tarjan
  strong_connect zero v t = stuck
  strong_connect (suc fuel) v t = elim (successors_of g v) [
    | none ↦ panic
    | some es ↦
        visit_edges (length g.blocks) (strong_connect fuel) v es (enter v t) >>= pop_component v
  ]

  -- The last loop, over the blocks from `v` on, `left` of them.
  unfoldable pub connect_from : ℕ → BlockId → Tarjan → Run Tarjan
  connect_from zero v t = ok t
  connect_from (suc left) v t =
      (elim (t.index v) [ none ↦ strong_connect (suc (length g.blocks)) v t | some i ↦ ok t ])
      >>= connect_from left (suc v)

  abbrev pub fresh : Tarjan
  fresh = record {
    index = λ v. none;
    low = λ v. 0;
    on_stack = λ v. false;
    stack = [];
    result = [];
    counter = 0;
  }

  unfoldable pub sccs : Run (List (List BlockId))
  sccs = connect_from (length g.blocks) 0 fresh >>= (λ t. ok t.result)
