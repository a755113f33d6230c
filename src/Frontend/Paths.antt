-- ===== src/Frontend/Paths.antt =====
-- The questions about paths that internal/frontend/frontend.go asks of a function's graph: whether an
-- obligation can reach the exit, and what is proved to run before what.
pub mod Live
pub mod Before
use lifeline.Prelude.{
  ℕ, ℤ, pos, negsuc, Bool, true, false, not, ◌&&◌, ◌||◌, Option, none, some, ltb, ◌==◌,
}
use lifeline.Prelude.{List, [], ◌∷◌, ◌++◌, if◌then◌else◌}
use lifeline.Model.Graph.{
  BlockId, Edge, Cfg, reachable, reachable_avoiding, reachable_avoiding_edges, successors_of,
}
use lifeline.Model.Graph.Tarjan.{Run, ok, panic, stuck, ◌>>=◌}
use lifeline.Model.Facts.{ParamEffect}
use lifeline.Model.Effects.{effect_may, effect_must, effect_returns, effect_opaque}
use lifeline.Engine.Verdict.{search, read}
use Prim.Native.Nat.{bit_or}
use lifeline.Cfg.Ast.{NodeId}
use lifeline.Cfg.Builder.{CallSite}

-- A place in the graph. The entry of a function, before all instructions, has the index -1.
pub record Site : Type 0 where
  pub block : BlockId
  pub index : ℤ

-- `j < k` on ints.
abbrev pub int_lt : ℤ → ℤ → Bool
int_lt (pos j) (pos k) = ltb j k
int_lt (pos j) (negsuc k) = false
int_lt (negsuc j) (pos k) = true
int_lt (negsuc j) (negsuc k) = ltb k j

abbrev pub site_of : CallSite → Site
site_of s = record { block = s.block; index = pos s.index }

-- The site of a call that has one and is not started by `go`.
unfoldable pub placed : Option CallSite → Option Site
placed none = none
placed (some s) = if s.async then none else some (site_of s)

-- `callSitesOf`.
unfoldable pub call_sites_of : (NodeId → Option CallSite) → List NodeId → List Site
call_sites_of sites [] = []
call_sites_of sites (call ∷ calls) = elim (placed (sites call)) [
  | none ↦ call_sites_of sites calls
  | some s ↦ s ∷ call_sites_of sites calls
]

-- `splitDeferred`: the calls that run at their place, and the deferred ones.
unfoldable pub select_calls : (NodeId → Bool) → List NodeId → List NodeId
select_calls keep [] = []
select_calls keep (call ∷ calls) =
    let rest = select_calls keep calls in if keep call then call ∷ rest else rest

unfoldable pub split_deferred :
    (NodeId → Bool) → (NodeId → Option CallSite) → List NodeId → List Site × List Site
split_deferred deferred sites calls = (
  call_sites_of sites (select_calls (λ c. not (deferred c)) calls),
  call_sites_of sites (select_calls deferred calls),
)

-- `blockSetOf`.
unfoldable pub block_set_of : List Site → BlockId → Bool
block_set_of [] v = false
block_set_of (s ∷ ss) v = (s.block == v) || block_set_of ss v

-- A site of the list that stands later in the block of the origin.
unfoldable pub discharged_after : Site → List Site → Bool
discharged_after o [] = false
discharged_after o (d ∷ ds) =
    ((d.block == o.block) && int_lt o.index d.index) || discharged_after o ds

abbrev pub is_empty : {A : Type 0} → List A → Bool
is_empty [] = true
is_empty (x ∷ xs) = false

module _ (g : Cfg) (after anywhere : List Site) (skip_edge : Edge → Bool) where
  abbrev pub avoid : BlockId → Bool
  avoid v = block_set_of after v || block_set_of anywhere v

  -- The loop over the edges that leave the block of an origin.
  unfoldable pub edges_live : List Edge → Run Bool
  edges_live [] = ok false
  edges_live (e ∷ es) =
      let rest = edges_live es in
      if skip_edge e
      then rest
      else search (reachable_avoiding_edges g e.to avoid skip_edge)
        >>= (λ seen. if seen g.exit then ok true else rest)

  -- Whether an origin is reached without passing a discharge that counts anywhere.
  unfoldable pub reached_bare : Site → Run Bool
  reached_bare o =
      if is_empty anywhere
      then ok true
      else search (reachable_avoiding g g.entry (block_set_of anywhere))
        >>= (λ seen. ok (seen o.block))

  -- A round of the loop over the origins.
  unfoldable pub origin_live : Site → Run Bool
  origin_live o =
      if block_set_of anywhere o.block || discharged_after o after
      then ok false
      else reached_bare o
        >>= (λ bare. if bare then read (successors_of g o.block) >>= edges_live else ok false)

  -- `liveExitReachable`: whether the exit is reachable alive, and whether the answer is known.
  unfoldable pub live_loop : Bool → List Site → Run (Bool × Bool)
  live_loop known [] = ok (false, known)
  live_loop known (o ∷ os) =
      let rest = live_loop true os in
      origin_live o >>= (λ live. if live then ok (true, true) else rest)

  unfoldable pub live_exit_reachable : List Site → Run (Bool × Bool)
  live_exit_reachable origins = live_loop false origins

-- `stopProvenAfterWait`, on the block set and the reachable set of the waits.
unfoldable pub wait_before : List Site → Site → Bool
wait_before [] stop = false
wait_before (w ∷ ws) stop =
    ((w.block == stop.block) && int_lt w.index stop.index) || wait_before ws stop

unfoldable pub stop_proven_after_wait :
    List Site → (BlockId → Bool) → (BlockId → Bool) → Site → Bool
stop_proven_after_wait wait_sites wait_blocks reachable_avoiding_waits stop =
    if wait_blocks stop.block
    then wait_before wait_sites stop
    else not (reachable_avoiding_waits stop.block)

-- `registeredBefore`.
unfoldable pub registered_before : Cfg → Site → Site → Run Bool
registered_before g a b =
    if a.block == b.block
    then ok (int_lt a.index b.index)
    else search (reachable_avoiding g g.entry (λ v. a.block == v))
      >>= (λ seen. ok (not (seen b.block)))
