-- ===== src/Frontend/Effects.antt =====
-- `paramEffectOf` and `recordParamEffects` of internal/frontend/frontend.go: what a function does with
-- a cancel function or a group that it is given.
pub mod Bits
pub mod Must
use Prim.Native.Nat.{bit_or}
use lifeline.Prelude.{
  ℕ, zero, negsuc, Bool, true, false, not, ◌&&◌, ◌||◌, ◌==◌, Option, none, some, List, [],
}
use lifeline.Prelude.{◌∷◌, ◌++◌, if◌then◌else◌}
use lifeline.Model.Graph.{BlockId, Edge, Cfg, reachable}
use lifeline.Model.Graph.Routes.{no_skip}
use lifeline.Model.Graph.Tarjan.{Run, ok, panic, stuck, ◌>>=◌}
use lifeline.Model.Facts.{ParamEffect}
use lifeline.Model.Effects.{effect_may, effect_must, effect_returns, effect_opaque}
use lifeline.Engine.Verdict.{search}
use lifeline.Cfg.Ast.{NodeId}
use lifeline.Cfg.Builder.{CallSite}
use lifeline.Frontend.Paths.{Site, placed, split_deferred, is_empty, live_exit_reachable}

-- `effect |= bit`, under a condition.
unfoldable pub add_effect : Bool → ParamEffect → ParamEffect → ParamEffect
add_effect c bit e = if c then bit_or e bit else e

-- Whether a call has a place in a block that is reached, and is not started by `go`.
unfoldable pub is_live : (BlockId → Bool) → Option Site → Bool
is_live reach none = false
is_live reach (some s) = reach s.block

unfoldable pub live_calls :
    (BlockId → Bool) → (NodeId → Option CallSite) → List NodeId → List NodeId
live_calls reach sites [] = []
live_calls reach sites (c ∷ cs) =
    let rest = live_calls reach sites cs in
    if is_live reach (placed (sites c)) then c ∷ rest else rest

abbrev pub origin : Cfg → Site
origin g = record { block = g.entry; index = negsuc 0 }

-- The bits of an effect, in the order in which they are set: may, must, returns, opaque for a value
-- that escapes, and opaque for one used in a literal that is not resolved.
unfoldable pub effect_of : Bool → Bool → Bool → Bool → Bool → ParamEffect
effect_of may must returned escapes in_literal = add_effect in_literal effect_opaque (
    if returned
    then bit_or (add_effect must effect_must (add_effect may effect_may 0)) effect_returns
    else add_effect escapes effect_opaque
        (add_effect must effect_must (add_effect may effect_may 0)))

module _ (g : Cfg) (sites : NodeId → Option CallSite) (deferred : NodeId → Bool) where
  -- Whether no path bypasses the live discharges and recursive calls.
  unfoldable pub discharged_always : List NodeId → List NodeId → Run Bool
  discharged_always [] recs = ok false
  discharged_always (c ∷ cs) recs =
      let (plain, late) = split_deferred deferred sites ((c ∷ cs) ++ recs) in
      live_exit_reachable g plain late no_skip (origin g ∷ [])
      >>= (λ answer. ok (answer.1 && not answer.0))

  unfoldable pub param_effect_of :
      List NodeId → List NodeId → List NodeId → Bool → Bool → Bool → Run ParamEffect
  param_effect_of discharges may_calls rec_calls escapes returned in_literal =
      search (reachable g g.entry) >>= (λ reach.
        let live = live_calls reach sites discharges in
        discharged_always live (live_calls reach sites rec_calls) >>= (λ must. ok (
          effect_of (not (is_empty live) || not (is_empty (live_calls reach sites may_calls))) must
            returned escapes in_literal)))

-- `recordParamEffects`: the effects of an object, and whether they changed.
unfoldable pub merge_effects : Option ParamEffect → ParamEffect → ParamEffect
merge_effects none next = next
merge_effects (some prev) next = bit_or prev next

unfoldable pub changed : Option ParamEffect → ParamEffect → Bool
changed none merged = true
changed (some prev) merged = not (merged == prev)

unfoldable pub record_param_effects :
    (NodeId → Option ParamEffect) → NodeId → ParamEffect → (NodeId → Option ParamEffect) × Bool
record_param_effects effects obj next =
    let merged = merge_effects (effects obj) next in
    (λ o. if obj == o then some merged else effects o, changed (effects obj) merged)
