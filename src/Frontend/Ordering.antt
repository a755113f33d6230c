-- ===== src/Frontend/Ordering.antt =====
-- The loops of `computeOrdering` of internal/frontend/frontend.go: whether a cancel function is called,
-- and a group joined, on every path. What the tree says of a binding or a group (its calls, and
-- the edges that an error guard rules out) is an argument.
pub mod Joins
use lifeline.Prelude.{
  Bool, true, false, not, ◌&&◌, ◌||◌, Option, none, some, List, [], ◌∷◌, ◌++◌, String,
}
use lifeline.Prelude.{if◌then◌else◌}
use lifeline.Model.Source.{Evidence, Span}
use lifeline.Model.Graph.{BlockId, Edge, Cfg}
use lifeline.Model.Graph.Routes.{no_skip}
use lifeline.Model.Graph.Tarjan.{Run, ok, ◌>>=◌}
use lifeline.Model.Facts.{CancelBinding, JoinGroup}
use lifeline.Cfg.Ast.{NodeId}
use lifeline.Cfg.Builder.{CallSite}
use lifeline.Frontend.Paths.{Site, call_sites_of, split_deferred, is_empty, live_exit_reachable}

-- The calls that the frontend recorded of a cancel function.
pub record CancelCalls : Type 0 where
  pub call_sites : List NodeId
  pub may_calls : List NodeId
  pub acquire_call : NodeId
  -- `errorBranchSkipper`; none where it is nil
  pub skip : Option (Edge → Bool)

-- The calls that it recorded of a group.
pub record JoinCalls : Type 0 where
  pub start_calls : List NodeId
  pub wait_call_sites : List NodeId
  pub helper_join_calls : List NodeId
  pub wrapper_join_calls : List NodeId
  pub may_join_calls : List NodeId

abbrev pub finding : String → String → Option Span → Evidence
finding kind message span = record { kind = kind; message = message; span = span }

unfoldable pub only_may_call : CancelBinding → CancelBinding
only_may_call c = record c {
  called_on_all_paths = some false;
  evidence =
      c.evidence
      ++ (finding "call-not-on-all-paths"
            "the only consumer is a callee that calls it on some of its own paths, so no path is known to call it"
            none
          ∷ []);
}

unfoldable pub note_guard : CancelBinding → CancelBinding
note_guard c = record c {
  evidence =
      c.evidence
      ++ (finding "error-guard"
            "paths on which the factory's error result is non-nil are not counted: the factory is assumed to create no cancel function to call when it reports an error"
            (some c.span)
          ∷ []);
}

unfoldable pub note_called : Bool → CancelBinding → CancelBinding
note_called bypassed c =
    if bypassed
    then record c {
      called_on_all_paths = some false;
      evidence =
          c.evidence
          ++ (finding "call-not-on-all-paths"
                "some path from this cancel function's creation to the function's return bypasses every call to it"
                none
              ∷ []);
    }
    else record c { called_on_all_paths = some true }

unfoldable pub only_may_join : JoinGroup → JoinGroup
only_may_join g = record g {
  joined_on_all_paths = some false;
  evidence =
      g.evidence
      ++ (finding "join-not-on-all-paths"
            "the only join is a callee that waits on some of its own paths, so no path is known to join this group"
            none
          ∷ []);
}

unfoldable pub note_joined : Bool → JoinGroup → JoinGroup
note_joined bypassed g =
    if bypassed
    then record g {
      joined_on_all_paths = some false;
      evidence =
          g.evidence
          ++ (finding "join-not-on-all-paths"
                "some path from the point a worker is started to the function's return bypasses every recognized join site for this group"
                none
              ∷ []);
    }
    else record g { joined_on_all_paths = some true }

module _ (g : Cfg) (sites : NodeId → Option CallSite) (deferred : NodeId → Bool) where
  abbrev pub skip_of : Option (Edge → Bool) → Edge → Bool
  skip_of none e = false
  skip_of (some f) e = f e

  -- Whether an error guard is what makes the difference.
  unfoldable pub guarded :
      List Site → List Site → List Site → Option (Edge → Bool) → Bool → Run Bool
  guarded origins plain late none bypassed = ok false
  guarded origins plain late (some f) bypassed =
      if bypassed
      then ok false
      else live_exit_reachable g plain late no_skip origins >>= (λ answer. ok answer.0)

  -- The part of a round for a binding whose calls have a place.
  unfoldable pub order_calls :
      CancelCalls → List Site → List Site → CancelBinding → Run CancelBinding
  order_calls calls plain late c =
      let origins = call_sites_of sites (calls.acquire_call ∷ []) in
      live_exit_reachable g plain late (skip_of calls.skip) origins >>= (λ answer.
        if not answer.1
        then ok c
        else guarded origins plain late calls.skip answer.0
          >>= (λ guard. ok (note_called answer.0 (if guard then note_guard c else c))))

  unfoldable pub order_cancel : CancelCalls → CancelBinding → Run CancelBinding
  order_cancel calls c =
      let (plain, late) = split_deferred deferred sites calls.call_sites in
      if not c.called
      then ok c
      else if is_empty plain && is_empty late
      then ok (if is_empty (call_sites_of sites calls.may_calls) then c else only_may_call c)
      else order_calls calls plain late c

  abbrev pub join_sites : JoinCalls → List Site
  join_sites calls =
      (call_sites_of sites calls.wait_call_sites ++ call_sites_of sites calls.helper_join_calls)
      ++ call_sites_of sites calls.wrapper_join_calls

  -- A round of the second loop, up to the call of `computeStopOrdering`.
  unfoldable pub order_group : JoinCalls → JoinGroup → Run JoinGroup
  order_group calls group =
      if not group.joined
      then ok group
      else if is_empty (join_sites calls)
      then ok (
          if is_empty (call_sites_of sites calls.may_join_calls)
          then group
          else only_may_join group)
      else live_exit_reachable g [] (join_sites calls) no_skip
          (call_sites_of sites calls.start_calls)
        >>= (λ answer. ok (if answer.1 then note_joined answer.0 group else group))
