-- ===== src/Frontend/Stops.antt =====
-- `computeStopOrdering` and `describeStopOrder` of internal/frontend/frontend.go: whether all stop signals
-- of a group run only after a Wait. The signals that `stopSignalsFor` collects are an argument, with
-- its answer whether all of them have a place.
pub mod Order
use lifeline.Prelude.{
  String, Bool, true, false, not, ◌&&◌, ◌||◌, Option, none, some, List, [], ◌∷◌, ◌++◌,
}
use lifeline.Prelude.{str_eq, if◌then◌else◌}
use lifeline.Model.Source.{Evidence}
use lifeline.Model.Graph.{BlockId, Cfg, reachable_avoiding}
use lifeline.Model.Graph.Tarjan.{Run, ok, ◌>>=◌}
use lifeline.Model.Facts.{JoinGroup}
use lifeline.Engine.Findings.{text}
use lifeline.Engine.Verdict.{search}
use lifeline.Cfg.Ast.{NodeId}
use lifeline.Cfg.Builder.{CallSite}
use lifeline.Frontend.Paths.{
  Site, placed, block_set_of, is_empty, stop_proven_after_wait, registered_before,
}

-- `stopSignal`, without the call.
pub record Signal : Type 0 where
  pub site : Site
  pub deferred : Bool
  pub correlation : String

-- The joins that have a place, as signals.
unfoldable pub waits_of : (NodeId → Option CallSite) → (NodeId → Bool) → List NodeId → List Signal
waits_of sites deferred [] = []
waits_of sites deferred (call ∷ calls) = elim (placed (sites call)) [
  | none ↦ waits_of sites deferred calls
  | some s ↦
      record { site = s; deferred = deferred call; correlation = "" }
      ∷ waits_of sites deferred calls
]

-- The places of the waits that are not deferred.
unfoldable pub plain_waits : List Signal → List Site
plain_waits [] = []
plain_waits (w ∷ ws) = let rest = plain_waits ws in if w.deferred then rest else w.site ∷ rest

unfoldable pub after_plain : List Site → (BlockId → Bool) → Signal → Bool
after_plain waits seen st =
    if is_empty waits
    then false
    else if st.deferred
    then true
    else stop_proven_after_wait waits (block_set_of waits) seen st.site

-- The loop over the deferred waits for a deferred stop.
unfoldable pub registered_later : Cfg → Site → List Signal → Run Bool
registered_later g stop [] = ok false
registered_later g stop (w ∷ ws) =
    let rest = registered_later g stop ws in
    if w.deferred
    then registered_before g stop w.site >>= (λ b. if b then ok true else rest)
    else rest

unfoldable pub signal_after : Cfg → List Signal → (BlockId → Bool) → Signal → Run Bool
signal_after g waits seen st =
    if after_plain (plain_waits waits) seen st
    then ok true
    else if st.deferred
    then registered_later g st.site waits
    else ok false

-- The loop over the stops.
unfoldable pub all_after : Cfg → List Signal → (BlockId → Bool) → List Signal → Run Bool
all_after g waits seen [] = ok true
all_after g waits seen (st ∷ sts) =
    let rest = all_after g waits seen sts in
    signal_after g waits seen st >>= (λ after. if after then rest else ok false)

unfoldable pub has_correlation : String → List Signal → Bool
has_correlation kind [] = false
has_correlation kind (st ∷ sts) = str_eq st.correlation kind || has_correlation kind sts

-- `describeStopOrder`
unfoldable pub any_deferred : List Signal → Bool
any_deferred [] = false
any_deferred (w ∷ ws) = w.deferred || any_deferred ws

unfoldable pub stop_phrase : Bool → Signal → String
stop_phrase wait_deferred st =
    if st.deferred && wait_deferred
    then "a deferred stop signal registered before a deferred Wait, so the Wait runs first at return"
    else if st.deferred
    then "a deferred stop signal, which does not run until the function returns, after the Wait"
    else "a stop signal reachable only after the Wait"

unfoldable pub stop_phrases : Bool → List Signal → List String
stop_phrases wait_deferred [] = []
stop_phrases wait_deferred (st ∷ []) = stop_phrase wait_deferred st ∷ []
stop_phrases wait_deferred (st ∷ next ∷ sts) =
    stop_phrase wait_deferred st ∷ "; " ∷ stop_phrases wait_deferred (next ∷ sts)

unfoldable pub describe_stop_order : List Signal → List Signal → String
describe_stop_order stops waits = text (stop_phrases (any_deferred waits) stops)

abbrev pub stop_evidence : List String → Evidence
stop_evidence parts = record { kind = "stop-after-wait"; message = text parts; span = none }

unfoldable pub note_stop : List Signal → List Signal → JoinGroup → JoinGroup
note_stop stops waits g =
    let context = has_correlation "worker-context" stops in
    let channel = has_correlation "worker-channel" stops in
    if has_correlation "assumed-wrapper" stops
    then record g {
      stop_after_wait = true;
      stop_correlation = "assumed-wrapper";
      evidence =
          g.evidence
          ++ (stop_evidence (
                "every call to the configured stop wrapper only runs after this Wait; the wrapper is assumed to be what stops this group's workers, which is not verified"
                ∷ [])
              ∷ []);
    }
    else if channel && not context
    then record g {
      stop_after_wait = true;
      stop_correlation = "worker-channel";
      evidence =
          g.evidence
          ++ (stop_evidence (
                "a worker of this group receives from a channel that is only ever closed after this Wait: "
                ∷ describe_stop_order stops waits
                ∷ [])
              ∷ []);
    }
    else if context && not channel
    then record g {
      stop_after_wait = true;
      stop_correlation = "worker-context";
      evidence =
          g.evidence
          ++ (stop_evidence (
                "a worker of this group uses a context whose cancel function is only ever called after this Wait: "
                ∷ describe_stop_order stops waits
                ∷ [])
              ∷ []);
    }
    else record g {
      stop_after_wait = true;
      stop_correlation = "worker-signal";
      evidence =
          g.evidence
          ++ (stop_evidence (
                "recognized stop signals used by this group's workers are only ever sent after this Wait: "
                ∷ describe_stop_order stops waits
                ∷ [])
              ∷ []);
    }

-- The body of `computeStopOrdering` after the waits are collected.
unfoldable pub order_stops : Cfg → List Signal → List Signal → JoinGroup → Run JoinGroup
order_stops g stops waits group =
    if is_empty waits
    then ok group
    else search (reachable_avoiding g g.entry (block_set_of (plain_waits waits))) >>= (λ seen.
      all_after g waits seen stops
      >>= (λ all. ok (if all then note_stop stops waits group else group)))

unfoldable pub compute_stop_ordering :
    Cfg
    → (NodeId → Option CallSite)
    → (NodeId → Bool)
    → List Signal
    → Bool
    → List NodeId
    → JoinGroup
    → Run JoinGroup
compute_stop_ordering g sites deferred stops placeable join_calls group =
    if is_empty stops || not placeable
    then ok group
    else order_stops g stops (waits_of sites deferred join_calls) group
