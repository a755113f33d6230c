-- ===== src/Engine/Findings.antt =====
-- The rules of `AnalyzeWithStatus` in internal/engine/engine.go: which diagnostics a function's
-- bindings, goroutines and groups give, before any filter.
pub mod Conditions
pub mod Messages
pub mod Goroutines
use Prim.Native.String.{◌++◌ as cat}
use lifeline.Prelude.{
  ℕ, zero, String, Bool, true, false, not, ◌&&◌, ◌||◌, Option, none, some, List, [],
}
use lifeline.Prelude.{◌∷◌, ◌++◌, ◌==◌, str_eq, if◌then◌else◌}
use lifeline.Model.Source.{Evidence, no_span}
use lifeline.Model.Graph.Tarjan.{Run, ok, panic, stuck, ◌>>=◌}
use lifeline.Model.Facts.{CancelBinding, Goroutine, JoinGroup, Function, Program}
use lifeline.Config.{Config}
use lifeline.Engine.Verdict.{unresolved_loop}
use lifeline.Engine.Diagnostics.{Diagnostic, Format, base, warning, unknown, report_schema, version}
use lifeline.Engine.Diagnostics.{backend, shared_assumptions, bounds_of}

-- A text in pieces.
unfoldable pub text : List String → String
text [] = ""
text (s ∷ ss) = cat s (text ss)

-- A pointer to a bool that is nil, or points to true.
abbrev pub nil_or_true : Option Bool → Bool
nil_or_true none = true
nil_or_true (some v) = v

-- The condition under which a binding is passed over.
unfoldable pub cancel_ok : CancelBinding → Bool
cancel_ok c =
    (c.called && nil_or_true c.called_on_all_paths)
    || (c.escapes || (not c.discarded && str_eq c.cancel_name ""))

-- The condition under which a goroutine is passed over. Its graph decides if there is one, then the
-- imported verdict, then the flags.
unfoldable pub goroutine_ok : Goroutine → Run Bool
goroutine_ok g = elim g.cfg [
  | some graph ↦ unresolved_loop graph >>= (λ unresolved. ok (not unresolved))
  | none ↦ elim g.imported_unresolved_loop [
    | some unresolved ↦ ok (not unresolved)
    | none ↦ ok (
        not g.infinite_loop
        || (g.has_return || (g.context_stop || (g.channel_stop || g.explicit_stop))))
  ]
]

unfoldable pub group_joined : JoinGroup → Bool
group_joined g =
    g.joined
    && (nil_or_true g.joined_on_all_paths && (not g.count_mismatch && not g.unjoined_round))

-- Which of the four questions about a group fails first.
pub data JoinFailure : Type 0 where
  unjoined some_paths further_round outstanding : JoinFailure

unfoldable pub join_failure : JoinGroup → JoinFailure
join_failure g =
    if not g.joined
    then unjoined
    else if not (nil_or_true g.joined_on_all_paths)
    then some_paths
    else if g.unjoined_round
    then further_round
    else outstanding

-- The parts of a message that are added for a failure that is not the first one.
unfoldable pub also_mismatch : JoinGroup → Bool
also_mismatch g =
    g.count_mismatch
    && (not g.joined || (not (nil_or_true g.joined_on_all_paths) || g.unjoined_round))

unfoldable pub also_round : JoinGroup → Bool
also_round g = g.unjoined_round && (not g.joined || not (nil_or_true g.joined_on_all_paths))

unfoldable pub is_errgroup : JoinGroup → Bool
is_errgroup g = str_eq g.kind "errgroup"

unfoldable pub join_suggestion : JoinFailure → String
join_suggestion unjoined =
    "wait for the group before the owner returns, or transfer ownership explicitly"
join_suggestion some_paths = "move the Wait call so every return path reaches it, e.g. with defer"
join_suggestion further_round = "add a further Wait call to join that later round of work"
join_suggestion outstanding =
    "check every Add call is matched by exactly one Done, including on early-return paths"

-- `strings.Join` with ", ".
unfoldable pub join_names : List String → String
join_names [] = ""
join_names (s ∷ []) = s
join_names (s ∷ t ∷ rest) = cat s (cat ", " (join_names (t ∷ rest)))

module _ (fmt : Format) where
  unfoldable pub cancel_message : CancelBinding → String
  cancel_message c =
      let start =
        if not c.called && not c.discarded
        then text (
            "cancel function "
            ∷ fmt.quoted c.cancel_name
            ∷ " returned by "
            ∷ c.factory
            ∷ " has no observed call or ownership transfer"
            ∷ [])
        else if not c.called
        then text ("cancel function returned by " ∷ c.factory ∷ " is discarded" ∷ [])
        else text (
            "cancel function "
            ∷ fmt.quoted c.cancel_name
            ∷ " returned by "
            ∷ c.factory
            ∷ " is called on some but not every path back to the owner's return"
            ∷ []) in
      if c.used_by_child
      then cat start
          "; a child goroutine uses the derived context and may retain resources until parent cancellation"
      else start

  unfoldable pub join_message : JoinGroup → JoinFailure → String
  join_message g unjoined = text (
      g.kind
      ∷ " "
      ∷ fmt.quoted g.name
      ∷ " accounts for "
      ∷ fmt.decimal g.starts
      ∷ " worker start(s) but no Wait or ownership transfer is observed"
      ∷ [])
  join_message g some_paths = text (
      g.kind
      ∷ " "
      ∷ fmt.quoted g.name
      ∷ " is joined on some but not every path back to the owner's return"
      ∷ [])
  join_message g further_round = text (
      g.kind
      ∷ " "
      ∷ fmt.quoted g.name
      ∷ " starts a further round of work after its last observed Wait call, with no further Wait to join it"
      ∷ [])
  join_message g outstanding = text (
      g.kind
      ∷ " "
      ∷ fmt.quoted g.name
      ∷ " is joined on every path, but literal Add/Done accounting proves an outstanding worker; Wait may never return"
      ∷ [])

  -- The additions, and the message of an errgroup that is not joined, which replaces the whole text.
  unfoldable pub full_join_message : JoinGroup → String
  full_join_message g =
      let first = join_message g (join_failure g) in
      let second =
        if also_mismatch g
        then cat first
            "; independently, literal Add/Done accounting also shows an outstanding worker"
        else first in
      let third =
        if also_round g
        then cat second
            "; independently, a further round of work after the last Wait call is never joined"
        else second in
      if is_errgroup g && not g.joined
      then text (
          "errgroup "
          ∷ fmt.quoted g.name
          ∷ " starts "
          ∷ fmt.decimal g.starts
          ∷ " worker(s) but no Wait or ownership transfer is observed"
          ∷ [])
      else third

  unfoldable pub full_join_suggestion : JoinGroup → String
  full_join_suggestion g =
      let first = join_suggestion (join_failure g) in
      let second =
        if also_mismatch g
        then cat first
            "; also check every Add call is matched by exactly one Done, including on early-return paths"
        else first in
      if also_round g
      then cat second "; also add a further Wait call for that later round"
      else second

  unfoldable pub stop_message : JoinGroup → String
  stop_message g =
      if str_eq g.stop_correlation "assumed-wrapper"
      then text (
          g.kind
          ∷ " "
          ∷ fmt.quoted g.name
          ∷ " is joined before the configured stop wrapper is called; the wrapper is assumed to be what stops this group's workers"
          ∷ [])
      else text (
          g.kind
          ∷ " "
          ∷ fmt.quoted g.name
          ∷ " is joined before its workers' own stop signal is guaranteed to have been sent"
          ∷ [])

abbrev no_stop : String
no_stop = "goroutine has an unconditional loop and no recognized termination path"

module _ (fmt : Format) (program : Program) (cfg : Config) (fn : Function) where
  unfoldable pub cancel_finding : CancelBinding → Diagnostic
  cancel_finding c =
      base program cfg fn "LL1001" (cancel_message fmt c) c.span "context-cancel" c.evidence
        "call the cancellation function on every path, usually with defer immediately after construction"
        c.suggested_fix

  unfoldable pub cancel_findings : List CancelBinding → List Diagnostic
  cancel_findings [] = []
  cancel_findings (c ∷ cs) =
      (if cancel_ok c then [] else cancel_finding c ∷ []) ++ cancel_findings cs

  -- By the contexts that are at hand for a stop.
  unfoldable pub stop_advice : Goroutine → List String → Diagnostic
  stop_advice g [] =
      base program cfg fn "LL1002" no_stop g.span "goroutine-stop" g.evidence
        "establish an explicit owner and stop protocol" none
  stop_advice g (c ∷ cs) =
      base program cfg fn "LL1002"
        (text
          (no_stop ∷ "; available cancellation source: " ∷ join_names (c ∷ cs) ∷ ".Done()" ∷ []))
        g.span "goroutine-stop" g.evidence
        "select on the available context's Done channel and return" none

  unfoldable pub goroutine_finding : Goroutine → Diagnostic
  goroutine_finding g = stop_advice g g.available_contexts

  unfoldable pub goroutine_findings : List Goroutine → Run (List Diagnostic)
  goroutine_findings [] = ok []
  goroutine_findings (g ∷ gs) = goroutine_ok g >>= (λ fine.
      goroutine_findings gs
      >>= (λ rest. ok ((if fine then [] else goroutine_finding g ∷ []) ++ rest)))

  unfoldable pub join_finding : JoinGroup → Diagnostic
  join_finding g =
      base program cfg fn (if is_errgroup g then "LL1004" else "LL1003") (full_join_message fmt g)
        g.span (if is_errgroup g then "errgroup-join" else "waitgroup-join") g.evidence
        (full_join_suggestion fmt g) none

  unfoldable pub stop_finding : JoinGroup → Diagnostic
  stop_finding g =
      base program cfg fn "LL1005" (stop_message fmt g) g.span "wait-before-stop" g.evidence
        "send the stop signal before waiting, not after" none

  unfoldable pub group_findings : List JoinGroup → List Diagnostic
  group_findings [] = []
  group_findings (g ∷ gs) =
      (if (g.starts == 0) || g.escapes
        then []
        else (if group_joined g then [] else join_finding g ∷ [])
          ++ (if g.stop_after_wait then stop_finding g ∷ [] else []))
      ++ group_findings gs

  -- One round of the loop over the functions.
  unfoldable pub function_findings : Run (List Diagnostic)
  function_findings =
      goroutine_findings fn.goroutines
      >>= (λ middle. ok (cancel_findings fn.cancels ++ (middle ++ group_findings fn.groups)))
