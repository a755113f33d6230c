-- ===== src/Tests/Frontend.antt =====
-- Samples for the accounting of a WaitGroup and for the questions about paths.
use lifeline.Prelude.{ℕ, ◌+◌, ◌<◌, pos, ◌≡◌, ◌≢◌, ◌⊎◌, ◌↔◌, refl, arith, ==_refl}
use lifeline.Prelude.{Bool, true, false, not, ◌||◌, ◌==◌, Option, none, some, [], ◌∷◌, ◌++◌}
use lifeline.Model.Source.{no_span}
use lifeline.Model.Graph.{BlockId, done, reachable, reachable_avoiding}
use lifeline.Model.Graph.Tarjan.{ok}
use lifeline.Model.Graph.Routes.{Flow, here, no_skip}
use lifeline.Model.Graph.Dominance.{Meets, reachable_avoiding_dominates}
use lifeline.Model.Facts.{CancelBinding, JoinGroup, ParamEffect}
use lifeline.Model.Effects.{has, effect_may, effect_must}
use lifeline.Engine.Diagnostics.{Format}
use lifeline.Cfg.Ast.{NodeId}
use lifeline.Cfg.Builder.{CallSite}
use lifeline.Frontend.Balance.{
  Part, Stmts, add, method_call, wait_call, go_literal, if_stmt, for_stmt, jump_stmt, return_stmt,
  other_stmt, no_else, more_stmts, no_stmts, walk_body, walk_stmts, walk_stmt, walk_list, note_add,
  note_spawned_done, mismatched, compute_group_balance, everywhere, mentions, list_mentions,
  else_mentions, fold_conditional_arms, arms_safe, else_arm, leave_loop, close_loop_scope,
}
use lifeline.Frontend.Balance.Runs.{
  falls, RunsList, in_order, cut_short, nothing, adds, worker_literal, waits, others, still,
  endless, ended, jumped, finished, taken, jump, is_plain, list_is_plain,
}
use lifeline.Frontend.Balance.Index.{walk_body-index}
use lifeline.Frontend.Balance.Reports.{to_return, compute_group_balance-IsSound}
use lifeline.Frontend.Rounds.{
  flatten_top_level_stmts, flatten_stmt, wait_positions, rounds_from, close_rounds, close_round,
  note_round, accumulate, note_trailing, trailing_of, compute_group_round_balance,
}
use lifeline.Frontend.Rounds.Sound.{BlockedWait, compute_group_round_balance-IsSound}
use lifeline.Frontend.Paths.{
  Site, call_sites_of, placed, block_set_of, wait_before, int_lt, is_empty, live_exit_reachable,
  stop_proven_after_wait, registered_before,
}
use lifeline.Frontend.Paths.Live.{SomeUndischarged, live_exit_reachable-decides}
use lifeline.Frontend.Paths.Before.{
  MeetsEarlier, SomeEarlier, stop_proven_after_wait-IsSound, registered_before-decides,
}
use lifeline.Frontend.Stops.{Signal, waits_of, compute_stop_ordering}
use lifeline.Frontend.Stops.Order.{StopsLate, compute_stop_ordering-decides}
use lifeline.Frontend.Ordering.{CancelCalls, JoinCalls, order_group, order_cancel}
use lifeline.Frontend.Ordering.Joins.{
  NotAlwaysJoined, NotAlwaysCalled, order_group-decides, order_cancel-decides,
}
use lifeline.Frontend.Effects.{live_calls, param_effect_of}
use lifeline.Frontend.Effects.Must.{Bypassed, param_effect_of-must}
use lifeline.Tests.Graphs.{loop_graph, loop_graph_formed}

abbrev fmt : Format
fmt = record { quoted = λ s. s; decimal = λ n. "1"; integer = λ k. "1" }

abbrev group : JoinGroup
group = record {
  kind = "waitgroup";
  name = "wg";
  span = no_span;
  starts = 1;
  joined = true;
  escapes = false;
  evidence = [];
  count_mismatch = false;
  joined_on_all_paths = none;
  stop_after_wait = false;
  stop_correlation = "";
  unjoined_round = false;
}

-- A part without the group, and one that names it without changing the counter.
abbrev apart : Part
apart = record { mentions = false; changes = false }

abbrev names_it : Part
names_it = record { mentions = true; changes = false }

-- wg.Add(2); go func() { wg.Done() }(); log(); wg.Wait(); return nil
abbrev short_of_one : Stmts
short_of_one = more_stmts (method_call false (add (some 2))) (
    more_stmts (go_literal true names_it) (
      more_stmts (other_stmt apart)
        (more_stmts wait_call (more_stmts (return_stmt apart) no_stmts))))

walk_body-index_example : walk_body mentions short_of_one ≡ walk_body everywhere short_of_one
walk_body-index_example = walk_body-index short_of_one

short_run :
    RunsList
      (to_return short_of_one)
      falls
      (2 + (0 + (0 + (0 + 0))))
      ((0 + 0) + ((0 + 1) + (0 + (0 + 0))))
short_run = in_order (adds 2) (
    in_order (worker_literal 1 (omega arith) still)
      (in_order (others still) (in_order waits nothing)))

short-plain : list_is_plain short_of_one ≡ true
unfolding list_is_plain is_plain
short-plain = refl

short-reported : (compute_group_balance fmt (some short_of_one) group).count_mismatch ≡ true
unfolding compute_group_balance walk_body walk_stmts walk_stmt note_add note_spawned_done mismatched
    mentions
short-reported = refl

compute_group_balance-IsSound_example : 1 < 2
compute_group_balance-IsSound_example =
    compute_group_balance-IsSound fmt short_of_one group (2 + (0 + (0 + (0 + 0))))
      ((0 + 0) + ((0 + 1) + (0 + (0 + 0)))) short-plain refl short-reported short_run

short_round-reported :
    (compute_group_round_balance fmt (some short_of_one) group).count_mismatch ≡ true
unfolding compute_group_round_balance rounds_from close_rounds close_round note_round accumulate
    note_trailing trailing_of flatten_top_level_stmts flatten_stmt wait_positions walk_stmts
    walk_stmt note_add note_spawned_done mentions
short_round-reported = refl

compute_group_round_balance-IsSound_example : BlockedWait (flatten_top_level_stmts short_of_one)
compute_group_round_balance-IsSound_example =
    compute_group_round_balance-IsSound fmt short_of_one group short-plain refl short_round-reported

-- for { go func() { wg.Done() }(); if stop { break }; wg.Add(1) }
abbrev breaking_loop : Stmts
breaking_loop = more_stmts (go_literal true names_it) (
    more_stmts (if_stmt apart none (more_stmts jump_stmt no_stmts) no_else)
      (more_stmts (method_call false (add (some 1))) no_stmts))

-- wg.Add(1), the loop, and wg.Wait(). The break makes as many units as calls of Done, and yet a mismatch is reported.
abbrev breaking : Stmts
breaking =
    more_stmts (method_call false (add (some 1)))
      (more_stmts (for_stmt apart (some true) breaking_loop) (more_stmts wait_call no_stmts))

breaking-reported : (compute_group_balance fmt (some breaking) group).count_mismatch ≡ true
unfolding compute_group_balance walk_body walk_stmts walk_stmt walk_list note_add note_spawned_done
    mismatched mentions list_mentions else_mentions fold_conditional_arms arms_safe else_arm
    leave_loop close_loop_scope
breaking-reported = refl

breaking_run : RunsList breaking falls 1 1
breaking_run = in_order (adds 1) (
    in_order
      (endless (
        ended (
          jumped still
            (in_order (worker_literal 1 (omega arith) still) (
              cut_short (taken still (cut_short jump (λ e. absurd (cc (e)))))
                (λ e. absurd (cc (e)))))
            (finished still))))
      (in_order waits nothing))

abbrev entry_site : ℕ → Site
entry_site k = record { block = loop_graph.entry; index = pos k }

live_exit_reachable-decides_example :
    (b : Bool) × (live_exit_reachable loop_graph [] [] no_skip (entry_site 0 ∷ []) ≡ ok (b, true))
    × ((b ≡ true)
        ↔ ∥ SomeUndischarged loop_graph loop_graph_formed [] [] no_skip (entry_site 0 ∷ []) ∥₁)
live_exit_reachable-decides_example =
    live_exit_reachable-decides loop_graph loop_graph_formed [] [] no_skip (entry_site 0 ∷ [])
      (loop_graph_formed.entry_fits, tt)

avoiding_entry :
    (seen : BlockId → Bool) × (reachable_avoiding loop_graph loop_graph.entry
        (block_set_of (entry_site 0 ∷ []))
      ≡ done seen)
    × ((v : BlockId)
        → (seen v ≡ false) ↔ (
            (r : Flow loop_graph loop_graph.entry v)
            → Meets loop_graph loop_graph.entry (block_set_of (entry_site 0 ∷ [])) r))
avoiding_entry =
    reachable_avoiding_dominates loop_graph loop_graph_formed loop_graph.entry
      (block_set_of (entry_site 0 ∷ [])) loop_graph_formed.entry_fits

later_stop-proven :
    stop_proven_after_wait
      (entry_site 0 ∷ [])
      (block_set_of (entry_site 0 ∷ []))
      avoiding_entry.0
      (entry_site 1)
    ≡ true
unfolding stop_proven_after_wait block_set_of wait_before
later_stop-proven = ground (arith, ==_refl loop_graph.entry)

stop_proven_after_wait-IsSound_example :
    MeetsEarlier loop_graph loop_graph.entry (block_set_of (entry_site 0 ∷ [])) here
    ⊎ SomeEarlier (entry_site 0 ∷ []) (entry_site 1)
stop_proven_after_wait-IsSound_example =
    stop_proven_after_wait-IsSound loop_graph loop_graph_formed (entry_site 0 ∷ []) (entry_site 1)
      avoiding_entry.0 avoiding_entry.1 later_stop-proven here

registered_before-decides_example :
    (before : Bool) × (registered_before loop_graph (entry_site 0) (entry_site 1) ≡ ok before)
    × ((before ≡ true) ↔ (
        ((loop_graph.entry ≡ loop_graph.entry) × (int_lt (pos 0) (pos 1) ≡ true))
        ⊎ ((loop_graph.entry ≢ loop_graph.entry)
            × ((r : Flow loop_graph loop_graph.entry loop_graph.entry)
                → Meets loop_graph loop_graph.entry (λ v. loop_graph.entry == v) r))))
registered_before-decides_example =
    registered_before-decides loop_graph loop_graph_formed (entry_site 0) (entry_site 1)

abbrev call_site : NodeId → Option CallSite
call_site n = some (record { block = loop_graph.entry; index = 0; async = false })

abbrev never_deferred : NodeId → Bool
never_deferred n = false

param_effect_of-must_example :
    (e : ParamEffect) × (reach : BlockId → Bool) × (param_effect_of loop_graph call_site
        never_deferred
        (7 ∷ [])
        []
        []
        false
        false
        false
      ≡ ok e)
    × (reachable loop_graph loop_graph.entry ≡ done reach)
    × ((has e effect_must ≡ true) ↔ (
        (is_empty (live_calls reach call_site (7 ∷ [])) ≡ false)
        × (Bypassed loop_graph loop_graph_formed call_site never_deferred
              (live_calls reach call_site (7 ∷ []) ++ live_calls reach call_site [])
            → ⊥)))
    × ((not (has e effect_must) || has e effect_may) ≡ true)
param_effect_of-must_example =
    param_effect_of-must loop_graph loop_graph_formed call_site never_deferred (7 ∷ []) [] [] false
      false false

-- `defer cancel()` beside a plain `wg.Wait()`.
abbrev late_stop : Signal
late_stop = record { site = entry_site 0; deferred = true; correlation = "worker-context" }

compute_stop_ordering-decides_example :
    (out : JoinGroup) × (compute_stop_ordering loop_graph call_site never_deferred
        (late_stop ∷ [])
        true
        (7 ∷ [])
        group
      ≡ ok out)
    × ((out.stop_after_wait ≡ true)
        ↔ ∥ (is_empty (late_stop ∷ []) ≡ false)
            × (true ≡ true)
            × StopsLate loop_graph loop_graph_formed
                (waits_of call_site never_deferred (7 ∷ []))
                (late_stop ∷ []) ∥₁)
compute_stop_ordering-decides_example =
    compute_stop_ordering-decides loop_graph loop_graph_formed call_site never_deferred
      (late_stop ∷ []) true (7 ∷ []) group refl

abbrev join_calls : JoinCalls
join_calls = record {
  start_calls = 7 ∷ [];
  wait_call_sites = 7 ∷ [];
  helper_join_calls = [];
  wrapper_join_calls = [];
  may_join_calls = [];
}

order_group-decides_example :
    (out : JoinGroup) × (order_group loop_graph call_site never_deferred join_calls group ≡ ok out)
    × ((out.joined_on_all_paths ≡ some false)
        ↔ ∥ NotAlwaysJoined loop_graph loop_graph_formed call_site never_deferred join_calls
            group ∥₁)
unfolding call_sites_of placed
order_group-decides_example =
    order_group-decides loop_graph loop_graph_formed call_site never_deferred join_calls group refl
      (loop_graph_formed.entry_fits, tt)

-- The creation is guarded by a test that rules out every edge.
abbrev cancel_calls : CancelCalls
cancel_calls = record {
  call_sites = [];
  may_calls = 7 ∷ [];
  acquire_call = 7;
  skip = some (λ e. true);
}

abbrev binding : CancelBinding
binding = record {
  factory = "context.WithCancel";
  context_name = "ctx";
  cancel_name = "cancel";
  span = no_span;
  discarded = false;
  called = true;
  escapes = false;
  used_by_child = false;
  evidence = [];
  suggested_fix = none;
  called_on_all_paths = none;
}

order_cancel-decides_example :
    (out : CancelBinding) × (order_cancel loop_graph call_site never_deferred cancel_calls binding
      ≡ ok out)
    × ((out.called_on_all_paths ≡ some false)
        ↔ ∥ NotAlwaysCalled loop_graph loop_graph_formed call_site never_deferred cancel_calls
            binding ∥₁)
unfolding call_sites_of placed
order_cancel-decides_example =
    order_cancel-decides loop_graph loop_graph_formed call_site never_deferred cancel_calls binding
      refl (loop_graph_formed.entry_fits, tt)
