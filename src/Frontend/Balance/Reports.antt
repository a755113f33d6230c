-- ===== src/Frontend/Balance/Reports.antt =====
-- A count mismatch that the accounting of a whole function reports.
use lifeline.Prelude.{
  ℕ, ◌+◌, ◌<◌, ◌≤◌, ◌≡◌, refl, sym, ap, ◌∙◌, subst, arith, Bool, true, false, some,
}
use lifeline.Prelude.{Bool-cases, inl, inr, if◌then◌else◌}
use lifeline.Model.Facts.{JoinGroup}
use lifeline.Engine.Diagnostics.{Format}
use lifeline.Frontend.Balance.{
  Stmt, Stmts, return_stmt, no_stmts, more_stmts, Balance, Tally, no_balance, tally, walk_stmt,
  walk_stmts, walk_body, mismatched, compute_group_balance, mentions, everywhere,
}
use lifeline.Frontend.Balance.Runs.{falls, RunsList, list_is_plain}
use lifeline.Frontend.Balance.Sound.{walk_body-bound}
use lifeline.Frontend.Balance.Index.{walk_body-index}

abbrev is_return : Stmt → Bool
is_return (return_stmt part) = true
is_return _ = false

-- The statements as far as a return that ends them.
abbrev pub to_return : Stmts → Stmts
to_return no_stmts = no_stmts
to_return (more_stmts s no_stmts) = if is_return s then no_stmts else more_stmts s no_stmts
to_return (more_stmts s (more_stmts x xs)) = more_stmts s (to_return (more_stmts x xs))

walk-return :
    (s : Stmt) (b : Balance) → is_return s ≡ true → walk_stmt everywhere s (tally b) ≡ tally b
unfolding walk_stmt
walk-return (return_stmt part) b h = refl
walk-return _ b h = absurd (cc (h))

walk-to_return :
    (body : Stmts) (b : Balance)
    → walk_stmts everywhere (to_return body) b ≡ walk_stmts everywhere body b
unfolding walk_stmts
walk-to_return no_stmts b = refl
walk-to_return (more_stmts s no_stmts) b = elim (Bool-cases (is_return s)) [
  | inl returns ↦ rw returns (sym (ap (λ (t : Tally). t.bal) (walk-return s b returns)))
  | inr other ↦ rw other refl
]
walk-to_return (more_stmts s (more_stmts x xs)) b = walk-to_return (more_stmts x xs) _

plain-to_return : (body : Stmts) → list_is_plain body ≡ true → list_is_plain (to_return body) ≡ true
unfolding list_is_plain
plain-to_return no_stmts h = refl
plain-to_return (more_stmts s no_stmts) h = elim (Bool-cases (is_return s)) [
  | inl returns ↦ rw returns refl
  | inr other ↦ rw other h
]
plain-to_return (more_stmts s (more_stmts x xs)) h =
    ground (arith, h, plain-to_return (more_stmts x xs))

same_balance : (body : Stmts) → walk_body mentions body ≡ walk_body everywhere (to_return body)
unfolding walk_body
same_balance body = walk_body-index body ∙ sym (walk-to_return body no_balance)

mismatch_runs :
    (b : Balance) (a d : ℕ)
    → mismatched b ≡ true
    → (b.fully_known ≡ true → b.add_total + d ≤ b.done_total + a)
    → d < a
unfolding mismatched
mismatch_runs b a d h k = ground (arith, h, k)

newly_set :
    (fmt : Format) (body : Stmts) (g : JoinGroup)
    → g.count_mismatch ≡ false
    → (compute_group_balance fmt (some body) g).count_mismatch ≡ true
    → mismatched (walk_body mentions body) ≡ true
unfolding compute_group_balance
newly_set fmt body g unset set = elim (Bool-cases (mismatched (walk_body mentions body))) [
  | inl yes_mismatched ↦ yes_mismatched
  | inr not_mismatched ↦ absurd (ground (arith, set, unset, not_mismatched))
]

-- A count mismatch that `computeGroupBalances` reports is real for a body that the accounting reads whole: one without
-- break, continue and goto, that defers no Add, and in which nothing else changes the counter, no worker by
-- more than one Done. On every run of such a body that comes to its end, or to a return that ends it,
-- more units are added to the counter than calls of Done take off, so a Wait there never returns. The runs
-- take every branch, any number of rounds of a loop, and leave out those that return earlier.
pub compute_group_balance-IsSound :
    (fmt : Format) (body : Stmts) (g : JoinGroup) (a d : ℕ)
    → list_is_plain body ≡ true
    → g.count_mismatch ≡ false
    → (compute_group_balance fmt (some body) g).count_mismatch ≡ true
    → RunsList (to_return body) falls a d
    → d < a
compute_group_balance-IsSound fmt body g a d plain unset set r =
    mismatch_runs (walk_body mentions body) a d (newly_set fmt body g unset set) (
      subst (λ b. b.fully_known ≡ true → b.add_total + d ≤ b.done_total + a)
        (sym (same_balance body))
        (λ known. walk_body-bound (to_return body) a d (plain-to_return body plain) known r))
