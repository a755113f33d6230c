-- ===== src/Frontend/Balance.antt =====
-- The literal accounting of one sync.WaitGroup in internal/frontend/frontend.go. A statement is
-- given by what the accounting asks of it for this group: whether it is a call of Add or Done on
-- the group, the constant value of its condition, what a started worker does about Done. The
-- answers come from go/types and from the facts of the callees. A Go `int` is a natural number:
-- each amount lies in 0..2^31-1, and a sum stays far below 2^63.
pub mod Runs
pub mod Keeps
pub mod Sound
pub mod Index
pub mod Reports
use lifeline.Prelude.{
  ℕ, zero, suc, ◌+◌, ◌-◌, Bool, true, false, not, ◌&&◌, ◌||◌, Option, none, some,
}
use lifeline.Prelude.{List, [], ◌∷◌, ◌++◌, length, ltb, ◌==◌, if◌then◌else◌}
use lifeline.Prelude.{str_eq}
use lifeline.Model.Facts.{ParamEffect, JoinGroup}
use lifeline.Engine.Diagnostics.{Format}
use lifeline.Engine.Findings.{text}
use lifeline.Model.Effects.{has, effect_may}

-- A call of a method of the group: `Add` with the value of `literalNonNegativeInt`, or `Done`.
pub data Method : Type 0 where
  add : Option ℕ → Method
  done : Method

-- A part of a statement that the accounting does not walk, such as a condition, an initializer, the arguments of a
-- call or a nested literal: whether the name of the group occurs in it, and whether it can change the
-- counter, by a helper or a literal that it calls, by its workers beyond one Done each, or through another name.
pub record Part : Type 0 where
  pub mentions : Bool
  pub changes : Bool

mutual
  pub data Stmt : Type 0 where
    -- a call on the group as a statement, and whether it is deferred
    method_call : Bool → Method → Stmt
    -- a bare call of `Wait` on the group
    wait_call : Stmt
    -- `go` with a function literal, whether its body calls Done on the group, and what else it does
    go_literal : Bool → Part → Stmt
    -- `go` with another target, the answer of `calleeDoneEffect`, and what else the call does
    go_call : ParamEffect → Part → Stmt
    block_stmt : Stmts → Stmt
    -- the initializer and the condition, the constant value of the condition, the body, and the else branch
    if_stmt : Part → Option Bool → Stmts → Else → Stmt
    -- the initializer, the condition and the post statement, and the constant value of the condition
    for_stmt : Part → Option Bool → Stmts → Stmt
    range_stmt : Part → Stmts → Stmt
    -- a switch or a type switch: the initializer, the tag and the expressions of the cases
    switch_stmt : Part → Clauses → Stmt
    -- a select: the communications of the clauses
    select_stmt : Part → Clauses → Stmt
    labeled_stmt : Stmt → Stmt
    -- break and continue, with a label or without
    jump_stmt : Stmt
    return_stmt : Part → Stmt
    goto_stmt : Stmt
    -- any other statement
    other_stmt : Part → Stmt

  pub data Else : Type 0 where
    no_else : Else
    else_stmt : Stmt → Else

  pub data Stmts : Type 0 where
    no_stmts : Stmts
    more_stmts : Stmt → Stmts → Stmts

  -- The clauses of a switch or select, each with whether its list or statement is nil.
  pub data Clauses : Type 0 where
    no_clauses : Clauses
    clause : Bool → Stmts → Clauses → Clauses

-- `groupBalance` and `loopScope`.
pub record Balance : Type 0 where
  pub add_total : ℕ
  pub done_total : ℕ
  pub spawned : ℕ
  pub fully_known : Bool

pub record LoopScope : Type 0 where
  pub add_ones : ℕ
  pub spawned_dones : ℕ
  pub other_activity : Bool

-- What a walk changes: the balance, and the scope of the loop around it if there is one.
pub record Tally : Type 0 where
  pub bal : Balance
  pub scope : Option LoopScope

abbrev pub no_balance : Balance
no_balance = record { add_total = 0; done_total = 0; spawned = 0; fully_known = true }

abbrev pub no_scope : LoopScope
no_scope = record { add_ones = 0; spawned_dones = 0; other_activity = false }

-- `bal.fullyKnown = false`, and `scope.otherActivity = true`.
abbrev pub not_known : Balance → Balance
not_known b = record b { fully_known = false }

abbrev pub active : LoopScope → LoopScope
active s = record s { other_activity = true }

unfoldable pub note_add : Option LoopScope → Option ℕ → Balance → Tally
note_add none (some amount) b = record {
  bal = record b { add_total = b.add_total + amount };
  scope = none;
}
note_add none none b = record { bal = not_known b; scope = none }
note_add (some s) none b = record { bal = b; scope = some (active s) }
note_add (some s) (some amount) b = record {
  bal = b;
  scope = some (if amount == 1 then record s { add_ones = suc s.add_ones } else active s);
}

unfoldable pub note_done : Option LoopScope → Balance → Tally
note_done none b = record { bal = record b { done_total = suc b.done_total }; scope = none }
note_done (some s) b = record { bal = b; scope = some (active s) }

unfoldable pub note_spawned_done : Option LoopScope → Balance → Tally
note_spawned_done none b = record {
  bal = record b { done_total = suc b.done_total; spawned = suc b.spawned };
  scope = none;
}
note_spawned_done (some s) b = record {
  bal = b;
  scope = some (record s { spawned_dones = suc s.spawned_dones });
}

-- `closeLoopScopeInto`.
unfoldable pub close_loop_scope : LoopScope → Balance → Balance
close_loop_scope s b =
    if s.other_activity
    then not_known b
    else if not (s.add_ones == s.spawned_dones)
    then (if not (s.add_ones == 0) || not (s.spawned_dones == 0) then not_known b else b)
    else b

-- The loop of `foldConditionalArms` over the arms.
unfoldable pub arms_safe : List Balance → Bool
arms_safe [] = true
arms_safe (arm ∷ arms) = (arm.fully_known && (arm.add_total == arm.done_total)) && arms_safe arms

unfoldable pub fold_unsafe : Option LoopScope → Balance → Tally
fold_unsafe none b = record { bal = not_known b; scope = none }
fold_unsafe (some s) b = record { bal = b; scope = some (active s) }

unfoldable pub fold_conditional_arms : List Balance → Tally → Tally
fold_conditional_arms arms t = if arms_safe arms then t else fold_unsafe t.scope t.bal

-- The tally of a loop's body, folded back.
unfoldable pub leave_loop : Option LoopScope → Tally → Tally
leave_loop outer t = elim t.scope [
  | none ↦ record { bal = t.bal; scope = outer }
  | some inner ↦ record { bal = close_loop_scope inner t.bal; scope = outer }
]

abbrev pub enter_loop : Tally → Tally
enter_loop t = record { bal = t.bal; scope = some no_scope }

abbrev pub tally : Balance → Tally
tally b = record { bal = b; scope = none }

unfoldable pub has_default : Clauses → Bool
has_default no_clauses = false
has_default (clause is_nil body rest) = is_nil || has_default rest

-- What `buildGroupBalanceIndex` marks for one group: the statements in which, or beneath which, the name of the group
-- occurs. The map of the source has a key for each statement; what it says of one is a function of the
-- statement. A call of the method, and a worker with an effect on the group, name it.
unfoldable mutual
  pub mentions : Stmt → Bool
  mentions (method_call deferred m) = true
  mentions wait_call = true
  mentions (go_literal calls_done part) = calls_done || part.mentions
  mentions (go_call effect part) = has effect effect_may || part.mentions
  mentions (block_stmt body) = list_mentions body
  mentions (if_stmt part value body els) =
      part.mentions || (list_mentions body || else_mentions els)
  mentions (for_stmt part value body) = part.mentions || list_mentions body
  mentions (range_stmt part body) = part.mentions || list_mentions body
  mentions (switch_stmt part cs) = part.mentions || clauses_mention cs
  mentions (select_stmt part cs) = part.mentions || clauses_mention cs
  mentions (labeled_stmt s) = mentions s
  mentions jump_stmt = false
  mentions (return_stmt part) = part.mentions
  mentions goto_stmt = false
  mentions (other_stmt part) = part.mentions

  pub list_mentions : Stmts → Bool
  list_mentions no_stmts = false
  list_mentions (more_stmts s rest) = mentions s || list_mentions rest

  pub else_mentions : Else → Bool
  else_mentions no_else = false
  else_mentions (else_stmt s) = mentions s

  pub clauses_mention : Clauses → Bool
  clauses_mention no_clauses = false
  clauses_mention (clause is_nil body rest) = list_mentions body || clauses_mention rest

-- No index: every statement is walked.
abbrev pub everywhere : Stmt → Bool
everywhere s = true

-- The index says whether the group occurs beneath a statement; where there is none, it is always
-- true.
module _ (index : Stmt → Bool) where
  unfoldable mutual
    -- `walkGroupBalanceStmt`.
    pub walk_stmt : Stmt → Tally → Tally
    walk_stmt (method_call deferred (add amount)) t = note_add t.scope amount t.bal
    walk_stmt (method_call deferred done) t = note_done t.scope t.bal
    walk_stmt wait_call t = t
    walk_stmt (go_literal calls_done part) t =
        if calls_done then note_spawned_done t.scope t.bal else t
    walk_stmt (go_call effect part) t =
        if has effect effect_may then note_spawned_done t.scope t.bal else t
    walk_stmt (block_stmt body) t = walk_list body t
    walk_stmt (if_stmt part (some true) body els) t = walk_list body t
    walk_stmt (if_stmt part (some false) body els) t = walk_else els t
    walk_stmt (if_stmt part none body els) t =
        fold_conditional_arms (walk_stmts body no_balance ∷ else_arm els ∷ []) t
    walk_stmt (for_stmt part (some false) body) t = t
    walk_stmt (for_stmt part (some true) body) t =
        leave_loop t.scope (walk_list body (enter_loop t))
    walk_stmt (for_stmt part none body) t = leave_loop t.scope (walk_list body (enter_loop t))
    walk_stmt (range_stmt part body) t = leave_loop t.scope (walk_list body (enter_loop t))
    walk_stmt (switch_stmt part cs) t =
        fold_conditional_arms (walk_clauses cs ++ (if has_default cs then [] else no_balance ∷ []))
          t
    walk_stmt (select_stmt part no_clauses) t = fold_conditional_arms (no_balance ∷ []) t
    walk_stmt (select_stmt part (clause is_nil body rest)) t =
        fold_conditional_arms (walk_stmts body no_balance ∷ walk_clauses rest) t
    walk_stmt (labeled_stmt s) t = walk_stmt s t
    walk_stmt jump_stmt t = t
    walk_stmt (return_stmt part) t = t
    walk_stmt goto_stmt t = t
    walk_stmt (other_stmt part) t = t

    -- The statements of a block or of a loop's body, into one tally.
    pub walk_list : Stmts → Tally → Tally
    walk_list no_stmts t = t
    walk_list (more_stmts s rest) t = walk_list rest (walk_stmt s t)

    -- An else branch that is taken, and one that is an arm of its own.
    pub walk_else : Else → Tally → Tally
    walk_else no_else t = t
    walk_else (else_stmt s) t = walk_stmt s t

    pub else_arm : Else → Balance
    else_arm no_else = no_balance
    else_arm (else_stmt s) = if index s then (walk_stmt s (tally no_balance)).bal else no_balance

    -- The loop of `walkGroupBalanceStmts`, from the balance so far.
    pub walk_stmts : Stmts → Balance → Balance
    walk_stmts no_stmts b = b
    walk_stmts (more_stmts s rest) b =
        walk_stmts rest (if index s then (walk_stmt s (tally b)).bal else b)

    -- The arms of `walkCaseClauses` and `walkCommClauses`.
    pub walk_clauses : Clauses → List Balance
    walk_clauses no_clauses = []
    walk_clauses (clause is_nil body rest) = walk_stmts body no_balance ∷ walk_clauses rest

-- `walkGroupBalance`, on a body that is not nil.
unfoldable pub walk_body : (Stmt → Bool) → Stmts → Balance
walk_body index body = walk_stmts index body no_balance

unfoldable pub mismatched : Balance → Bool
mismatched b = b.fully_known && ltb b.done_total b.add_total

-- A round of `computeGroupBalances`; the body is as the group's object sees it, and none where
-- the group has no object.
unfoldable pub compute_group_balance : Format → Option Stmts → JoinGroup → JoinGroup
compute_group_balance fmt none g = g
compute_group_balance fmt (some body) g =
    let bal = walk_body mentions body in
    if str_eq g.kind "waitgroup" && mismatched bal
    then record g {
      count_mismatch = true;
      evidence =
          g.evidence
          ++ (record {
            kind = "count-mismatch";
            message = text (
                "literal accounting shows "
                ∷ fmt.decimal (bal.add_total - bal.done_total)
                ∷ " more Add than Done; Wait may never return"
                ∷ []);
            span = none;
          })
            ∷ [];
    }
    else g
