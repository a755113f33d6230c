-- ===== src/Frontend/Balance/Index.antt =====
-- The skip index of the accounting changes nothing.
-- It leaves out only statements in which the group is not named.
use lifeline.Prelude.{◌≡◌, refl, sym, ap, ◌∙◌, arith, Bool, true, false, ◌||◌}
use lifeline.Prelude.{none, some, List, [], ◌∷◌, ◌++◌, if◌then◌else◌}
use lifeline.Model.Effects.{has, effect_may}
use lifeline.Frontend.Balance.{
  Stmt, Stmts, Else, Clauses, add, done, method_call, wait_call, go_literal, go_call, block_stmt,
  if_stmt, for_stmt, range_stmt, switch_stmt, select_stmt, labeled_stmt, jump_stmt, return_stmt,
  goto_stmt, other_stmt, no_else, else_stmt, no_stmts, more_stmts, no_clauses, clause, Balance,
  Tally, no_balance, close_loop_scope, arms_safe, fold_conditional_arms, leave_loop, enter_loop,
  tally, has_default, walk_stmt, walk_list, walk_else, else_arm, walk_stmts, walk_clauses,
  walk_body, everywhere, mentions, list_mentions, else_mentions, clauses_mention,
}

or_false : (a b : Bool) → (a || b) ≡ false → (a ≡ false) × (b ≡ false)
or_false true b h = absurd (cc)
or_false false b h = (refl, h)

-- Arms of which nothing was counted.
AllIdle : List Balance → Type 0
AllIdle [] = Unit
AllIdle (b ∷ bs) = (b ≡ no_balance) × AllIdle bs

AllIdle-safe : (bs : List Balance) → AllIdle bs → arms_safe bs ≡ true
unfolding arms_safe AllIdle
AllIdle-safe [] h = refl
AllIdle-safe (b ∷ bs) (e, h) = ground (arith, e, AllIdle-safe bs h)

fold_idle : (bs : List Balance) (t : Tally) → AllIdle bs → fold_conditional_arms bs t ≡ t
unfolding fold_conditional_arms
fold_idle bs t h = rw (AllIdle-safe bs h)

AllIdle-append : (bs cs : List Balance) → AllIdle bs → AllIdle cs → AllIdle (bs ++ cs)
unfolding AllIdle
AllIdle-append [] cs h k = k
AllIdle-append (b ∷ bs) cs (e, h) k = (e, AllIdle-append bs cs h k)

AllIdle-if : (c : Bool) → AllIdle (if c then [] else no_balance ∷ [])
unfolding AllIdle
AllIdle-if true = tt
AllIdle-if false = (refl, tt)

leave_idle : (t : Tally) → leave_loop t.scope (enter_loop t) ≡ t
unfolding leave_loop close_loop_scope
leave_idle t = refl

if-away : {A : Type 0} (c : Bool) (x y : A) → c ≡ false → (if c then x else y) ≡ y
if-away false x y h = refl
if-away true x y h = absurd (cc (h))

if-same : {A : Type 0} (c : Bool) (x y : A) → x ≡ y → (if c then x else y) ≡ y
if-same true x y h = h
if-same false x y h = refl

module _ (index : Stmt → Bool) where
  mutual
    unfolding AllIdle walk_stmt walk_list walk_else else_arm walk_stmts walk_clauses mentions
        list_mentions else_mentions clauses_mention

    idle_stmt : (s : Stmt) → mentions s ≡ false → (t : Tally) → walk_stmt index s t ≡ t
    idle_stmt (method_call deferred m) h t = absurd (cc)
    idle_stmt wait_call h t = absurd (cc)
    idle_stmt (go_literal true part) h t = absurd (cc)
    idle_stmt (go_literal false part) h t = refl
    idle_stmt (go_call effect part) h t =
        if-away (has effect effect_may) _ _ ((or_false (has effect effect_may) _ h).0)
    idle_stmt (block_stmt body) h t = idle_list body h t
    idle_stmt (if_stmt part (some true) body els) h t =
        idle_list body ((or_false _ _ ((or_false part.mentions _ h).1)).0) t
    idle_stmt (if_stmt part (some false) body els) h t =
        idle_else els ((or_false (list_mentions body) _ ((or_false part.mentions _ h).1)).1) t
    idle_stmt (if_stmt part none body els) h t =
        let below = (or_false part.mentions _ h).1 in
        fold_idle _ t (
          idle_stmts body ((or_false _ _ below).0),
          (idle_arm els ((or_false (list_mentions body) _ below).1), tt),
        )
    idle_stmt (for_stmt part (some false) body) h t = refl
    idle_stmt (for_stmt part (some true) body) h t =
        ap (leave_loop t.scope) (idle_list body ((or_false part.mentions _ h).1) (enter_loop t))
        ∙ leave_idle t
    idle_stmt (for_stmt part none body) h t =
        ap (leave_loop t.scope) (idle_list body ((or_false part.mentions _ h).1) (enter_loop t))
        ∙ leave_idle t
    idle_stmt (range_stmt part body) h t =
        ap (leave_loop t.scope) (idle_list body ((or_false part.mentions _ h).1) (enter_loop t))
        ∙ leave_idle t
    idle_stmt (switch_stmt part cs) h t = fold_idle _ t (
        AllIdle-append (walk_clauses index cs) _ (idle_clauses cs ((or_false part.mentions _ h).1))
          (AllIdle-if (has_default cs)))
    idle_stmt (select_stmt part no_clauses) h t = fold_idle (no_balance ∷ []) t (refl, tt)
    idle_stmt (select_stmt part (clause is_nil body rest)) h t =
        let below = (or_false part.mentions _ h).1 in
        fold_idle _ t (
          idle_stmts body ((or_false _ _ below).0),
          idle_clauses rest ((or_false (list_mentions body) _ below).1),
        )
    idle_stmt (labeled_stmt s) h t = idle_stmt s h t
    idle_stmt jump_stmt h t = refl
    idle_stmt (return_stmt part) h t = refl
    idle_stmt goto_stmt h t = refl
    idle_stmt (other_stmt part) h t = refl

    idle_list : (ss : Stmts) → list_mentions ss ≡ false → (t : Tally) → walk_list index ss t ≡ t
    idle_list no_stmts h t = refl
    idle_list (more_stmts s rest) h t =
        ap (walk_list index rest) (idle_stmt s ((or_false _ _ h).0) t)
        ∙ idle_list rest ((or_false (mentions s) _ h).1) t

    idle_else : (x : Else) → else_mentions x ≡ false → (t : Tally) → walk_else index x t ≡ t
    idle_else no_else h t = refl
    idle_else (else_stmt s) h t = idle_stmt s h t

    idle_arm : (x : Else) → else_mentions x ≡ false → else_arm index x ≡ no_balance
    idle_arm no_else h = refl
    idle_arm (else_stmt s) h =
        if-same (index s) _ _ (ap (λ (t : Tally). t.bal) (idle_stmt s h (tally no_balance)))

    idle_stmts :
        (ss : Stmts) → list_mentions ss ≡ false → walk_stmts index ss no_balance ≡ no_balance
    idle_stmts no_stmts h = refl
    idle_stmts (more_stmts s rest) h =
        ap (walk_stmts index rest) (
          if-same (index s) _ _
            (ap (λ (t : Tally). t.bal) (idle_stmt s ((or_false _ _ h).0) (tally no_balance))))
        ∙ idle_stmts rest ((or_false (mentions s) _ h).1)

    idle_clauses : (cs : Clauses) → clauses_mention cs ≡ false → AllIdle (walk_clauses index cs)
    idle_clauses no_clauses h = tt
    idle_clauses (clause is_nil body rest) h = (
      idle_stmts body ((or_false _ _ h).0),
      idle_clauses rest ((or_false (list_mentions body) _ h).1),
    )

if-idle :
    {A : Type 0} (c : Bool) (x y z : A) → x ≡ z → (c ≡ false → z ≡ y) → (if c then x else y) ≡ z
if-idle true x y z h k = h
if-idle false x y z h k = sym (k refl)

mutual
  unfolding walk_stmt walk_list walk_else else_arm walk_stmts walk_clauses

  same_stmt : (s : Stmt) (t : Tally) → walk_stmt mentions s t ≡ walk_stmt everywhere s t
  same_stmt (method_call deferred (add amount)) t = refl
  same_stmt (method_call deferred done) t = refl
  same_stmt wait_call t = refl
  same_stmt (go_literal calls_done part) t = refl
  same_stmt (go_call effect part) t = refl
  same_stmt (block_stmt body) t = same_list body t
  same_stmt (if_stmt part (some true) body els) t = same_list body t
  same_stmt (if_stmt part (some false) body els) t = same_else els t
  same_stmt (if_stmt part none body els) t = cc (same_stmts body no_balance, same_arm els)
  same_stmt (for_stmt part (some false) body) t = refl
  same_stmt (for_stmt part (some true) body) t =
      ap (leave_loop t.scope) (same_list body (enter_loop t))
  same_stmt (for_stmt part none body) t = ap (leave_loop t.scope) (same_list body (enter_loop t))
  same_stmt (range_stmt part body) t = ap (leave_loop t.scope) (same_list body (enter_loop t))
  same_stmt (switch_stmt part cs) t =
      ap
        (λ arms. fold_conditional_arms (arms ++ (if has_default cs then [] else no_balance ∷ [])) t)
        (same_clauses cs)
  same_stmt (select_stmt part no_clauses) t = refl
  same_stmt (select_stmt part (clause is_nil body rest)) t =
      cc (same_stmts body no_balance, same_clauses rest)
  same_stmt (labeled_stmt s) t = same_stmt s t
  same_stmt jump_stmt t = refl
  same_stmt (return_stmt part) t = refl
  same_stmt goto_stmt t = refl
  same_stmt (other_stmt part) t = refl

  same_list : (ss : Stmts) (t : Tally) → walk_list mentions ss t ≡ walk_list everywhere ss t
  same_list no_stmts t = refl
  same_list (more_stmts s rest) t =
      ap (walk_list mentions rest) (same_stmt s t) ∙ same_list rest (walk_stmt everywhere s t)

  same_else : (x : Else) (t : Tally) → walk_else mentions x t ≡ walk_else everywhere x t
  same_else no_else t = refl
  same_else (else_stmt s) t = same_stmt s t

  same_arm : (x : Else) → else_arm mentions x ≡ else_arm everywhere x
  same_arm no_else = refl
  same_arm (else_stmt s) =
      if-idle (mentions s) _ _ _ (ap (λ (t : Tally). t.bal) (same_stmt s (tally no_balance)))
        (λ out. ap (λ (t : Tally). t.bal) (idle_stmt everywhere s out (tally no_balance)))

  same_stmts : (ss : Stmts) (b : Balance) → walk_stmts mentions ss b ≡ walk_stmts everywhere ss b
  same_stmts no_stmts b = refl
  same_stmts (more_stmts s rest) b =
      ap (walk_stmts mentions rest) (
        if-idle (mentions s) _ _ _ (ap (λ (t : Tally). t.bal) (same_stmt s (tally b)))
          (λ out. ap (λ (t : Tally). t.bal) (idle_stmt everywhere s out (tally b))))
      ∙ same_stmts rest _

  same_clauses : (cs : Clauses) → walk_clauses mentions cs ≡ walk_clauses everywhere cs
  same_clauses no_clauses = refl
  same_clauses (clause is_nil body rest) = cc (same_stmts body no_balance, same_clauses rest)

-- The accounting of a body is the same with the skip index of the source as with every statement walked: a statement
-- that the index leaves out, in which the name of the group does not occur, counts nothing.
pub walk_body-index : (body : Stmts) → walk_body mentions body ≡ walk_body everywhere body
unfolding walk_body
walk_body-index body = same_stmts body no_balance
