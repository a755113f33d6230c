-- ===== src/Frontend/Balance/Sound.antt =====
-- The accounting of a WaitGroup is sound: what it proves of the counter holds of every run that
-- falls through, if the accounting reads all that changes the counter.
use lifeline.Prelude.{not, ℕ, ◌+◌, ◌≤◌, ◌≡◌, refl, subst, arith, Bool, true, false}
use lifeline.Prelude.{
  ◌&&◌, ◌==◌, Option, none, some, List, [], ◌∷◌, ◌++◌, if◌then◌else◌, Bool-cases,
}
use lifeline.Prelude.{◌∙◌, ap, inl, inr}
use lifeline.Model.Effects.{has, effect_may}
use lifeline.Frontend.Balance.{
  Stmt, Stmts, Else, Clauses, select_stmt, no_stmts, more_stmts, no_clauses, clause, Balance,
  LoopScope, Tally, no_balance, note_add, note_done, note_spawned_done, arms_safe, fold_unsafe,
  fold_conditional_arms, leave_loop, enter_loop, tally, walk_body, walk_stmt, walk_list, walk_else,
  else_arm, walk_stmts, walk_clauses, everywhere, Part,
}
use lifeline.Frontend.Balance.Keeps.{
  Keeps, fine, ups, downs, leave_loop-Closes, Framed, walk_stmt-Keeps, walk_list-Keeps,
}
use lifeline.Frontend.Balance.Runs.{
  End, falls, jumps, leaves, Touches, still, touched, Runs, RunsList, RunsElse, Rounds, Loops,
  SomeOf, adds, adds_unknown, dones, adds_later, dones_later, waits, worker_literal, other_literal,
  worker_call, other_call, block, always, never, taken, passed, no_round, endless, loops, ranges,
  switches, switch_broken, selects, select_broken, labels, jump, returns, goes, others, nothing,
  in_order, cut_short, absent, present, finished, round, jumped, ended, left, all_passed, pass,
  choose, stop, is_plain, list_is_plain, else_is_plain, clauses_are_plain,
}

-- If nothing unknown has been met from `t` to `u`, then the counter is left at least as high, by a run
-- that adds `a` and takes off `d`, as the tally says.
abbrev Counts : Tally → Tally → ℕ → ℕ → Type 0
Counts t u a d = fine u ≡ true → ups u + downs t + d ≤ downs u + ups t + a

Counts-trans :
    (t u v : Tally) (a d b e : ℕ)
    → Counts t u a d
    → Keeps u v
    → Counts u v b e
    → Counts t v (a + b) (d + e)
Counts-trans t u v a d b e h k l f = omega (arith, h (k.known f), l f)

-- Where nothing was counted, a run that takes off no more than it adds.
even_run : (t : Tally) (a d : ℕ) → d ≤ a → Counts t t a d
even_run t a d h f = omega (arith, h)

note_add-Counts :
    (o : Option LoopScope) (n : ℕ) (b : Balance)
    → Counts (record { bal = b; scope = o }) (note_add o (some n) b) n 0
unfolding note_add
note_add-Counts none n b f = omega arith
note_add-Counts (some s) n b f = ground (arith, f)

note_add-unknown :
    (o : Option LoopScope) (b : Balance) (a d : ℕ)
    → Counts (record { bal = b; scope = o }) (note_add o none b) a d
unfolding note_add
note_add-unknown none b a d f = absurd (cc)
note_add-unknown (some s) b a d f = absurd (ground (arith, f))

note_done-Counts :
    (o : Option LoopScope) (b : Balance)
    → Counts (record { bal = b; scope = o }) (note_done o b) 0 1
unfolding note_done
note_done-Counts none b f = omega arith
note_done-Counts (some s) b f = absurd (ground (arith, f))

note_spawned_done-Counts :
    (o : Option LoopScope) (b : Balance) (d : ℕ)
    → d ≤ 1
    → Counts (record { bal = b; scope = o }) (note_spawned_done o b) 0 d
unfolding note_spawned_done
note_spawned_done-Counts none b d h f = omega (arith, h)
note_spawned_done-Counts (some s) b d h f = omega (arith, h)

if-true : {A : Type 0} (c : Bool) (x y : A) → c ≡ true → x ≡ (if c then x else y)
if-true true x y h = refl
if-true false x y h = absurd (cc)

if-false : {A : Type 0} (c : Bool) (x y : A) → c ≡ false → y ≡ (if c then x else y)
if-false false x y h = refl
if-false true x y h = absurd (cc)

-- A conditional's arms: fine afterwards means that they are safe, and that nothing was counted.
fold_unsafe-fine : (o : Option LoopScope) (b : Balance) → fine (fold_unsafe o b) ≡ false
unfolding fold_unsafe
fold_unsafe-fine none b = refl
fold_unsafe-fine (some s) b = ground arith

fold_conditional_arms-Counts :
    (arms : List Balance) (t : Tally) (a d : ℕ)
    → (arms_safe arms ≡ true → d ≤ a)
    → Counts t (fold_conditional_arms arms t) a d
unfolding fold_conditional_arms
fold_conditional_arms-Counts arms t a d h f = elim (Bool-cases (arms_safe arms)) [
  | inl safe ↦
      subst (λ u. ups u + downs t + d ≤ downs u + ups t + a) (if-true (arms_safe arms) t _ safe)
        (omega (arith, h safe))
  | inr unsafe ↦
      absurd (cc (f, fold_unsafe-fine t.scope t.bal, if-false (arms_safe arms) t _ unsafe))
]

-- A loop, from the count of its rounds.
leave_loop-Counts :
    (t u : Tally) (a d : ℕ)
    → Keeps (enter_loop t) u
    → (fine u ≡ true → ups u + downs (enter_loop t) ≡ downs u + ups (enter_loop t) → d ≤ a)
    → Counts t (leave_loop t.scope u) a d
leave_loop-Counts t u a d k h f =
    let c = leave_loop-Closes t u k in
    omega (arith, c.same_ups, c.same_downs, h (c.body_fine f) (c.body_even f))

-- An arm whose balance is known and even.
arm_even :
    (b : Balance)
    → (b.fully_known && (b.add_total == b.done_total)) ≡ true
    → (fine (tally b) ≡ true) × (b.add_total ≡ b.done_total)
arm_even b h = (ground (arith, h), ground (arith, h))

EvenArm : Balance → Type 0
EvenArm b = (b.fully_known && (b.add_total == b.done_total)) ≡ true

arms_safe-cons :
    (arm : Balance) (arms : List Balance)
    → arms_safe (arm ∷ arms) ≡ true
    → EvenArm arm × (arms_safe arms ≡ true)
unfolding arms_safe EvenArm
arms_safe-cons arm arms h = (ground (arith, h), ground (arith, h))

arms_safe-append : (xs ys : List Balance) → arms_safe (xs ++ ys) ≡ true → arms_safe xs ≡ true
unfolding arms_safe
arms_safe-append [] ys h = refl
arms_safe-append (x ∷ xs) ys h = ground (arith, arms_safe-append xs ys, h)

-- A walk that starts outside of loops ends there.
stays_out : (u : Tally) (b : Balance) → Keeps (tally b) u → u ≡ tally u.bal
stays_out u b k = no_scope_left u.scope u.bal k.framed
  where
    no_scope_left :
        (o : Option LoopScope) (c : Balance)
        → Framed none o b c
        → ◌≡◌ {A = Tally} (record { bal = c; scope = o }) (tally c)
    no_scope_left none c h = refl
    no_scope_left (some s) c h = absurd h

walk_list-walk_stmts :
    (ss : Stmts) (b : Balance)
    → walk_list everywhere ss (tally b) ≡ tally (walk_stmts everywhere ss b)
unfolding walk_list walk_stmts
walk_list-walk_stmts no_stmts b = refl
walk_list-walk_stmts (more_stmts s rest) b =
    ap (walk_list everywhere rest)
      (stays_out (walk_stmt everywhere s (tally b)) b (walk_stmt-Keeps everywhere s (tally b)))
    ∙ walk_list-walk_stmts rest (walk_stmt everywhere s (tally b)).bal

-- A run of an arm, from what was counted from nothing.
arm_run : (b : Balance) (a d : ℕ) → Counts (tally no_balance) (tally b) a d → EvenArm b → d ≤ a
unfolding EvenArm
arm_run b a d h even = let (f, e) = arm_even b even in omega (arith, h f, e)

arm-even :
    (ss : Stmts) (a d : ℕ)
    → ((t : Tally) → Counts t (walk_list everywhere ss t) a d)
    → EvenArm (walk_stmts everywhere ss no_balance)
    → d ≤ a
arm-even ss a d run even =
    arm_run (walk_stmts everywhere ss no_balance) a d
      (subst (λ u. Counts (tally no_balance) u a d) (walk_list-walk_stmts ss no_balance)
        (run (tally no_balance)))
      even

-- What is shown of a run, by its end: nothing of one that leaves the function, and none ends in a jump.
abbrev Ends : End → Type 0 → Type 0
Ends falls P = P
Ends jumps P = ⊥
Ends leaves P = Unit

Ends-map : (k : End) {P Q : Type 0} → (P → Q) → Ends k P → Ends k Q
Ends-map falls f h = f h
Ends-map jumps f h = h
Ends-map leaves f h = h

Ends-other : (k : End) (P Q : Type 0) → (k ≡ falls → ⊥) → Ends k P → Ends k Q
Ends-other falls P Q n h = absurd (n refl)
Ends-other jumps P Q n h = h
Ends-other leaves P Q n h = h

both_true : (a b : Bool) → (a && b) ≡ true → (a ≡ true) × (b ≡ true)
both_true true b h = (refl, h)
both_true false b h = absurd (cc (h))

untouched : (part : Part) {a d : ℕ} → not part.changes ≡ true → Touches part a d → (a ≡ 0) × (d ≡ 0)
untouched part h still = (refl, refl)
untouched part h (touched a d e) = absurd (ground (arith, h, e))

-- A part that changes nothing, before or after a run.
Counts-after :
    (t u : Tally) (a d b e : ℕ) → (a ≡ 0) × (d ≡ 0) → Counts t u b e → Counts t u (a + b) (d + e)
Counts-after t u a d b e (x, y) h f = omega (arith, h f, x, y)

Counts-before :
    (t u : Tally) (a d e : ℕ) → (a ≡ 0) × (d ≡ 0) → Counts t u 0 e → Counts t u a (d + e)
Counts-before t u a d e (x, y) h f = omega (arith, h f, x, y)

unchanged : (t : Tally) (a d : ℕ) → (a ≡ 0) × (d ≡ 0) → Counts t t a d
unchanged t a d (x, y) f = omega (arith, x, y)

no_more : (a d b e : ℕ) → (a ≡ 0) × (d ≡ 0) → e ≤ b → (d + e) ≤ (a + b)
no_more a d b e (x, y) h = omega (arith, x, y, h)

note_done-later :
    (o : Option LoopScope) (b : Balance) (d : ℕ)
    → d ≤ 1
    → Counts (record { bal = b; scope = o }) (note_done o b) 0 d
note_done-later o b d l f = omega (arith, l, note_done-Counts o b f)

select-Counts :
    (part : Part) (cs : Clauses) (a d : ℕ) (t : Tally)
    → (arms_safe (walk_clauses everywhere cs) ≡ true → d ≤ a)
    → Counts t (walk_stmt everywhere (select_stmt part cs) t) a d
unfolding walk_stmt walk_clauses arms_safe
select-Counts part no_clauses a d t h =
    fold_conditional_arms-Counts (no_balance ∷ []) t a d (λ safe. h (no_arms))
  where
    no_arms : arms_safe [] ≡ true
    no_arms = refl
select-Counts part (clause is_nil body rest) a d t h = fold_conditional_arms-Counts _ t a d h

-- A list, an else branch and clauses do this to every tally, or to their arms.
abbrev ListCounts : Stmts → ℕ → ℕ → Type 0
ListCounts body a d = (t : Tally) → Counts t (walk_list everywhere body t) a d

abbrev StmtCounts : Stmt → ℕ → ℕ → Type 0
StmtCounts s a d = (t : Tally) → Counts t (walk_stmt everywhere s t) a d

mutual
  unfolding walk_stmt walk_list walk_else else_arm walk_clauses is_plain list_is_plain else_is_plain
      clauses_are_plain

  stmt-Counts :
      (s : Stmt) (k : End) (a d : ℕ) → is_plain s ≡ true → Runs s k a d → Ends k (StmtCounts s a d)
  stmt-Counts _ _ _ _ y (adds n) = λ t. note_add-Counts t.scope n t.bal
  stmt-Counts _ _ _ _ y (adds_unknown deferred a d) = λ t. note_add-unknown t.scope t.bal a d
  stmt-Counts _ _ _ _ y dones = λ t. note_done-Counts t.scope t.bal
  stmt-Counts _ _ _ _ y (adds_later amount a) = absurd (cc (y))
  stmt-Counts _ _ _ _ y (dones_later d l) = λ t. note_done-later t.scope t.bal d l
  stmt-Counts _ _ _ _ y waits = λ t. even_run t 0 0 (omega arith)
  stmt-Counts _ _ _ _ y (worker_literal {part} {a} {d} e l x) = λ t.
      Counts-before t (note_spawned_done t.scope t.bal) a d e (untouched part y x)
        (note_spawned_done-Counts t.scope t.bal e l)
  stmt-Counts _ _ _ _ y (other_literal {part} {a} {d} x) = λ t. unchanged t a d (untouched part y x)
  stmt-Counts _ _ _ _ y (worker_call {part} {a} {d} effect e h l x) = λ t.
      subst (λ u. Counts t u a (d + e)) (if-true (has effect effect_may) _ t h)
        (Counts-before t (note_spawned_done t.scope t.bal) a d e (untouched part y x)
          (note_spawned_done-Counts t.scope t.bal e l))
  stmt-Counts _ _ _ _ y (other_call {part} {a} {d} effect h x) = λ t.
      subst (λ u. Counts t u a d) (if-false (has effect effect_may) _ t h)
        (unchanged t a d (untouched part y x))
  stmt-Counts _ k a d y (block {body} r) = list-Counts body k a d y r
  stmt-Counts _ _ _ _ y (always {part} {body} {els} {k} {a} {d} {b} {e} x r) =
      let (p, q) = both_true (not part.changes) _ y in
      Ends-map k
        (λ h t. Counts-after t (walk_list everywhere body t) a d b e (untouched part p x) (h t))
        (list-Counts body k b e (both_true (list_is_plain body) _ q).0 r)
  stmt-Counts _ _ _ _ y (never {part} {body} {els} {k} {a} {d} {b} {e} x r) =
      let (p, q) = both_true (not part.changes) _ y in
      Ends-map k
        (λ h t. Counts-after t (walk_else everywhere els t) a d b e (untouched part p x) (h t))
        (else-Counts els k b e (both_true (list_is_plain body) _ q).1 r)
  stmt-Counts _ _ _ _ y (taken {part} {body} {els} {k} {a} {d} {b} {e} x r) =
      let (p, q) = both_true (not part.changes) _ y in
      Ends-map k
        (λ h t.
          fold_conditional_arms-Counts
            (walk_stmts everywhere body no_balance ∷ else_arm everywhere els ∷ []) t (a + b) (d + e)
            (λ safe.
              no_more a d b e (untouched part p x)
                (arm-even body b e h ((arms_safe-cons _ _ safe).0))))
        (list-Counts body k b e (both_true (list_is_plain body) _ q).0 r)
  stmt-Counts _ _ _ _ y (passed {part} {body} {els} {k} {a} {d} {b} {e} x r) =
      let (p, q) = both_true (not part.changes) _ y in
      Ends-map k
        (λ h t.
          fold_conditional_arms-Counts
            (walk_stmts everywhere body no_balance ∷ else_arm everywhere els ∷ []) t (a + b) (d + e)
            (λ safe. no_more a d b e (untouched part p x) (
              h (
                (arms_safe-cons _ _
                  ((arms_safe-cons (walk_stmts everywhere body no_balance) _ safe).1)).0))))
        (else-even els k b e (both_true (list_is_plain body) _ q).1 r)
  stmt-Counts _ _ _ _ y (no_round {part} {body} {a} {d} x) =
      λ t. unchanged t a d (untouched part (both_true (not part.changes) _ y).0 x)
  stmt-Counts _ k a d y (endless {part} {body} r) = loop-Counts part body k a d y r
  stmt-Counts _ k a d y (loops {part} {body} r) = loop-Counts part body k a d y r
  stmt-Counts _ k a d y (ranges {part} {body} r) = loop-Counts part body k a d y r
  stmt-Counts _ _ _ _ y (switches {part} {cs} {k} {a} {d} {b} {e} x r) =
      let (p, q) = both_true (not part.changes) _ y in
      Ends-map k
        (λ h t.
          fold_conditional_arms-Counts (walk_clauses everywhere cs ++ _) t (a + b) (d + e) (λ safe.
            no_more a d b e (untouched part p x)
              (h (arms_safe-append (walk_clauses everywhere cs) _ safe))))
        (some-even cs k b e q r)
  stmt-Counts _ _ _ _ y (switch_broken {part} {cs} {a} {d} {b} {e} x r) =
      absurd (some-even cs jumps b e (both_true (not part.changes) _ y).1 r)
  stmt-Counts _ _ _ _ y (selects {part} {cs} {k} {a} {d} {b} {e} x r) =
      let (p, q) = both_true (not part.changes) _ y in
      Ends-map k
        (λ h t.
          select-Counts part cs (a + b) (d + e) t
            (λ safe. no_more a d b e (untouched part p x) (h safe)))
        (some-even cs k b e q r)
  stmt-Counts _ _ _ _ y (select_broken {part} {cs} {a} {d} {b} {e} x r) =
      absurd (some-even cs jumps b e (both_true (not part.changes) _ y).1 r)
  stmt-Counts _ k a d y (labels {s} r) = stmt-Counts s k a d y r
  stmt-Counts _ _ _ _ y jump = absurd (cc (y))
  stmt-Counts _ _ _ _ y (returns x) = tt
  stmt-Counts _ _ _ _ y (goes k a d) = absurd (cc (y))
  stmt-Counts _ _ _ _ y (others {part} {a} {d} x) = λ t. unchanged t a d (untouched part y x)

  list-Counts :
      (ss : Stmts) (k : End) (a d : ℕ)
      → list_is_plain ss ≡ true
      → RunsList ss k a d
      → Ends k (ListCounts ss a d)
  list-Counts _ _ _ _ y nothing = λ t. even_run t 0 0 (omega arith)
  list-Counts _ _ _ _ y (in_order {s} {rest} {k} {a} {d} {b} {e} r q) =
      let (here, later) = both_true (is_plain s) _ y in
      let first = stmt-Counts s falls a d here r in
      Ends-map k
        (λ h t.
          Counts-trans t _ _ a d b e (first t) (walk_list-Keeps everywhere rest _)
            (h (walk_stmt everywhere s t)))
        (list-Counts rest k b e later q)
  list-Counts _ _ _ _ y (cut_short {s} {rest} {k} {a} {d} r n) =
      Ends-other k _ _ n (stmt-Counts s k a d (both_true (is_plain s) _ y).0 r)

  else-Counts :
      (x : Else) (k : End) (a d : ℕ)
      → else_is_plain x ≡ true
      → RunsElse x k a d
      → Ends k ((t : Tally) → Counts t (walk_else everywhere x t) a d)
  else-Counts _ _ _ _ y absent = λ t. even_run t 0 0 (omega arith)
  else-Counts _ k a d y (present {s} r) = stmt-Counts s k a d y r

  loop-Counts :
      (part : Part) (body : Stmts) (k : End) (a d : ℕ)
      → (not part.changes && list_is_plain body) ≡ true
      → Loops part body k a d
      → Ends k (
          (t : Tally)
          → Counts t (leave_loop t.scope (walk_list everywhere body (enter_loop t))) a d)
  loop-Counts _ _ _ a d y (ended {part} {body} r) = λ t.
      let (p, q) = both_true (not part.changes) _ y in
      leave_loop-Counts t (walk_list everywhere body (enter_loop t)) a d
        (walk_list-Keeps everywhere body _) (Rounds-even part body a d p q r (enter_loop t))
  loop-Counts _ _ _ _ _ y (left {part} {body} {k} {a} {d} {b} {e} r q n) =
      Ends-other k _ _ n (list-Counts body k b e (both_true (not part.changes) _ y).1 q)

  -- The rounds of a loop whose body is even.
  Rounds-even :
      (part : Part) (body : Stmts) (a d : ℕ)
      → not part.changes ≡ true
      → list_is_plain body ≡ true
      → Rounds part body a d
      → (t : Tally) → fine (walk_list everywhere body t) ≡ true
      → ups (walk_list everywhere body t) + downs t ≡ downs (walk_list everywhere body t) + ups t
      → d ≤ a
  Rounds-even _ _ a d p y (finished {part} x) t f even =
      let (u, v) = untouched part p x in omega (arith, u, v)
  Rounds-even _ _ _ _ p y (round {part} {body} {a} {d} {b} {e} {c} {f} x r q) t known even =
      let (u, v) = untouched part p x in
      omega (
        arith,
        u,
        v,
        list-Counts body falls b e y r t known,
        Rounds-even part body c f p y q t known even,
        even,
      )
  Rounds-even _ _ _ _ p y (jumped {part} {body} {a} {d} {b} {e} x r q) t f even =
      absurd (list-Counts body jumps b e y r)

  else-even :
      (x : Else) (k : End) (a d : ℕ)
      → else_is_plain x ≡ true
      → RunsElse x k a d
      → Ends k (EvenArm (else_arm everywhere x) → d ≤ a)
  else-even _ _ _ _ y absent = λ even. omega arith
  else-even _ k a d y (present {s} r) =
      Ends-map k
        (λ h even.
          arm_run (walk_stmt everywhere s (tally no_balance)).bal a d
            (subst (λ u. Counts (tally no_balance) u a d)
              (stays_out _ no_balance (walk_stmt-Keeps everywhere s (tally no_balance)))
              (h (tally no_balance)))
            even)
        (stmt-Counts s k a d y r)

  some-even :
      (cs : Clauses) (k : End) (a d : ℕ)
      → clauses_are_plain cs ≡ true
      → SomeOf cs k a d
      → Ends k (arms_safe (walk_clauses everywhere cs) ≡ true → d ≤ a)
  some-even _ _ _ _ y all_passed = λ safe. omega arith
  some-even _ k a d y (pass {is_nil} {body} {rest} r) =
      Ends-map k (λ h safe. h ((arms_safe-cons (walk_stmts everywhere body no_balance) _ safe).1))
        (some-even rest k a d (both_true (list_is_plain body) _ y).1 r)
  some-even _ _ _ _ y (choose {is_nil} {body} {rest} {k} {a} {d} {b} {e} r q) =
      let (here, later) = both_true (list_is_plain body) _ y in
      let first = list-Counts body falls a d here r in
      Ends-map k
        (λ h safe. omega (
          arith,
          arm-even body a d first ((arms_safe-cons _ (walk_clauses everywhere rest) safe).0),
          h ((arms_safe-cons (walk_stmts everywhere body no_balance) _ safe).1),
        ))
        (some-even rest k b e later q)
  some-even _ _ _ _ y (stop {is_nil} {body} {rest} {k} {a} {d} r n) =
      Ends-other k _ _ n (list-Counts body k a d (both_true (list_is_plain body) _ y).0 r)

-- The balance of a body, where it is fully known, bounds the counter after every run of the body that falls through.
pub walk_body-bound :
    (body : Stmts) (a d : ℕ)
    → list_is_plain body ≡ true
    → (walk_body everywhere body).fully_known ≡ true
    → RunsList body falls a d
    → (walk_body everywhere body).add_total + d ≤ (walk_body everywhere body).done_total + a
unfolding walk_body
walk_body-bound body a d plain known r = omega (
  arith,
  subst (λ u. Counts (tally no_balance) u a d) (walk_list-walk_stmts body no_balance)
      (list-Counts body falls a d plain r (tally no_balance)) (ground (arith, known)),
)
