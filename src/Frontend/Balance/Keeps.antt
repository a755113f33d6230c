-- ===== src/Frontend/Balance/Keeps.antt =====
-- What every walk of the accounting keeps, whatever it meets: what is not known stays so, the scope
-- stays the scope of the same loop, and inside a loop the totals are left alone.
use lifeline.Prelude.{ℕ, ◌+◌, ◌≡◌, refl, arith, Bool, true, false, not, ◌&&◌}
use lifeline.Prelude.{Option, none, some, List, if◌then◌else◌}
use lifeline.Frontend.Balance.{
  Stmt, Stmts, Else, add, done, method_call, wait_call, go_literal, go_call, block_stmt, if_stmt,
  for_stmt, range_stmt, switch_stmt, select_stmt, labeled_stmt, jump_stmt, return_stmt, goto_stmt,
  other_stmt, no_else, else_stmt, no_stmts, more_stmts, no_clauses, clause, Balance, LoopScope,
  Tally, no_scope, note_add, note_done, note_spawned_done, close_loop_scope, arms_safe, fold_unsafe,
  fold_conditional_arms, leave_loop, enter_loop, walk_stmt, walk_list, walk_else,
}

abbrev pub calm : Option LoopScope → Bool
calm none = true
calm (some s) = not s.other_activity

-- Nothing has been met that the accounting cannot count.
abbrev pub fine : Tally → Bool
fine t = t.bal.fully_known && calm t.scope

abbrev pub Framed : Option LoopScope → Option LoopScope → Balance → Balance → Type 0
Framed none none b c = Unit
Framed (some s) (some r) b c = (c.add_total ≡ b.add_total) × (c.done_total ≡ b.done_total)
Framed none (some r) b c = ⊥
Framed (some s) none b c = ⊥

pub record Keeps (t u : Tally) : Type 0 where
  pub known : fine u ≡ true → fine t ≡ true
  pub framed : Framed t.scope u.scope t.bal u.bal

Framed-refl : (o : Option LoopScope) (b : Balance) → Framed o o b b
Framed-refl none b = tt
Framed-refl (some s) b = (refl, refl)

pub Keeps-refl : (t : Tally) → Keeps t t
Keeps-refl t = record { known = λ h. h; framed = Framed-refl t.scope t.bal }

Framed-trans :
    (o p q : Option LoopScope) (b c d : Balance) → Framed o p b c → Framed p q c d → Framed o q b d
Framed-trans none none none b c d h k = tt
Framed-trans (some s) (some r) (some x) b c d h k =
    (omega (arith, h.0, k.0), omega (arith, h.1, k.1))
Framed-trans none none (some r) b c d h k = absurd k
Framed-trans none (some r) q b c d h k = absurd h
Framed-trans (some s) none q b c d h k = absurd h
Framed-trans (some s) (some r) none b c d h k = absurd k

pub Keeps-trans : {t u v : Tally} → Keeps t u → Keeps u v → Keeps t v
Keeps-trans {t} {u} {v} h k = record {
  known = λ f. h.known (k.known f);
  framed = Framed-trans t.scope u.scope v.scope t.bal u.bal v.bal h.framed k.framed;
}

note_add-Keeps :
    (o : Option LoopScope) (amount : Option ℕ) (b : Balance)
    → Keeps (record { bal = b; scope = o }) (note_add o amount b)
unfolding note_add
note_add-Keeps none (some n) b = record { known = λ f. f; framed = tt }
note_add-Keeps none none b = record { known = λ f. absurd (cc); framed = tt }
note_add-Keeps (some s) none b = record { known = λ f. ground (arith, f); framed = (refl, refl) }
note_add-Keeps (some s) (some n) b = record {
  known = λ f. ground (arith, f);
  framed = (refl, refl);
}

note_done-Keeps :
    (o : Option LoopScope) (b : Balance) → Keeps (record { bal = b; scope = o }) (note_done o b)
unfolding note_done
note_done-Keeps none b = record { known = λ f. f; framed = tt }
note_done-Keeps (some s) b = record { known = λ f. ground (arith, f); framed = (refl, refl) }

note_spawned_done-Keeps :
    (o : Option LoopScope) (b : Balance)
    → Keeps (record { bal = b; scope = o }) (note_spawned_done o b)
unfolding note_spawned_done
note_spawned_done-Keeps none b = record { known = λ f. f; framed = tt }
note_spawned_done-Keeps (some s) b = record { known = λ f. f; framed = (refl, refl) }

fold_unsafe-Keeps :
    (o : Option LoopScope) (b : Balance) → Keeps (record { bal = b; scope = o }) (fold_unsafe o b)
unfolding fold_unsafe
fold_unsafe-Keeps none b = record { known = λ f. absurd (cc); framed = tt }
fold_unsafe-Keeps (some s) b = record { known = λ f. ground (arith, f); framed = (refl, refl) }

if-Keeps : (c : Bool) (t u v : Tally) → Keeps t u → Keeps t v → Keeps t (if c then u else v)
if-Keeps true t u v h k = h
if-Keeps false t u v h k = k

pub fold_conditional_arms-Keeps :
    (arms : List Balance) (t : Tally) → Keeps t (fold_conditional_arms arms t)
unfolding fold_conditional_arms
fold_conditional_arms-Keeps arms t =
    if-Keeps (arms_safe arms) t _ _ (Keeps-refl t) (fold_unsafe-Keeps t.scope t.bal)

-- The balance after a loop is not touched, but for what is known.
close_loop_scope-totals :
    (s : LoopScope) (b : Balance)
    → ((close_loop_scope s b).add_total ≡ b.add_total)
      × ((close_loop_scope s b).done_total ≡ b.done_total)
      × ((close_loop_scope s b).fully_known ≡ true
          → (b.fully_known ≡ true) × (s.other_activity ≡ false) × (s.add_ones ≡ s.spawned_dones))
unfolding close_loop_scope
close_loop_scope-totals s b =
    (ground arith, ground arith, λ h. (ground (arith, h), ground (arith, h), ground (arith, h)))

abbrev pub ones : Option LoopScope → ℕ
ones none = 0
ones (some s) = s.add_ones

abbrev pub spawns : Option LoopScope → ℕ
spawns none = 0
spawns (some s) = s.spawned_dones

-- What is counted in a tally, in the balance or in the scope.
abbrev pub ups : Tally → ℕ
ups t = t.bal.add_total + ones t.scope

abbrev pub downs : Tally → ℕ
downs t = t.bal.done_total + spawns t.scope

-- A loop's body kept the loop's scope: then leaving it keeps the outer one, with the same totals, and
-- if that is fine, so was the body, with as many Adds of one as workers.
pub record Closes (t u : Tally) : Type 0 where
  pub keeps : Keeps t (leave_loop t.scope u)
  pub same_ups : ups (leave_loop t.scope u) ≡ ups t
  pub same_downs : downs (leave_loop t.scope u) ≡ downs t
  pub body_fine : fine (leave_loop t.scope u) ≡ true → fine u ≡ true
  pub body_even :
      fine (leave_loop t.scope u) ≡ true
      → ups u + downs (enter_loop t) ≡ downs u + ups (enter_loop t)

outer_framed :
    (o : Option LoopScope) (b c : Balance)
    → (c.add_total ≡ b.add_total) × (c.done_total ≡ b.done_total)
    → Framed o o b c
outer_framed none b c h = tt
outer_framed (some s) b c h = h

closes :
    (o p : Option LoopScope) (b c : Balance)
    → Keeps (record { bal = b; scope = some no_scope }) (record { bal = c; scope = p })
    → Closes (record { bal = b; scope = o }) (record { bal = c; scope = p })
unfolding leave_loop
closes o none b c k = absurd k.framed
closes o (some s) b c k =
    let (adds, dones, known) = close_loop_scope-totals s c in
    let (same_adds, same_dones) = k.framed in
    record {
      keeps = record {
        known = λ f. ground (arith, f, known, k.known);
        framed =
            outer_framed o b _ (omega (arith, adds, same_adds), omega (arith, dones, same_dones));
      };
      same_ups = omega (arith, adds, same_adds);
      same_downs = omega (arith, dones, same_dones);
      body_fine = λ f. ground (arith, f, known);
      body_even = λ f. ground (arith, f, known, same_adds, same_dones);
    }

pub leave_loop-Closes : (t u : Tally) → Keeps (enter_loop t) u → Closes t u
leave_loop-Closes t u k = closes t.scope u.scope t.bal u.bal k

module _ (index : Stmt → Bool) where
  mutual
    unfolding walk_stmt walk_list walk_else

    pub walk_stmt-Keeps : (s : Stmt) (t : Tally) → Keeps t (walk_stmt index s t)
    walk_stmt-Keeps (method_call deferred (add amount)) t = note_add-Keeps t.scope amount t.bal
    walk_stmt-Keeps (method_call deferred done) t = note_done-Keeps t.scope t.bal
    walk_stmt-Keeps wait_call t = Keeps-refl t
    walk_stmt-Keeps (go_literal calls_done part) t =
        if-Keeps calls_done t _ _ (note_spawned_done-Keeps t.scope t.bal) (Keeps-refl t)
    walk_stmt-Keeps (go_call effect part) t =
        if-Keeps _ t _ _ (note_spawned_done-Keeps t.scope t.bal) (Keeps-refl t)
    walk_stmt-Keeps (block_stmt body) t = walk_list-Keeps body t
    walk_stmt-Keeps (if_stmt part (some true) body els) t = walk_list-Keeps body t
    walk_stmt-Keeps (if_stmt part (some false) body els) t = walk_else-Keeps els t
    walk_stmt-Keeps (if_stmt part none body els) t = fold_conditional_arms-Keeps _ t
    walk_stmt-Keeps (for_stmt part (some false) body) t = Keeps-refl t
    walk_stmt-Keeps (for_stmt part (some true) body) t =
        (leave_loop-Closes t _ (walk_list-Keeps body (enter_loop t))).keeps
    walk_stmt-Keeps (for_stmt part none body) t =
        (leave_loop-Closes t _ (walk_list-Keeps body (enter_loop t))).keeps
    walk_stmt-Keeps (range_stmt part body) t =
        (leave_loop-Closes t _ (walk_list-Keeps body (enter_loop t))).keeps
    walk_stmt-Keeps (switch_stmt part cs) t = fold_conditional_arms-Keeps _ t
    walk_stmt-Keeps (select_stmt part no_clauses) t = fold_conditional_arms-Keeps _ t
    walk_stmt-Keeps (select_stmt part (clause is_nil body rest)) t = fold_conditional_arms-Keeps _ t
    walk_stmt-Keeps (labeled_stmt s) t = walk_stmt-Keeps s t
    walk_stmt-Keeps jump_stmt t = Keeps-refl t
    walk_stmt-Keeps (return_stmt part) t = Keeps-refl t
    walk_stmt-Keeps goto_stmt t = Keeps-refl t
    walk_stmt-Keeps (other_stmt part) t = Keeps-refl t

    pub walk_list-Keeps : (ss : Stmts) (t : Tally) → Keeps t (walk_list index ss t)
    walk_list-Keeps no_stmts t = Keeps-refl t
    walk_list-Keeps (more_stmts s rest) t =
        Keeps-trans (walk_stmt-Keeps s t) (walk_list-Keeps rest (walk_stmt index s t))

    pub walk_else-Keeps : (e : Else) (t : Tally) → Keeps t (walk_else index e t)
    walk_else-Keeps no_else t = Keeps-refl t
    walk_else-Keeps (else_stmt s) t = walk_stmt-Keeps s t
