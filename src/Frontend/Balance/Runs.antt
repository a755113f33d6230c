-- ===== src/Frontend/Balance/Runs.antt =====
-- What the statements of a body can do to the counter of the group: the runs of a statement, each with how it ends,
-- with the units that it adds, and with those that its calls of Done, or those of the workers that it starts,
-- take off. A worker is counted where it is started; what it does beyond one Done belongs to its `Part`.
use lifeline.Prelude.{ℕ, ◌+◌, ◌≤◌, ◌≡◌, Bool, true, false, not, ◌&&◌, Option, none, some}
use lifeline.Model.Facts.{ParamEffect}
use lifeline.Model.Effects.{has, effect_may}
use lifeline.Frontend.Balance.{
  Part, Stmt, Stmts, Else, Clauses, add, done, method_call, wait_call, go_literal, go_call,
  block_stmt, if_stmt, for_stmt, range_stmt, switch_stmt, select_stmt, labeled_stmt, jump_stmt,
  return_stmt, goto_stmt, other_stmt, no_else, else_stmt, no_stmts, more_stmts, no_clauses, clause,
}

-- A run ends by falling to the next statement, by a break or a continue, or by a return.
pub data End : Type 0 where
  falls jumps leaves : End

-- What a part can do: nothing, or, if it can change the counter, anything.
pub data Touches (part : Part) : ℕ → ℕ → Type 0 where
  still : Touches part 0 0
  touched : (a d : ℕ) → part.changes ≡ true → Touches part a d

-- The runs of a statement, of a list in order, of an else branch, of the rounds of a loop, of a loop, and of some of the
-- clauses of a switch or select: one that is chosen, and those that it falls through to. A condition with a
-- constant value goes one way. Where a break or continue leads is not followed to its label: it may end a round, the
-- statement around it, or what is around that. A goto may do anything.
mutual
  pub data Runs : Stmt → End → ℕ → ℕ → Type 0 where
    adds : (amount : ℕ) → Runs (method_call false (add (some amount))) falls amount 0
    -- an amount that is not known; it may be negative
    adds_unknown : (deferred : Bool) (a d : ℕ) → Runs (method_call deferred (add none)) falls a d
    dones : Runs (method_call false done) falls 0 1
    -- what is deferred may have run or not
    adds_later : (amount : Option ℕ) (a : ℕ) → Runs (method_call true (add amount)) falls a 0
    dones_later : (d : ℕ) → d ≤ 1 → Runs (method_call true done) falls 0 d
    waits : Runs wait_call falls 0 0
    worker_literal :
        {part : Part} {a d : ℕ} (e : ℕ)
        → e ≤ 1
        → Touches part a d
        → Runs (go_literal true part) falls a (d + e)
    other_literal :
        {part : Part} {a d : ℕ} → Touches part a d → Runs (go_literal false part) falls a d
    worker_call :
        {part : Part} {a d : ℕ} (effect : ParamEffect) (e : ℕ)
        → has effect effect_may ≡ true
        → e ≤ 1
        → Touches part a d
        → Runs (go_call effect part) falls a (d + e)
    other_call :
        {part : Part} {a d : ℕ} (effect : ParamEffect)
        → has effect effect_may ≡ false
        → Touches part a d
        → Runs (go_call effect part) falls a d
    block : {body : Stmts} {k : End} {a d : ℕ} → RunsList body k a d → Runs (block_stmt body) k a d
    always :
        {part : Part} {body : Stmts} {els : Else} {k : End} {a d b e : ℕ}
        → Touches part a d
        → RunsList body k b e
        → Runs (if_stmt part (some true) body els) k (a + b) (d + e)
    never :
        {part : Part} {body : Stmts} {els : Else} {k : End} {a d b e : ℕ}
        → Touches part a d
        → RunsElse els k b e
        → Runs (if_stmt part (some false) body els) k (a + b) (d + e)
    taken :
        {part : Part} {body : Stmts} {els : Else} {k : End} {a d b e : ℕ}
        → Touches part a d
        → RunsList body k b e
        → Runs (if_stmt part none body els) k (a + b) (d + e)
    passed :
        {part : Part} {body : Stmts} {els : Else} {k : End} {a d b e : ℕ}
        → Touches part a d
        → RunsElse els k b e
        → Runs (if_stmt part none body els) k (a + b) (d + e)
    no_round :
        {part : Part} {body : Stmts} {a d : ℕ}
        → Touches part a d
        → Runs (for_stmt part (some false) body) falls a d
    endless :
        {part : Part} {body : Stmts} {k : End} {a d : ℕ}
        → Loops part body k a d
        → Runs (for_stmt part (some true) body) k a d
    loops :
        {part : Part} {body : Stmts} {k : End} {a d : ℕ}
        → Loops part body k a d
        → Runs (for_stmt part none body) k a d
    ranges :
        {part : Part} {body : Stmts} {k : End} {a d : ℕ}
        → Loops part body k a d
        → Runs (range_stmt part body) k a d
    switches :
        {part : Part} {cs : Clauses} {k : End} {a d b e : ℕ}
        → Touches part a d
        → SomeOf cs k b e
        → Runs (switch_stmt part cs) k (a + b) (d + e)
    switch_broken :
        {part : Part} {cs : Clauses} {a d b e : ℕ}
        → Touches part a d
        → SomeOf cs jumps b e
        → Runs (switch_stmt part cs) falls (a + b) (d + e)
    selects :
        {part : Part} {cs : Clauses} {k : End} {a d b e : ℕ}
        → Touches part a d
        → SomeOf cs k b e
        → Runs (select_stmt part cs) k (a + b) (d + e)
    select_broken :
        {part : Part} {cs : Clauses} {a d b e : ℕ}
        → Touches part a d
        → SomeOf cs jumps b e
        → Runs (select_stmt part cs) falls (a + b) (d + e)
    labels : {s : Stmt} {k : End} {a d : ℕ} → Runs s k a d → Runs (labeled_stmt s) k a d
    jump : Runs jump_stmt jumps 0 0
    returns : {part : Part} {a d : ℕ} → Touches part a d → Runs (return_stmt part) leaves a d
    goes : (k : End) (a d : ℕ) → Runs goto_stmt k a d
    others : {part : Part} {a d : ℕ} → Touches part a d → Runs (other_stmt part) falls a d

  pub data RunsList : Stmts → End → ℕ → ℕ → Type 0 where
    nothing : RunsList no_stmts falls 0 0
    in_order :
        {s : Stmt} {rest : Stmts} {k : End} {a d b e : ℕ}
        → Runs s falls a d
        → RunsList rest k b e
        → RunsList (more_stmts s rest) k (a + b) (d + e)
    cut_short :
        {s : Stmt} {rest : Stmts} {k : End} {a d : ℕ}
        → Runs s k a d
        → (k ≡ falls → ⊥)
        → RunsList (more_stmts s rest) k a d

  pub data RunsElse : Else → End → ℕ → ℕ → Type 0 where
    absent : RunsElse no_else falls 0 0
    present : {s : Stmt} {k : End} {a d : ℕ} → Runs s k a d → RunsElse (else_stmt s) k a d

  -- Rounds that are over; a break or continue ends one, and the loop or not.
  pub data Rounds : Part → Stmts → ℕ → ℕ → Type 0 where
    finished : {part : Part} {body : Stmts} {a d : ℕ} → Touches part a d → Rounds part body a d
    round :
        {part : Part} {body : Stmts} {a d b e c f : ℕ}
        → Touches part a d
        → RunsList body falls b e
        → Rounds part body c f
        → Rounds part body (a + (b + c)) (d + (e + f))
    jumped :
        {part : Part} {body : Stmts} {a d b e c f : ℕ}
        → Touches part a d
        → RunsList body jumps b e
        → Rounds part body c f
        → Rounds part body (a + (b + c)) (d + (e + f))

  pub data Loops : Part → Stmts → End → ℕ → ℕ → Type 0 where
    ended :
        {part : Part} {body : Stmts} {a d : ℕ} → Rounds part body a d → Loops part body falls a d
    left :
        {part : Part} {body : Stmts} {k : End} {a d b e : ℕ}
        → Rounds part body a d
        → RunsList body k b e
        → (k ≡ falls → ⊥)
        → Loops part body k (a + b) (d + e)

  pub data SomeOf : Clauses → End → ℕ → ℕ → Type 0 where
    all_passed : SomeOf no_clauses falls 0 0
    pass :
        {is_nil : Bool} {body : Stmts} {rest : Clauses} {k : End} {a d : ℕ}
        → SomeOf rest k a d
        → SomeOf (clause is_nil body rest) k a d
    choose :
        {is_nil : Bool} {body : Stmts} {rest : Clauses} {k : End} {a d b e : ℕ}
        → RunsList body falls a d
        → SomeOf rest k b e
        → SomeOf (clause is_nil body rest) k (a + b) (d + e)
    stop :
        {is_nil : Bool} {body : Stmts} {rest : Clauses} {k : End} {a d : ℕ}
        → RunsList body k a d
        → (k ≡ falls → ⊥)
        → SomeOf (clause is_nil body rest) k a d

-- The accounting reads all that changes the counter: no part that it does not walk does, nothing but Done is deferred,
-- and there is no break, continue or goto. A return may stand anywhere.
unfoldable mutual
  pub is_plain : Stmt → Bool
  is_plain (method_call true (add amount)) = false
  is_plain (method_call false (add amount)) = true
  is_plain (method_call deferred done) = true
  is_plain wait_call = true
  is_plain (go_literal calls_done part) = not part.changes
  is_plain (go_call effect part) = not part.changes
  is_plain (block_stmt body) = list_is_plain body
  is_plain (if_stmt part value body els) =
      not part.changes && (list_is_plain body && else_is_plain els)
  is_plain (for_stmt part value body) = not part.changes && list_is_plain body
  is_plain (range_stmt part body) = not part.changes && list_is_plain body
  is_plain (switch_stmt part cs) = not part.changes && clauses_are_plain cs
  is_plain (select_stmt part cs) = not part.changes && clauses_are_plain cs
  is_plain (labeled_stmt s) = is_plain s
  is_plain jump_stmt = false
  is_plain (return_stmt part) = true
  is_plain goto_stmt = false
  is_plain (other_stmt part) = not part.changes

  pub list_is_plain : Stmts → Bool
  list_is_plain no_stmts = true
  list_is_plain (more_stmts s rest) = is_plain s && list_is_plain rest

  pub else_is_plain : Else → Bool
  else_is_plain no_else = true
  else_is_plain (else_stmt s) = is_plain s

  pub clauses_are_plain : Clauses → Bool
  clauses_are_plain no_clauses = true
  clauses_are_plain (clause is_nil body rest) = list_is_plain body && clauses_are_plain rest
