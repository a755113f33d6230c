-- ===== src/Engine/Lattices/Obligations.antt =====
-- The lattices of dataflow_lattices.go for a group's join and for the ownership of a value fit `Solve`.
use lifeline.Prelude.{ℕ, ◌-◌, ◌≤◌, ◌≡◌, refl, sym, ap, ◌∙◌, arith, Bool, ◌==◌, if◌then◌else◌}
use lifeline.Model.Graph.{BlockId}
use lifeline.Model.Dataflow.{Problem}
use lifeline.Model.Dataflow.Lattice.{IsMonotone}
use lifeline.Engine.Lattices.{
  JoinObligation, join_none, join_required, join_satisfied, join_escaped, obligation_level,
  join_join_obligation, Ownership, ownership_local, ownership_transferred, ownership_unknown,
  ownership_level, join_ownership, point_transfer,
}
use lifeline.Engine.Lattices.Levels.{points-IsMonotone}

obligation_of : ℕ → JoinObligation
obligation_of k =
    if k == 0
    then join_none
    else if k == 1
    then join_required
    else if k == 2
    then join_satisfied
    else join_escaped

obligation_of-level : (a : JoinObligation) → obligation_of (obligation_level a) ≡ a
unfolding obligation_of
obligation_of-level join_none = refl
obligation_of-level join_required = refl
obligation_of-level join_satisfied = refl
obligation_of-level join_escaped = refl

obligations_bounded : (a : JoinObligation) → obligation_level a ≤ 3
obligations_bounded join_none = omega arith
obligations_bounded join_required = omega arith
obligations_bounded join_satisfied = omega arith
obligations_bounded join_escaped = omega arith

ownership_of : ℕ → Ownership
ownership_of k =
    if k == 0 then ownership_local else if k == 1 then ownership_transferred else ownership_unknown

ownership_of-level : (a : Ownership) → ownership_of (ownership_level a) ≡ a
unfolding ownership_of
ownership_of-level ownership_local = refl
ownership_of-level ownership_transferred = refl
ownership_of-level ownership_unknown = refl

ownerships_bounded : (a : Ownership) → ownership_level a ≤ 2
ownerships_bounded ownership_local = omega arith
ownerships_bounded ownership_transferred = omega arith
ownerships_bounded ownership_unknown = omega arith

module _ (at_point : BlockId → Bool) where
  -- `Solve` with `joinJoinObligation`, from a value on, which a set of blocks resolve.
  abbrev pub obligation_problem : JoinObligation → JoinObligation → Problem JoinObligation
  obligation_problem initial resolved = record {
    same = λ a b. obligation_level a == obligation_level b;
    zero_state = join_none;
    bottom = join_none;
    initial = initial;
    transfer = point_transfer at_point resolved;
    join = join_join_obligation;
  }

  pub obligation_problem-IsMonotone :
      (initial resolved : JoinObligation)
      → IsMonotone (obligation_problem initial resolved) (λ s. 3 - obligation_level s)
  obligation_problem-IsMonotone initial resolved =
      points-IsMonotone obligation_level 3
        (λ a b h. sym (obligation_of-level a) ∙ ap obligation_of h ∙ obligation_of-level b)
        obligations_bounded join_none initial at_point resolved refl

  -- `Solve` with `joinOwnership`.
  abbrev pub ownership_problem : Ownership → Ownership → Problem Ownership
  ownership_problem initial resolved = record {
    same = λ a b. ownership_level a == ownership_level b;
    zero_state = ownership_local;
    bottom = ownership_local;
    initial = initial;
    transfer = point_transfer at_point resolved;
    join = join_ownership;
  }

  pub ownership_problem-IsMonotone :
      (initial resolved : Ownership)
      → IsMonotone (ownership_problem initial resolved) (λ s. 2 - ownership_level s)
  ownership_problem-IsMonotone initial resolved =
      points-IsMonotone ownership_level 2
        (λ a b h. sym (ownership_of-level a) ∙ ap ownership_of h ∙ ownership_of-level b)
        ownerships_bounded ownership_local initial at_point resolved refl
