-- ===== src/Frontend/Ordering/Joins.antt =====
-- When a group is found not to be joined, or a cancel function not to be called, on every path.
use lifeline.Prelude.{◌∙◌, ◌≡◌, refl, ◌↔◌, ◌⊎◌, inl, inr, arith}
use lifeline.Prelude.{
  Bool, true, false, not, ◌&&◌, Option, none, some, List, [], ◌∷◌, Bool-cases, if◌then◌else◌,
}
use mathlib.Core.Logic.{∥∥₁_map, ∥∥₁_elim}
use mathlib.Core.HLevel.{⊥_prop}
use lifeline.Model.Graph.{Edge, Cfg}
use lifeline.Model.Graph.Tarjan.{Run, ok, ◌>>=◌}
use lifeline.Model.Graph.WellFormed.{IsWellFormed}
use lifeline.Model.Graph.Routes.{no_skip}
use lifeline.Model.Facts.{CancelBinding, JoinGroup}
use lifeline.Cfg.Ast.{NodeId}
use lifeline.Cfg.Builder.{CallSite}
use lifeline.Frontend.Paths.{Site, call_sites_of, split_deferred, is_empty}
use lifeline.Frontend.Paths.Live.{SomeUndischarged, AreInGraph, live_exit_reachable-decides}
use lifeline.Frontend.Ordering.{
  CancelCalls, JoinCalls, note_joined, only_may_join, join_sites, order_group, note_called,
  only_may_call, note_guard, skip_of, guarded, order_calls, order_cancel,
}

refuted : {P Q : Type 0} → (P → ⊥) → ∥ P ∥₁ → Q
refuted k h = absurd (∥∥₁_elim h ⊥_prop k)

last_branch :
    {A : Type 0} (t e : Bool) (x y z : A)
    → t ≡ true
    → e ≡ false
    → (if not t then x else if e then y else z) ≡ z
last_branch true true x y z h k = absurd (cc)
last_branch true false x y z h k = refl
last_branch false e x y z h k = absurd (cc)

-- A guarded step whose result is known.
run_unless :
    (stop : Bool) (r : Run Bool) (x : Bool) (c : CancelBinding) (f : Bool → CancelBinding)
    → r ≡ ok x
    → (if stop then ok c else r >>= (λ y. ok (f y))) ≡ ok (if stop then c else f x)
run_unless true r x c f e = refl
run_unless false r x c f e = rw e refl

module _ (g : Cfg) (wf : IsWellFormed g) (sites : NodeId → Option CallSite)
    (deferred : NodeId → Bool) where
  nothing_undischarged :
      (after anywhere : List Site) (skip : Edge → Bool) (os : List Site)
      → is_empty os ≡ true
      → SomeUndischarged g wf after anywhere skip os
      → ⊥
  nothing_undischarged after anywhere skip [] e h = h
  nothing_undischarged after anywhere skip (o ∷ os) e h = cc (e)

  joined_mark :
      (k b : Bool) {P : Type 0} (group : JoinGroup)
      → group.joined_on_all_paths ≡ none
      → (k ≡ false → P → ⊥)
      → ((b ≡ true) ↔ ∥ P ∥₁)
      → ((if k then note_joined b group else group).joined_on_all_paths ≡ some false) ↔ ∥ P ∥₁
  unfolding note_joined
  joined_mark true true group unset none_there e = (λ h. e.0 refl, λ h. refl)
  joined_mark true false group unset none_there e = (λ h. absurd (cc), λ h. absurd (cc (e.1 h)))
  joined_mark false b group unset none_there e = (λ h. absurd (cc), refuted (none_there refl))

  -- What makes a group not joined on every path.
  abbrev pub NotAlwaysJoined : JoinCalls → JoinGroup → Type 0
  NotAlwaysJoined calls group =
      (group.joined ≡ true)
      × (((is_empty (join_sites g sites deferred calls) ≡ true)
            × (is_empty (call_sites_of sites calls.may_join_calls) ≡ false))
          ⊎ ((is_empty (join_sites g sites deferred calls) ≡ false)
              × SomeUndischarged g wf [] (join_sites g sites deferred calls) no_skip
                  (call_sites_of sites calls.start_calls)))

  placed_group :
      (calls : JoinCalls) (group : JoinGroup)
      → group.joined_on_all_paths ≡ none
      → group.joined ≡ true
      → is_empty (join_sites g sites deferred calls) ≡ false
      → AreInGraph g wf []
          (join_sites g sites deferred calls)
          no_skip
          (call_sites_of sites calls.start_calls)
      → (out : JoinGroup) × (order_group g sites deferred calls group ≡ ok out)
        × ((out.joined_on_all_paths ≡ some false) ↔ ∥ NotAlwaysJoined calls group ∥₁)
  unfolding order_group
  placed_group calls group unset joined some_placed fits =
      let starts = call_sites_of sites calls.start_calls in
      let (b, ends, exact) =
        live_exit_reachable-decides g wf [] (join_sites g sites deferred calls) no_skip starts
          fits in
      let (there, back) =
        joined_mark (not (is_empty starts)) b group unset
          (λ none_started.
            nothing_undischarged [] (join_sites g sites deferred calls) no_skip starts
              (ground (arith, none_started)))
          exact in
      (
        if not (is_empty starts) then note_joined b group else group,
        rw joined (rw some_placed (rw ends refl)),
        (
          λ h. ∥∥₁_map (there h) (λ u. (joined, inr (some_placed, u))),
          λ h. back (
              ∥∥₁_map h
                (λ (j, x). elim x [ inl (e, m) ↦ absurd (cc (e, some_placed)) | inr (e, u) ↦ u ])),
        ),
      )

  -- On a well-formed graph, for a group whose starts have their places in it and of which nothing is
  -- established yet, the round of `computeOrdering` ends without a panic. The group is found not to be
  -- joined on every path just when it counts as joined and either no join has a place while a callee
  -- that may join does, or joins have places and from some start a path leads to the exit that
  -- meets none, neither before the start nor after it.
  pub order_group-decides :
      (calls : JoinCalls) (group : JoinGroup)
      → group.joined_on_all_paths ≡ none
      → AreInGraph g wf []
          (join_sites g sites deferred calls)
          no_skip
          (call_sites_of sites calls.start_calls)
      → (out : JoinGroup) × (order_group g sites deferred calls group ≡ ok out)
        × ((out.joined_on_all_paths ≡ some false) ↔ ∥ NotAlwaysJoined calls group ∥₁)
  unfolding order_group only_may_join
  order_group-decides calls group unset fits = elim (Bool-cases group.joined) [
    | inr unjoined ↦ (
      group,
      rw unjoined refl,
      (λ h. absurd (cc (h, unset)), refuted (λ (j, x). cc (j, unjoined))),
    )
    | inl joined ↦ elim (Bool-cases (is_empty (join_sites g sites deferred calls))) [
      | inr some_placed ↦ placed_group calls group unset joined some_placed fits
      | inl none_placed ↦ elim (Bool-cases (is_empty (call_sites_of sites calls.may_join_calls))) [
        | inl nothing ↦ (
          group,
          rw joined (rw none_placed (rw nothing refl)),
          (
            λ h. absurd (cc (h, unset)),
            refuted (λ (j, x). elim x [
              | inl (e, m) ↦ cc (m, nothing)
              | inr (e, u) ↦ cc (e, none_placed)
            ]),
          ),
        )
        | inr may ↦ (
          only_may_join group,
          rw joined (rw none_placed (rw may refl)),
          (λ h. ∣ (joined, inl (none_placed, may)) ∣₁, λ h. refl),
        )
      ]
    ]
  ]

  guarded-ends :
      (origins plain late : List Site) (skip : Option (Edge → Bool)) (bypassed : Bool)
      → AreInGraph g wf plain late no_skip origins
      → (x : Bool) × (guarded g sites deferred origins plain late skip bypassed ≡ ok x)
  unfolding guarded
  guarded-ends origins plain late none bypassed fits = (false, refl)
  guarded-ends origins plain late (some f) true fits = (false, refl)
  guarded-ends origins plain late (some f) false fits =
      let (b, ends, exact) = live_exit_reachable-decides g wf plain late no_skip origins fits in
      (b, rw ends refl)

  called_mark :
      (known b guard : Bool) {P : Type 0} (c : CancelBinding)
      → c.called_on_all_paths ≡ none
      → (known ≡ false → P → ⊥)
      → ((b ≡ true) ↔ ∥ P ∥₁)
      → ((if not known
            then c
            else note_called b (if guard then note_guard c else c)).called_on_all_paths
          ≡ some false)
        ↔ ∥ P ∥₁
  unfolding note_called
  called_mark true true guard c unset none_there e = (λ h. e.0 refl, λ h. refl)
  called_mark true false guard c unset none_there e = (λ h. absurd (cc), λ h. absurd (cc (e.1 h)))
  called_mark false b guard c unset none_there e =
      (λ h. absurd (cc (h, unset)), refuted (none_there refl))

  abbrev pub plain_calls : CancelCalls → List Site
  plain_calls calls = (split_deferred deferred sites calls.call_sites).0

  abbrev pub late_calls : CancelCalls → List Site
  late_calls calls = (split_deferred deferred sites calls.call_sites).1

  abbrev pub acquired_at : CancelCalls → List Site
  acquired_at calls = call_sites_of sites (calls.acquire_call ∷ [])

  order_calls-decides :
      (calls : CancelCalls) (c : CancelBinding)
      → c.called_on_all_paths ≡ none
      → AreInGraph g wf (plain_calls calls) (late_calls calls) no_skip (acquired_at calls)
      → (out : CancelBinding) × (order_calls g sites deferred calls
            (plain_calls calls)
            (late_calls calls)
            c
          ≡ ok out)
        × ((out.called_on_all_paths ≡ some false)
            ↔ ∥ SomeUndischarged g wf
                (plain_calls calls)
                (late_calls calls)
                (skip_of g sites deferred calls.skip)
                (acquired_at calls) ∥₁)
  unfolding order_calls
  order_calls-decides calls c unset fits =
      let origins = acquired_at calls in
      let (b, ends, exact) =
        live_exit_reachable-decides g wf (plain_calls calls) (late_calls calls)
          (skip_of g sites deferred calls.skip) origins fits in
      let (guard, checked) =
        guarded-ends origins (plain_calls calls) (late_calls calls) calls.skip b fits in
      (
        if not (not (is_empty origins))
            then c
            else note_called b (if guard then note_guard c else c),
        rw ends (run_unless (not (not (is_empty origins))) _ guard c _ checked),
        called_mark (not (is_empty origins)) b guard c unset
            (λ none_there.
              nothing_undischarged (plain_calls calls) (late_calls calls)
                (skip_of g sites deferred calls.skip) origins (ground (arith, none_there)))
            exact,
      )

  -- What makes a cancel function not called on every path.
  abbrev pub NotAlwaysCalled : CancelCalls → CancelBinding → Type 0
  NotAlwaysCalled calls c =
      (c.called ≡ true)
      × ((((is_empty (plain_calls calls) && is_empty (late_calls calls)) ≡ true)
            × (is_empty (call_sites_of sites calls.may_calls) ≡ false))
          ⊎ (((is_empty (plain_calls calls) && is_empty (late_calls calls)) ≡ false)
              × SomeUndischarged g wf (plain_calls calls) (late_calls calls)
                  (skip_of g sites deferred calls.skip) (acquired_at calls)))

  -- On a well-formed graph, for a cancel function whose creation has its place in it and of which nothing is
  -- established yet, the round of `computeOrdering` ends without a panic. The function is found not to
  -- be called on every path just when it counts as called and either none of its calls has a place
  -- while a callee that may call it does, or calls have places and from the creation a path leads to the
  -- exit, along no edge that the error guard rules out, that meets none of them.
  pub order_cancel-decides :
      (calls : CancelCalls) (c : CancelBinding)
      → c.called_on_all_paths ≡ none
      → AreInGraph g wf (plain_calls calls) (late_calls calls) no_skip (acquired_at calls)
      → (out : CancelBinding) × (order_cancel g sites deferred calls c ≡ ok out)
        × ((out.called_on_all_paths ≡ some false) ↔ ∥ NotAlwaysCalled calls c ∥₁)
  unfolding order_cancel only_may_call
  order_cancel-decides calls c unset fits = elim (Bool-cases c.called) [
    | inr uncalled ↦
        (c, rw uncalled refl, (λ h. absurd (cc (h, unset)), refuted (λ (j, x). cc (j, uncalled))))
    | inl called ↦ elim (Bool-cases (is_empty (plain_calls calls) && is_empty (late_calls calls))) [
      | inr some_placed ↦
          let (out, ends, (there, back)) = order_calls-decides calls c unset fits in
          (
            out,
            last_branch c.called _ _ _ _ called some_placed ∙ ends,
            (
              λ h. ∥∥₁_map (there h) (λ u. (called, inr (some_placed, u))),
              λ h. back (
                  ∥∥₁_map h (λ (j, x). elim x [
                    | inl (e, m) ↦ absurd (cc (e, some_placed))
                    | inr (e, u) ↦ u
                  ])),
            ),
          )
      | inl none_placed ↦ elim (Bool-cases (is_empty (call_sites_of sites calls.may_calls))) [
        | inl nothing ↦ (
          c,
          rw called (rw none_placed (rw nothing refl)),
          (
            λ h. absurd (cc (h, unset)),
            refuted (λ (j, x). elim x [
              | inl (e, m) ↦ cc (m, nothing)
              | inr (e, u) ↦ cc (e, none_placed)
            ]),
          ),
        )
        | inr may ↦ (
          only_may_call c,
          rw called (rw none_placed (rw may refl)),
          (λ h. ∣ (called, inl (none_placed, may)) ∣₁, λ h. refl),
        )
      ]
    ]
  ]
