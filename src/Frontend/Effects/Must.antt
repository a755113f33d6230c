-- ===== src/Frontend/Effects/Must.antt =====
-- What the effects of `paramEffectOf` say of the paths through a well-formed graph.
use lifeline.Prelude.{◌≡◌, refl, sym, ap, ◌∙◌, ◌↔◌, ◌⊎◌, inl, inr, arith}
use lifeline.Prelude.{Bool, true, false, not, ◌||◌, Option, List, [], ◌∷◌, ◌++◌}
use mathlib.Core.Logic.{∥∥₁_elim}
use mathlib.Core.HLevel.{⊥_prop}
use lifeline.Model.Graph.{BlockId, Cfg, done, reachable}
use lifeline.Model.Graph.Tarjan.{ok, ◌>>=◌}
use lifeline.Model.Graph.WellFormed.{IsWellFormed}
use lifeline.Model.Graph.Routes.{no_skip, reachable_decides}
use lifeline.Model.Facts.{ParamEffect}
use lifeline.Model.Effects.{has, effect_may, effect_must}
use lifeline.Engine.Verdict.{search}
use lifeline.Cfg.Ast.{NodeId}
use lifeline.Cfg.Builder.{CallSite}
use lifeline.Frontend.Paths.{split_deferred, is_empty}
use lifeline.Frontend.Paths.Live.{Undischarged, live_exit_reachable-decides}
use lifeline.Frontend.Effects.{live_calls, origin, effect_of, discharged_always, param_effect_of}
use lifeline.Frontend.Effects.Bits.{effect_of-has_may, effect_of-has_must}

not_bypassed : {P : Type 0} (b : Bool) → (b ≡ true → ∥ P ⊎ ⊥ ∥₁) → (P → ⊥) → not b ≡ true
not_bypassed true h safe =
    absurd (∥∥₁_elim (h refl) ⊥_prop (λ x. elim x [ inl p ↦ safe p | inr q ↦ q ]))
not_bypassed false h safe = refl

module _ (g : Cfg) (wf : IsWellFormed g) (sites : NodeId → Option CallSite)
    (deferred : NodeId → Bool) where
  -- Some path from the entry to the exit passes none of the calls.
  abbrev pub Bypassed : List NodeId → Type 0
  Bypassed calls =
      Undischarged g wf (split_deferred deferred sites calls).0
        (split_deferred deferred sites calls).1 no_skip (origin g)

  -- The calls that settle the obligation always, when there is a live one of their own.
  discharged_always-decides :
      (live recs : List NodeId)
      → (b : Bool) × (discharged_always g sites deferred live recs ≡ ok b)
        × ((b ≡ true) ↔ ((is_empty live ≡ false) × (Bypassed (live ++ recs) → ⊥)))
  unfolding discharged_always
  discharged_always-decides [] recs = (false, refl, (λ h. absurd (cc), λ h. absurd (cc (h.0))))
  discharged_always-decides (c ∷ cs) recs =
      let calls = (c ∷ cs) ++ recs in
      let (bypassed, ends, exact) =
        live_exit_reachable-decides g wf (split_deferred deferred sites calls).0
          (split_deferred deferred sites calls).1 no_skip (origin g ∷ []) (wf.entry_fits, tt) in
      (
        not bypassed,
        rw ends,
        (
          λ h. (refl, λ u. cc (h, exact.1 ∣ inl u ∣₁)),
          λ (_, safe). not_bypassed bypassed exact.0 safe,
        ),
      )

  -- On a well-formed graph `paramEffectOf` ends. It sets "must" just when some discharge is live, in
  -- a reached block and not started by `go`, and no path from the entry to the exit bypasses every
  -- live discharge and recursive pass, where deferred calls count wherever they are registered; and
  -- "must" brings "may" with it.
  pub param_effect_of-must :
      (discharges may_calls rec_calls : List NodeId) (escapes returned in_literal : Bool)
      → (e : ParamEffect) × (reach : BlockId → Bool) × (param_effect_of g sites deferred discharges
            may_calls rec_calls escapes returned in_literal
          ≡ ok e)
        × (reachable g g.entry ≡ done reach)
        × ((has e effect_must ≡ true) ↔ (
            (is_empty (live_calls reach sites discharges) ≡ false)
            × (Bypassed (live_calls reach sites discharges ++ live_calls reach sites rec_calls)
                → ⊥)))
        × ((not (has e effect_must) || has e effect_may) ≡ true)
  unfolding param_effect_of search
  param_effect_of-must discharges may_calls rec_calls escapes returned in_literal =
      let (reach, ends, _) = reachable_decides g wf g.entry wf.entry_fits in
      let live = live_calls reach sites discharges in
      let recs = live_calls reach sites rec_calls in
      let (must, always, exact) = discharged_always-decides live recs in
      let may = not (is_empty live) || not (is_empty (live_calls reach sites may_calls)) in
      let bits = effect_of-has_must may must returned escapes in_literal in
      (
        effect_of may must returned escapes in_literal,
        reach,
        rw ends (ap (λ r. r >>= (λ m. ok (effect_of may m returned escapes in_literal))) always),
        ends,
        (λ h. exact.0 (sym bits ∙ h), λ h. bits ∙ exact.1 h),
        with_may must (is_empty live) _ (λ h. (exact.0 h).0) bits
            (effect_of-has_may may must returned escapes in_literal),
      )
    where
      with_may :
          (m b c : Bool) {x y : Bool}
          → (m ≡ true → b ≡ false)
          → x ≡ m
          → y ≡ (not b || c)
          → (not x || y) ≡ true
      with_may true b c h p q = rw p (q ∙ ground (arith, h refl))
      with_may false b c h p q = rw p refl
