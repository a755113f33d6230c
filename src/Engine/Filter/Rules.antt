-- ===== src/Engine/Filter/Rules.antt =====
-- What `AnalyzeWithStatus` may find: rules that the configuration knows, and the notice LL9001.
use lifeline.Prelude.{String, Bool, true, false, List, [], ◌∷◌}
use lifeline.Prelude.{
  ◌++◌, ◌∈◌, ◌≡◌, ◌⊎◌, ◌↔◌, inl, inr, refl, ap, sym, subst, arith, if◌then◌else◌,
}
use lifeline.Prelude.{mem-append_cases, mem-append_right}
use lifeline.Model.Graph.Tarjan.{Run, ok, panic, stuck, ◌>>=◌}
use lifeline.Model.Facts.{CancelBinding, Goroutine, JoinGroup, Function, Program}
use lifeline.Config.{Config, known_rule}
use lifeline.Engine.Diagnostics.{Diagnostic, Format, Verdict, base}
use lifeline.Engine.Findings.{
  cancel_ok, goroutine_ok, goroutine_finding, stop_advice, goroutine_findings, cancel_finding,
  cancel_findings, join_finding, stop_finding, group_findings, function_findings, is_errgroup,
  group_joined,
}
use lifeline.Engine.Status.{status_of}
use lifeline.Engine.Filter.{all_findings, notice, found, report, fails_status_policy}
use lifeline.Engine.Filter.Hiding.{Ignores, report-shows}

abbrev pub finding_rules : List String
finding_rules = "LL1001" ∷ "LL1002" ∷ "LL1003" ∷ "LL1004" ∷ "LL1005" ∷ []

-- A warning of one of the five rules.
abbrev pub IsFinding : Diagnostic → Type 0
IsFinding d = (d.verdict ≡ Verdict.warning) × (d.rule_id ∈ finding_rules)

abbrev AreFindings : List Diagnostic → Type 0
AreFindings ds = (d : Diagnostic) → d ∈ ds → IsFinding d

AreFindings-append :
    (xs ys : List Diagnostic) → AreFindings xs → AreFindings ys → AreFindings (xs ++ ys)
AreFindings-append xs ys h k d m = elim (mem-append_cases d xs ys m) [
  | inl a ↦ h d a
  | inr b ↦ k d b
]

AreFindings-one : (x : Diagnostic) → IsFinding x → AreFindings (x ∷ [])
AreFindings-one x h d (inl e) = subst IsFinding (sym e) h
AreFindings-one x h d (inr m) = absurd m

AreFindings-if :
    (b : Bool) (xs ys : List Diagnostic)
    → AreFindings xs
    → AreFindings ys
    → AreFindings (if b then xs else ys)
AreFindings-if true xs ys h k = h
AreFindings-if false xs ys h k = k

no_findings : AreFindings []
no_findings d m = absurd m

-- The result of two steps is that of the second at the result of the first.
bind_ok :
    {A B : Type 0} (r : Run A) (f : A → Run B) (b : B)
    → (r >>= f) ≡ ok b
    → (a : A) × (r ≡ ok a) × (f a ≡ ok b)
bind_ok (ok a) f b h = (a, refl, h)
bind_ok panic f b h = absurd (cc)
bind_ok stuck f b h = absurd (cc)

ok_inj : {A : Type 0} (a b : A) → ok a ≡ ok b → a ≡ b
ok_inj a b h = cc

module _ (fmt : Format) (p : Program) (cfg : Config) (fn : Function) where
  cancel_findings-AreFindings :
      (cs : List CancelBinding) → AreFindings (cancel_findings fmt p cfg fn cs)
  unfolding cancel_findings cancel_finding base
  cancel_findings-AreFindings [] = no_findings
  cancel_findings-AreFindings (c ∷ cs) =
      AreFindings-append _ _
        (AreFindings-if (cancel_ok c) [] _ no_findings (AreFindings-one _ (refl, inl refl)))
        (cancel_findings-AreFindings cs)

  stop_advice-IsFinding :
      (g : Goroutine) (names : List String) → IsFinding (stop_advice fmt p cfg fn g names)
  unfolding stop_advice base
  stop_advice-IsFinding g [] = (refl, inr (inl refl))
  stop_advice-IsFinding g (c ∷ cs) = (refl, inr (inl refl))

  goroutine_findings-AreFindings :
      (gs : List Goroutine) (ds : List Diagnostic)
      → goroutine_findings fmt p cfg fn gs ≡ ok ds
      → AreFindings ds
  unfolding goroutine_findings goroutine_finding
  goroutine_findings-AreFindings [] ds h = subst AreFindings (ok_inj [] ds h) no_findings
  goroutine_findings-AreFindings (g ∷ gs) ds h =
      let (fine, one, tail) = bind_ok (goroutine_ok g) _ ds h in
      let (rest, others, last) = bind_ok (goroutine_findings fmt p cfg fn gs) _ ds tail in
      subst AreFindings (ok_inj _ ds last) (
        AreFindings-append _ rest
          (AreFindings-if fine [] _ no_findings
            (AreFindings-one _ (stop_advice-IsFinding g g.available_contexts)))
          (goroutine_findings-AreFindings gs rest others))

  join_finding-IsFinding : (g : JoinGroup) → IsFinding (join_finding fmt p cfg fn g)
  unfolding join_finding base
  join_finding-IsFinding g = (refl, by_kind (is_errgroup g))
    where
      by_kind : (b : Bool) → (if b then "LL1004" else "LL1003") ∈ finding_rules
      by_kind true = inr (inr (inr (inl refl)))
      by_kind false = inr (inr (inl refl))

  group_findings-AreFindings : (gs : List JoinGroup) → AreFindings (group_findings fmt p cfg fn gs)
  unfolding group_findings stop_finding base
  group_findings-AreFindings [] = no_findings
  group_findings-AreFindings (g ∷ gs) =
      AreFindings-append _ _
        (AreFindings-if _ [] _ no_findings (
          AreFindings-append _ _
            (AreFindings-if (group_joined g) [] _ no_findings
              (AreFindings-one _ (join_finding-IsFinding g)))
            (AreFindings-if g.stop_after_wait _ []
              (AreFindings-one _ (refl, inr (inr (inr (inr (inl refl)))))) no_findings)))
        (group_findings-AreFindings gs)

  function_findings-AreFindings :
      (ds : List Diagnostic) → function_findings fmt p cfg fn ≡ ok ds → AreFindings ds
  unfolding function_findings
  function_findings-AreFindings ds h =
      let (middle, one, last) = bind_ok (goroutine_findings fmt p cfg fn fn.goroutines) _ ds h in
      subst AreFindings (ok_inj _ ds last) (
        AreFindings-append _ _ (cancel_findings-AreFindings fn.cancels) (
          AreFindings-append middle _ (goroutine_findings-AreFindings fn.goroutines middle one)
            (group_findings-AreFindings fn.groups)))

module _ (fmt : Format) (p : Program) (cfg : Config) where
  all_findings-AreFindings :
      (fns : List Function) (ds : List Diagnostic)
      → all_findings fmt p cfg fns ≡ ok ds
      → AreFindings ds
  unfolding all_findings
  all_findings-AreFindings [] ds h = subst AreFindings (ok_inj [] ds h) no_findings
  all_findings-AreFindings (fn ∷ fns) ds h =
      let (first, one, tail) = bind_ok (function_findings fmt p cfg fn) _ ds h in
      let (rest, others, last) = bind_ok (all_findings fmt p cfg fns) _ ds tail in
      subst AreFindings (ok_inj _ ds last) (
        AreFindings-append first rest (function_findings-AreFindings fmt p cfg fn first one)
          (all_findings-AreFindings fns rest others))

  IsFinding-known_rule : (r : String) → r ∈ finding_rules → known_rule r ≡ true
  unfolding known_rule
  IsFinding-known_rule r (inl e) = ap known_rule e
  IsFinding-known_rule r (inr (inl e)) = ap known_rule e
  IsFinding-known_rule r (inr (inr (inl e))) = ap known_rule e
  IsFinding-known_rule r (inr (inr (inr (inl e)))) = ap known_rule e
  IsFinding-known_rule r (inr (inr (inr (inr (inl e))))) = ap known_rule e
  IsFinding-known_rule r (inr (inr (inr (inr (inr m))))) = absurd m

  mem-notice_if :
      (b : Bool) (d : Diagnostic)
      → d ∈ (if b then notice fmt p cfg ∷ [] else [])
      → (d ≡ notice fmt p cfg) × (b ≡ true)
  mem-notice_if true d (inl e) = (e, refl)
  mem-notice_if true d (inr m) = absurd m
  mem-notice_if false d m = absurd m

  notice_known : (d : Diagnostic) → d ≡ notice fmt p cfg → known_rule d.rule_id ≡ true
  unfolding notice known_rule
  notice_known d e = ap (λ x. known_rule x.rule_id) e

  -- When the findings of a program are computed, each is a warning of one of the rules LL1001 to
  -- LL1005, or is the notice LL9001 of a truncated program; in every case `validate` of the
  -- configuration knows its rule, so that `ignore` and `fail_on` can name it.
  pub found-known_rule :
      (out : List Diagnostic) (d : Diagnostic)
      → found fmt p cfg ≡ ok out
      → d ∈ out
      → (known_rule d.rule_id ≡ true)
        × (IsFinding d ⊎ ((d ≡ notice fmt p cfg) × (p.truncated ≡ true)))
  unfolding found
  found-known_rule out d h m =
      let (ds, one, last) = bind_ok (all_findings fmt p cfg p.functions) _ out h in
      elim (mem-append_cases d ds _ (subst (λ xs. d ∈ xs) (sym (ok_inj _ out last)) m)) [
        | inl a ↦
            let fine = all_findings-AreFindings p.functions ds one d a in
            (IsFinding-known_rule d.rule_id fine.1, inl fine)
        | inr b ↦ let (e, cut) = mem-notice_if p.truncated d b in (notice_known d e, inr (e, cut))
      ]

  -- If a program was truncated and its findings are computed, then the report shows the notice
  -- LL9001 just when the configuration does not ignore that rule, whatever the comments say, and the
  -- status fails the policy of every configuration that sets `fail_on_incomplete`, shown or not.
  pub truncated-report :
      (policy : Config) (out : List Diagnostic)
      → found fmt p cfg ≡ ok out
      → p.truncated ≡ true
      → policy.fail_on_incomplete ≡ true
      → ((notice fmt p cfg ∈ (report fmt p cfg out).diagnostics)
          ↔ (Ignores cfg.ignore "LL9001" → ⊥))
        × (fails_status_policy (report fmt p cfg out).status policy ≡ true)
  unfolding found notice report status_of fails_status_policy
  truncated-report policy out h cut strict =
      let shows = report-shows fmt p cfg out (notice fmt p cfg) in
      let (ds, one, last) = bind_ok (all_findings fmt p cfg p.functions) _ out h in
      let there =
        subst (λ b. notice fmt p cfg ∈ (ds ++ (if b then notice fmt p cfg ∷ [] else []))) (sym cut)
          (mem-append_right _ ds _ (inl refl)) in
      (
        (
          λ m. (shows.0 m).1.0,
          λ no.
              shows.1
                (subst (λ xs. notice fmt p cfg ∈ xs) (ok_inj _ out last) there, (no, inl refl)),
        ),
        ground (arith, strict, cut),
      )
