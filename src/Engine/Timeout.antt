-- ===== src/Engine/Timeout.antt =====
-- `TimeoutDiagnostic` of internal/engine/timeout.go: the notice that the deadline passed.
use lifeline.Prelude.{
  ℤ, String, true, none, List, [], ◌∷◌, ◌∈◌, ◌≡◌, ◌↔◌, inl, inr, refl, subst, ap, ◌∙◌,
}
use lifeline.Model.Source.{no_span}
use lifeline.Config.{Config}
use lifeline.Engine.Diagnostics.{Diagnostic, unknown, report_schema, version, backend, bounds_of}
use lifeline.Engine.Filter.{fails_policy}
use lifeline.Engine.Filter.Policies.{fails_policy_iff}
use Prim.Native.String.{◌++◌ as cat}

-- `rounded` is the text of a duration rounded to the millisecond, of the package time.
timeout_diagnostic : (ℤ → String) → Config → ℤ → String → Diagnostic
timeout_diagnostic rounded cfg elapsed package_path = record {
  schema_version = report_schema;
  rule_id = "LL9001";
  verdict = unknown;
  message = cat "analysis exceeded timeout " (cat cfg.timeout (cat " after " (rounded elapsed)));
  position = no_span;
  protocol = "analysis-timeout";
  evidence =
      (record {
        kind = "timeout";
        message = "partial results, if any, are incomplete";
        span = none;
      })
      ∷ [];
  assumptions = "the interrupted package may contain additional diagnostics" ∷ [];
  bounds = bounds_of cfg;
  suggestion = "";
  suggested_fix = none;
  tool_version = version;
  backend = backend;
  package_path = package_path;
  function = "";
}

-- The notice fails a run by the policy `fail_on` only where the policy names its rule.
timeout_diagnostic-policy :
    (rounded : ℤ → String) (cfg : Config) (elapsed : ℤ) (package_path : String) (ids : List String)
    → (fails_policy (timeout_diagnostic rounded cfg elapsed package_path ∷ []) ids ≡ true)
      ↔ ("LL9001" ∈ ids)
unfolding timeout_diagnostic
timeout_diagnostic-policy rounded cfg elapsed package_path ids =
    let notice = timeout_diagnostic rounded cfg elapsed package_path in
    let (there, back) = fails_policy_iff (notice ∷ []) ids in
    (
      λ h.
          let (d, id, m, named, q) = there h in
          elim m [
            | inl same ↦ elim q [
              | inl rule ↦
                  subst (λ x. x ∈ ids) (rule ∙ ap (λ (x : Diagnostic). x.rule_id) same) named
              | inr (all, warned) ↦ absurd (cc (ap (λ (x : Diagnostic). x.verdict) same, warned))
            ]
            | inr none_left ↦ absurd none_left
          ],
      λ m. back (notice, "LL9001", inl refl, m, inl refl),
    )
