-- ===== src/Engine/Filter.antt =====
-- `AnalyzeWithStatus` of internal/engine/engine.go: the findings of all functions, the notice that
-- analysis stopped early, the filter, the order of the report, and the two policies. The stable sort
-- of the package sort is an insertion sort, which has the same result.
pub mod Conservation
pub mod Hiding
pub mod Order
pub mod Unique
pub mod Rules
pub mod Policies
use lifeline.Prelude.{
  ℕ, zero, String, Bool, true, false, not, ◌&&◌, ◌||◌, Option, none, some, List, [],
}
use lifeline.Prelude.{◌∷◌, ◌++◌, ltb, ◌==◌, str_eq, str_lt, if◌then◌else◌}
use lifeline.Model.Source.{Span, no_span, Evidence}
use lifeline.Model.Graph.Tarjan.{Run, ok, panic, stuck, ◌>>=◌}
use lifeline.Model.Facts.{Function, Program}
use lifeline.Config.{Config}
use lifeline.Engine.Diagnostics.{
  Diagnostic, Format, Verdict, warning, unknown, report_schema, version,
}
use lifeline.Engine.Diagnostics.{backend, shared_assumptions, bounds_of}
use lifeline.Engine.Findings.{function_findings}
use Prim.Native.String.{◌++◌ as cat}
use lifeline.Engine.Status.{
  Status, Suppressed, Fate, note, nothing_suppressed, status_of, stopped_after,
}
use lifeline.Engine.Status.{unsupported_total}

-- `ignored`.
unfoldable pub ignored : List String → String → Bool
ignored [] id = false
ignored (item ∷ items) id = (str_eq item "all" || str_eq item id) || ignored items id

-- The loop of `lineSuppressed` over the rules of a line.
unfoldable pub names_rule : List String → String → Bool
names_rule [] rule = false
names_rule (id ∷ ids) rule = (str_eq id "*" || str_eq id rule) || names_rule ids rule

-- `lineSuppressed`.
unfoldable pub line_suppressed : (String → ℕ → List String) → String → ℕ → String → Bool
line_suppressed suppressions file line rule = names_rule (suppressions file line) rule

unfoldable pub span_suppressed : (String → ℕ → List String) → Option Span → String → Bool
span_suppressed suppressions none rule = false
span_suppressed suppressions (some s) rule = line_suppressed suppressions s.file s.start_line rule

unfoldable pub evidence_suppressed : (String → ℕ → List String) → List Evidence → String → Bool
evidence_suppressed suppressions [] rule = false
evidence_suppressed suppressions (e ∷ es) rule =
    span_suppressed suppressions e.span rule || evidence_suppressed suppressions es rule

-- `suppressedByComment`.
unfoldable pub suppressed_by_comment : (String → ℕ → List String) → Diagnostic → Bool
suppressed_by_comment suppressions d =
    line_suppressed suppressions d.position.file d.position.start_line d.rule_id
    || evidence_suppressed suppressions d.evidence d.rule_id

-- Which branch of the filter's loop a diagnostic takes.
unfoldable pub fate : List String → (String → ℕ → List String) → Diagnostic → Fate
fate ignore suppressions d =
    if ignored ignore d.rule_id
    then Fate.by_configuration
    else if not (str_eq d.rule_id "LL9001") && suppressed_by_comment suppressions d
    then Fate.by_a_comment
    else Fate.shown

pub record Filtered : Type 0 where
  pub kept : List Diagnostic
  pub hidden : Suppressed

unfoldable pub keep : Fate → Diagnostic → Filtered → Filtered
keep Fate.shown d f = record { kept = d ∷ f.kept; hidden = f.hidden }
keep Fate.by_configuration d f = f
keep Fate.by_a_comment d f = f

-- The filter's loop.
unfoldable pub filter_loop :
    List String → (String → ℕ → List String) → List Diagnostic → Suppressed → Filtered
filter_loop ignore suppressions [] s = record { kept = []; hidden = s }
filter_loop ignore suppressions (d ∷ ds) s =
    let way = fate ignore suppressions d in
    keep way d (filter_loop ignore suppressions ds (note way d.rule_id s))

-- The order of the report.
unfoldable pub less : Diagnostic → Diagnostic → Bool
less a b =
    if not (str_eq a.position.file b.position.file)
    then str_lt a.position.file b.position.file
    else if not (a.position.start_offset == b.position.start_offset)
    then ltb a.position.start_offset b.position.start_offset
    else str_lt a.rule_id b.rule_id

unfoldable pub insert : Diagnostic → List Diagnostic → List Diagnostic
insert d [] = d ∷ []
insert d (e ∷ es) = if less e d then e ∷ insert d es else d ∷ e ∷ es

unfoldable pub sort_stable : List Diagnostic → List Diagnostic
sort_stable [] = []
sort_stable (d ∷ ds) = insert d (sort_stable ds)

-- The span of the last function, and the zero span where there is none.
unfoldable pub last_span : List Function → Span
last_span [] = no_span
last_span (fn ∷ []) = fn.span
last_span (fn ∷ f ∷ rest) = last_span (f ∷ rest)

module _ (fmt : Format) where
  unfoldable pub all_findings : Program → Config → List Function → Run (List Diagnostic)
  all_findings program cfg [] = ok []
  all_findings program cfg (fn ∷ fns) =
      function_findings fmt program cfg fn
      >>= (λ first. all_findings program cfg fns >>= (λ rest. ok (first ++ rest)))

  -- LL9001.
  unfoldable pub notice : Program → Config → Diagnostic
  notice program cfg = record {
    schema_version = report_schema;
    rule_id = "LL9001";
    verdict = unknown;
    message = stopped_after fmt program;
    position = last_span program.functions;
    protocol = "analysis-bound";
    evidence =
        (record {
          kind = "bound";
          message = cat "max_functions=" (fmt.integer cfg.max_functions);
          span = none;
        })
        ∷ [];
    assumptions = shared_assumptions;
    bounds = bounds_of cfg;
    suggestion = "";
    suggested_fix = none;
    tool_version = version;
    backend = backend;
    package_path = program.package_path;
    function = "";
  }

  -- What has been found when the filter starts.
  unfoldable pub found : Program → Config → Run (List Diagnostic)
  found program cfg =
      all_findings program cfg program.functions
      >>= (λ out. ok (out ++ (if program.truncated then notice program cfg ∷ [] else [])))

  pub record Report : Type 0 where
    pub diagnostics : List Diagnostic
    pub status : Status

  unfoldable pub report : Program → Config → List Diagnostic → Report
  report program cfg out =
      let status = status_of fmt program shared_assumptions in
      let f = filter_loop cfg.ignore program.suppressions out status.suppressed in
      record { diagnostics = sort_stable f.kept; status = record status { suppressed = f.hidden } }

  -- `AnalyzeWithStatus`.
  unfoldable pub analyze_with_status : Program → Config → Run Report
  analyze_with_status program cfg = found program cfg >>= (λ out. ok (report program cfg out))

  -- `Analyze`.
  unfoldable pub analyze : Program → Config → Run (List Diagnostic)
  analyze program cfg = analyze_with_status program cfg >>= (λ r. ok r.diagnostics)

-- `FailsStatusPolicy`.
unfoldable pub fails_status_policy : Status → Config → Bool
fails_status_policy st cfg =
    (cfg.fail_on_incomplete && st.incomplete)
    || (cfg.fail_on_unsupported && ltb 0 (unsupported_total st.unsupported))

unfoldable pub is_warning : Verdict → Bool
is_warning Verdict.warning = true
is_warning Verdict.unknown = false

-- The inner loop of `FailsPolicy`, over the list of rules.
unfoldable pub fails_at : Diagnostic → List String → Bool
fails_at d [] = false
fails_at d (id ∷ ids) =
    (str_eq id d.rule_id || (str_eq id "all" && is_warning d.verdict)) || fails_at d ids

-- `FailsPolicy`; an empty list of rules makes no round fail.
unfoldable pub fails_policy : List Diagnostic → List String → Bool
fails_policy [] ids = false
fails_policy (d ∷ ds) ids = fails_at d ids || fails_policy ds ids
