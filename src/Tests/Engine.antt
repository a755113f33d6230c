-- ===== src/Tests/Engine.antt =====
-- A sample program with a lost cancellation and an unjoined group, and theorems at it.
use lifeline.Prelude.{
  ℕ, ◌+◌, ◌≤◌, ℤ, pos, String, true, false, not, ◌&&◌, ◌||◌, Option, none, some, List, [], ◌++◌,
}
use lifeline.Prelude.{◌∷◌, ◌∈◌, ◌≡◌, ◌⊎◌, ◌↔◌, inl, inr, arith, refl, length, ◌==◌, if◌then◌else◌}
use lifeline.Model.Source.{Span, no_span}
use lifeline.Model.Graph.Tarjan.{Run, ok, panic, stuck}
use lifeline.Model.Facts.{CancelBinding, Goroutine, JoinGroup, Function, Program}
use lifeline.Config.{
  Config, default, validate, known_rule, known_format, bad_duration, first_unknown,
}
use lifeline.Config.Validation.{IsValid, validate-IsValid_iff}
use lifeline.Engine.Coverage.{summarize, recognized}
use lifeline.Engine.Diagnostics.{Diagnostic, Format, Verdict, bounds_of}
use lifeline.Engine.Findings.{
  cancel_findings, cancel_finding, cancel_ok, goroutine_findings, goroutine_ok, function_findings,
  is_errgroup,
}
use lifeline.Engine.Filter.Policies.{Matches, fails_policy_iff}
use lifeline.Engine.Filter.{fails_policy}
use lifeline.Engine.Status.{Status, add_status, with_timeout, has_text}
use lifeline.Engine.Status.Union.{
  AreSums, AreSuppressedSums, AreUnsupportedSums, AreSorted, occurrences, add_status-IsUnion,
}
use lifeline.Engine.Findings.{stop_finding, join_finding, group_findings}
use lifeline.Engine.Findings.Messages.{Mentions, join_finding-Mentions}
use lifeline.Engine.Findings.Conditions.{IsUnjoined, group_findings_iff}
use lifeline.Engine.Findings.Conditions.{IsLost, cancel_findings_iff}
use lifeline.Engine.Status.{status_of, suppressed_total, unsupported_total}
use lifeline.Engine.Status.Counts.{status_of-summarize}
use lifeline.Engine.Filter.{found, all_findings, notice, report, sort_stable, fails_status_policy}
use lifeline.Engine.Filter.Conservation.{count_rule, report-conserves}
use lifeline.Engine.Filter.Hiding.{Ignores, Visible, report-shows, report-status, with_comments}
use lifeline.Engine.Filter.Order.{AreInOrder, all_at, sort_stable-IsStable}
use lifeline.Engine.Filter.Unique.{sort_stable_unique}
use lifeline.Engine.Filter.Rules.{IsFinding, found-known_rule, truncated-report}

abbrev pub fmt : Format
fmt = record { quoted = λ s. s; decimal = λ n. "1"; integer = λ k. "1" }

abbrev at_line : ℕ → Span
at_line n = record no_span { file = "a.go"; start_line = n; start_offset = n }

abbrev lost : CancelBinding
lost = record {
  factory = "context.WithCancel";
  context_name = "ctx";
  cancel_name = "cancel";
  span = at_line 7;
  discarded = false;
  called = true;
  escapes = false;
  used_by_child = false;
  evidence = [];
  suggested_fix = none;
  called_on_all_paths = some false;
}

abbrev unjoined : JoinGroup
unjoined = record {
  kind = "waitgroup";
  name = "wg";
  span = at_line 3;
  starts = 2;
  joined = true;
  escapes = false;
  evidence = [];
  count_mismatch = true;
  joined_on_all_paths = some false;
  stop_after_wait = false;
  stop_correlation = "";
  unjoined_round = false;
}

abbrev pub opaque_target : Goroutine
opaque_target = record {
  span = at_line 5;
  kind = "go";
  infinite_loop = false;
  has_return = false;
  context_stop = false;
  channel_stop = false;
  explicit_stop = false;
  available_contexts = [];
  captured_names = [];
  evidence = (record { kind = "unsupported"; message = "no body"; span = none }) ∷ [];
  cfg = none;
  imported_unresolved_loop = none;
}

abbrev pub sample_function : Function
sample_function = record {
  name = "f";
  span = at_line 1;
  contexts = [];
  cancels = lost ∷ [];
  goroutines = opaque_target ∷ [];
  groups = unjoined ∷ [];
  body_lifecycle = opaque_target;
  ir = [];
  param_effects = λ i. none;
  param_done_effects = λ i. none;
  return_field_sites = [];
}

abbrev no_comments : String → ℕ → List String
no_comments file line = []

-- A comment at the line of the group.
abbrev comments : String → ℕ → List String
comments file line = if line == 3 then "LL1003" ∷ [] else []

abbrev pub sample : Program
sample = record {
  package_path = "p";
  functions = sample_function ∷ [];
  function_count = 2;
  truncated = true;
  excluded_files = 0;
  suppressions = comments;
}

abbrev strict : Config
strict = record default { fail_on_incomplete = true }

abbrev one_second : String → Option ℤ
one_second s = some (pos 1000000000)

abbrev answer : Run (List Diagnostic) → List Diagnostic
answer (ok ds) = ds
answer panic = []
answer stuck = []

abbrev findings : List Diagnostic
findings = answer (found fmt sample default)

found-findings : found fmt sample default ≡ ok findings
unfolding found all_findings function_findings goroutine_findings goroutine_ok
found-findings = refl

lost_one : Diagnostic
lost_one = cancel_finding fmt sample default sample_function lost

lost_one-found : lost_one ∈ findings
unfolding lost_one found all_findings function_findings goroutine_findings goroutine_ok
    cancel_findings cancel_ok
lost_one-found = inl refl

validate-IsValid_iff_example : (validate one_second default ≡ none) ↔ IsValid one_second default
validate-IsValid_iff_example = validate-IsValid_iff one_second default

-- The defaults are accepted.
validate-default : validate one_second default ≡ none
unfolding validate known_format bad_duration first_unknown
validate-default = refl

report-conserves_example :
    (length (report fmt sample default findings).diagnostics
        + suppressed_total (report fmt sample default findings).status.suppressed
      ≡ length findings)
    × ((r : String)
        → count_rule r (report fmt sample default findings).diagnostics
            + (report fmt sample default findings).status.suppressed.by_rule r
          ≡ count_rule r findings)
report-conserves_example = report-conserves fmt sample default findings

report-shows_example :
    (lost_one ∈ (report fmt sample default findings).diagnostics)
    ↔ ((lost_one ∈ findings) × Visible [] comments lost_one)
report-shows_example = report-shows fmt sample default findings lost_one

report-status_example :
    let here = (report fmt sample default findings).status in
    let there = (report fmt (with_comments no_comments sample) strict []).status in
    (record here { suppressed = there.suppressed } ≡ there)
    × ((policy : Config) → fails_status_policy here policy ≡ fails_status_policy there policy)
report-status_example = report-status fmt sample no_comments default strict findings []

sort_stable-IsStable_example :
    AreInOrder (sort_stable findings)
    × ((file : String) (offset : ℕ) (rule : String)
        → all_at file offset rule (sort_stable findings) ≡ all_at file offset rule findings)
sort_stable-IsStable_example = sort_stable-IsStable findings

found-known_rule_example :
    (known_rule lost_one.rule_id ≡ true)
    × (IsFinding lost_one ⊎ ((lost_one ≡ notice fmt sample default) × (sample.truncated ≡ true)))
found-known_rule_example =
    found-known_rule fmt sample default findings lost_one found-findings lost_one-found

truncated-report_example :
    ((notice fmt sample default ∈ (report fmt sample default findings).diagnostics)
      ↔ (Ignores [] "LL9001" → ⊥))
    × (fails_status_policy (report fmt sample default findings).status strict ≡ true)
truncated-report_example =
    truncated-report fmt sample default strict findings found-findings refl refl

status_of-summarize_example :
    let status = status_of fmt sample [] in
    let coverage = summarize sample in
    (status.unsupported.targets ≡ length coverage.unsupported_targets)
    × (length coverage.unsupported_targets ≤ coverage.goroutines)
    × (unsupported_total status.unsupported ≤ recognized coverage)
    × ((status.units.analyzed + status.units.skipped ≡ status.units.discovered)
        ⊎ ((status.units.skipped ≡ 0) × (status.units.discovered ≤ status.units.analyzed)))
status_of-summarize_example = status_of-summarize fmt sample []

cancel_findings_iff_example :
    (lost_one ∈ cancel_findings fmt sample default sample_function (lost ∷ [])) ↔ (
      (c : CancelBinding) × (c ∈ (lost ∷ []))
      × IsLost c
      × (lost_one ≡ cancel_finding fmt sample default sample_function c))
cancel_findings_iff_example =
    cancel_findings_iff fmt sample default sample_function (lost ∷ []) lost_one

unjoined-kept : (is_errgroup unjoined && not unjoined.joined) ≡ false
unfolding is_errgroup
unjoined-kept = refl

join_finding-Mentions_example :
    let message = (join_finding fmt sample default sample_function unjoined).message in
    (unjoined.joined ≡ false → Mentions "no Wait or ownership transfer is observed" message)
    × (unjoined.joined ≡ true
        → unjoined.joined_on_all_paths ≡ some false
        → Mentions "not every path" message)
    × (unjoined.count_mismatch ≡ true → Mentions "literal Add/Done accounting" message)
    × (unjoined.unjoined_round ≡ true → Mentions "a further round of work" message)
join_finding-Mentions_example =
    join_finding-Mentions fmt sample default sample_function unjoined unjoined-kept

fails_policy_iff_example :
    (fails_policy findings ("all" ∷ []) ≡ true)
    ↔ ((d : Diagnostic) × (id : String) × (d ∈ findings) × (id ∈ ("all" ∷ [])) × Matches d id)
fails_policy_iff_example = fails_policy_iff findings ("all" ∷ [])

group_findings_iff_example :
    (join_finding fmt sample default sample_function unjoined
      ∈ group_findings fmt sample default sample_function (unjoined ∷ []))
    ↔ ((g : JoinGroup) × (g ∈ (unjoined ∷ []))
        × (((g.starts == 0) || g.escapes) ≡ false)
        × ((IsUnjoined g
              × (join_finding fmt sample default sample_function unjoined
                  ≡ join_finding fmt sample default sample_function g))
            ⊎ ((g.stop_after_wait ≡ true)
                × (join_finding fmt sample default sample_function unjoined
                    ≡ stop_finding fmt sample default sample_function g))))
group_findings_iff_example =
    group_findings_iff fmt sample default sample_function (unjoined ∷ [])
      (join_finding fmt sample default sample_function unjoined)

abbrev first_status : Status
first_status = status_of fmt sample ("b" ∷ "a" ∷ [])

abbrev second_status : Status
second_status = with_timeout "late" (status_of fmt sample ("a" ∷ "c" ∷ []))

add_status-IsUnion_example :
    let sum = add_status first_status second_status in
    AreSorted sum.assumptions
    × ((s : String)
        → occurrences s sum.assumptions ≡ (
            if has_text s first_status.assumptions || has_text s second_status.assumptions
            then 1
            else 0))
    × AreSums first_status.units second_status.units sum.units
    × AreSuppressedSums first_status.suppressed second_status.suppressed sum.suppressed
    × AreUnsupportedSums first_status.unsupported second_status.unsupported sum.unsupported
    × ((sum.incomplete ≡ true)
        ↔ ((first_status.incomplete ≡ true) ⊎ (second_status.incomplete ≡ true)))
    × (sum.reasons ≡ first_status.reasons ++ second_status.reasons)
add_status-IsUnion_example = add_status-IsUnion first_status second_status

abbrev lost_fields : Diagnostic
lost_fields = record {
  schema_version = "";
  rule_id = "LL1001";
  verdict = Verdict.warning;
  message = "";
  position = no_span;
  protocol = "";
  evidence = [];
  assumptions = [];
  bounds = bounds_of default;
  suggestion = "";
  suggested_fix = none;
  tool_version = "";
  backend = "";
  package_path = "p";
  function = "f";
}

abbrev early : Diagnostic
early = record lost_fields { position = at_line 3 }

abbrev late : Diagnostic
late = record lost_fields { position = at_line 7 }

early-first : AreInOrder (early ∷ late ∷ [])
early-first = (
  (λ before. elim before [
    | inl file ↦ absurd (cc (file))
    | inr (file, inl offset) ↦ absurd (omega (arith, offset))
    | inr (file, inr (offset, rule)) ↦ absurd (omega (arith, offset))
  ]),
  tt,
)

early-kept :
    (file : String) (offset : ℕ) (rule : String)
    → all_at file offset rule (early ∷ late ∷ []) ≡ all_at file offset rule (late ∷ early ∷ [])
early-kept file offset rule = ground arith

sort_stable_unique_example : early ∷ late ∷ [] ≡ sort_stable (late ∷ early ∷ [])
sort_stable_unique_example =
    sort_stable_unique (late ∷ early ∷ []) (early ∷ late ∷ []) early-first early-kept
