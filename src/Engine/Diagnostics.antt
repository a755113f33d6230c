-- ===== src/Engine/Diagnostics.antt =====
-- `Diagnostic` and the metadata of a run in internal/engine/engine.go and internal/version. The two
-- formatting verbs of the package fmt that messages use are the fields of `Format`.
use lifeline.Prelude.{ℕ, ℤ, String, Option, List, [], ◌∷◌}
use lifeline.Model.Source.{Span, Evidence, SuggestedFix}
use lifeline.Model.Facts.{Function, Program}
use lifeline.Config.{Config}

pub data Verdict : Type 0 where
  warning unknown : Verdict

-- The map of bounds, which always has these two keys.
pub record Bounds : Type 0 where
  pub max_functions : ℤ
  pub timeout : String

pub record Diagnostic : Type 0 where
  pub schema_version : String
  pub rule_id : String
  pub verdict : Verdict
  pub message : String
  pub position : Span
  pub protocol : String
  pub evidence : List Evidence
  pub assumptions : List String
  pub bounds : Bounds
  pub suggestion : String
  pub suggested_fix : Option SuggestedFix
  pub tool_version : String
  pub backend : String
  pub package_path : String
  pub function : String

-- %q on a text, and %d on a count and on an int.
pub record Format : Type 0 where
  pub quoted : String → String
  pub decimal : ℕ → String
  pub integer : ℤ → String

abbrev pub report_schema : String
report_schema = "lifeline.report/v1"

abbrev pub version : String
version = "0.1.2"

abbrev pub backend : String
backend = "local-ast-types-ssa-summary/v2"

abbrev pub shared_assumptions : List String
shared_assumptions =
    "local type-checked syntax, direct same-package callees, and versioned direct cross-package function facts"
    ∷ "reflection, generated dispatch, and arbitrary aliasing are not modeled"
    ∷ "a context passed to a called operation is treated as delegated cancellation"
    ∷ "absence of a recognized protocol is evidence, not a proof of nontermination" ∷ []

abbrev pub bounds_of : Config → Bounds
bounds_of cfg = record { max_functions = cfg.max_functions; timeout = cfg.timeout }

-- `base`, with the verdict that every caller gives.
unfoldable pub base :
    Program
    → Config
    → Function
    → String
    → String
    → Span
    → String
    → List Evidence
    → String
    → Option SuggestedFix
    → Diagnostic
base program cfg fn rule message pos protocol evidence suggestion fix = record {
  schema_version = report_schema;
  rule_id = rule;
  verdict = warning;
  message = message;
  position = pos;
  protocol = protocol;
  evidence = evidence;
  assumptions = shared_assumptions;
  bounds = bounds_of cfg;
  suggestion = suggestion;
  suggested_fix = fix;
  tool_version = version;
  backend = backend;
  package_path = program.package_path;
  function = fn.name;
}
