-- ===== src/Config.antt =====
-- `Config`, `Default` and `Validate` of internal/config/config.go. `time.ParseDuration` is a
-- parameter, which returns the nanoseconds or none; an error is a value that says which check failed.
pub mod Validation
pub mod Values
pub mod Decode
use package.lifeline.Prelude.{ℕ, ℤ, pos, le_zero, gt_nat, eq_nat, String, Bool, true, false, ◌||◌}
use mathlib.Core.Option
use package.lifeline.Prelude.{Option, none, some, List, [], ◌∷◌, ◌++◌, str_eq, if◌then◌else◌}

pub record Config : Type 0 where
  pub schema_version : ℤ
  pub format : String
  pub ci_exit_code : ℤ
  pub timeout : String
  pub max_functions : ℤ
  pub include_tests : Bool
  pub fail_on : List String
  pub fail_on_incomplete : Bool
  pub fail_on_unsupported : Bool
  pub ignore : List String
  pub ignore_paths : List String
  pub context_wrappers : List String
  pub start_wrappers : List String
  pub join_wrappers : List String
  pub stop_wrappers : List String

abbrev pub schema_version : ℕ
schema_version = 1

-- `Default`.
abbrev pub default : Config
default = record {
  schema_version = pos 1;
  format = "text";
  ci_exit_code = pos 1;
  timeout = "5s";
  max_functions = pos 10000;
  include_tests = false;
  fail_on = [];
  fail_on_incomplete = false;
  fail_on_unsupported = false;
  ignore = [];
  ignore_paths = [];
  context_wrappers = [];
  start_wrappers = [];
  join_wrappers = [];
  stop_wrappers = [];
}

pub data ConfigError : Type 0 where
  unsupported_schema : ℤ → ConfigError
  bad_format : String → ConfigError
  bad_exit_code bad_max_functions : ConfigError
  bad_timeout : String → ConfigError
  unknown_rule : String → ConfigError

unfoldable pub known_rule : String → Bool
known_rule id =
    str_eq id "LL1001"
    || (str_eq id "LL1002"
        || (str_eq id "LL1003"
            || (str_eq id "LL1004" || (str_eq id "LL1005" || str_eq id "LL9001"))))

unfoldable pub known_format : String → Bool
known_format s = str_eq s "text" || (str_eq s "json" || str_eq s "sarif")

-- The loop over the rule identifiers: the first one that is neither "all" nor known.
unfoldable pub first_unknown : List String → Option String
first_unknown [] = none
first_unknown (id ∷ ids) = if str_eq id "all" || known_rule id then first_unknown ids else some id

module _ (parse_duration : String → Option ℤ) where
  -- Whether a duration is refused: it does not parse, or it is not positive.
  unfoldable pub bad_duration : String → Bool
  bad_duration s = elim (parse_duration s) [ none ↦ true | some d ↦ le_zero d ]

  -- `Duration`.
  unfoldable pub duration : Config → Option ℤ
  duration c = if bad_duration c.timeout then none else parse_duration c.timeout

  unfoldable pub validate : Config → Option ConfigError
  validate c =
      if eq_nat c.schema_version schema_version
      then if known_format c.format
        then if le_zero c.ci_exit_code
            || (gt_nat c.ci_exit_code 255 || (eq_nat c.ci_exit_code 2 || eq_nat c.ci_exit_code 3))
          then some bad_exit_code
          else if le_zero c.max_functions
          then some bad_max_functions
          else if bad_duration c.timeout
          then some (bad_timeout c.timeout)
          else Option.map unknown_rule (first_unknown (c.fail_on ++ c.ignore))
        else some (bad_format c.format)
      else some (unsupported_schema c.schema_version)
