-- ===== src/Engine/Coverage.antt =====
-- `Coverage` of internal/engine/engine.go: what a run recognised.
use lifeline.Prelude.{ℕ, ◌+◌, String, Option, none, some, List, [], ◌∷◌, ◌++◌, length}
use lifeline.Model.Source.{Span}
use lifeline.Model.Facts.{Goroutine, Function, Program}
use lifeline.Engine.Status.{unsupported_reason}

pub record UnsupportedTarget : Type 0 where
  pub function : String
  pub position : Span
  pub message : String

pub record Coverage : Type 0 where
  pub cancel_bindings : ℕ
  pub goroutines : ℕ
  pub groups : ℕ
  pub unsupported_targets : List UnsupportedTarget

abbrev pub no_coverage : Coverage
no_coverage = record { cancel_bindings = 0; goroutines = 0; groups = 0; unsupported_targets = [] }

abbrev pub recognized : Coverage → ℕ
recognized c = c.cancel_bindings + (c.goroutines + c.groups)

-- `Merge` and `Add` return the same values; one changes its receiver, the other copies.
unfoldable pub merge : Coverage → Coverage → Coverage
merge c o = record {
  cancel_bindings = c.cancel_bindings + o.cancel_bindings;
  goroutines = c.goroutines + o.goroutines;
  groups = c.groups + o.groups;
  unsupported_targets = c.unsupported_targets ++ o.unsupported_targets;
}

unfoldable pub target_of : String → Goroutine → Option String → List UnsupportedTarget
target_of name g none = []
target_of name g (some message) =
    (record { function = name; position = g.span; message = message }) ∷ []

unfoldable pub targets_of :
    String → List Goroutine → List UnsupportedTarget → List UnsupportedTarget
targets_of name [] acc = acc
targets_of name (g ∷ gs) acc = targets_of name gs (acc ++ target_of name g (unsupported_reason g))

unfoldable pub summarize_function : Function → Coverage → Coverage
summarize_function fn c = record {
  cancel_bindings = c.cancel_bindings + length fn.cancels;
  goroutines = c.goroutines + length fn.goroutines;
  groups = c.groups + length fn.groups;
  unsupported_targets = targets_of fn.name fn.goroutines c.unsupported_targets;
}

unfoldable pub summarize_functions : List Function → Coverage → Coverage
summarize_functions [] c = c
summarize_functions (fn ∷ fns) c = summarize_functions fns (summarize_function fn c)

-- `Summarize`.
unfoldable pub summarize : Program → Coverage
summarize p = summarize_functions p.functions no_coverage
