-- ===== src/Engine/Status.antt =====
-- internal/engine/status.go, and `unsupportedReason` of internal/engine/engine.go. A map from rules to counts
-- is a function that is 0 at a missing key.
pub mod Counts
pub mod Union
use lifeline.Prelude.{ℕ, ◌+◌, ◌-◌, String, Bool, true, false, not, ◌&&◌, ◌||◌, Option, none, some}
use lifeline.Prelude.{List, [], ◌∷◌, ◌++◌, length, ltb, str_eq, str_lt, str_contains, if◌then◌else◌}
use lifeline.Model.Source.{Span, Evidence}
use lifeline.Model.Facts.{CancelBinding, Goroutine, JoinGroup, Function, Program}
use lifeline.Engine.Diagnostics.{Format}
use lifeline.Engine.Findings.{text}

pub record UnitStatus : Type 0 where
  pub discovered : ℕ
  pub analyzed : ℕ
  pub skipped : ℕ
  pub excluded_files : ℕ

pub record StatusReason : Type 0 where
  pub kind : String
  pub message : String

pub record Unsupported : Type 0 where
  pub targets : ℕ
  pub handed_off : ℕ
  pub unestablished_path_checks : ℕ

abbrev pub unsupported_total : Unsupported → ℕ
unsupported_total u = u.targets + (u.handed_off + u.unestablished_path_checks)

pub record Suppressed : Type 0 where
  pub by_config : ℕ
  pub by_comment : ℕ
  pub by_rule : String → ℕ

abbrev pub nothing_suppressed : Suppressed
nothing_suppressed = record { by_config = 0; by_comment = 0; by_rule = λ r. 0 }

abbrev pub suppressed_total : Suppressed → ℕ
suppressed_total s = s.by_config + s.by_comment

-- What hides a diagnostic, if anything does.
pub data Fate : Type 0 where
  shown by_configuration by_a_comment : Fate

-- `s.ByRule[rule]++`
abbrev pub bump : String → (String → ℕ) → String → ℕ
bump rule counts r = (if str_eq rule r then 1 else 0) + counts r

-- `note`, for the two mechanisms that it is called with.
unfoldable pub note : Fate → String → Suppressed → Suppressed
note Fate.shown rule s = s
note Fate.by_configuration rule s = record {
  by_config = 1 + s.by_config;
  by_comment = s.by_comment;
  by_rule = bump rule s.by_rule;
}
note Fate.by_a_comment rule s = record {
  by_config = s.by_config;
  by_comment = 1 + s.by_comment;
  by_rule = bump rule s.by_rule;
}

pub record Status : Type 0 where
  pub units : UnitStatus
  pub incomplete : Bool
  pub reasons : List StatusReason
  pub unsupported : Unsupported
  pub suppressed : Suppressed
  pub assumptions : List String

unfoldable pub discharged_on_all_paths : Bool → Option Bool → Bool
discharged_on_all_paths observed none = false
discharged_on_all_paths observed (some all) = observed && all

unfoldable pub verified_hand_off : List Evidence → Bool
verified_hand_off [] = false
verified_hand_off (e ∷ es) =
    (str_eq e.kind "ownership-transfer" && str_contains e.message "checked at its own call site")
    || verified_hand_off es

-- The message of the first piece of evidence of the kind "unsupported".
unfoldable pub unsupported_evidence : List Evidence → Option String
unsupported_evidence [] = none
unsupported_evidence (e ∷ es) =
    if str_eq e.kind "unsupported" then some e.message else unsupported_evidence es

abbrev pub unsupported_reason : Goroutine → Option String
unsupported_reason g = unsupported_evidence g.evidence

abbrev pub is_nil : {A : Type 0} → Option A → Bool
is_nil none = true
is_nil (some a) = false

-- What one obligation, of a binding or a group, adds to the counts.
unfoldable pub obligation : Bool → Bool → Option Bool → List Evidence → Unsupported → Unsupported
obligation escapes observed all_paths evidence u =
    if escapes
      && (not (discharged_on_all_paths observed all_paths) && not (verified_hand_off evidence))
    then record u { handed_off = 1 + u.handed_off }
    else if observed && (is_nil all_paths && not escapes)
    then record u { unestablished_path_checks = 1 + u.unestablished_path_checks }
    else u

unfoldable pub count_cancels : List CancelBinding → Unsupported → Unsupported
count_cancels [] u = u
count_cancels (c ∷ cs) u =
    count_cancels cs (obligation c.escapes c.called c.called_on_all_paths c.evidence u)

unfoldable pub count_groups : List JoinGroup → Unsupported → Unsupported
count_groups [] u = u
count_groups (g ∷ gs) u =
    count_groups gs (obligation g.escapes g.joined g.joined_on_all_paths g.evidence u)

unfoldable pub target : Option String → Unsupported → Unsupported
target none u = u
target (some message) u = record u { targets = 1 + u.targets }

unfoldable pub count_goroutines : List Goroutine → Unsupported → Unsupported
count_goroutines [] u = u
count_goroutines (g ∷ gs) u = count_goroutines gs (target (unsupported_reason g) u)

unfoldable pub count_functions : List Function → Unsupported → Unsupported
count_functions [] u = u
count_functions (fn ∷ fns) u =
    count_functions fns
      (count_goroutines fn.goroutines (count_groups fn.groups (count_cancels fn.cancels u)))

abbrev pub nothing_unsupported : Unsupported
nothing_unsupported = record { targets = 0; handed_off = 0; unestablished_path_checks = 0 }

unfoldable pub units_of : Program → UnitStatus
units_of p = record {
  discovered = p.function_count;
  analyzed = length p.functions;
  skipped =
      if ltb (length p.functions) p.function_count
      then p.function_count - length p.functions
      else 0;
  excluded_files = p.excluded_files;
}

-- The message that the notice LL9001 carries too.
unfoldable pub stopped_after : Format → Program → String
stopped_after fmt p = text (
    "analysis stopped after "
    ∷ fmt.decimal (length p.functions)
    ∷ " of "
    ∷ fmt.decimal p.function_count
    ∷ " functions"
    ∷ [])

-- `StatusOf`.
unfoldable pub status_of : Format → Program → List String → Status
status_of fmt p assumptions = record {
  units = units_of p;
  incomplete = p.truncated;
  reasons =
      if p.truncated
      then record { kind = "max_functions"; message = stopped_after fmt p } ∷ []
      else [];
  unsupported = count_functions p.functions nothing_unsupported;
  suppressed = nothing_suppressed;
  assumptions = assumptions;
}

unfoldable pub has_text : String → List String → Bool
has_text s [] = false
has_text s (t ∷ ts) = str_eq s t || has_text s ts

-- The loop that drops a text that it has met; `seen` is what it has met.
unfoldable pub distinct : List String → List String → List String
distinct seen [] = []
distinct seen (a ∷ rest) =
    let fresh = a ∷ distinct (a ∷ seen) rest in
    let skip = distinct seen rest in if has_text a seen then skip else fresh

unfoldable pub insert_text : String → List String → List String
insert_text s [] = s ∷ []
insert_text s (t ∷ ts) = if str_lt t s then t ∷ insert_text s ts else s ∷ t ∷ ts

unfoldable pub sort_texts : List String → List String
sort_texts [] = []
sort_texts (s ∷ ss) = insert_text s (sort_texts ss)

unfoldable pub add_unsupported : Unsupported → Unsupported → Unsupported
add_unsupported a b = record {
  targets = a.targets + b.targets;
  handed_off = a.handed_off + b.handed_off;
  unestablished_path_checks = a.unestablished_path_checks + b.unestablished_path_checks;
}

unfoldable pub add_suppressed : Suppressed → Suppressed → Suppressed
add_suppressed a b = record {
  by_config = a.by_config + b.by_config;
  by_comment = a.by_comment + b.by_comment;
  by_rule = λ r. a.by_rule r + b.by_rule r;
}

unfoldable pub add_units : UnitStatus → UnitStatus → UnitStatus
add_units a b = record {
  discovered = a.discovered + b.discovered;
  analyzed = a.analyzed + b.analyzed;
  skipped = a.skipped + b.skipped;
  excluded_files = a.excluded_files + b.excluded_files;
}

-- `Status.Add`.
unfoldable pub add_status : Status → Status → Status
add_status s o = record {
  units = add_units s.units o.units;
  incomplete = s.incomplete || o.incomplete;
  reasons = s.reasons ++ o.reasons;
  unsupported = add_unsupported s.unsupported o.unsupported;
  suppressed = add_suppressed s.suppressed o.suppressed;
  assumptions = sort_texts (distinct [] (s.assumptions ++ o.assumptions));
}

-- `WithTimeout`.
unfoldable pub with_timeout : String → Status → Status
with_timeout message s = record s {
  incomplete = true;
  reasons = s.reasons ++ (record { kind = "timeout"; message = message }) ∷ [];
}
