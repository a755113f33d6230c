-- ===== src/Model/Facts.antt =====
-- What the frontend records of a package: the structs of internal/model/model.go from
-- `CancelBinding` to `Program`. A `*bool` is an optional truth value, and a Go map is a function.
-- `SuggestedFix` pointers and JSON tags play no part in any verdict; the former are kept as values.
use lifeline.Prelude.{ℕ, String, Bool, Option, List}
use lifeline.Model.Source.{Span, Evidence, SuggestedFix, Instruction}
use lifeline.Model.Graph.{Cfg}

pub record CancelBinding : Type 0 where
  pub factory : String
  pub context_name : String
  pub cancel_name : String
  pub span : Span
  pub discarded : Bool
  pub called : Bool
  pub escapes : Bool
  pub used_by_child : Bool
  pub evidence : List Evidence
  pub suggested_fix : Option SuggestedFix
  pub called_on_all_paths : Option Bool

pub record Goroutine : Type 0 where
  pub span : Span
  pub kind : String
  pub infinite_loop : Bool
  pub has_return : Bool
  pub context_stop : Bool
  pub channel_stop : Bool
  pub explicit_stop : Bool
  pub available_contexts : List String
  pub captured_names : List String
  pub evidence : List Evidence
  pub cfg : Option Cfg
  pub imported_unresolved_loop : Option Bool

pub record JoinGroup : Type 0 where
  pub kind : String
  pub name : String
  pub span : Span
  pub starts : ℕ
  pub joined : Bool
  pub escapes : Bool
  pub evidence : List Evidence
  pub count_mismatch : Bool
  pub joined_on_all_paths : Option Bool
  pub stop_after_wait : Bool
  pub stop_correlation : String
  pub unjoined_round : Bool

pub record ReturnFieldSite : Type 0 where
  pub result_index : ℕ
  pub field_name : String
  pub kind : String
  pub obligation_id : ℕ
  pub requires_caller_discharge : Bool
  pub group_starts : ℕ
  pub group_count_mismatch : Bool

-- A set of effects, as the bits of a byte.
abbrev pub ParamEffect : Type 0
ParamEffect = ℕ

pub record Function : Type 0 where
  pub name : String
  pub span : Span
  pub contexts : List String
  pub cancels : List CancelBinding
  pub goroutines : List Goroutine
  pub groups : List JoinGroup
  pub body_lifecycle : Goroutine
  pub ir : List Instruction
  pub param_effects : ℕ → Option ParamEffect
  pub param_done_effects : ℕ → Option ParamEffect
  pub return_field_sites : List ReturnFieldSite

pub record Program : Type 0 where
  pub package_path : String
  pub functions : List Function
  pub function_count : ℕ
  pub truncated : Bool
  pub excluded_files : ℕ
  -- the suppressed rules of a line of a file; none where the maps have no entry
  pub suppressions : String → ℕ → List String
