-- ===== src/Model/Source.antt =====
-- Source positions, evidence and instructions of internal/model/model.go. An `int` of Go that
-- counts lines, columns, bytes or instructions is a natural number, and a nil pointer is `none`.
use lifeline.Prelude.{ℕ, String, Option, List}

pub record Span : Type 0 where
  pub file : String
  pub start_line : ℕ
  pub start_column : ℕ
  pub end_line : ℕ
  pub end_column : ℕ
  pub start_offset : ℕ
  pub end_offset : ℕ

-- The zero value `Span{}`.
abbrev pub no_span : Span
no_span = record {
  file = "";
  start_line = 0;
  start_column = 0;
  end_line = 0;
  end_column = 0;
  start_offset = 0;
  end_offset = 0;
}

pub record Evidence : Type 0 where
  pub kind : String
  pub message : String
  pub span : Option Span

pub record FixEdit : Type 0 where
  pub span : Span
  pub new_text : String

pub record SuggestedFix : Type 0 where
  pub message : String
  pub edits : List FixEdit

pub record Instruction : Type 0 where
  pub index : ℕ
  pub op : String
  pub span : Span
  pub callee : String
  pub defines : List String
  pub uses : List String
