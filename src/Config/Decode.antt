-- ===== src/Config/Decode.antt =====
-- `decodeFlat` of internal/config/config.go, the subset of YAML and TOML that configurations are written
-- in. The lines and the error of the bufio.Scanner are parameters, and so is the order in which
-- Go walks the map of lists. A configuration that is returned beside an error is not modelled.
pub mod Lines
pub mod Lists
pub mod Keys
use text.Mathlib.TextBridge.{of_list}
use lifeline.Prelude.{ℕ, zero, suc, String, Bool, true, false, not, ◌&&◌, ◌||◌, ℤ}
use lifeline.Prelude.{Option, none, some, List, [], ◌∷◌, ◌++◌, map, ◌==◌, str_eq, if◌then◌else◌}
use Prim.Native.Char.{Char, code}
use lifeline.Config.{Config}
use lifeline.Config.Values.{
  Text, Reason, list_item_without_key, no_separator, expected_string, expected_strings,
  expected_integer, expected_boolean, unknown_key, Parsed, parsed, failed, ◌>>=◌, Value, integer,
  boolean, string, strings, as_string, parse_value, strip_comment, trim_space, is_nil,
}

-- The keys of the map `setters`.
pub data Field : Type 0 where
  schema_version format ci_exit_code timeout max_functions include_tests fail_on
        fail_on_incomplete :
      Field
  fail_on_unsupported ignore ignore_paths context_wrappers start_wrappers join_wrappers
        stop_wrappers :
      Field

abbrev pub names : List (String × Field)
names =
    ("schema_version", Field.schema_version)
    ∷ ("format", Field.format)
    ∷ ("ci_exit_code", Field.ci_exit_code)
    ∷ ("timeout", Field.timeout)
    ∷ ("max_functions", Field.max_functions)
    ∷ ("include_tests", Field.include_tests)
    ∷ ("fail_on", Field.fail_on)
    ∷ ("fail_on_incomplete", Field.fail_on_incomplete)
    ∷ ("fail_on_unsupported", Field.fail_on_unsupported)
    ∷ ("ignore", Field.ignore)
    ∷ ("ignore_paths", Field.ignore_paths)
    ∷ ("context_wrappers", Field.context_wrappers)
    ∷ ("start_wrappers", Field.start_wrappers)
    ∷ ("join_wrappers", Field.join_wrappers)
    ∷ ("stop_wrappers", Field.stop_wrappers)
    ∷ []

unfoldable pub find_field : String → List (String × Field) → Option Field
find_field key [] = none
find_field key ((name, f) ∷ rest) = if str_eq key name then some f else find_field key rest

abbrev pub field_of : String → Option Field
field_of key = find_field key names

abbrev pub as_int : Value → Parsed ℤ
as_int (integer n) = parsed n
as_int _ = failed expected_integer

abbrev pub as_bool : Value → Parsed Bool
as_bool (boolean b) = parsed b
as_bool _ = failed expected_boolean

abbrev pub as_text : Value → Parsed String
as_text (string s) = as_string s >>= (λ t. parsed (of_list t))
as_text _ = failed expected_string

abbrev pub as_strings : Value → Parsed (List String)
as_strings (strings ss) = parsed (map of_list ss)
as_strings _ = failed expected_strings

-- The setter of a key.
unfoldable pub set_field : Field → Value → Config → Parsed Config
set_field Field.schema_version v c = as_int v >>= (λ x. parsed (record c { schema_version = x }))
set_field Field.format v c = as_text v >>= (λ x. parsed (record c { format = x }))
set_field Field.ci_exit_code v c = as_int v >>= (λ x. parsed (record c { ci_exit_code = x }))
set_field Field.timeout v c = as_text v >>= (λ x. parsed (record c { timeout = x }))
set_field Field.max_functions v c = as_int v >>= (λ x. parsed (record c { max_functions = x }))
set_field Field.include_tests v c = as_bool v >>= (λ x. parsed (record c { include_tests = x }))
set_field Field.fail_on v c = as_strings v >>= (λ x. parsed (record c { fail_on = x }))
set_field Field.fail_on_incomplete v c =
    as_bool v >>= (λ x. parsed (record c { fail_on_incomplete = x }))
set_field Field.fail_on_unsupported v c =
    as_bool v >>= (λ x. parsed (record c { fail_on_unsupported = x }))
set_field Field.ignore v c = as_strings v >>= (λ x. parsed (record c { ignore = x }))
set_field Field.ignore_paths v c = as_strings v >>= (λ x. parsed (record c { ignore_paths = x }))
set_field Field.context_wrappers v c =
    as_strings v >>= (λ x. parsed (record c { context_wrappers = x }))
set_field Field.start_wrappers v c =
    as_strings v >>= (λ x. parsed (record c { start_wrappers = x }))
set_field Field.join_wrappers v c = as_strings v >>= (λ x. parsed (record c { join_wrappers = x }))
set_field Field.stop_wrappers v c = as_strings v >>= (λ x. parsed (record c { stop_wrappers = x }))

abbrev pub number_of : Field → ℕ
number_of Field.schema_version = 0
number_of Field.format = 1
number_of Field.ci_exit_code = 2
number_of Field.timeout = 3
number_of Field.max_functions = 4
number_of Field.include_tests = 5
number_of Field.fail_on = 6
number_of Field.fail_on_incomplete = 7
number_of Field.fail_on_unsupported = 8
number_of Field.ignore = 9
number_of Field.ignore_paths = 10
number_of Field.context_wrappers = 11
number_of Field.start_wrappers = 12
number_of Field.join_wrappers = 13
number_of Field.stop_wrappers = 14

-- An error, with its line and its key.
pub data DecodeError : Type 0 where
  at_line : ℕ → Reason → DecodeError
  at_line_key : ℕ → String → Reason → DecodeError
  at_key : Field → Reason → DecodeError
  scan_error : DecodeError

pub data Decoded (A : Type 0) : Type 0 where
  decoded : A → Decoded A
  refused : DecodeError → Decoded A

-- A result of a value, with its place.
unfoldable pub locate : {A : Type 0} → (Reason → DecodeError) → Parsed A → Decoded A
locate place (parsed a) = decoded a
locate place (failed r) = refused (place r)

infixl 20 ◌>=>◌
abbrev pub ◌>=>◌ : {A B : Type 0} → Decoded A → (A → Decoded B) → Decoded B
decoded a >=> f = f a
refused e >=> f = refused e

-- The locals of the loop over the lines.
pub record State : Type 0 where
  pub cfg : Config
  pub pending : Option Field
  pub lists : List (Field × List Text)

-- `lists[key] = items`, and `lists[key] = append(lists[key], item)`.
unfoldable pub reset_list : Field → List (Field × List Text) → List (Field × List Text)
reset_list key [] = (key, []) ∷ []
reset_list key ((k, items) ∷ rest) =
    if number_of k == number_of key then (k, []) ∷ rest else (k, items) ∷ reset_list key rest

unfoldable pub append_item : Field → Text → List (Field × List Text) → List (Field × List Text)
append_item key item [] = (key, item ∷ []) ∷ []
append_item key item ((k, items) ∷ rest) =
    if number_of k == number_of key
    then (k, items ++ (item ∷ [])) ∷ rest
    else (k, items) ∷ append_item key item rest

-- The texts before and after the first separator.
unfoldable pub cut : ℕ → Text → Option (Text × Text)
cut sep [] = none
cut sep (c ∷ s) =
    let rest = cut sep s in
    if code c == sep
    then some ([], s)
    else elim rest [ none ↦ none | some (before, after) ↦ some (c ∷ before, after) ]

module _ (sep : ℕ) where
  -- A line that begins with a dash; the text is what follows the dash.
  unfoldable pub decode_item : ℕ → Text → State → Decoded State
  decode_item line s st = elim st.pending [
    | none ↦ refused (at_line line list_item_without_key)
    | some key ↦
        if sep == b':'
        then locate (at_line line) (as_string (trim_space s))
          >=> (λ item. decoded (record st { lists = append_item key item st.lists }))
        else refused (at_line line list_item_without_key)
  ]

  -- A line of a known key, with the text after the separator.
  unfoldable pub decode_field : ℕ → String → Field → Text → State → Decoded State
  decode_field line key f val st =
      if is_nil val && (sep == b':')
      then decoded (record { cfg = st.cfg; pending = some f; lists = reset_list f st.lists })
      else locate (at_line line) (parse_value val) >=> (λ v.
        locate (at_line_key line key) (set_field f v st.cfg)
        >=> (λ cfg. decoded (record { cfg = cfg; pending = none; lists = st.lists })))

  unfoldable pub decode_pair : ℕ → Text → Text → State → Decoded State
  decode_pair line before after st =
      let key = of_list (trim_space before) in
      if is_nil before then refused (at_line line no_separator) else elim (field_of key) [
        | none ↦ refused (at_line line (unknown_key key))
        | some f ↦ decode_field line key f (trim_space after) st
      ]

  -- A round of the loop, on a line without its comment and the spaces around it.
  abbrev pub decode_raw : ℕ → Text → State → Decoded State
  decode_raw line [] st = decoded st
  decode_raw line (c ∷ s) st =
      if code c == b'-' then decode_item line s st else elim (cut sep (c ∷ s)) [
        | none ↦ refused (at_line line no_separator)
        | some (before, after) ↦ decode_pair line before after st
      ]

  unfoldable pub decode_line : ℕ → Text → State → Decoded State
  decode_line line text st = decode_raw line (trim_space (strip_comment 0 text)) st

  unfoldable pub decode_lines : ℕ → List Text → State → Decoded State
  decode_lines line [] st = decoded st
  decode_lines line (l ∷ ls) st = decode_line (suc line) l st >=> decode_lines (suc line) ls

-- The loop over the lists.
unfoldable pub apply_lists : List (Field × List Text) → Config → Decoded Config
apply_lists [] cfg = decoded cfg
apply_lists ((key, items) ∷ rest) cfg =
    locate (at_key key) (set_field key (strings items) cfg) >=> apply_lists rest

unfoldable pub decode_flat :
    ℕ
    → Bool
    → (List (Field × List Text) → List (Field × List Text))
    → List Text
    → Config
    → Decoded Config
decode_flat sep scan_failed order lines cfg =
    decode_lines sep 0 lines (record { cfg = cfg; pending = none; lists = [] })
    >=> (λ st. if scan_failed then refused scan_error else apply_lists (order st.lists) st.cfg)
