-- ===== src/Tests/Decoding.antt =====
-- Samples for the parser of configuration files.
use lifeline.Prelude.{◌≡◌, refl, arith, false, List, [], ◌∷◌, map}
use lifeline.Config.{default}
use lifeline.Config.Values.{
  Text, is_space, parsed, strings, parse_value, trim_left, trim_right, trim_space, split_commas,
  keep_items, split_csv, strip_comment, strip_last, unquote, as_string,
}
use lifeline.Config.Values.Arrays.{render_array, AreItems, parse_value-render_array}
use lifeline.Config.Values.Csv.{AllItems, join, split_csv-join, split_csv-AllItems}
use lifeline.Config.Decode.{
  Field, decoded, locate, cut, find_field, set_field, decode_field, decode_item, append_item,
  reset_list, decode_pair, decode_line, decode_lines, apply_lists, decode_flat,
}
use lifeline.Config.Decode.Lines.{Entry, ignore_paths, toml_line, assign, chars}
use lifeline.Config.Decode.Lists.{decode_flat-lists}
use lifeline.Config.Decode.Keys.{AreAcceptable, decode_flat-AreAcceptable}

abbrev patterns : List Text
patterns = chars "a,#" ∷ chars "*" ∷ []

patterns-AreItems : AreItems patterns
patterns-AreItems = (
  refl,
  (
    λ e. omega (arith, e),
    λ e. omega (arith, e),
    (
      λ e. omega (arith, e),
      λ e. omega (arith, e),
      (λ e. omega (arith, e), λ e. omega (arith, e), tt),
    ),
  ),
  (refl, (λ e. omega (arith, e), λ e. omega (arith, e), tt), tt),
)

parse_value-render_array_example : parse_value (render_array patterns) ≡ parsed (strings patterns)
parse_value-render_array_example = parse_value-render_array patterns patterns-AreItems

abbrev entries : List Entry
entries = (ignore_paths, patterns) ∷ []

abbrev in_order : List (Field × List Text) → List (Field × List Text)
in_order lists = lists

decode_flat-lists_example :
    decode_flat b'=' false in_order (map toml_line entries) default
    ≡ decoded (assign ignore_paths ("a,#" ∷ "*" ∷ []) default)
decode_flat-lists_example = decode_flat-lists in_order refl entries default (patterns-AreItems, tt)

abbrev rules : List Text
rules = chars "LL1" ∷ chars "a b" ∷ []

rules-AllItems : AllItems rules
unfolding trim_space trim_left trim_right is_space
rules-AllItems = (
  (refl, refl, (λ e. omega (arith, e), (λ e. omega (arith, e), (λ e. omega (arith, e), tt)))),
  ((refl, refl, (λ e. omega (arith, e), (λ e. omega (arith, e), (λ e. omega (arith, e), tt)))), tt),
)

split_csv-join_example : split_csv (chars "LL1,a b") ≡ rules
split_csv-join_example = split_csv-join rules rules-AllItems

split_csv-AllItems_example :
    AllItems (split_csv (chars " LL1,, a b"))
    × (split_csv (join (split_csv (chars " LL1,, a b"))) ≡ split_csv (chars " LL1,, a b"))
split_csv-AllItems_example = split_csv-AllItems (chars " LL1,, a b")

spaced : split_csv (chars " LL1,, a b") ≡ rules
unfolding split_csv split_commas keep_items trim_space trim_left trim_right is_space
spaced = refl

-- A list in YAML.
abbrev yaml : List Text
yaml = chars "fail_on: # rules" ∷ chars "  - 'LL1'" ∷ []

yaml_decoded :
    decode_flat b':' false in_order yaml default ≡ decoded (record default { fail_on = "LL1" ∷ [] })
unfolding decode_flat decode_lines decode_line decode_pair decode_field decode_item append_item
    reset_list apply_lists locate cut find_field set_field strip_comment as_string unquote
    strip_last trim_space trim_left trim_right is_space
yaml_decoded = refl

decode_flat-AreAcceptable_example : (false ≡ false) × AreAcceptable b':' yaml
decode_flat-AreAcceptable_example =
    decode_flat-AreAcceptable b':' false in_order yaml default
      (record default { fail_on = "LL1" ∷ [] }) yaml_decoded
