-- ===== src/Config/Decode/Lists.antt =====
-- Files that set lists, one key to a line, printed in TOML and decoded.
use Prim.Native.Char.{Char, char, code}
use Prim.Native.String.{String}
use text.Mathlib.TextBridge.{of_list}
use lifeline.Prelude.{◌≡◌, refl, sym, ap, subst, ◌∙◌, arith, ℕ, suc, Bool, true, false, ◌==◌}
use lifeline.Prelude.{Option, none, some, List, [], ◌∷◌, ◌++◌, map, if◌then◌else◌}
use lifeline.Config.{Config}
use lifeline.Config.Values.{Text, no_separator, is_space, is_nil, trim_left, trim_right, trim_space}
use lifeline.Config.Values.Arrays.{render_array, AreItems, parse_value-render_array}
use lifeline.Config.Decode.{
  Field, decode_item, refused, at_line, State, decoded, locate, cut, decode_field, decode_pair,
  decode_raw, decode_line, decode_lines, apply_lists, decode_flat,
}
use lifeline.Config.Decode.Lines.{
  ListKey, fail_on, ignore, ignore_paths, context_wrappers, start_wrappers, join_wrappers,
  stop_wrappers, spelling, assign, field, chars, Entry, toml_line, assign_all, AreEntries, is_word,
  spelling-IsWord, field_of-spelling, set_field-assign, cut-word, strip_comment-line,
  trim_space-array, trim_space-word,
}

decode_raw-word :
    (n : ℕ) (c : Char) (w t : Text) (st : State)
    → is_word (c ∷ w) ≡ true
    → decode_raw b'=' n (c ∷ (w ++ (char b'=' tt ∷ t))) st ≡ decode_pair b'=' n (c ∷ w) t st
decode_raw-word n c w t st h =
    by_dash (code c == b'-') (ground (arith, h)) (cut b'=' (c ∷ (w ++ (char b'=' tt ∷ t))))
      (cut-word (c ∷ w) t h)
  where
    by_dash :
        (b : Bool)
        → b ≡ false
        → (o : Option (Text × Text)) → o ≡ some (c ∷ w, t)
        → (if b then decode_item b'=' n (w ++ (char b'=' tt ∷ t)) st else elim o [
          | none ↦ refused (at_line n no_separator)
          | some (before, after) ↦ decode_pair b'=' n before after st
        ])
          ≡ decode_pair b'=' n (c ∷ w) t st
    by_dash b e o f = rw e (rw f refl)

raw_word :
    (n : ℕ) (c : Char) (w : Text) (xs : List Text) (st : State)
    → is_word (c ∷ w) ≡ true
    → decode_raw b'=' n (trim_space (c ∷ (w ++ (char b'=' tt ∷ render_array xs)))) st
      ≡ decode_pair b'=' n (c ∷ w) (render_array xs) st
raw_word n c w xs st h =
    ap (λ t. decode_raw b'=' n t st) (trim_space-word c w xs h)
    ∙ decode_raw-word n c w (render_array xs) st h

first_char : (k : ListKey) → (c : Char) × (w : Text) × (chars (spelling k) ≡ c ∷ w)
first_char fail_on = (_, _, refl)
first_char ignore = (_, _, refl)
first_char ignore_paths = (_, _, refl)
first_char context_wrappers = (_, _, refl)
first_char start_wrappers = (_, _, refl)
first_char join_wrappers = (_, _, refl)
first_char stop_wrappers = (_, _, refl)

decode_line-word :
    (n : ℕ) (e : Entry) (st : State)
    → AreItems e.1
    → decode_line b'=' n (toml_line e) st
      ≡ decode_pair b'=' n (chars (spelling e.0)) (render_array e.1) st
unfolding decode_line
decode_line-word n (k, xs) st h =
    let (c, w, e) = first_char k in
    ap (λ t. decode_raw b'=' n (trim_space t) st) (strip_comment-line (k, xs) h)
    ∙ subst
        (λ s.
          decode_raw b'=' n (trim_space (s ++ (char b'=' tt ∷ render_array xs))) st
          ≡ decode_pair b'=' n s (render_array xs) st)
        (sym e) (raw_word n c w xs st (ap is_word (sym e) ∙ spelling-IsWord k))

trim_space-spelling : (k : ListKey) → trim_space (chars (spelling k)) ≡ chars (spelling k)
unfolding trim_space trim_left trim_right is_space
trim_space-spelling fail_on = refl
trim_space-spelling ignore = refl
trim_space-spelling ignore_paths = refl
trim_space-spelling context_wrappers = refl
trim_space-spelling start_wrappers = refl
trim_space-spelling join_wrappers = refl
trim_space-spelling stop_wrappers = refl

decode_field-list :
    (n : ℕ) (key : String) (k : ListKey) (xs : List Text) (st : State)
    → AreItems xs
    → decode_field b'=' n key (field k) (render_array xs) st
      ≡ decoded
          (record { cfg = assign k (map of_list xs) st.cfg; pending = none; lists = st.lists })
unfolding decode_field locate
decode_field-list n key k [] st h =
    rw (parse_value-render_array [] h) (rw (set_field-assign k [] st.cfg) refl)
decode_field-list n key k (x ∷ xs) st h =
    rw (parse_value-render_array (x ∷ xs) h) (rw (set_field-assign k (x ∷ xs) st.cfg) refl)

decode_pair-list :
    (n : ℕ) (k : ListKey) (xs : List Text) (st : State)
    → AreItems xs
    → decode_pair b'=' n (chars (spelling k)) (render_array xs) st
      ≡ decoded
          (record { cfg = assign k (map of_list xs) st.cfg; pending = none; lists = st.lists })
unfolding decode_pair
decode_pair-list n k xs st h =
    let (c, w, e) = first_char k in
    rw (trim_space-spelling k) (
      rw (ap is_nil e)
        (rw (field_of-spelling k) (rw (trim_space-array xs h) (decode_field-list n _ k xs st h))))

decode_line-list :
    (n : ℕ) (e : Entry) (st : State)
    → AreItems e.1
    → decode_line b'=' n (toml_line e) st
      ≡ decoded
          (record { cfg = assign e.0 (map of_list e.1) st.cfg; pending = none; lists = st.lists })
decode_line-list n (k, xs) st h = decode_line-word n (k, xs) st h ∙ decode_pair-list n k xs st h

decode_lines-lists :
    (n : ℕ) (es : List Entry) (cfg : Config)
    → AreEntries es
    → decode_lines b'=' n (map toml_line es) (record { cfg = cfg; pending = none; lists = [] })
      ≡ decoded (record { cfg = assign_all es cfg; pending = none; lists = [] })
unfolding decode_lines
decode_lines-lists n [] cfg h = refl
decode_lines-lists n ((k, xs) ∷ es) cfg (a, h) =
    rw (decode_line-list (suc n) (k, xs) (record { cfg = cfg; pending = none; lists = [] }) a)
      (decode_lines-lists (suc n) es (assign k (map of_list xs) cfg) h)

-- A file of lines `key=["...",...]`, with keys whose values are lists of texts, is decoded in TOML
-- to the configuration in which each key is set to its texts, a later line winning over an
-- earlier one, and all else is as it was. No text is empty or holds a double quote or a backslash;
-- commas, brackets, equality and number signs and spaces in it do no harm. The order in which a map is
-- walked leaves the empty map empty.
pub decode_flat-lists :
    (order : List (Field × List Text) → List (Field × List Text))
    → order [] ≡ []
    → (es : List Entry) (cfg : Config) → AreEntries es
    → decode_flat b'=' false order (map toml_line es) cfg ≡ decoded (assign_all es cfg)
unfolding decode_flat apply_lists
decode_flat-lists order e es cfg h = rw (decode_lines-lists 0 es cfg h) (rw e refl)
