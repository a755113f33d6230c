-- ===== src/Config/Decode/Lines.antt =====
-- Lines of TOML that set a key to a list of texts: what stripComment and TrimSpace leave of them.
use Prim.Native.Char.{Char, char, code}
use Prim.Native.String.{String}
use text.Mathlib.TextBridge.{of_list}
use lifeline.Prelude.{◌≡◌, refl, sym, ap, ◌∙◌, arith, Bool, true, ◌&&◌, ◌||◌, leb, ◌==◌}
use lifeline.Prelude.{some, List, [], ◌∷◌, ◌++◌, map}
use lifeline.Config.{Config}
use lifeline.Config.Values.{
  Text, parsed, is_space, strings, trim_left, trim_right, trim_space, strip_comment,
}
use lifeline.Config.Values.Arrays.{
  quote_mark, quoted, render_items, render_array, AreItems, IsPlain, append_assoc,
  trim_space-closed,
}
use lifeline.Config.Decode.{Field, find_field, field_of, set_field, cut}

-- The keys whose values are lists of texts, as they are written, and what each sets.
pub data ListKey : Type 0 where
  fail_on ignore ignore_paths context_wrappers start_wrappers join_wrappers stop_wrappers : ListKey

abbrev pub spelling : ListKey → String
spelling fail_on = "fail_on"
spelling ignore = "ignore"
spelling ignore_paths = "ignore_paths"
spelling context_wrappers = "context_wrappers"
spelling start_wrappers = "start_wrappers"
spelling join_wrappers = "join_wrappers"
spelling stop_wrappers = "stop_wrappers"

abbrev pub assign : ListKey → List String → Config → Config
assign fail_on xs c = record c { fail_on = xs }
assign ignore xs c = record c { ignore = xs }
assign ignore_paths xs c = record c { ignore_paths = xs }
assign context_wrappers xs c = record c { context_wrappers = xs }
assign start_wrappers xs c = record c { start_wrappers = xs }
assign join_wrappers xs c = record c { join_wrappers = xs }
assign stop_wrappers xs c = record c { stop_wrappers = xs }

abbrev pub field : ListKey → Field
field fail_on = Field.fail_on
field ignore = Field.ignore
field ignore_paths = Field.ignore_paths
field context_wrappers = Field.context_wrappers
field start_wrappers = Field.start_wrappers
field join_wrappers = Field.join_wrappers
field stop_wrappers = Field.stop_wrappers

abbrev pub chars : String → Text
chars String.[] = []
chars (String.◌∷◌ c s) = c ∷ chars s

abbrev pub Entry : Type 0
Entry = ListKey × List Text

abbrev pub toml_line : Entry → Text
toml_line (k, xs) = chars (spelling k) ++ (char b'=' tt ∷ render_array xs)

abbrev pub assign_all : List Entry → Config → Config
assign_all [] c = c
assign_all ((k, xs) ∷ es) c = assign_all es (assign k (map of_list xs) c)

abbrev pub AreEntries : List Entry → Type 0
AreEntries [] = Unit
AreEntries ((k, xs) ∷ es) = AreItems xs × AreEntries es

-- A key's characters: lower-case letters and underscores.
abbrev pub is_word : Text → Bool
is_word [] = true
is_word (c ∷ s) = ((code c == b'_') || (leb b'a' (code c) && leb (code c) b'z')) && is_word s

pub spelling-IsWord : (k : ListKey) → is_word (chars (spelling k)) ≡ true
spelling-IsWord fail_on = refl
spelling-IsWord ignore = refl
spelling-IsWord ignore_paths = refl
spelling-IsWord context_wrappers = refl
spelling-IsWord start_wrappers = refl
spelling-IsWord join_wrappers = refl
spelling-IsWord stop_wrappers = refl

pub field_of-spelling : (k : ListKey) → field_of (of_list (chars (spelling k))) ≡ some (field k)
unfolding find_field
field_of-spelling fail_on = refl
field_of-spelling ignore = refl
field_of-spelling ignore_paths = refl
field_of-spelling context_wrappers = refl
field_of-spelling start_wrappers = refl
field_of-spelling join_wrappers = refl
field_of-spelling stop_wrappers = refl

pub set_field-assign :
    (k : ListKey) (xs : List Text) (c : Config)
    → set_field (field k) (strings xs) c ≡ parsed (assign k (map of_list xs) c)
unfolding set_field
set_field-assign fail_on xs c = refl
set_field-assign ignore xs c = refl
set_field-assign ignore_paths xs c = refl
set_field-assign context_wrappers xs c = refl
set_field-assign start_wrappers xs c = refl
set_field-assign join_wrappers xs c = refl
set_field-assign stop_wrappers xs c = refl

strip_comment-word :
    (w : Text) (t : Text)
    → is_word w ≡ true
    → strip_comment 0 (w ++ (char b'=' tt ∷ t)) ≡ w ++ (char b'=' tt ∷ strip_comment 0 t)
unfolding strip_comment
strip_comment-word [] t h = refl
strip_comment-word (c ∷ w) t h = ground (arith, h, strip_comment-word w t (ground (arith, h)))

pub cut-word : (w t : Text) → is_word w ≡ true → cut b'=' (w ++ (char b'=' tt ∷ t)) ≡ some (w, t)
unfolding cut
cut-word [] t h = refl
cut-word (c ∷ w) t h = ground (arith, h, cut-word w t (ground (arith, h)))

strip_comment-inside :
    (s t : Text)
    → IsPlain s
    → strip_comment b'"' (s ++ (quote_mark ∷ t)) ≡ s ++ (quote_mark ∷ strip_comment 0 t)
unfolding strip_comment
strip_comment-inside [] t h = refl
strip_comment-inside (c ∷ s) t (p, q, h) = ground (arith, p, strip_comment-inside s t h)

comma_same : (u : Text) → strip_comment 0 (char b',' tt ∷ u) ≡ char b',' tt ∷ strip_comment 0 u
unfolding strip_comment
comma_same u = refl

strip_comment-quoted :
    (s t : Text) → IsPlain s → strip_comment 0 (quoted s ++ t) ≡ quoted s ++ strip_comment 0 t
unfolding strip_comment
strip_comment-quoted s t h =
    ap (λ w. quote_mark ∷ strip_comment b'"' w) (append_assoc s (quote_mark ∷ []) t)
    ∙ (ap (◌∷◌ quote_mark) (strip_comment-inside s t h)
        ∙ ap (◌∷◌ quote_mark) (sym (append_assoc s (quote_mark ∷ []) (strip_comment 0 t))))

strip_comment-items :
    (x : Text) (xs : List Text) (t : Text)
    → AreItems (x ∷ xs)
    → strip_comment 0 (render_items x xs ++ t) ≡ render_items x xs ++ strip_comment 0 t
strip_comment-items x [] t (a, b, h) = strip_comment-quoted x t b
strip_comment-items x (y ∷ ys) t (a, b, h) =
    ap (strip_comment 0) (append_assoc (quoted x) (char b',' tt ∷ render_items y ys) t)
    ∙ (strip_comment-quoted x (char b',' tt ∷ (render_items y ys ++ t)) b
        ∙ (ap (λ w. quoted x ++ w) (comma (render_items y ys ++ t) _ (strip_comment-items y ys t h))
            ∙ sym (append_assoc (quoted x) (char b',' tt ∷ render_items y ys) (strip_comment 0 t))))
  where
    comma :
        (u v : Text) → strip_comment 0 u ≡ v → strip_comment 0 (char b',' tt ∷ u) ≡ char b',' tt ∷ v
    comma u v e = comma_same u ∙ ap (◌∷◌ (char b',' tt)) e

strip_comment-array :
    (xs : List Text) → AreItems xs → strip_comment 0 (render_array xs) ≡ render_array xs
unfolding strip_comment
strip_comment-array [] h = refl
strip_comment-array (x ∷ xs) h =
    ap (◌∷◌ (char b'[' tt)) (strip_comment-items x xs (char b']' tt ∷ []) h)

pub strip_comment-line : (e : Entry) → AreItems e.1 → strip_comment 0 (toml_line e) ≡ toml_line e
strip_comment-line (k, xs) h =
    strip_comment-word (chars (spelling k)) (render_array xs) (spelling-IsWord k)
    ∙ ap (λ t. chars (spelling k) ++ (char b'=' tt ∷ t)) (strip_comment-array xs h)

-- Key, separator and array have no space at either end.
pub trim_space-array :
    (xs : List Text) → AreItems xs → trim_space (render_array xs) ≡ render_array xs
unfolding trim_space trim_left trim_right is_space
trim_space-array [] h = refl
trim_space-array (x ∷ xs) h =
    trim_space-closed (char b'[' tt) (char b']' tt) (render_items x xs) refl refl

array_closed : (xs : List Text) → (w : Text) × (render_array xs ≡ w ++ (char b']' tt ∷ []))
array_closed [] = (char b'[' tt ∷ [], refl)
array_closed (x ∷ xs) = (char b'[' tt ∷ render_items x xs, refl)

pub trim_space-word :
    (c : Char) (w : Text) (xs : List Text)
    → is_word (c ∷ w) ≡ true
    → trim_space (c ∷ (w ++ (char b'=' tt ∷ render_array xs)))
      ≡ c ∷ (w ++ (char b'=' tt ∷ render_array xs))
unfolding is_space
trim_space-word c w xs h =
    let (u, e) = array_closed xs in
    let split : c ∷ (w ++ (char b'=' tt ∷ render_array xs))
        ≡ c ∷ ((w ++ (char b'=' tt ∷ u)) ++ (char b']' tt ∷ [])) =
      ap (λ t. c ∷ (w ++ (char b'=' tt ∷ t))) e
      ∙ ap (◌∷◌ c) (sym (append_assoc w (char b'=' tt ∷ u) (char b']' tt ∷ []))) in
    ap trim_space split
    ∙ (trim_space-closed c (char b']' tt) (w ++ (char b'=' tt ∷ u)) (ground (arith, h)) refl
        ∙ sym split)
