-- ===== src/Config/Values/Arrays.antt =====
-- Arrays of texts, printed and parsed.
use Prim.Native.Char.{Char, char, code}
use lifeline.Prelude.{◌≡◌, ◌≢◌, refl, sym, ap, ◌∙◌, arith, ℕ, false, some}
use lifeline.Prelude.{List, [], ◌∷◌, ◌++◌, map}
use lifeline.Config.Values.{
  Text, parsed, is_space, is_nil, trim_left, trim_right, trim_space, strip_last, unquote, as_string,
  take_part, split_loop, split_array_elements, strings, as_each, parse_array, parse_trimmed,
  parse_value,
}

abbrev pub quote_mark : Char
quote_mark = char b'"' tt

-- A text in quotes, and an array of such texts.
abbrev pub quoted : Text → Text
quoted s = quote_mark ∷ (s ++ (quote_mark ∷ []))

abbrev pub render_items : Text → List Text → Text
render_items x [] = quoted x
render_items x (y ∷ rest) = quoted x ++ (char b',' tt ∷ render_items y rest)

abbrev pub render_array : List Text → Text
render_array [] = char b'[' tt ∷ (char b']' tt ∷ [])
render_array (x ∷ rest) = char b'[' tt ∷ (render_items x rest ++ (char b']' tt ∷ []))

-- No double quote and no backslash.
abbrev pub IsPlain : Text → Type 0
IsPlain [] = Unit
IsPlain (c ∷ s) = (code c ≢ b'"') × (code c ≢ b'\\') × IsPlain s

abbrev pub AreItems : List Text → Type 0
AreItems [] = Unit
AreItems (x ∷ xs) = (is_nil x ≡ false) × IsPlain x × AreItems xs

pub append_assoc : {A : Type 0} (xs ys zs : List A) → (xs ++ ys) ++ zs ≡ xs ++ (ys ++ zs)
append_assoc [] ys zs = refl
append_assoc (x ∷ xs) ys zs = ap (◌∷◌ x) (append_assoc xs ys zs)

-- Text that ends in a character which is no space.
trim_right-closed :
    (w : Text) (e : Char)
    → is_space (code e) ≡ false
    → (trim_right (w ++ (e ∷ [])) ≡ w ++ (e ∷ [])) × (is_nil (w ++ (e ∷ [])) ≡ false)
unfolding trim_right
trim_right-closed [] e h = (ground (arith, h), refl)
trim_right-closed (c ∷ w) e h =
    let (same, some_left) = trim_right-closed w e h in (ground (arith, same, some_left), refl)

pub trim_space-closed :
    (b e : Char) (w : Text)
    → is_space (code b) ≡ false
    → is_space (code e) ≡ false
    → trim_space (b ∷ (w ++ (e ∷ []))) ≡ b ∷ (w ++ (e ∷ []))
unfolding trim_space trim_left
trim_space-closed b e w h k = ground (arith, h, (trim_right-closed (b ∷ w) e k).0)

strip_last-closed :
    (w : Text) (e : Char) (q : ℕ) → code e ≡ q → strip_last q (w ++ (e ∷ [])) ≡ some w
unfolding strip_last
strip_last-closed [] e q h = ground (arith, h)
strip_last-closed (c ∷ []) e q h = ground (arith, h)
strip_last-closed (c ∷ d ∷ w) e q h = rw (strip_last-closed (d ∷ w) e q h)

trim_space-quoted : (s : Text) → trim_space (quoted s) ≡ quoted s
unfolding is_space
trim_space-quoted s = trim_space-closed quote_mark quote_mark s refl refl

as_string-quoted : (s : Text) → is_nil s ≡ false → as_string (quoted s) ≡ parsed s
unfolding as_string unquote
as_string-quoted s h =
    rw (trim_space-quoted s) (rw (strip_last-closed s quote_mark b'"' refl) (rw h refl))

as_each-quoted : (xs : List Text) → AreItems xs → as_each (map quoted xs) ≡ parsed xs
unfolding as_each
as_each-quoted [] h = refl
as_each-quoted (x ∷ xs) (a, b, h) =
    rw (trim_space-quoted x) (rw (as_string-quoted x a) (rw (as_each-quoted xs h) refl))

split_inside :
    (s part : Text) (parts : List Text) (t : Text)
    → IsPlain s
    → split_loop b'"' false part parts (s ++ (quote_mark ∷ t))
      ≡ split_loop 0 false (part ++ (s ++ (quote_mark ∷ []))) parts t
unfolding split_loop
split_inside [] part parts t h = refl
split_inside (c ∷ s) part parts t (p, q, h) =
    let rest = split_inside s (part ++ (c ∷ [])) parts t h in
    ground (arith, p, q, rest, append_assoc part (c ∷ []) (s ++ (quote_mark ∷ [])))

split_quoted :
    (s : Text) (parts : List Text) (t : Text)
    → IsPlain s
    → split_loop 0 false [] parts (quoted s ++ t) ≡ split_loop 0 false (quoted s) parts t
unfolding split_loop
split_quoted s parts t h =
    ap (split_loop b'"' false (quote_mark ∷ []) parts) (append_assoc s (quote_mark ∷ []) t)
    ∙ split_inside s (quote_mark ∷ []) parts t h

take_part-quoted :
    (s : Text) (parts : List Text) → take_part (quoted s) parts ≡ parsed (parts ++ (quoted s ∷ []))
unfolding take_part
take_part-quoted s parts = rw (trim_space-quoted s)

split_items :
    (x : Text) (xs : List Text) (parts : List Text)
    → AreItems (x ∷ xs)
    → split_loop 0 false [] parts (render_items x xs) ≡ parsed (parts ++ map quoted (x ∷ xs))
unfolding split_loop
split_items x [] parts (a, b, h) =
    split_inside x (quote_mark ∷ []) parts [] b ∙ take_part-quoted x parts
split_items x (y ∷ ys) parts (a, b, h) =
    split_quoted x parts (char b',' tt ∷ render_items y ys) b
    ∙ rw (take_part-quoted x parts) (
        split_items y ys (parts ++ (quoted x ∷ [])) h
        ∙ ap parsed (append_assoc parts (quoted x ∷ []) (map quoted (y ∷ ys))))

-- The items end in a quotation mark.
render_items-closed :
    (x : Text) (xs : List Text)
    → (w : Text) × (render_items x xs ≡ quote_mark ∷ (w ++ (quote_mark ∷ [])))
render_items-closed x [] = (x, refl)
render_items-closed x (y ∷ ys) =
    let (w, e) = render_items-closed y ys in
    (
      (x ++ (quote_mark ∷ [])) ++ (char b',' tt ∷ (quote_mark ∷ w)),
      ap (λ t. quoted x ++ (char b',' tt ∷ t)) e
          ∙ sym (append_assoc (quoted x) (char b',' tt ∷ (quote_mark ∷ w)) (quote_mark ∷ [])),
    )

parse_items :
    (x : Text) (xs : List Text)
    → AreItems (x ∷ xs)
    → parse_array (render_items x xs ++ (char b']' tt ∷ [])) ≡ parsed (strings (x ∷ xs))
unfolding parse_array split_array_elements is_space
parse_items x xs h =
    let (w, e) = render_items-closed x xs in
    let trimmed : trim_space (render_items x xs) ≡ render_items x xs =
      ap trim_space e ∙ (trim_space-closed quote_mark quote_mark w refl refl ∙ sym e) in
    let some_left : is_nil (render_items x xs) ≡ false = ap is_nil e in
    rw (strip_last-closed (render_items x xs) (char b']' tt) b']' refl, parse_array)
      (rw trimmed (rw some_left (rw (split_items x xs [] h) (rw (as_each-quoted (x ∷ xs) h) refl))))

-- `parseValue` reads back an array of texts that is printed in double quotes with commas between
-- them, if no text is empty or holds a double quote or a backslash. Commas, brackets, number signs
-- and spaces in the texts do no harm.
pub parse_value-render_array :
    (xs : List Text) → AreItems xs → parse_value (render_array xs) ≡ parsed (strings xs)
unfolding parse_value is_space parse_array strip_last trim_space trim_left trim_right
parse_value-render_array [] h = refl
parse_value-render_array (x ∷ xs) h =
    ap parse_trimmed (trim_space-closed (char b'[' tt) (char b']' tt) (render_items x xs) refl refl)
    ∙ (parse_items x xs h)
