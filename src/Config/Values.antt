-- ===== src/Config/Values.antt =====
-- The values of a configuration line in internal/config/config.go: stripComment, parseValue,
-- splitArrayElements, asString and its like, and SplitCSV. A text is a list of its characters; the
-- source walks bytes, and compares them with ASCII characters only, which no other character holds.
pub mod Csv
pub mod Arrays
use Prim.Native.Char.{Char, code}
use text.Mathlib.TextBridge.{of_list}
use lifeline.Prelude.{
  ℕ, zero, suc, ◌+◌, ◌*◌, ◌-◌, ◌^◌, ℤ, pos, negsuc, String, Bool, true, false, not, ◌&&◌, ◌||◌,
}
use lifeline.Prelude.{
  Option, none, some, List, [], ◌∷◌, ◌++◌, map, ltb, leb, ◌==◌, str_eq, if◌then◌else◌,
}
use mathlib.Core.Option

abbrev pub Text : Type 0
Text = List Char

pub data Reason : Type 0 where
  list_item_without_key no_separator unterminated_array empty_element unterminated_element : Reason
  expected_string expected_strings expected_integer expected_boolean empty_string : Reason
  unknown_key : String → Reason

pub data Parsed (A : Type 0) : Type 0 where
  parsed : A → Parsed A
  failed : Reason → Parsed A

infixl 20 ◌>>=◌
abbrev pub ◌>>=◌ : {A B : Type 0} → Parsed A → (A → Parsed B) → Parsed B
parsed a >>= f = f a
failed r >>= f = failed r

-- `unicode.IsSpace`
unfoldable pub is_space : ℕ → Bool
is_space c =
    (leb 9 c && leb c 13)
    || ((c == 32)
        || ((c == 133)
            || ((c == 160)
                || ((c == 5760)
                    || ((leb 8192 c && leb c 8202)
                        || ((c == 8232)
                            || ((c == 8233) || ((c == 8239) || ((c == 8287) || (c == 12288))))))))))

abbrev pub is_nil : {A : Type 0} → List A → Bool
is_nil [] = true
is_nil (x ∷ xs) = false

-- `strings.TrimSpace`
unfoldable pub trim_left : Text → Text
trim_left [] = []
trim_left (c ∷ s) = let rest = trim_left s in if is_space (code c) then rest else c ∷ s

unfoldable pub trim_right : Text → Text
trim_right [] = []
trim_right (c ∷ s) =
    let rest = trim_right s in if is_space (code c) && is_nil rest then [] else c ∷ rest

unfoldable pub trim_space : Text → Text
trim_space s = trim_right (trim_left s)

-- `s[:len(s)-1]` where the text ends in the character.
unfoldable pub strip_last : ℕ → Text → Option Text
strip_last q [] = none
strip_last q (c ∷ []) = if code c == q then some [] else none
strip_last q (c ∷ d ∷ s) = Option.map (λ t. c ∷ t) (strip_last q (d ∷ s))

abbrev pub is_quote : ℕ → Bool
is_quote c = (c == b'\'') || (c == b'"')

-- The quotes of a text that begins and ends in the same one.
unfoldable pub unquote : Text → Text
unquote [] = []
unquote (c ∷ s) =
    if is_quote (code c)
    then elim (strip_last (code c) s) [ none ↦ c ∷ s | some inner ↦ inner ]
    else c ∷ s

-- `asString` of a string.
unfoldable pub as_string : Text → Parsed Text
as_string s =
    let inner = unquote (trim_space s) in if is_nil inner then failed empty_string else parsed inner

-- `stripComment`, with the quote that is open or zero.
unfoldable pub strip_comment : ℕ → Text → Text
strip_comment quote [] = []
strip_comment quote (c ∷ s) =
    let opened = strip_comment (code c) s in
    let closed = strip_comment 0 s in
    let same = strip_comment quote s in
    if (quote == 0) && is_quote (code c)
    then c ∷ opened
    else if not (quote == 0) && (code c == quote)
    then c ∷ closed
    else if (quote == 0) && (code c == b'#')
    then []
    else c ∷ same

-- The tests at a comma and at the end: the part since the last comma joins the parts.
unfoldable pub take_part : Text → List Text → Parsed (List Text)
take_part part parts =
    let inner = trim_space part in
    if is_nil inner then failed empty_element else parsed (parts ++ (inner ∷ []))

-- The loop of `splitArrayElements`: the open quote or zero, whether the next character is escaped,
-- the part since the last comma, and the parts.
unfoldable pub split_loop : ℕ → Bool → Text → List Text → Text → Parsed (List Text)
split_loop quote escaped part parts [] =
    if not (quote == 0) then failed unterminated_element else take_part part parts
split_loop quote true part parts (c ∷ s) = split_loop quote false (part ++ (c ∷ [])) parts s
split_loop quote false part parts (c ∷ s) =
    if not (quote == 0) && (code c == b'\\')
    then split_loop quote true (part ++ (c ∷ [])) parts s
    else if (quote == 0) && is_quote (code c)
    then split_loop (code c) false (part ++ (c ∷ [])) parts s
    else if not (quote == 0) && (code c == quote)
    then split_loop 0 false (part ++ (c ∷ [])) parts s
    else if (quote == 0) && (code c == b',')
    then take_part part parts >>= (λ ps. split_loop 0 false [] ps s)
    else split_loop quote false (part ++ (c ∷ [])) parts s

unfoldable pub split_array_elements : Text → Parsed (List Text)
split_array_elements s = split_loop 0 false [] [] s

-- `strconv.Atoi` on 64 bits.
abbrev pub digit : ℕ → Option ℕ
digit c = if leb b'0' c && leb c b'9' then some (c - b'0') else none

unfoldable pub digits_from : ℕ → Text → Option ℕ
digits_from n [] = some n
digits_from n (c ∷ s) = elim (digit (code c)) [ none ↦ none | some d ↦ digits_from (n * 10 + d) s ]

unfoldable pub magnitude : Text → Option ℕ
magnitude [] = none
magnitude (c ∷ s) = digits_from 0 (c ∷ s)

abbrev pub negated : ℕ → ℤ
negated zero = pos 0
negated (suc n) = negsuc n

abbrev pub bounded : Bool → ℕ → Option ℤ
bounded negative n =
    if negative
    then (if leb n (2 ^ 63) then some (negated n) else none)
    else (if ltb n (2 ^ 63) then some (pos n) else none)

unfoldable pub atoi : Text → Option ℤ
atoi [] = none
atoi (c ∷ s) =
    if code c == b'-'
    then elim (magnitude s) [ none ↦ none | some n ↦ bounded true n ]
    else if code c == b'+'
    then elim (magnitude s) [ none ↦ none | some n ↦ bounded false n ]
    else elim (magnitude (c ∷ s)) [ none ↦ none | some n ↦ bounded false n ]

pub data Value : Type 0 where
  integer : ℤ → Value
  boolean : Bool → Value
  string : Text → Value
  strings : List Text → Value

-- The loop of `parseValue` over the parts.
unfoldable pub as_each : List Text → Parsed (List Text)
as_each [] = parsed []
as_each (p ∷ ps) = as_string (trim_space p) >>= (λ s. as_each ps >>= (λ rest. parsed (s ∷ rest)))

unfoldable pub parse_array : Text → Parsed Value
parse_array body = elim (strip_last b']' body) [
  | none ↦ failed unterminated_array
  | some middle ↦
      let inside = trim_space middle in
      if is_nil inside
      then parsed (strings [])
      else split_array_elements inside
        >>= (λ parts. as_each parts >>= (λ out. parsed (strings out)))
]

unfoldable pub parse_scalar : Text → Parsed Value
parse_scalar v =
    if str_eq (of_list v) "true" || str_eq (of_list v) "false"
    then parsed (boolean (str_eq (of_list v) "true"))
    else elim (atoi v) [
      | some n ↦ parsed (integer n)
      | none ↦ as_string v >>= (λ s. parsed (string s))
    ]

abbrev pub parse_trimmed : Text → Parsed Value
parse_trimmed [] = parse_scalar []
parse_trimmed (c ∷ s) = if code c == b'[' then parse_array s else parse_scalar (c ∷ s)

unfoldable pub parse_value : Text → Parsed Value
parse_value v = parse_trimmed (trim_space v)

-- The parts of `strings.Split` at commas, the part so far first.
unfoldable pub split_commas : Text → Text → List Text
split_commas part [] = part ∷ []
split_commas part (c ∷ s) =
    let next = split_commas [] s in
    let same = split_commas (part ++ (c ∷ [])) s in if code c == b',' then part ∷ next else same

unfoldable pub keep_items : List Text → List Text
keep_items [] = []
keep_items (p ∷ ps) =
    let rest = keep_items ps in let item = trim_space p in if is_nil item then rest else item ∷ rest

-- `SplitCSV`.
unfoldable pub split_csv : Text → List Text
split_csv s = keep_items (split_commas [] s)
