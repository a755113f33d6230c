-- ===== src/Config/Validation.antt =====
-- What a configuration that `validate` accepts satisfies.
use lifeline.Prelude.{
  ℕ, zero, suc, ℤ, pos, negsuc, le_zero, gt_nat, eq_nat, String, Bool, true, false, ◌||◌,
}
use lifeline.Prelude.{Option, none, some, List, [], ◌∷◌, ◌++◌, str_eq, if◌then◌else◌, ◌∈◌}
use lifeline.Prelude.{◌≡◌, ◌≢◌, ◌↔◌, ◌≤◌, inl, inr, refl, sym, ap, subst, arith, ◌∙◌}
use lifeline.Prelude.{str_eq→≡, Bool-cases, mem-append_cases, mem-append_left, mem-append_right}
use lifeline.Prelude.{or_true}
use mathlib.Core.Option
use lifeline.Config.{
  Config, known_rule, known_format, first_unknown, bad_duration, validate, schema_version,
  unknown_rule,
}

-- The rules that a configuration may name.
pub data IsRule : String → Type 0 where
  ll1001 : IsRule "LL1001"
  ll1002 : IsRule "LL1002"
  ll1003 : IsRule "LL1003"
  ll1004 : IsRule "LL1004"
  ll1005 : IsRule "LL1005"
  ll9001 : IsRule "LL9001"
  every_rule : IsRule "all"

pub data IsFormat : String → Type 0 where
  text : IsFormat "text"
  json : IsFormat "json"
  sarif : IsFormat "sarif"

-- A configuration in order; the exit code is one that a shell reports and that the tool does not use
-- for something else.
pub record IsValid (parse_duration : String → Option ℤ) (c : Config) : Type 0 where
  pub schema : c.schema_version ≡ pos 1
  pub format : IsFormat c.format
  pub exit_code : (k : ℕ) × (c.ci_exit_code ≡ pos k) × (1 ≤ k) × (k ≤ 255) × (k ≢ 2) × (k ≢ 3)
  pub max_functions : (k : ℕ) × (c.max_functions ≡ pos (suc k))
  pub timeout : (k : ℕ) × (parse_duration c.timeout ≡ some (pos (suc k)))
  pub fail_on : (id : String) → id ∈ c.fail_on → IsRule id
  pub ignore : (id : String) → id ∈ c.ignore → IsRule id

name_of : (P : String → Type 0) (s t : String) → P t → str_eq s t ≡ true → P s
name_of P s t p h = subst P (sym (str_eq→≡ s t h)) p

accepted-IsRule : (id : String) → (str_eq id "all" || known_rule id) ≡ true → IsRule id
unfolding known_rule
accepted-IsRule id h = elim (or_true _ _ h) [
  | inl e ↦ name_of IsRule id "all" every_rule e
  | inr h1 ↦ elim (or_true _ _ h1) [
    | inl e ↦ name_of IsRule id "LL1001" ll1001 e
    | inr h2 ↦ elim (or_true _ _ h2) [
      | inl e ↦ name_of IsRule id "LL1002" ll1002 e
      | inr h3 ↦ elim (or_true _ _ h3) [
        | inl e ↦ name_of IsRule id "LL1003" ll1003 e
        | inr h4 ↦ elim (or_true _ _ h4) [
          | inl e ↦ name_of IsRule id "LL1004" ll1004 e
          | inr h5 ↦ elim (or_true _ _ h5) [
            | inl e ↦ name_of IsRule id "LL1005" ll1005 e
            | inr e ↦ name_of IsRule id "LL9001" ll9001 e
          ]
        ]
      ]
    ]
  ]
]

IsRule-accepted : (id : String) → IsRule id → (str_eq id "all" || known_rule id) ≡ true
unfolding known_rule
IsRule-accepted id ll1001 = refl
IsRule-accepted id ll1002 = refl
IsRule-accepted id ll1003 = refl
IsRule-accepted id ll1004 = refl
IsRule-accepted id ll1005 = refl
IsRule-accepted id ll9001 = refl
IsRule-accepted id every_rule = refl

accepted-IsFormat : (s : String) → known_format s ≡ true → IsFormat s
unfolding known_format
accepted-IsFormat s h = elim (or_true _ _ h) [
  | inl e ↦ name_of IsFormat s "text" text e
  | inr h1 ↦ elim (or_true _ _ h1) [
    | inl e ↦ name_of IsFormat s "json" json e
    | inr e ↦ name_of IsFormat s "sarif" sarif e
  ]
]

IsFormat-accepted : (s : String) → IsFormat s → known_format s ≡ true
unfolding known_format
IsFormat-accepted s text = refl
IsFormat-accepted s json = refl
IsFormat-accepted s sarif = refl

first_unknown-none :
    (ids : List String) → first_unknown ids ≡ none → (id : String) → id ∈ ids → IsRule id
unfolding first_unknown
first_unknown-none [] h id m = absurd m
first_unknown-none (x ∷ xs) h id m = elim (Bool-cases (str_eq x "all" || known_rule x)) [
  | inr unknown ↦ absurd (ground (arith, unknown, h))
  | inl known ↦ elim m [
    | inl e ↦ subst IsRule (sym e) (accepted-IsRule x known)
    | inr later ↦ first_unknown-none xs (ground (arith, known, h)) id later
  ]
]

none-first_unknown :
    (ids : List String) → ((id : String) → id ∈ ids → IsRule id) → first_unknown ids ≡ none
unfolding first_unknown
none-first_unknown [] h = refl
none-first_unknown (x ∷ xs) h =
    ground (arith, IsRule-accepted x (h x (inl refl)), none-first_unknown xs (λ id m. h id (inr m)))

guarded :
    {A : Type 0} (b : Bool) (e : A) (x : Option A)
    → (if b then x else some e) ≡ none
    → (b ≡ true) × (x ≡ none)
guarded true e x h = (refl, h)
guarded false e x h = absurd (cc)

refused :
    {A : Type 0} (b : Bool) (e : A) (x : Option A)
    → (if b then some e else x) ≡ none
    → (b ≡ false) × (x ≡ none)
refused false e x h = (refl, h)
refused true e x h = absurd (cc)

guard_passed :
    {A : Type 0} (b : Bool) (e : A) (x : Option A)
    → b ≡ true
    → x ≡ none
    → (if b then x else some e) ≡ none
guard_passed true e x p h = h
guard_passed false e x p h = absurd (cc)

refusal_passed :
    {A : Type 0} (b : Bool) (e : A) (x : Option A)
    → b ≡ false
    → x ≡ none
    → (if b then some e else x) ≡ none
refusal_passed false e x p h = h
refusal_passed true e x p h = absurd (cc)

is_one : (k : ℤ) → eq_nat k 1 ≡ true → k ≡ pos 1
is_one (pos n) h = ap pos (ground arith)
is_one (negsuc n) h = absurd (cc)

is_positive : (k : ℤ) → le_zero k ≡ false → (n : ℕ) × (k ≡ pos (suc n))
is_positive (pos zero) h = absurd (cc)
is_positive (pos (suc n)) h = (n, refl)
is_positive (negsuc n) h = absurd (cc)

bad_code : ℤ → Bool
bad_code k = le_zero k || (gt_nat k 255 || (eq_nat k 2 || eq_nat k 3))

is_exit_code :
    (k : ℤ) → bad_code k ≡ false → (n : ℕ) × (k ≡ pos n) × (1 ≤ n) × (n ≤ 255) × (n ≢ 2) × (n ≢ 3)
unfolding bad_code
is_exit_code (pos n) h =
    (n, refl, ground arith, ground arith, (λ e. ground arith), λ e. ground arith)
is_exit_code (negsuc n) h = absurd (cc)

exit_code_fine : (n : ℕ) → 1 ≤ n → n ≤ 255 → n ≢ 2 → n ≢ 3 → bad_code (pos n) ≡ false
unfolding bad_code
exit_code_fine n a b c d = ground arith

option_map-none : {A B : Type 0} (f : A → B) (o : Option A) → Option.map f o ≡ none → o ≡ none
option_map-none f none h = refl
option_map-none f (some a) h = absurd (cc)

module _ (parse_duration : String → Option ℤ) where
  -- A duration that is not refused is positive.
  duration_fine :
      (o : Option ℤ)
      → elim o [ none ↦ true | some d ↦ le_zero d ] ≡ false
      → (k : ℕ) × (o ≡ some (pos (suc k)))
  duration_fine none h = absurd (cc)
  duration_fine (some d) h = let (k, e) = is_positive d h in (k, ap some e)

  validate-IsValid : (c : Config) → validate parse_duration c ≡ none → IsValid parse_duration c
  unfolding validate bad_duration bad_code
  validate-IsValid c h =
      let a = guarded (eq_nat c.schema_version schema_version) _ _ h in
      let b = guarded (known_format c.format) _ _ a.1 in
      let d = refused (bad_code c.ci_exit_code) _ _ b.1 in
      let e = refused (le_zero c.max_functions) _ _ d.1 in
      let f = refused (bad_duration parse_duration c.timeout) _ _ e.1 in
      let rules = first_unknown-none (c.fail_on ++ c.ignore) (option_map-none unknown_rule _ f.1) in
      record {
        schema = is_one c.schema_version a.0;
        format = accepted-IsFormat c.format b.0;
        exit_code = is_exit_code c.ci_exit_code d.0;
        max_functions = is_positive c.max_functions e.0;
        timeout = duration_fine (parse_duration c.timeout) f.0;
        fail_on = λ id m. rules id (mem-append_left id c.fail_on c.ignore m);
        ignore = λ id m. rules id (mem-append_right id c.fail_on c.ignore m);
      }

  not_refused :
      (o : Option ℤ) (k : ℕ)
      → o ≡ some (pos (suc k))
      → elim o [ none ↦ true | some d ↦ le_zero d ] ≡ false
  not_refused none k h = absurd (cc)
  not_refused (some (pos zero)) k h = ground arith
  not_refused (some (pos (suc n))) k h = ground arith
  not_refused (some (negsuc n)) k h = absurd (cc)

  not_zero : (k : ℤ) (n : ℕ) → k ≡ pos (suc n) → le_zero k ≡ false
  not_zero k n h = ap le_zero h ∙ the_positive n
    where
      the_positive : (n : ℕ) → le_zero (pos (suc n)) ≡ false
      the_positive n = ground arith

  IsValid-validate : (c : Config) → IsValid parse_duration c → validate parse_duration c ≡ none
  unfolding validate bad_duration bad_code
  IsValid-validate c v =
      let (n, code, low, high, not_two, not_three) = v.exit_code in
      let (m, max) = v.max_functions in
      let (k, limit) = v.timeout in
      let fine = exit_code_fine n low high not_two not_three in
      let accepted = none-first_unknown (c.fail_on ++ c.ignore) (λ id i.
        elim (mem-append_cases id c.fail_on c.ignore i) [
          | inl a ↦ v.fail_on id a
          | inr b ↦ v.ignore id b
        ]) in
      guard_passed (eq_nat c.schema_version schema_version) _ _ (ap (λ s. eq_nat s 1) v.schema) (
        guard_passed (known_format c.format) _ _ (IsFormat-accepted c.format v.format) (
          refusal_passed (bad_code c.ci_exit_code) _ _ (ap bad_code code ∙ fine) (
            refusal_passed (le_zero c.max_functions) _ _ (not_zero c.max_functions m max) (
              refusal_passed (bad_duration parse_duration c.timeout) _ _ (not_refused _ k limit)
                (ap (Option.map unknown_rule) accepted)))))

  -- `validate` accepts a configuration just when it is in order: the schema is the first one, the
  -- format is one of three, the exit code lies from 1 to 255 and is neither 2 nor 3, at least one
  -- function may be analysed, the timeout parses to a positive duration, and the rules that
  -- `fail_on` and `ignore` name are the six rules or "all".
  pub validate-IsValid_iff :
      (c : Config) → (validate parse_duration c ≡ none) ↔ IsValid parse_duration c
  validate-IsValid_iff c = (validate-IsValid c, IsValid-validate c)
