-- ===== src/Engine/Filter/Unique.antt =====
-- The order of the report and its stability leave one result.
use lifeline.Prelude.{
  ℕ, ◌<◌, String, true, false, List, [], ◌∷◌, ◌∈◌, ◌≡◌, ◌⊎◌, inl, inr, refl, sym,
}
use lifeline.Prelude.{◌∙◌, subst, arith, ==_refl, str_lt, str_eq_refl, str_lt_connex}
use lifeline.Prelude.{str_lt_trans, str_lt_asymm, Bool-cases}
use lifeline.Engine.Diagnostics.{Diagnostic}
use lifeline.Engine.Filter.{sort_stable}
use lifeline.Engine.Filter.Order.{Precedes, AreInOrder, at_place, all_at, sort_stable-IsStable}

-- Two diagnostics at one place.
abbrev ArePeers : Diagnostic → Diagnostic → Type 0
ArePeers a b =
    (a.position.file ≡ b.position.file)
    × (a.position.start_offset ≡ b.position.start_offset)
    × (a.rule_id ≡ b.rule_id)

text_cases : (s t : String) → (str_lt s t ≡ true) ⊎ ((str_lt t s ≡ true) ⊎ (s ≡ t))
text_cases s t = elim (Bool-cases (str_lt s t)) [
  | inl less ↦ inl less
  | inr not_less ↦ elim (Bool-cases (str_lt t s)) [
    | inl more ↦ inr (inl more)
    | inr not_more ↦ inr (inr (str_lt_connex s t not_less not_more))
  ]
]

number_cases : (m n : ℕ) → (m < n) ⊎ ((n < m) ⊎ (m ≡ n))
number_cases m n = ground arith

place_cases : (a b : Diagnostic) → Precedes a b ⊎ (Precedes b a ⊎ ArePeers a b)
place_cases a b = elim (text_cases a.position.file b.position.file) [
  | inl less ↦ inl (inl less)
  | inr (inl more) ↦ inr (inl (inl more))
  | inr (inr file) ↦ elim (number_cases a.position.start_offset b.position.start_offset) [
    | inl less ↦ inl (inr (file, inl less))
    | inr (inl more) ↦ inr (inl (inr (sym file, inl more)))
    | inr (inr offset) ↦ elim (text_cases a.rule_id b.rule_id) [
      | inl less ↦ inl (inr (file, inr (offset, less)))
      | inr (inl more) ↦ inr (inl (inr (sym file, inr (sym offset, more))))
      | inr (inr rule) ↦ inr (inr (file, offset, rule))
    ]
  ]
]

Precedes-trans : (a b c : Diagnostic) → Precedes a b → Precedes b c → Precedes a c
Precedes-trans a b c (inl h) (inl k) = inl (str_lt_trans _ _ _ h k)
Precedes-trans a b c (inl h) (inr (file, k)) =
    inl (subst (λ f. str_lt a.position.file f ≡ true) file h)
Precedes-trans a b c (inr (file, h)) (inl k) =
    inl (subst (λ f. str_lt f c.position.file ≡ true) (sym file) k)
Precedes-trans a b c (inr (file, inl h)) (inr (same, inl k)) =
    inr (file ∙ same, inl (omega (arith, h, k)))
Precedes-trans a b c (inr (file, inl h)) (inr (same, inr (offset, k))) =
    inr (file ∙ same, inl (omega (arith, h, offset)))
Precedes-trans a b c (inr (file, inr (offset, h))) (inr (same, inl k)) =
    inr (file ∙ same, inl (omega (arith, k, offset)))
Precedes-trans a b c (inr (file, inr (offset, h))) (inr (same, inr (offsets, k))) =
    inr (file ∙ same, inr (offset ∙ offsets, str_lt_trans _ _ _ h k))

-- A peer precedes what the other one does.
Precedes-peer : (a b c : Diagnostic) → ArePeers a b → Precedes b c → Precedes a c
Precedes-peer a b c (file, offset, rule) (inl h) =
    inl (subst (λ f. str_lt f c.position.file ≡ true) (sym file) h)
Precedes-peer a b c (file, offset, rule) (inr (same, inl h)) =
    inr (file ∙ same, inl (omega (arith, h, offset)))
Precedes-peer a b c (file, offset, rule) (inr (same, inr (offsets, h))) =
    inr (file ∙ same, inr (offset ∙ offsets, subst (λ r. str_lt r c.rule_id ≡ true) (sym rule) h))

-- Nothing that comes after a diagnostic precedes it.
first_least :
    (x y : Diagnostic) (xs : List Diagnostic) → AreInOrder (x ∷ xs) → y ∈ xs → Precedes y x → ⊥
first_least x y [] h m before = absurd m
first_least x y (z ∷ zs) (h, k) (inl same) before = h (subst (λ u. Precedes u x) same before)
first_least x y (z ∷ zs) (h, k) (inr m) before = elim (place_cases z y) [
  | inl less ↦ h (Precedes-trans z y x less before)
  | inr (inl more) ↦ first_least z y zs k m more
  | inr (inr peers) ↦ h (Precedes-peer z y x peers before)
]

irreflexive : (x : Diagnostic) → Precedes x x → ⊥
irreflexive x (inl h) = cc (h, str_lt_asymm _ _ h)
irreflexive x (inr (file, inl h)) = omega (arith, h)
irreflexive x (inr (file, inr (offset, h))) = cc (h, str_lt_asymm _ _ h)

own_place : (x : Diagnostic) → at_place x.position.file x.position.start_offset x.rule_id x ≡ true
own_place x =
    ground
      (arith, str_eq_refl x.position.file, str_eq_refl x.rule_id, ==_refl x.position.start_offset)

all_at-here :
    (file : String) (offset : ℕ) (rule : String) (x : Diagnostic) (xs : List Diagnostic)
    → at_place file offset rule x ≡ true
    → all_at file offset rule (x ∷ xs) ≡ x ∷ all_at file offset rule xs
all_at-here file offset rule x xs h = rw h refl

all_at-away :
    (file : String) (offset : ℕ) (rule : String) (x : Diagnostic) (xs : List Diagnostic)
    → at_place file offset rule x ≡ false
    → all_at file offset rule (x ∷ xs) ≡ all_at file offset rule xs
all_at-away file offset rule x xs h = rw h refl

mem-all_at :
    (file : String) (offset : ℕ) (rule : String) (y : Diagnostic) (xs : List Diagnostic)
    → y ∈ all_at file offset rule xs
    → y ∈ xs
mem-all_at file offset rule y [] m = m
mem-all_at file offset rule y (x ∷ xs) m = elim (Bool-cases (at_place file offset rule x)) [
  | inl here ↦ elim (subst (λ l. y ∈ l) (all_at-here file offset rule x xs here) m) [
    | inl same ↦ inl same
    | inr later ↦ inr (mem-all_at file offset rule y xs later)
  ]
  | inr away ↦ inr (
      mem-all_at file offset rule y xs
        (subst (λ l. y ∈ l) (all_at-away file offset rule x xs away) m))
]

SamePlaces : List Diagnostic → List Diagnostic → Type 0
SamePlaces xs ys =
    (file : String) (offset : ℕ) (rule : String)
    → all_at file offset rule xs ≡ all_at file offset rule ys

-- The first of one list stands in the other, so it does not precede its first.
not_before :
    (x y : Diagnostic) (xs ys : List Diagnostic)
    → AreInOrder (x ∷ xs)
    → SamePlaces (x ∷ xs) (y ∷ ys)
    → Precedes y x
    → ⊥
unfolding SamePlaces
not_before x y xs ys h same before =
    let place = all_at y.position.file y.position.start_offset y.rule_id in
    let m : y ∈ place (x ∷ xs) =
      subst (λ l. y ∈ l)
        (sym (
          same _ _ _
          ∙ all_at-here y.position.file y.position.start_offset y.rule_id y ys (own_place y)))
        (inl refl) in
    elim (mem-all_at y.position.file y.position.start_offset y.rule_id y (x ∷ xs) m) [
      | inl e ↦ irreflexive x (subst (λ u. Precedes u x) e before)
      | inr later ↦ first_least x y xs h later before
    ]

peer_place :
    (x y : Diagnostic)
    → ArePeers x y
    → at_place x.position.file x.position.start_offset x.rule_id y ≡ true
peer_place x y (file, offset, rule) =
    subst (λ f. at_place f x.position.start_offset x.rule_id y ≡ true) (sym file)
      (subst (λ o. at_place y.position.file o x.rule_id y ≡ true) (sym offset)
        (subst (λ r. at_place y.position.file y.position.start_offset r y ≡ true) (sym rule)
          (own_place y)))

same_tails :
    (x : Diagnostic) (xs ys : List Diagnostic) → SamePlaces (x ∷ xs) (x ∷ ys) → SamePlaces xs ys
unfolding SamePlaces
same_tails x xs ys same file offset rule = elim (Bool-cases (at_place file offset rule x)) [
  | inl here ↦ cc (
      sym (all_at-here file offset rule x xs here)
      ∙ same file offset rule
      ∙ all_at-here file offset rule x ys here)
  | inr away ↦
      sym (all_at-away file offset rule x xs away)
      ∙ same file offset rule
      ∙ all_at-away file offset rule x ys away
]

in_order-tail : (x : Diagnostic) (xs : List Diagnostic) → AreInOrder (x ∷ xs) → AreInOrder xs
in_order-tail x [] h = tt
in_order-tail x (y ∷ ys) h = h.1

one_result : (xs ys : List Diagnostic) → AreInOrder xs → AreInOrder ys → SamePlaces xs ys → xs ≡ ys
unfolding SamePlaces
one_result [] [] h k same = refl
one_result [] (y ∷ ys) h k same = absurd (
    cc (
      same _ _ _
      ∙ all_at-here y.position.file y.position.start_offset y.rule_id y ys (own_place y)))
one_result (x ∷ xs) [] h k same = absurd (
    cc (
      sym (same _ _ _)
      ∙ all_at-here x.position.file x.position.start_offset x.rule_id x xs (own_place x)))
one_result (x ∷ xs) (y ∷ ys) h k same = elim (place_cases x y) [
  | inl less ↦ absurd (not_before y x ys xs k (λ f o r. sym (same f o r)) less)
  | inr (inl more) ↦ absurd (not_before x y xs ys h same more)
  | inr (inr peers) ↦
      let first : x ≡ y = cc (
        sym (all_at-here x.position.file x.position.start_offset x.rule_id x xs (own_place x))
        ∙ same x.position.file x.position.start_offset x.rule_id
        ∙ all_at-here x.position.file x.position.start_offset x.rule_id y ys
            (peer_place x y peers)) in
      let rest =
        one_result xs ys (in_order-tail x xs h) (in_order-tail y ys k)
          (same_tails x xs ys (subst (λ u. SamePlaces (x ∷ xs) (u ∷ ys)) (sym first) same)) in
      cc (first, rest)
]

-- Any list in the order of the report that keeps the diagnostics at each file, offset and rule as they were found is the
-- result of the sort: whatever stable sort is used, the report is the same.
pub sort_stable_unique :
    (ds es : List Diagnostic)
    → AreInOrder es
    → ((file : String) (offset : ℕ) (rule : String)
        → all_at file offset rule es ≡ all_at file offset rule ds)
    → es ≡ sort_stable ds
unfolding SamePlaces
sort_stable_unique ds es h same =
    let (ordered, kept) = sort_stable-IsStable ds in
    one_result es (sort_stable ds) h ordered (λ f o r. same f o r ∙ sym (kept f o r))
