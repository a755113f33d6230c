-- ===== src/Engine/Filter/Order.antt =====
-- The report is in order, and the sort is stable.
use lifeline.Prelude.{ℕ, String, Bool, true, false, ◌&&◌, List, [], ◌∷◌}
use lifeline.Prelude.{◌≡◌, ◌<◌, ◌⊎◌, inl, inr, refl, ap, ◌∙◌, sym, subst, arith, ◌==◌, ==→≡}
use lifeline.Prelude.{
  str_eq, str_lt, str_eq→≡, str_eq_refl, str_lt_asymm, Bool-cases, if◌then◌else◌,
}
use lifeline.Engine.Diagnostics.{Diagnostic}
use lifeline.Engine.Filter.{less, insert, sort_stable}

-- No diagnostic comes after one that it is less than.
abbrev AreOrdered : List Diagnostic → Type 0
AreOrdered [] = Unit
AreOrdered (d ∷ []) = Unit
AreOrdered (d ∷ e ∷ es) = (less e d ≡ false) × AreOrdered (e ∷ es)

less_swap : (a b : Diagnostic) → less a b ≡ true → less b a ≡ false
unfolding less
less_swap a b h = ground (
  arith,
  str_lt_asymm a.position.file b.position.file,
  str_lt_asymm a.rule_id b.rule_id,
  str_eq→≡ a.position.file b.position.file,
  str_eq→≡ b.position.file a.position.file,
  str_eq_refl a.position.file,
)

AreOrdered-cons : (d : Diagnostic) (es : List Diagnostic) → AreOrdered (d ∷ es) → AreOrdered es
AreOrdered-cons d [] h = tt
AreOrdered-cons d (e ∷ es) h = h.1

-- What follows an element after an insertion: the new element, or what followed it before.
AreOrdered-insert_after :
    (c d : Diagnostic) (es : List Diagnostic)
    → less d c ≡ false
    → AreOrdered (c ∷ es)
    → AreOrdered (insert d es)
    → AreOrdered (c ∷ insert d es)
unfolding insert
AreOrdered-insert_after c d [] k h g = (k, tt)
AreOrdered-insert_after c d (e ∷ es) k h g = elim (Bool-cases (less e d)) [
  | inl first ↦ placed true (less e d) first c d e es k h g
  | inr later ↦ placed false (less e d) later c d e es k h g
]
  where
    placed :
        (b t : Bool)
        → t ≡ b
        → (c d e : Diagnostic) (es : List Diagnostic) → less d c ≡ false
        → AreOrdered (c ∷ e ∷ es)
        → AreOrdered (if t then e ∷ insert d es else d ∷ e ∷ es)
        → AreOrdered (c ∷ (if t then e ∷ insert d es else d ∷ e ∷ es))
    placed b true p c d e es k h g = (h.0, g)
    placed b false p c d e es k h g = (k, g)

AreOrdered-insert :
    (d : Diagnostic) (es : List Diagnostic) → AreOrdered es → AreOrdered (insert d es)
unfolding insert
AreOrdered-insert d [] h = tt
AreOrdered-insert d (e ∷ es) h =
    placed (less e d) refl (AreOrdered-insert d es (AreOrdered-cons e es h))
  where
    placed :
        (t : Bool)
        → less e d ≡ t
        → AreOrdered (insert d es)
        → AreOrdered (if t then e ∷ insert d es else d ∷ e ∷ es)
    placed true p rest = AreOrdered-insert_after e d es (less_swap e d p) h rest
    placed false p rest = (p, h)

-- Whether a diagnostic stands at a place of the order: the three things that `less` reads.
abbrev pub at_place : String → ℕ → String → Diagnostic → Bool
at_place file offset rule d =
    str_eq d.position.file file && ((d.position.start_offset == offset) && str_eq d.rule_id rule)

abbrev pub all_at : String → ℕ → String → List Diagnostic → List Diagnostic
all_at file offset rule [] = []
all_at file offset rule (d ∷ ds) =
    if at_place file offset rule d
    then d ∷ all_at file offset rule ds
    else all_at file offset rule ds

and_true : (a b : Bool) → (a && b) ≡ true → (a ≡ true) × (b ≡ true)
and_true true b h = (refl, h)
and_true false b h = absurd (cc)

str_lt_irrefl : (s t : String) → s ≡ t → str_lt s t ≡ false
str_lt_irrefl s t e = elim (Bool-cases (str_lt s t)) [
  | inl lt ↦ absurd (cc (lt, str_lt_asymm s t lt, subst (λ u. str_lt u s ≡ str_lt s u) e refl))
  | inr ge ↦ ge
]

-- Of two diagnostics at one place neither is less.
same_place-less :
    (file : String) (offset : ℕ) (rule : String) (a b : Diagnostic)
    → at_place file offset rule a ≡ true
    → at_place file offset rule b ≡ true
    → less a b ≡ false
unfolding less
same_place-less file offset rule a b h k =
    let (ha, hb) = and_true _ _ h in
    let (hc, hd) = and_true _ _ hb in
    let (ka, kb) = and_true _ _ k in
    let (kc, kd) = and_true _ _ kb in
    let files = str_eq→≡ a.position.file file ha ∙ sym (str_eq→≡ b.position.file file ka) in
    let rules = str_eq→≡ a.rule_id rule hd ∙ sym (str_eq→≡ b.rule_id rule kd) in
    let offsets = ==→≡ _ _ hc ∙ sym (==→≡ _ _ kc) in
    ground (
      arith,
      str_lt_irrefl a.rule_id b.rule_id rules,
      subst (λ u. str_eq a.position.file u ≡ true) files (str_eq_refl a.position.file),
      offsets,
    )

all_at-insert :
    (file : String) (offset : ℕ) (rule : String) (d : Diagnostic) (es : List Diagnostic)
    → all_at file offset rule (insert d es) ≡ all_at file offset rule (d ∷ es)
unfolding insert
all_at-insert file offset rule d [] = refl
all_at-insert file offset rule d (e ∷ es) =
    ground (arith, all_at-insert file offset rule d es, same_place-less file offset rule e d)

all_at-sort_stable :
    (file : String) (offset : ℕ) (rule : String) (ds : List Diagnostic)
    → all_at file offset rule (sort_stable ds) ≡ all_at file offset rule ds
unfolding sort_stable
all_at-sort_stable file offset rule [] = refl
all_at-sort_stable file offset rule (d ∷ ds) =
    all_at-insert file offset rule d (sort_stable ds)
    ∙ ap (λ es. if at_place file offset rule d then d ∷ es else es)
        (all_at-sort_stable file offset rule ds)

AreOrdered-sort_stable : (ds : List Diagnostic) → AreOrdered (sort_stable ds)
unfolding sort_stable
AreOrdered-sort_stable [] = tt
AreOrdered-sort_stable (d ∷ ds) = AreOrdered-insert d (sort_stable ds) (AreOrdered-sort_stable ds)

-- A diagnostic stands in a file with a lesser name, or in the same file at a lesser offset, or at the same offset
-- with a lesser rule.
abbrev pub Precedes : Diagnostic → Diagnostic → Type 0
Precedes a b =
    (str_lt a.position.file b.position.file ≡ true)
    ⊎ ((a.position.file ≡ b.position.file)
        × ((a.position.start_offset < b.position.start_offset)
            ⊎ ((a.position.start_offset ≡ b.position.start_offset)
                × (str_lt a.rule_id b.rule_id ≡ true))))

less-Precedes : (a b : Diagnostic) → Precedes a b → less a b ≡ true
unfolding less
less-Precedes a b (inl lt) = elim (Bool-cases (str_eq a.position.file b.position.file)) [
  | inl same ↦ absurd (cc (lt, str_lt_irrefl _ _ (str_eq→≡ a.position.file b.position.file same)))
  | inr other ↦ ground (arith, lt, other)
]
less-Precedes a b (inr (same, inl lt)) =
    let here : str_eq a.position.file b.position.file ≡ true =
      subst (λ u. str_eq a.position.file u ≡ true) same (str_eq_refl a.position.file) in
    ground (arith, here, lt)
less-Precedes a b (inr (same, inr (offset, lt))) =
    let here : str_eq a.position.file b.position.file ≡ true =
      subst (λ u. str_eq a.position.file u ≡ true) same (str_eq_refl a.position.file) in
    ground (arith, here, offset, lt)

-- No diagnostic precedes the one before it.
abbrev pub AreInOrder : List Diagnostic → Type 0
AreInOrder [] = Unit
AreInOrder (d ∷ []) = Unit
AreInOrder (d ∷ e ∷ es) = (Precedes e d → ⊥) × AreInOrder (e ∷ es)

AreOrdered-AreInOrder : (ds : List Diagnostic) → AreOrdered ds → AreInOrder ds
AreOrdered-AreInOrder [] h = tt
AreOrdered-AreInOrder (d ∷ []) h = tt
AreOrdered-AreInOrder (d ∷ e ∷ es) (h, k) =
    (λ before. cc (h, less-Precedes e d before), AreOrdered-AreInOrder (e ∷ es) k)

-- The sort puts diagnostics in order of the file's name, then of the offset, then of the rule, and keeps the
-- diagnostics at one file, offset and rule, all of them, in the order in which they were found.
pub sort_stable-IsStable :
    (ds : List Diagnostic)
    → AreInOrder (sort_stable ds)
      × ((file : String) (offset : ℕ) (rule : String)
          → all_at file offset rule (sort_stable ds) ≡ all_at file offset rule ds)
sort_stable-IsStable ds = (
  AreOrdered-AreInOrder (sort_stable ds) (AreOrdered-sort_stable ds),
  λ file offset rule. all_at-sort_stable file offset rule ds,
)
