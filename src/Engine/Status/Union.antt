-- ===== src/Engine/Status/Union.antt =====
-- What `Status.Add` makes of two statuses.
use lifeline.Prelude.{ℕ, ◌+◌, String, Bool, true, false, ◌||◌, List, [], ◌∷◌, ◌++◌, ◌≡◌, ◌⊎◌, ◌↔◌}
use lifeline.Prelude.{refl, ap, ◌∙◌, arith, str_eq, str_lt, str_eq→≡}
use lifeline.Prelude.{str_lt_asymm, if◌then◌else◌}
use lifeline.Engine.Status.{
  Status, has_text, distinct, insert_text, sort_texts, add_status, add_unsupported, add_suppressed,
  add_units, UnitStatus, Suppressed, Unsupported,
}

-- Each count of the third is the sum of those of the first two.
abbrev pub AreSums : UnitStatus → UnitStatus → UnitStatus → Type 0
AreSums a b c =
    (c.discovered ≡ a.discovered + b.discovered)
    × (c.analyzed ≡ a.analyzed + b.analyzed)
    × (c.skipped ≡ a.skipped + b.skipped)
    × (c.excluded_files ≡ a.excluded_files + b.excluded_files)

abbrev pub AreSuppressedSums : Suppressed → Suppressed → Suppressed → Type 0
AreSuppressedSums a b c =
    (c.by_config ≡ a.by_config + b.by_config)
    × (c.by_comment ≡ a.by_comment + b.by_comment)
    × ((r : String) → c.by_rule r ≡ a.by_rule r + b.by_rule r)

abbrev pub AreUnsupportedSums : Unsupported → Unsupported → Unsupported → Type 0
AreUnsupportedSums a b c =
    (c.targets ≡ a.targets + b.targets)
    × (c.handed_off ≡ a.handed_off + b.handed_off)
    × (c.unestablished_path_checks ≡ a.unestablished_path_checks + b.unestablished_path_checks)

-- How often a text stands in a list.
abbrev pub occurrences : String → List String → ℕ
occurrences s [] = 0
occurrences s (t ∷ ts) = (if str_eq s t then 1 else 0) + occurrences s ts

-- No text comes after one that it is less than.
abbrev pub AreSorted : List String → Type 0
AreSorted [] = Unit
AreSorted (s ∷ []) = Unit
AreSorted (s ∷ t ∷ ts) = (str_lt t s ≡ false) × AreSorted (t ∷ ts)

occurrences-insert_text :
    (s x : String) (ts : List String) → occurrences s (insert_text x ts) ≡ occurrences s (x ∷ ts)
unfolding insert_text
occurrences-insert_text s x [] = refl
occurrences-insert_text s x (t ∷ ts) = ground (arith, occurrences-insert_text s x ts)

occurrences-sort_texts :
    (s : String) (ts : List String) → occurrences s (sort_texts ts) ≡ occurrences s ts
unfolding sort_texts
occurrences-sort_texts s [] = refl
occurrences-sort_texts s (t ∷ ts) =
    omega (arith, occurrences-insert_text s t (sort_texts ts), occurrences-sort_texts s ts)

AreSorted-insert_after :
    (c x : String) (ts : List String)
    → str_lt x c ≡ false
    → AreSorted (c ∷ ts)
    → AreSorted (insert_text x ts)
    → AreSorted (c ∷ insert_text x ts)
unfolding insert_text
AreSorted-insert_after c x [] k h g = (k, tt)
AreSorted-insert_after c x (t ∷ ts) k h g = placed (str_lt t x) g
  where
    placed :
        (b : Bool)
        → AreSorted (if b then t ∷ insert_text x ts else x ∷ t ∷ ts)
        → AreSorted (c ∷ (if b then t ∷ insert_text x ts else x ∷ t ∷ ts))
    placed true g = (h.0, g)
    placed false g = (k, g)

AreSorted-tail : (t : String) (ts : List String) → AreSorted (t ∷ ts) → AreSorted ts
AreSorted-tail t [] h = tt
AreSorted-tail t (u ∷ us) h = h.1

AreSorted-insert_text :
    (x : String) (ts : List String) → AreSorted ts → AreSorted (insert_text x ts)
unfolding insert_text
AreSorted-insert_text x [] h = tt
AreSorted-insert_text x (t ∷ ts) h =
    placed (str_lt t x) refl (AreSorted-insert_text x ts (AreSorted-tail t ts h))
  where
    placed :
        (b : Bool)
        → str_lt t x ≡ b
        → AreSorted (insert_text x ts)
        → AreSorted (if b then t ∷ insert_text x ts else x ∷ t ∷ ts)
    placed true p rest = AreSorted-insert_after t x ts (str_lt_asymm t x p) h rest
    placed false p rest = (p, h)

AreSorted-sort_texts : (ts : List String) → AreSorted (sort_texts ts)
unfolding sort_texts
AreSorted-sort_texts [] = tt
AreSorted-sort_texts (t ∷ ts) = AreSorted-insert_text t (sort_texts ts) (AreSorted-sort_texts ts)

has_text-equal :
    (s t : String) (seen : List String) → str_eq s t ≡ true → has_text s seen ≡ has_text t seen
has_text-equal s t seen e = ap (λ u. has_text u seen) (str_eq→≡ s t e)

-- A text is taken once if it has not been met and comes up, and never otherwise.
occurrences-distinct :
    (s : String) (seen ts : List String)
    → occurrences s (distinct seen ts)
      ≡ (if has_text s seen then 0 else if has_text s ts then 1 else 0)
unfolding distinct has_text
occurrences-distinct s seen [] = ground arith
occurrences-distinct s seen (t ∷ ts) = ground (
  arith,
  occurrences-distinct s (t ∷ seen) ts,
  occurrences-distinct s seen ts,
  has_text-equal s t seen,
)

has_text-append :
    (s : String) (xs ys : List String) → has_text s (xs ++ ys) ≡ (has_text s xs || has_text s ys)
unfolding has_text
has_text-append s [] ys = refl
has_text-append s (x ∷ xs) ys = ground (arith, has_text-append s xs ys)

-- The sum of two statuses counts, in each of its counts, what both count together, and by each rule; it is
-- incomplete when either is; it has the reasons of the first and then those of the second; and it
-- lists its assumptions in order, each that either of the two has exactly once and no other.
pub add_status-IsUnion :
    (a b : Status)
    → let sum = add_status a b in
      AreSorted sum.assumptions
      × ((s : String)
          → occurrences s sum.assumptions
            ≡ (if has_text s a.assumptions || has_text s b.assumptions then 1 else 0))
      × AreSums a.units b.units sum.units
      × AreSuppressedSums a.suppressed b.suppressed sum.suppressed
      × AreUnsupportedSums a.unsupported b.unsupported sum.unsupported
      × ((sum.incomplete ≡ true) ↔ ((a.incomplete ≡ true) ⊎ (b.incomplete ≡ true)))
      × (sum.reasons ≡ a.reasons ++ b.reasons)
unfolding add_status add_units add_unsupported add_suppressed has_text
add_status-IsUnion a b = (
  AreSorted-sort_texts (distinct [] (a.assumptions ++ b.assumptions)),
  λ s.
      occurrences-sort_texts s (distinct [] (a.assumptions ++ b.assumptions))
      ∙ (occurrences-distinct s [] (a.assumptions ++ b.assumptions)
          ∙ ap (λ t. if t then 1 else 0) (has_text-append s a.assumptions b.assumptions)),
  (refl, refl, refl, refl),
  (refl, refl, λ r. refl),
  (refl, refl, refl),
  ground arith,
  refl,
)
