-- ===== src/Config/Values/Csv.antt =====
-- What SplitCSV returns.
use Prim.Native.Char.{Char, char, code}
use lifeline.Prelude.{◌≡◌, ◌≢◌, refl, sym, ap, ◌∙◌, arith, false, ◌==◌, ◌&&◌}
use lifeline.Prelude.{◌⊎◌, inl, inr, List, [], ◌∷◌, ◌++◌, Bool-cases}
use lifeline.Config.Values.{
  Text, is_space, is_nil, trim_left, trim_right, trim_space, split_commas, keep_items, split_csv,
}
use lifeline.Config.Values.Arrays.{append_assoc}

abbrev pub HasNoComma : Text → Type 0
HasNoComma [] = Unit
HasNoComma (c ∷ s) = (code c ≢ b',') × HasNoComma s

-- What may stand between two commas: some text without a comma and without spaces around it.
abbrev pub IsItem : Text → Type 0
IsItem s = (is_nil s ≡ false) × (trim_space s ≡ s) × HasNoComma s

abbrev pub AllItems : List Text → Type 0
AllItems [] = Unit
AllItems (x ∷ xs) = IsItem x × AllItems xs

abbrev pub join : List Text → Text
join [] = []
join (x ∷ []) = x
join (x ∷ y ∷ rest) = x ++ (char b',' tt ∷ join (y ∷ rest))

append-nil : {A : Type 0} (xs : List A) → xs ++ [] ≡ xs
append-nil [] = refl
append-nil (x ∷ xs) = ap (◌∷◌ x) (append-nil xs)

split_commas-last : (part s : Text) → HasNoComma s → split_commas part s ≡ (part ++ s) ∷ []
unfolding split_commas
split_commas-last part [] h = ap (λ t. t ∷ []) (sym (append-nil part))
split_commas-last part (c ∷ s) (n, h) =
    ground (arith, n, split_commas-last (part ++ (c ∷ [])) s h, append_assoc part (c ∷ []) s)

split_commas-first :
    (part s t : Text)
    → HasNoComma s
    → split_commas part (s ++ (char b',' tt ∷ t)) ≡ (part ++ s) ∷ split_commas [] t
unfolding split_commas
split_commas-first part [] t h = ap (λ u. u ∷ split_commas [] t) (sym (append-nil part))
split_commas-first part (c ∷ s) t (n, h) =
    ground (arith, n, split_commas-first (part ++ (c ∷ [])) s t h, append_assoc part (c ∷ []) s)

split_commas-join :
    (x : Text) (xs : List Text) → AllItems (x ∷ xs) → split_commas [] (join (x ∷ xs)) ≡ x ∷ xs
split_commas-join x [] ((a, b, n), h) = split_commas-last [] x n
split_commas-join x (y ∷ ys) ((a, b, n), h) =
    split_commas-first [] x (join (y ∷ ys)) n ∙ ap (◌∷◌ x) (split_commas-join y ys h)

keep_items-all : (xs : List Text) → AllItems xs → keep_items xs ≡ xs
unfolding keep_items
keep_items-all [] h = refl
keep_items-all (x ∷ xs) ((a, b, n), h) = rw b (rw a (ap (◌∷◌ x) (keep_items-all xs h)))

-- Trimming.
trim_left_idem : (s : Text) → trim_left (trim_left s) ≡ trim_left s
unfolding trim_left
trim_left_idem [] = refl
trim_left_idem (c ∷ s) = elim (Bool-cases (is_space (code c))) [
  | inl space ↦ rw space (trim_left_idem s)
  | inr other ↦ rw other (rw other refl)
]

trim_right_idem : (s : Text) → trim_right (trim_right s) ≡ trim_right s
unfolding trim_right
trim_right_idem [] = refl
trim_right_idem (c ∷ s) = elim (Bool-cases (is_space (code c) && is_nil (trim_right s))) [
  | inl end ↦ rw end refl
  | inr other ↦ rw other (rw (trim_right_idem s) (rw other refl))
]

left_stop :
    (s : Text)
    → (trim_left s ≡ [])
      ⊎ ((c : Char) × (v : Text) × (is_space (code c) ≡ false) × (trim_left s ≡ c ∷ v))
unfolding trim_left
left_stop [] = inl refl
left_stop (c ∷ s) = elim (Bool-cases (is_space (code c))) [
  | inl space ↦ rw space (left_stop s)
  | inr other ↦ inr (c, s, other, rw other refl)
]

trim_left-trim_right :
    (c : Char) (v : Text)
    → is_space (code c) ≡ false
    → trim_left (trim_right (c ∷ v)) ≡ trim_right (c ∷ v)
unfolding trim_left trim_right
trim_left-trim_right c v h = rw h (rw h refl)

pub trim_space_idem : (s : Text) → trim_space (trim_space s) ≡ trim_space s
unfolding trim_space trim_left trim_right
trim_space_idem s = ap trim_right kept ∙ trim_right_idem (trim_left s)
  where
    kept : trim_left (trim_right (trim_left s)) ≡ trim_right (trim_left s)
    kept = elim (left_stop s) [
      | inl e ↦ cc (e)
      | inr (c, v, h, e) ↦
          ap (λ t. trim_left (trim_right t)) e
          ∙ (trim_left-trim_right c v h ∙ ap trim_right (sym e))
    ]

trim_left-HasNoComma : (s : Text) → HasNoComma s → HasNoComma (trim_left s)
unfolding trim_left
trim_left-HasNoComma [] h = h
trim_left-HasNoComma (c ∷ s) (n, h) = elim (Bool-cases (is_space (code c))) [
  | inl space ↦ rw space (trim_left-HasNoComma s h)
  | inr other ↦ rw other (n, h)
]

trim_right-HasNoComma : (s : Text) → HasNoComma s → HasNoComma (trim_right s)
unfolding trim_right
trim_right-HasNoComma [] h = h
trim_right-HasNoComma (c ∷ s) (n, h) =
    elim (Bool-cases (is_space (code c) && is_nil (trim_right s))) [
      | inl end ↦ rw end tt
      | inr other ↦ rw other (n, trim_right-HasNoComma s h)
    ]

AllFree : List Text → Type 0
AllFree [] = Unit
AllFree (x ∷ xs) = HasNoComma x × AllFree xs

append-HasNoComma :
    (s : Text) (c : Char) → HasNoComma s → code c ≢ b',' → HasNoComma (s ++ (c ∷ []))
append-HasNoComma [] c h n = (n, tt)
append-HasNoComma (d ∷ s) c (m, h) n = (m, append-HasNoComma s c h n)

split_commas-AllFree : (part s : Text) → HasNoComma part → AllFree (split_commas part s)
unfolding split_commas AllFree
split_commas-AllFree part [] h = (h, tt)
split_commas-AllFree part (c ∷ s) h = elim (Bool-cases (code c == b',')) [
  | inl comma ↦ rw comma (h, split_commas-AllFree [] s tt)
  | inr other ↦ rw other (
      split_commas-AllFree (part ++ (c ∷ [])) s
        (append-HasNoComma part c h (ground (arith, other))))
]

trim_space-HasNoComma : (s : Text) → HasNoComma s → HasNoComma (trim_space s)
unfolding trim_space
trim_space-HasNoComma s h = trim_right-HasNoComma (trim_left s) (trim_left-HasNoComma s h)

keep_items-AllItems : (ps : List Text) → AllFree ps → AllItems (keep_items ps)
unfolding keep_items AllFree
keep_items-AllItems [] h = tt
keep_items-AllItems (p ∷ ps) (n, h) = elim (Bool-cases (is_nil (trim_space p))) [
  | inl none_left ↦ rw none_left (keep_items-AllItems ps h)
  | inr some_left ↦
      rw some_left
        ((some_left, trim_space_idem p, trim_space-HasNoComma p n), keep_items-AllItems ps h)
]

-- `SplitCSV` reads back any list of items printed with commas between them, the empty list too, if each
-- item is some text without a comma and without spaces around it.
pub split_csv-join : (xs : List Text) → AllItems xs → split_csv (join xs) ≡ xs
unfolding split_csv keep_items split_commas trim_space trim_left trim_right
split_csv-join [] h = refl
split_csv-join (x ∷ xs) h = ap keep_items (split_commas-join x xs h) ∙ keep_items-all (x ∷ xs) h

-- `SplitCSV` returns its items trimmed, none of them empty or with a comma in it; and printing what it
-- returns with commas and splitting again gives the same items.
pub split_csv-AllItems :
    (s : Text) → AllItems (split_csv s) × (split_csv (join (split_csv s)) ≡ split_csv s)
unfolding split_csv
split_csv-AllItems s =
    let items = keep_items-AllItems (split_commas [] s) (split_commas-AllFree [] s tt) in
    (items, split_csv-join (split_csv s) items)
