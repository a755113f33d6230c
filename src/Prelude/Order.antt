-- ===== src/Prelude/Order.antt =====
-- Equality and order of texts: the tests are what they say, and the order is strict and total.
use Prim.Native.Nat.{ℕ, ◌<◌, Ordering, compare as compare_ℕ}
use Prim.Native.Char.{Char, code}
use Prim.Native.String.compare as compare_lem
use Prim.Native.String.{String, [], ◌∷◌, compare, then as and_then}
use mathlib.Core.Path.{◌≡◌, refl, sym, ap, subst, ◌∙◌}
use mathlib.Core.Logic.{◌≢◌, ◌↔◌, ◌⊎◌}
use mathlib.Core.Bool.{true, false}
use native.Mathlib.Omega.{arith}
use text.Mathlib.Text.{is_lt}
use text.Mathlib.TextEquality.{eq_iff, path_by_compare}
use lifeline.Prelude.Tests.{str_eq, str_lt}

pub str_eq→≡ : (s t : String) → str_eq s t ≡ true → s ≡ t
str_eq→≡ s t h = (eq_iff s t).0 h

pub str_eq_refl : (s : String) → str_eq s s ≡ true
str_eq_refl s = (eq_iff s s).1 refl

pub str_eq→≢ : (s t : String) → str_eq s t ≡ false → s ≢ t
str_eq→≢ s t h e = absurd (cc (h, (eq_iff s t).1 e))

-- The answer of a comparison read from the other side.
abbrev flip : Ordering → Ordering
flip Ordering.lt = Ordering.gt
flip Ordering.eq = Ordering.eq
flip Ordering.gt = Ordering.lt

compare_number-flip : (m n : ℕ) → compare_ℕ m n ≡ flip (compare_ℕ n m)
compare_number-flip m n = ground arith

flip-then : (o p : Ordering) → flip (and_then o p) ≡ and_then (flip o) (flip p)
flip-then Ordering.lt p = refl
flip-then Ordering.eq p = refl
flip-then Ordering.gt p = refl

compare-flip : (s t : String) → compare s t ≡ flip (compare t s)
compare-flip [] [] = compare_lem.nil-nil ∙ sym (ap flip compare_lem.nil-nil)
compare-flip [] (d ∷ t) = compare_lem.nil-cons d t ∙ sym (ap flip (compare_lem.cons-nil d t))
compare-flip (c ∷ s) [] = compare_lem.cons-nil c s ∙ sym (ap flip (compare_lem.nil-cons c s))
compare-flip (c ∷ s) (d ∷ t) =
    compare_lem.cons-cons c d s t
    ∙ (ap (λ o. and_then o (compare s t)) (compare_number-flip (code c) (code d))
        ∙ (ap (and_then (flip (compare_ℕ (code d) (code c)))) (compare-flip s t)
            ∙ (sym (flip-then (compare_ℕ (code d) (code c)) (compare t s))
                ∙ sym (ap flip (compare_lem.cons-cons d c t s)))))

not_lt-flip : (o : Ordering) → is_lt (flip o) ≡ true → is_lt o ≡ false
not_lt-flip Ordering.lt h = absurd (cc)
not_lt-flip Ordering.eq h = refl
not_lt-flip Ordering.gt h = refl

pub str_lt_asymm : (s t : String) → str_lt s t ≡ true → str_lt t s ≡ false
str_lt_asymm s t h = not_lt-flip (compare t s) (ap is_lt (sym (compare-flip s t)) ∙ h)

not_lt_and_flip : (o : Ordering) → is_lt o ≡ false → is_lt (flip o) ≡ false → o ≡ Ordering.eq
not_lt_and_flip Ordering.lt h k = absurd (cc)
not_lt_and_flip Ordering.eq h k = refl
not_lt_and_flip Ordering.gt h k = absurd (cc)

pub str_lt_connex : (s t : String) → str_lt s t ≡ false → str_lt t s ≡ false → s ≡ t
str_lt_connex s t h k =
    path_by_compare s t (not_lt_and_flip (compare s t) h (ap is_lt (sym (compare-flip t s)) ∙ k))

lt_then :
    (m n : ℕ) (o : Ordering)
    → (is_lt (and_then (compare_ℕ m n) o) ≡ true) ↔ ((m < n) ⊎ ((m ≡ n) × (is_lt o ≡ true)))
lt_then m n o = ground arith

-- The order of two texts that are not empty.
str_lt-cons :
    (c d : Char) (s t : String)
    → (str_lt (c ∷ s) (d ∷ t) ≡ true)
      ↔ ((code c < code d) ⊎ ((code c ≡ code d) × (str_lt s t ≡ true)))
str_lt-cons c d s t =
    subst (λ o. (is_lt o ≡ true) ↔ ((code c < code d) ⊎ ((code c ≡ code d) × (str_lt s t ≡ true))))
      (sym (compare_lem.cons-cons c d s t)) (lt_then (code c) (code d) (compare s t))

str_lt-nil : (s : String) → str_lt s [] ≡ false
str_lt-nil [] = ap is_lt compare_lem.nil-nil
str_lt-nil (c ∷ s) = ap is_lt (compare_lem.cons-nil c s)

pub str_lt_trans : (s t u : String) → str_lt s t ≡ true → str_lt t u ≡ true → str_lt s u ≡ true
str_lt_trans s [] u h k = absurd (cc (h, str_lt-nil s))
str_lt_trans s (d ∷ t) [] h k = absurd (cc (k, str_lt-nil (d ∷ t)))
str_lt_trans [] (d ∷ t) (e ∷ u) h k = ap is_lt (compare_lem.nil-cons e u)
str_lt_trans (c ∷ s) (d ∷ t) (e ∷ u) h k =
    (str_lt-cons c e s u).1
      (ground (arith, (str_lt-cons c d s t).0 h, (str_lt-cons d e t u).0 k, str_lt_trans s t u))
