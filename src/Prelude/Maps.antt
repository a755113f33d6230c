-- ===== src/Prelude/Maps.antt =====
-- A Go map from block numbers to truth values, as a function: a missing key reads false.
use Prim.Native.Nat.{ℕ, zero, suc, ◌+◌, ◌≤◌, ◌<◌}
use mathlib.Core.Path.{◌≡◌, refl, subst}
use mathlib.Core.Bool.{Bool, true, false}
use mathlib.Core.Logic.{inl, inr}
use native.Mathlib.Omega.{arith}
use lifeline.Prelude.Tests.{==→≡, Bool-cases, ◌==◌, if◌then◌else◌}

-- `seen[k] = true`
abbrev pub mark : ℕ → (ℕ → Bool) → ℕ → Bool
mark k seen j = if k == j then true else seen j

abbrev pub no_marks : ℕ → Bool
no_marks j = false

-- The numbers below `n` that are not marked.
pub unseen : ℕ → (ℕ → Bool) → ℕ
unseen zero seen = 0
unseen (suc n) seen = (if seen n then 0 else 1) + unseen n seen

pub unseen-le : (n : ℕ) (seen : ℕ → Bool) → unseen n seen ≤ n
unfolding unseen
unseen-le zero seen = omega arith
unseen-le (suc n) seen = ground (arith, unseen-le n seen)

pub unseen-mark_out : (n k : ℕ) (seen : ℕ → Bool) → n ≤ k → unseen n (mark k seen) ≡ unseen n seen
unfolding unseen
unseen-mark_out zero k seen h = refl
unseen-mark_out (suc n) k seen h = ground (arith, unseen-mark_out n k seen)

pub unseen-mark :
    (n k : ℕ) (seen : ℕ → Bool)
    → k < n
    → seen k ≡ false
    → suc (unseen n (mark k seen)) ≡ unseen n seen
unfolding unseen
unseen-mark zero k seen h e = elim h [ ]
unseen-mark (suc n) k seen h e = ground (arith, unseen-mark n k seen, unseen-mark_out n k seen)

pub unseen-congr : (n : ℕ) (a b : ℕ → Bool) → ((k : ℕ) → a k ≡ b k) → unseen n a ≡ unseen n b
unfolding unseen
unseen-congr zero a b h = refl
unseen-congr (suc n) a b h = ground (arith, h n, unseen-congr n a b h)

-- `seen[k] = false`
abbrev pub unmark : ℕ → (ℕ → Bool) → ℕ → Bool
unmark k seen j = if k == j then false else seen j

unseen-unmark_out : (n k : ℕ) (seen : ℕ → Bool) → n ≤ k → unseen n (unmark k seen) ≡ unseen n seen
unfolding unseen
unseen-unmark_out zero k seen h = refl
unseen-unmark_out (suc n) k seen h = ground (arith, unseen-unmark_out n k seen)

pub unseen-unmark : (n k : ℕ) (seen : ℕ → Bool) → unseen n (unmark k seen) ≤ suc (unseen n seen)
unfolding unseen
unseen-unmark zero k seen = omega arith
unseen-unmark (suc n) k seen = ground (arith, unseen-unmark n k seen, unseen-unmark_out n k seen)

-- The sum of the values below `n`.
pub sum_below : ℕ → (ℕ → ℕ) → ℕ
sum_below zero f = 0
sum_below (suc n) f = f n + sum_below n f

pub sum_below-le :
    (n : ℕ) (f g : ℕ → ℕ) → ((k : ℕ) → k < n → f k ≤ g k) → sum_below n f ≤ sum_below n g
unfolding sum_below
sum_below-le zero f g h = omega arith
sum_below-le (suc n) f g h =
    omega (arith, h n (omega arith), sum_below-le n f g (λ k l. h k (omega (arith, l))))

pub sum_below-lt :
    (n k : ℕ) (f g : ℕ → ℕ)
    → ((j : ℕ) → j < n → f j ≤ g j)
    → k < n
    → f k < g k
    → sum_below n f < sum_below n g
unfolding sum_below
sum_below-lt zero k f g h l e = absurd (omega (arith, l))
sum_below-lt (suc n) k f g h l e =
    let below : (j : ℕ) → j < n → f j ≤ g j = λ j m. h j (omega (arith, m)) in
    elim (Bool-cases (k == n)) [
      | inl same ↦
          let here : f n < g n = subst (λ j. f j < g j) (==→≡ k n same) e in
          omega (arith, here, sum_below-le n f g below)
      | inr other ↦
          omega (arith, h n (omega arith), sum_below-lt n k f g below (ground (arith, other, l)) e)
    ]

-- `m` times the successor of `n`.
abbrev pub rounds_of : ℕ → ℕ → ℕ
rounds_of zero n = 0
rounds_of (suc m) n = suc n + rounds_of m n

pub sum_below-rounds :
    (n c : ℕ) (f : ℕ → ℕ) → ((k : ℕ) → k < n → f k ≤ suc c) → sum_below n f ≤ rounds_of n c
unfolding sum_below
sum_below-rounds zero c f h = omega arith
sum_below-rounds (suc n) c f h =
    omega (arith, h n (omega arith), sum_below-rounds n c f (λ k l. h k (omega (arith, l))))
