-- ===== src/Prelude/Logic.antt =====
-- Boolean tests and the propositions that they decide.
use Prim.Native.String.{String}
use mathlib.Core.Path.{◌≡◌, refl, subst}
use mathlib.Core.Logic.{◌⊎◌, ◌↔◌, inl, inr}
use mathlib.Core.Bool.{Bool, true, false, ◌&&◌, ◌||◌}
use lifeline.Prelude.Tests.{str_eq}
use lifeline.Prelude.Order.{str_eq→≡, str_eq_refl}

pub or_iff :
    {P Q : Type 0} (a b : Bool) → ((a ≡ true) ↔ P) → ((b ≡ true) ↔ Q) → ((a || b) ≡ true) ↔ (P ⊎ Q)
or_iff true b p q = (λ h. inl (p.0 refl), λ h. refl)
or_iff false b p q = (λ h. inr (q.0 h), λ h. elim h [ inl x ↦ absurd (cc (p.1 x)) | inr y ↦ q.1 y ])

pub and_iff :
    {P Q : Type 0} (a b : Bool) → ((a ≡ true) ↔ P) → ((b ≡ true) ↔ Q) → ((a && b) ≡ true) ↔ (P × Q)
and_iff true b p q = (λ h. (p.0 refl, q.0 h), λ (x, y). q.1 y)
and_iff false b p q = (λ h. absurd (cc), λ (x, y). absurd (cc (p.1 x)))

pub str_eq_iff : (s t : String) → (str_eq s t ≡ true) ↔ (s ≡ t)
str_eq_iff s t = (str_eq→≡ s t, λ e. subst (λ u. str_eq s u ≡ true) e (str_eq_refl s))

pub or_true : (a b : Bool) → (a || b) ≡ true → (a ≡ true) ⊎ (b ≡ true)
or_true a b = (or_iff a b (λ h. h, λ h. h) (λ h. h, λ h. h)).0

pub false_iff : {P : Type 0} (b : Bool) → ((b ≡ true) ↔ P) → (b ≡ false) ↔ (P → ⊥)
false_iff true h = (λ e. absurd (cc), λ p. absurd (p (h.0 refl)))
false_iff false h = (λ e p. absurd (cc (h.1 p)), λ p. refl)
