-- ===== src/Model/Effects.antt =====
-- `ParamEffect` of internal/model/model.go: a set of effects, as the bits of a byte.
use Prim.Native.Nat.{bit_and, bit_or}
use lifeline.Prelude.{Bool, not, ◌==◌}
use lifeline.Model.Facts.{ParamEffect}

abbrev pub effect_may : ParamEffect
effect_may = 1

abbrev pub effect_must : ParamEffect
effect_must = 2

abbrev pub effect_returns : ParamEffect
effect_returns = 4

abbrev pub effect_opaque : ParamEffect
effect_opaque = 8

-- `Has`, and `Hands`.
unfoldable pub has : ParamEffect → ParamEffect → Bool
has e e2 = bit_and e e2 == e2

unfoldable pub hands : ParamEffect → Bool
hands e = not (bit_and e (bit_or effect_returns effect_opaque) == 0)
