-- ===== src/Frontend/Effects/Bits.antt =====
-- The effects that `paramEffectOf` sets, read back by `Has` and `Hands`.
use lifeline.Prelude.{◌≡◌, arith, Bool, ◌||◌}
use lifeline.Model.Effects.{has, hands, effect_may, effect_must}
use lifeline.Frontend.Effects.{add_effect, effect_of}

pub effect_of-has_must :
    (may must returned escapes in_literal : Bool)
    → has (effect_of may must returned escapes in_literal) effect_must ≡ must
unfolding effect_of add_effect has hands
effect_of-has_must may must returned escapes in_literal = ground arith

pub effect_of-has_may :
    (may must returned escapes in_literal : Bool)
    → has (effect_of may must returned escapes in_literal) effect_may ≡ may
unfolding effect_of add_effect has hands
effect_of-has_may may must returned escapes in_literal = ground arith

pub effect_of-hands :
    (may must returned escapes in_literal : Bool)
    → hands (effect_of may must returned escapes in_literal) ≡ (returned || (escapes || in_literal))
unfolding effect_of add_effect has hands
effect_of-hands may must returned escapes in_literal = ground arith
