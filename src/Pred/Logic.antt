-- ===== src/Pred/Logic.antt =====
-- The laws of the three-valued logic of libzwerg/pred_result.hh.
use dwgrep.Base.{◌≡◌, refl}
use dwgrep.Pred.{PredResult, no, yes, fail, negate, both, either}

-- Negation is its own inverse and exchanges && and ||, also where a side fails.
pub negate_laws :
    (a b : PredResult)
    → (negate (negate a) ≡ a)
      × (negate (both a b) ≡ either (negate a) (negate b))
      × (negate (either a b) ≡ both (negate a) (negate b))
negate_laws no no = (refl, refl, refl)
negate_laws no yes = (refl, refl, refl)
negate_laws no fail = (refl, refl, refl)
negate_laws yes no = (refl, refl, refl)
negate_laws yes yes = (refl, refl, refl)
negate_laws yes fail = (refl, refl, refl)
negate_laws fail no = (refl, refl, refl)
negate_laws fail yes = (refl, refl, refl)
negate_laws fail fail = (refl, refl, refl)
