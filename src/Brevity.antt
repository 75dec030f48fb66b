-- ===== src/Brevity.antt =====
-- pkg/brevity: the words of the calls that the parser, the radar and the controller share.
use skyeye.Common.{Bool, true, false}

-- bogeydope.go's ContactCategory
pub data Category : Type 0 where
  aircraft fixed_wing rotary_wing : Category

unfoldable pub category_eq : Category → Category → Bool
category_eq aircraft aircraft = true
category_eq fixed_wing fixed_wing = true
category_eq rotary_wing rotary_wing = true
category_eq _ _ = false
