-- ===== src/Composer/Tests.antt =====
-- Numbers as they are said.
use skyeye.Common.{pos, negsuc, ◌≡◌, refl, [], ◌∷◌, some, arith, list_eq}
use skyeye.Common.Text.{codes}
use skyeye.Composer.{
  pronounce_from, pronounce_int, pronounce_bearing, atoi_from, atoi, pronounce_fraction,
  pronounce_decimal,
}
use skyeye.Composer.Digits.{digit, pronounce_bearing_digits, pronounce_decimal_zero}

said : pronounce_int (pos 251) ≡ codes "2 5 1"
unfolding pronounce_int pronounce_from
said = refl

below_zero : pronounce_int (negsuc 11) ≡ codes "minus 1 2"
unfolding pronounce_int pronounce_from
below_zero = refl

north_east : pronounce_bearing 45 ≡ codes "0 4 5"
unfolding pronounce_bearing pronounce_int pronounce_from
north_east = refl

pronounce_bearing_digits_example :
    pronounce_bearing 245 ≡ digit 2 ∷ b' ' ∷ digit 4 ∷ b' ' ∷ digit 5 ∷ []
pronounce_bearing_digits_example = pronounce_bearing_digits 245 (omega arith)

-- 127.025 MHz is said like 127.25 MHz.
lost_zero : pronounce_decimal 3 [] (pos 127) (codes "025") ≡ some (codes "1 2 7 point 2 5")
unfolding pronounce_decimal pronounce_fraction pronounce_int pronounce_from atoi atoi_from list_eq
lost_zero = refl

pronounce_decimal_zero_example :
    pronounce_decimal 3 [] (pos 127) (codes "025") ≡ pronounce_decimal 3 [] (pos 127) (codes "25")
pronounce_decimal_zero_example =
    pronounce_decimal_zero 3 [] (pos 127) (codes "25") (λ e. ground (arith, e))
