-- ===== src/Composer.antt =====
-- pkg/composer/format.go: numbers as the controller says them. A Go int is an integer whose negation
-- does not overflow. The integer part of a float64 and the digits that fmt prints behind its point
-- are arguments.
pub mod Digits
mod Tests
use skyeye.Common.{
  ℕ, ℤ, pos, negsuc, zero, suc, ◌+◌, ◌-◌, ◌*◌, ◌/◌, ◌%◌, Bool, true, false, ◌&&◌, List, [], ◌∷◌,
  ◌++◌, Option, none, some, ltb, leb, if◌then◌else◌, ◌==◌, list_Eq, replicate, ◌>>=◌,
}
use skyeye.Common.Text.{Text, codes}

-- The calls on the digits of a number. They go as deep as the number has digits.
unfoldable pub pronounce_from : ℕ → ℕ → Text
pronounce_from zero d = []
pronounce_from (suc fuel) d = elim (leb 10 d) [
  | true ↦ pronounce_from fuel (d / 10) ++ b' ' ∷ pronounce_from fuel (d % 10)
  | false ↦ (b'0' + d) ∷ []
]

abbrev pub pronounce_digits : ℕ → Text
pronounce_digits d = pronounce_from (suc d) d

unfoldable pub pronounce_int : ℤ → Text
pronounce_int (pos d) = pronounce_digits d
pronounce_int (negsuc n) = codes "minus " ++ pronounce_digits (suc n)

-- The bearing as its rounded degrees.
unfoldable pub pronounce_bearing : ℕ → Text
pronounce_bearing θ =
    let s = pronounce_int (pos θ) in
    let s = if ltb θ 10 then codes "0 " ++ s else s in if ltb θ 100 then codes "0 " ++ s else s

-- strconv.Atoi, of digits.
unfoldable pub atoi_from : ℕ → Text → Option ℕ
atoi_from n [] = some n
atoi_from n (c ∷ cs) =
    let rest = atoi_from (n * 10 + (c - b'0')) cs in if leb b'0' c && leb c b'9' then rest else none

unfoldable pub atoi : Text → Option ℕ
atoi [] = none
atoi (c ∷ cs) = atoi_from 0 (c ∷ cs)

-- `none` is the panic.
unfoldable pub pronounce_fraction : ℤ → Text → Text → Option Text
pronounce_fraction integer_part separator [] = some (pronounce_int integer_part)
pronounce_fraction integer_part separator (c ∷ fraction) = do
  n ← atoi (c ∷ fraction)
  some (pronounce_int integer_part ++ b' ' ∷ (separator ++ b' ' ∷ pronounce_int (pos n)))

unfoldable pub pronounce_decimal : ℕ → Text → ℤ → Text → Option Text
pronounce_decimal precision separator integer_part fraction =
    pronounce_fraction integer_part (if separator == [] then codes "point" else separator)
      (if fraction == [] then replicate precision b'0' else fraction)
