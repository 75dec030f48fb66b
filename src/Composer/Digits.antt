-- ===== src/Composer/Digits.antt =====
-- pkg/composer/format.go: the digits that are said of a bearing and of a decimal number.
use skyeye.Common.{
  ℕ, ℤ, zero, suc, ◌+◌, ◌/◌, ◌%◌, ◌≡◌, ◌≢◌, ◌≤◌, ◌<◌, refl, ap, ◌∙◌, [], ◌∷◌, ◌++◌, arith, list_eq,
}
use skyeye.Common.Text.{Text}
use skyeye.Composer.{
  pronounce_from, pronounce_int, pronounce_bearing, atoi_from, atoi, pronounce_fraction,
  pronounce_decimal,
}

pronounce_from_digit : (fuel d : ℕ) → d < 10 → pronounce_from (suc fuel) d ≡ (b'0' + d) ∷ []
unfolding pronounce_from
pronounce_from_digit fuel d h = ground (arith, h)

pronounce_from_more :
    (fuel d : ℕ)
    → 10 ≤ d
    → pronounce_from (suc (suc fuel)) d
      ≡ pronounce_from (suc fuel) (d / 10) ++ b' ' ∷ ((b'0' + d % 10) ∷ [])
unfolding pronounce_from
pronounce_from_more fuel d h = ground (arith, h)

-- The digit of a number below ten, as it is written.
abbrev pub digit : ℕ → ℕ
digit d = b'0' + d

pronounce_from_two :
    (fuel d : ℕ)
    → 10 ≤ d
    → d < 100
    → pronounce_from (suc (suc fuel)) d ≡ digit (d / 10) ∷ b' ' ∷ digit (d % 10) ∷ []
pronounce_from_two fuel d more h =
    pronounce_from_more fuel d more
    ∙ ap (λ s. s ++ b' ' ∷ (digit (d % 10) ∷ []))
        (pronounce_from_digit fuel (d / 10) (omega (arith, h)))

pronounce_from_three :
    (fuel d : ℕ)
    → 100 ≤ d
    → d < 1000
    → pronounce_from (suc (suc (suc fuel))) d
      ≡ digit (d / 100) ∷ b' ' ∷ digit (d / 10 % 10) ∷ b' ' ∷ digit (d % 10) ∷ []
pronounce_from_three fuel d more h =
    pronounce_from_more (suc fuel) d (omega (arith, more))
    ∙ ap (λ s. s ++ b' ' ∷ (digit (d % 10) ∷ []))
        (pronounce_from_two fuel (d / 10) (omega (arith, more)) (omega (arith, h)))
    ∙ ap (λ n. digit n ∷ b' ' ∷ digit (d / 10 % 10) ∷ b' ' ∷ digit (d % 10) ∷ []) (omega arith)

-- A bearing of less than a thousand degrees is said as its hundreds, its tens and its ones, each a
-- digit, with a space between each two: 45 is "0 4 5".
pub pronounce_bearing_digits :
    (θ : ℕ)
    → θ < 1000
    → pronounce_bearing θ
      ≡ digit (θ / 100) ∷ b' ' ∷ digit (θ / 10 % 10) ∷ b' ' ∷ digit (θ % 10) ∷ []
unfolding pronounce_bearing pronounce_int
pronounce_bearing_digits zero h = unfold pronounce_from in refl
pronounce_bearing_digits (suc zero) h = unfold pronounce_from in refl
pronounce_bearing_digits (suc (suc e)) h = ground (
  arith,
  h,
  pronounce_from_digit (suc (suc e)) (suc (suc e)),
  pronounce_from_two (suc e) (suc (suc e)),
  pronounce_from_three e (suc (suc e)),
)

-- The zeros in front of the digits behind the point are not said.
pub pronounce_decimal_zero :
    (precision : ℕ) (separator : Text) (integer_part : ℤ) (fraction : Text)
    → fraction ≢ []
    → pronounce_decimal precision separator integer_part (b'0' ∷ fraction)
      ≡ pronounce_decimal precision separator integer_part fraction
unfolding pronounce_decimal pronounce_fraction atoi atoi_from list_eq
pronounce_decimal_zero precision separator integer_part [] ne = absurd (ne refl)
pronounce_decimal_zero precision separator integer_part (c ∷ cs) ne = refl
