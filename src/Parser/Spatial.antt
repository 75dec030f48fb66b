-- ===== src/Parser/Spatial.antt =====
-- pkg/parser/spatial.go: bearings, ranges, altitudes and tracks. A result comes with the scanner
-- after it; bearings are whole degrees, ranges nautical miles, altitudes feet.
pub mod Bearings
use skyeye.Common.{
  ℕ, zero, suc, ◌+◌, ◌*◌, Bool, true, false, List, [], ◌∷◌, Option, none, some, nat_eq,
  if◌then◌else◌, ◌==◌, list_Eq,
}
use skyeye.Common.Text.{Text, codes}
use skyeye.Parser.Scanner.{Language, Scanner, scan, skip_words}

pub data Track : Type 0 where
  unknown_direction north northeast east southeast south southwest west northwest : Track

abbrev pub bullseye_words : List Text
bullseye_words = codes "bullseye" ∷ codes "bulls" ∷ []

abbrev pub braa_words : List Text
braa_words = codes "bra" ∷ codes "brah" ∷ codes "braa" ∷ []

-- The result of a scan, whose failure fails the caller.
abbrev pub after_scan {ℓ} :
    {A : Type ℓ} → Scanner × Bool → (Scanner → Scanner × Option A) → Scanner × Option A
after_scan (s, ok) f = if ok then f s else (s, none)

abbrev pub and_then {ℓ κ} :
    {A : Type ℓ} {B : Type κ}
    → Scanner × Option A
    → (A → Scanner → Scanner × Option B)
    → Scanner × Option B
and_then (s, none) f = (s, none)
and_then (s, some a) f = f a s

unfoldable pub track_of : Text → Track
track_of text =
    if text == codes "north"
    then north
    else if text == codes "northeast"
    then northeast
    else if text == codes "east"
    then east
    else if text == codes "southeast"
    then southeast
    else if text == codes "south"
    then south
    else if text == codes "southwest"
    then southwest
    else if text == codes "west"
    then west
    else if text == codes "northwest"
    then northwest
    else unknown_direction

-- The loop over "track", on the words to come.
unfoldable pub parse_track_from : Text → List Text → Track
parse_track_from text [] = if text == codes "track" then unknown_direction else track_of text
parse_track_from text (w ∷ ws) =
    let rest = parse_track_from w ws in if text == codes "track" then rest else track_of text

unfoldable pub parse_track : Scanner → Track
parse_track s = parse_track_from s.text s.words

-- A bearing being read: its value so far, and the digits that it has.
pub record Reading : Type 0 where
  pub value : ℕ
  pub digits : ℕ

abbrev pub read_digit : Reading → Option ℕ → Reading
read_digit r none = r
read_digit r (some d) = record { value = r.value * 10 + d; digits = suc r.digits }

module _ (language : Language) where
  open language use {parse_int}

  -- The loop over the characters of a token, which stops at the third digit.
  unfoldable pub read_chars : Text → Reading → Reading
  read_chars [] r = r
  read_chars (c ∷ cs) r =
      let r' = read_digit r (parse_int (c ∷ [])) in
      let rest = read_chars cs r' in if nat_eq r'.digits 3 then r' else rest

  -- The loop over the tokens. The end of the words ends the bearing, whatever its digits.
  unfoldable pub parse_bearing_from : Text → List Text → Reading → Scanner × Option ℕ
  parse_bearing_from text [] r =
      let r' = read_chars text r in
      if nat_eq r'.digits 3
      then (record { text = text; words = [] }, some r'.value)
      else (record { text = []; words = [] }, some r'.value)
  parse_bearing_from text (w ∷ ws) r =
      let r' = read_chars text r in
      let rest = parse_bearing_from w ws r' in
      if nat_eq r'.digits 3 then (record { text = text; words = w ∷ ws }, some r'.value) else rest

  unfoldable pub parse_bearing : Scanner → Scanner × Option ℕ
  parse_bearing s = parse_bearing_from s.text s.words (record { value = 0; digits = 0 })

  unfoldable pub parse_natural_number : Scanner → Scanner × Option ℕ
  parse_natural_number s = (s, parse_int s.text)

  unfoldable pub parse_range : Scanner → Scanner × Option ℕ
  parse_range s =
      after_scan (scan s)
        (λ s. after_scan (skip_words language (codes "for" ∷ []) s) parse_natural_number)

  unfoldable pub parse_altitude : Scanner → Scanner × Option ℕ
  parse_altitude s = after_scan (scan s) (λ s.
      after_scan (skip_words language (codes "at" ∷ codes "altitude" ∷ []) s) parse_natural_number)

  unfoldable pub parse_bullseye : Scanner → Scanner × Option (ℕ × ℕ)
  parse_bullseye s =
      after_scan (skip_words language bullseye_words s) (λ s.
        and_then (parse_bearing s) (λ b s. and_then (parse_range s) (λ r s. (s, some (b, r)))))

  -- The loop over "for", on the words to come.
  unfoldable pub skip_for : Text → List Text → Scanner × Bool
  skip_for text [] =
      if text == codes "for"
      then (record { text = []; words = [] }, false)
      else (record { text = text; words = [] }, true)
  skip_for text (w ∷ ws) =
      let rest = skip_for w ws in
      if text == codes "for" then rest else (record { text = text; words = w ∷ ws }, true)

  -- Bearing, range and altitude.
  unfoldable pub parse_bra : Scanner → Scanner × Option (ℕ × ℕ × ℕ)
  parse_bra s = after_scan (skip_words language braa_words s) (λ s.
      and_then (parse_bearing s) (λ b s. after_scan (skip_for s.text s.words) (λ s.
        and_then (parse_range s)
          (λ r s. and_then (parse_altitude s) (λ a s. (s, some (b, r, a)))))))
