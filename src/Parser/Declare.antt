-- ===== src/Parser/Declare.antt =====
-- pkg/parser/declare.go: the arguments of DECLARE. The loop is on fuel: it need not end.
pub mod Termination
use skyeye.Common.{
  ℕ, zero, suc, Bool, true, false, ◌&&◌, List, [], ◌∷◌, Option, none, some, if◌then◌else◌, ◌==◌,
  list_Eq, ◌>>=◌,
}
use skyeye.Common.Text.{Text, codes}
use skyeye.Parser.Scanner.{Language, Scanner, scan, any_similar}
use skyeye.Parser.Spatial.{
  Track, bullseye_words, braa_words, and_then, parse_bearing, parse_range, parse_altitude,
  parse_bullseye, parse_track,
}

-- The location that the loop finds: from the bullseye, if it could be read, or from the caller.
pub data Location : Type 0 where
  from_bullseye : Option (ℕ × ℕ) → Location
  from_caller : ℕ → ℕ → Location

pub record DeclareRequest : Type 0 where
  pub callsign : Text
  pub location : Location
  pub altitude : ℕ
  pub track : Track

-- The value of an altitude that was not read.
abbrev pub or_zero : Option ℕ → ℕ
or_zero none = 0
or_zero (some n) = n

-- How the loop goes on: with another turn, or out of it, or out of the function with a failure.
pub data Turn : Type 0 where
  continue : Scanner → Turn
  break : Scanner → Location → Turn
  fail : Turn

module _ (language : Language) where
  open language use {is_digit}

  unfoldable pub is_numeric : Text → Bool
  is_numeric [] = true
  is_numeric (c ∷ cs) = if is_digit c then is_numeric cs else false

  abbrev pub numeric_turn : Scanner × Option (ℕ × ℕ) → Turn
  numeric_turn (s, bullseye) = break s (from_bullseye bullseye)

  abbrev pub bullseye_turn : Scanner × Option (ℕ × ℕ) → Turn
  bullseye_turn (s, none) = fail
  bullseye_turn (s, some b) = break s (from_bullseye (some b))

  abbrev pub braa_turn : Scanner × Option (ℕ × ℕ) → Turn
  braa_turn (s, none) = fail
  braa_turn (s, some (b, r)) = break s (from_caller b r)

  abbrev pub scan_turn : Scanner × Bool → Turn
  scan_turn (s, ok) = if ok then continue s else fail

  abbrev pub parse_bearing_range : Scanner → Scanner × Option (ℕ × ℕ)
  parse_bearing_range s =
      and_then (parse_bearing language s)
        (λ b s. and_then (parse_range language s) (λ r s. (s, some (b, r))))

  unfoldable pub declare_turn : Scanner → Turn
  declare_turn s =
      if s.text == []
      then continue (scan s).0
      else if is_numeric s.text
      then numeric_turn (parse_bullseye language s)
      else if any_similar language s.text bullseye_words
      then bullseye_turn (parse_bullseye language s)
      else if any_similar language s.text braa_words
      then braa_turn (parse_bearing_range (scan s).0)
      else scan_turn (scan s)

  -- `none`: the loop has not ended after so many turns. `some none`: it failed.
  unfoldable pub declare_loop : ℕ → Scanner → Option (Option (Scanner × Location))
  declare_loop zero s = none
  declare_loop (suc fuel) s = elim (declare_turn s) [
    | continue s' ↦ declare_loop fuel s'
    | break s' location ↦ some (some (s', location))
    | fail ↦ some none
  ]

  abbrev pub with_details : Text → Option (Scanner × Location) → Option DeclareRequest
  with_details callsign none = none
  with_details callsign (some (s, from_bullseye none)) = none
  with_details callsign (some (s, location)) =
      let (s', altitude) = parse_altitude language s in
      some (record {
        callsign = callsign;
        location = location;
        altitude = or_zero altitude;
        track = parse_track s';
      })

  unfoldable pub parse_declare : ℕ → Text → Scanner → Option (Option DeclareRequest)
  parse_declare fuel callsign s = do found ← declare_loop fuel s; some (with_details callsign found)
