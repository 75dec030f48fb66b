-- ===== src/Tacview/Lines.antt =====
-- pkg/tacview/types/metadata.go: the lines of the stream. What the standard library does for them
-- beyond strings is `Formats`: the spaces, the times and the arithmetic on floats.
pub mod Printing
use skyeye.Common.{
  ℕ, ℤ, pos, negsuc, suc, ◌+◌, ◌-◌, ◌*◌, ◌^◌, Bool, true, false, ◌&&◌, List, [], ◌∷◌, Option, none,
  some, ltb, leb, if◌then◌else◌, ◌==◌, nat_Eq, list_Eq, insert, ◌>>=◌,
}
use skyeye.Common.Text.{Text, codes}
use skyeye.Parser.Scanner.{Language}
use skyeye.Parser.Normalize.{replace_all, trim_space}
use skyeye.Tacview.Coordinates.{Floats, split}
use skyeye.Tacview.Objects.{ObjectUpdate, Properties}

-- `milliseconds` is time.Duration(seconds*1000), `parse_time` time.Parse(time.RFC3339, …) as
-- nanoseconds, `print_id` the format %d, and `angle` the number of radians in some degrees.
pub record Formats : Type 0 where
  pub floats : Floats
  pub language : Language
  pub milliseconds : ℕ → ℤ
  pub parse_time : Text → Option ℕ
  pub print_id : ℕ → Text
  pub angle : ℕ → ℕ

-- strings.Cut by a character; `none` if it is not found.
unfoldable pub cut : ℕ → Text → Text × Option Text
cut sep [] = ([], none)
cut sep (c ∷ cs) =
    let (before, after) = cut sep cs in if c == sep then ([], some cs) else (c ∷ before, after)

unfoldable pub hex_digit : ℕ → Option ℕ
hex_digit c =
    if leb b'0' c && leb c b'9'
    then some (c - b'0')
    else if leb b'a' c && leb c b'f'
    then some (c - b'a' + 10)
    else if leb b'A' c && leb c b'F'
    then some (c - b'A' + 10)
    else none

-- strconv.ParseUint(…, 16, 64)
unfoldable pub parse_digits : ℕ → Text → Option ℕ
parse_digits n [] = some n
parse_digits n (c ∷ cs) = do
  d ← hex_digit c
  let rest = parse_digits (n * 16 + d) cs
  if ltb (n * 16 + d) (2 ^ 64) then rest else none

unfoldable pub parse_uint : Text → Option ℕ
parse_uint [] = none
parse_uint (c ∷ cs) = parse_digits 0 (c ∷ cs)

unfoldable pub parse_id : Text → Option ℕ
parse_id s = do id ← parse_uint s; if ltb (2 ^ 63 - 1) id then none else some id

abbrev pub escaped_comma : Text
escaped_comma = codes "\\,"

abbrev pub text_or_empty : Option Text → Text
text_or_empty none = []
text_or_empty (some s) = s

-- A duration of time.Millisecond each.
abbrev pub nanoseconds : ℤ → ℤ
nanoseconds (pos n) = pos (n * 1000000)
nanoseconds (negsuc n) = negsuc (suc n * 1000000 - 1)

module _ (formats : Formats) where
  open formats use {floats, language, milliseconds}

  unfoldable pub parse_time_frame : Text → Option ℤ
  parse_time_frame [] = none
  parse_time_frame (c ∷ cs) =
      if c == b'#'
      then (floats.parse_float cs >>= (λ seconds. some (nanoseconds (milliseconds seconds))))
      else none

  -- The loop over the properties. A key that stands twice has the value that comes last.
  unfoldable pub parse_each : List Text → Properties → Option Properties
  parse_each [] ps = some ps
  parse_each (prop ∷ props) ps = do
    value ← (cut b'=' prop).1
    parse_each props (insert (cut b'=' prop).0 (trim_space language value) ps)

  -- An escaped comma is read as a question mark.
  unfoldable pub parse_properties : Text → Option Properties
  parse_properties [] = some []
  parse_properties (c ∷ cs) =
      parse_each (split b',' (replace_all escaped_comma (codes "?") (c ∷ cs))) []

  unfoldable pub parse_unsigned_update : Bool → Text → Option ObjectUpdate
  parse_unsigned_update is_removal line = do
    id ← parse_id (cut b',' line).0
    properties ← parse_properties (text_or_empty (cut b',' line).1)
    some (record { id = id; is_removal = is_removal; properties = properties })

  unfoldable pub parse_object_update : Text → Option ObjectUpdate
  parse_object_update [] = parse_unsigned_update false []
  parse_object_update (c ∷ cs) =
      if c == b'-' then parse_unsigned_update true cs else parse_unsigned_update false (c ∷ cs)
