-- ===== src/Tacview/Coordinates.antt =====
-- pkg/tacview/types/coordinate.go: the coordinates of an object, read from a transform and printed
-- as one. Floats are the bit patterns of float64s; strconv, fmt and the arithmetic are `Floats`.
-- Lengths are metres and angles degrees, as in the stream.
pub mod Parsing
use skyeye.Common.{
  ℕ, zero, suc, Bool, true, false, not, List, [], ◌∷◌, ◌++◌, Option, none, some, if◌then◌else◌,
  ◌==◌, nat_Eq, list_Eq, insert, ◌>>=◌,
}
use skyeye.Common.Text.{Text}
use skyeye.Trackfiles.{Point}

pub record Floats : Type 0 where
  pub parse_float : Text → Option ℕ
  pub print_float : ℕ → Text
  pub add_float : ℕ → ℕ → ℕ
  pub sub_float : ℕ → ℕ → ℕ

pub record Coordinates : Type 0 where
  pub valid_lon : Bool
  pub valid_lat : Bool
  pub location : Point
  pub altitude : Option ℕ
  pub x : Option ℕ
  pub y : Option ℕ
  pub roll : Option ℕ
  pub pitch : Option ℕ
  pub yaw : Option ℕ
  pub heading : Option ℕ

abbrev pub no_coordinates : Coordinates
no_coordinates = record {
  valid_lon = false;
  valid_lat = false;
  location = record { lon = 0; lat = 0 };
  altitude = none;
  x = none;
  y = none;
  roll = none;
  pitch = none;
  yaw = none;
  heading = none;
}

abbrev pub or_else : Option ℕ → Option ℕ → Option ℕ
or_else none old = old
or_else (some v) old = some v

unfoldable pub update_coordinates : Coordinates → Coordinates → Coordinates
update_coordinates next c = record {
  valid_lon = if next.valid_lon then true else c.valid_lon;
  valid_lat = if next.valid_lat then true else c.valid_lat;
  location = record {
    lon = if next.valid_lon then next.location.lon else c.location.lon;
    lat = if next.valid_lat then next.location.lat else c.location.lat;
  };
  altitude = or_else next.altitude c.altitude;
  x = or_else next.x c.x;
  y = or_else next.y c.y;
  roll = or_else next.roll c.roll;
  pitch = or_else next.pitch c.pitch;
  yaw = or_else next.yaw c.yaw;
  heading = or_else next.heading c.heading;
}

-- strings.Split by a character, which is never empty.
abbrev pub cons_first : ℕ → List Text → List Text
cons_first c [] = (c ∷ []) ∷ []
cons_first c (w ∷ ws) = (c ∷ w) ∷ ws

unfoldable pub split : ℕ → Text → List Text
split sep [] = [] ∷ []
split sep (c ∷ cs) = if c == sep then [] ∷ split sep cs else cons_first c (split sep cs)

pub data Field : Type 0 where
  altitude_field x_field y_field roll_field pitch_field yaw_field heading_field : Field

abbrev pub set_field : Field → ℕ → Coordinates → Coordinates
set_field altitude_field v c = record c { altitude = some v }
set_field x_field v c = record c { x = some v }
set_field y_field v c = record c { y = some v }
set_field roll_field v c = record c { roll = some v }
set_field pitch_field v c = record c { pitch = some v }
set_field yaw_field v c = record c { yaw = some v }
set_field heading_field v c = record c { heading = some v }

-- The map from texts to setters. A text that stands twice keeps the setter that comes last.
unfoldable pub setters : Text → Text → Text → Text → Text → Text → Text → List (Text × Field)
setters alt x y roll pitch yaw heading = insert heading heading_field (
    insert yaw yaw_field (
      insert pitch pitch_field (
        insert roll roll_field
          (insert y y_field (insert x x_field (insert alt altitude_field []))))))

-- The fields by their number: 3, 5, 6 or 9.
unfoldable pub setters_of : List Text → Option (List (Text × Field))
setters_of (lon ∷ lat ∷ alt ∷ []) = some (setters alt [] [] [] [] [] [])
setters_of (lon ∷ lat ∷ alt ∷ x ∷ y ∷ []) = some (setters alt x y [] [] [] [])
setters_of (lon ∷ lat ∷ alt ∷ roll ∷ pitch ∷ yaw ∷ []) = some (setters alt [] [] roll pitch yaw [])
setters_of (lon ∷ lat ∷ alt ∷ roll ∷ pitch ∷ yaw ∷ x ∷ y ∷ heading ∷ []) =
    some (setters alt x y roll pitch yaw heading)
setters_of _ = none

module _ (floats : Floats) where
  open floats use {parse_float, print_float, add_float, sub_float}

  -- A text that is no number has the offset 0. (One out of range, an infinity, is left out.)
  abbrev pub offset : Option ℕ → ℕ
  offset none = 0
  offset (some v) = v

  -- A coordinate that is left out is 0.
  abbrev pub axis : Text → ℕ → ℕ
  axis [] ref = 0
  axis (c ∷ cs) ref = add_float ref (offset (parse_float (c ∷ cs)))

  abbrev pub is_given : Text → Bool
  is_given [] = false
  is_given (c ∷ cs) = true

  unfoldable pub locate : Text → Text → Point → Coordinates → Coordinates
  locate lon lat ref c = record c {
    valid_lon = if is_given lon then true else c.valid_lon;
    valid_lat = if is_given lat then true else c.valid_lat;
    location = record { lon = axis lon ref.lon; lat = axis lat ref.lat };
  }

  -- The loop over the setters; `none` is an error.
  unfoldable pub apply_setters : List (Text × Field) → Coordinates → Option Coordinates
  apply_setters [] c = some c
  apply_setters ((s, field) ∷ rest) c =
      if s == []
      then apply_setters rest c
      else (parse_float s >>= (λ v. apply_setters rest (set_field field v c)))

  -- Too few fields are no error, and change nothing.
  unfoldable pub parse_fields : List Text → Point → Coordinates → Option Coordinates
  parse_fields (lon ∷ lat ∷ alt ∷ more) ref c =
      setters_of (lon ∷ lat ∷ alt ∷ more) >>= (λ m. apply_setters m (locate lon lat ref c))
  parse_fields _ ref c = some c

  unfoldable pub parse : Text → Point → Coordinates → Option Coordinates
  parse transform ref c = parse_fields (split b'|' transform) ref c

  abbrev pub print_option : Option ℕ → Text
  print_option none = []
  print_option (some v) = print_float v

  unfoldable pub transform : Point → Coordinates → Text
  transform ref c =
      (if c.valid_lon then print_float (sub_float c.location.lon ref.lon) else [])
      ++ b'|' ∷ (if c.valid_lat then print_float (sub_float c.location.lat ref.lat) else [])
      ++ b'|' ∷ print_option c.altitude
      ++ b'|' ∷ print_option c.roll
      ++ b'|' ∷ print_option c.pitch
      ++ b'|' ∷ print_option c.yaw
      ++ b'|' ∷ print_option c.x
      ++ b'|' ∷ print_option c.y
      ++ b'|' ∷ print_option c.heading
