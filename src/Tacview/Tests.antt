-- ===== src/Tacview/Tests.antt =====
-- Runs of the Tacview client on small inputs, and the theorems at such inputs.
use skyeye.Common.{
  ◌≡◌, refl, ◌&&◌, true, [], ◌∷◌, none, some, arith, if◌then◌else◌, nat_Eq, list_Eq, list_eq,
  lookup, insert, delete, contains,
}
use skyeye.Common.Text.{codes}
use skyeye.Trackfiles.{Point}
use skyeye.Tacview.Samples.{unary}
use skyeye.Tacview.Coordinates.{
  Coordinates, no_coordinates, parse, parse_fields, setters_of, setters, apply_setters, locate,
  split,
}
use skyeye.Tacview.Coordinates.Parsing.{parse_resets_longitude}
use skyeye.Tacview.Objects.{
  ObjectUpdate, set_properties, set_property, get_property, get_types, get_coordinates,
  update_properties,
}
use skyeye.Tacview.Client.{reset, is_bullseye, update_object}
use skyeye.Tacview.Client.Removals.{updated, update_object_state}

abbrev ref : Point
ref = record { lon = 10; lat = 20 }

-- An object at 100 m, with a position.
abbrev before : Coordinates
before = record no_coordinates {
  valid_lon = true;
  valid_lat = true;
  location = record { lon = 12; lat = 21 };
  altitude = some 5;
}

abbrev level : Coordinates
level = record before {
  location = record { lon = 11; lat = 22 };
  roll = some 4;
  pitch = some 5;
  yaw = some 6;
  x = some 7;
  y = some 8;
  heading = some 3;
}

levelled :
    parse unary (codes "1|11|111|1111|11111|111111|1111111|11111111|111") ref before ≡ some level
unfolding parse parse_fields setters_of setters apply_setters locate split insert list_eq
levelled = refl

abbrev north : Coordinates
north = record before { location = record { lon = 0; lat = 22 }; altitude = some 3 }

northward : parse unary (codes "|11|111") ref before ≡ some north
unfolding parse parse_fields setters_of setters apply_setters locate split insert list_eq
northward = refl

parse_resets_longitude_example : (north.location.lon ≡ 0) × (north.valid_lon ≡ before.valid_lon)
unfolding split
parse_resets_longitude_example =
    parse_resets_longitude unary (codes "|11|111") (codes "11") (codes "111") [] ref before refl
      northward

abbrev removal : ObjectUpdate
removal = record {
  id = 7;
  is_removal = true;
  properties = (codes "Type", codes "Air+FixedWing") ∷ (codes "T", codes "1|1|1") ∷ [];
}

update_object_state_example :
    let r = update_object unary removal reset in
    (lookup 7 r.client.state ≡ (if r.ok && true then none else some (updated unary removal reset)))
    × (r.fades ≡ (if r.ok && true then 7 ∷ [] else []))
unfolding lookup
update_object_state_example =
    update_object_state unary removal reset 7 (λ id o h. absurd (ground arith))

removed : (update_object unary removal reset).fades ≡ 7 ∷ []
unfolding update_object update_properties set_properties set_property get_property get_types
    get_coordinates is_bullseye lookup insert delete contains split list_eq
removed = refl
