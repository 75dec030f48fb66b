-- ===== src/Tacview/Client.antt =====
-- pkg/tacview/client/client.go: the state of the stream and its handlers. Times are nanoseconds, the
-- zero time is 0. What a handler returns is whether it had no error; an error ends the stream.
pub mod Removals
use skyeye.Common.{
  ℕ, ℤ, pos, negsuc, suc, ◌-◌, ◌+◌, Bool, true, false, not, ◌&&◌, ◌||◌, List, [], ◌∷◌, Option, none,
  some, nat_eq, if◌then◌else◌, nat_Eq, list_Eq, lookup, insert, delete, contains, ◌>>=◌, ◌==◌,
}
use skyeye.Common.Text.{Text, codes}
use skyeye.Coalitions.{Coalition, red, blue, neutrals}
use skyeye.Trackfiles.{Point, origin}
use skyeye.Tacview.Coordinates.{Floats, Coordinates}
use skyeye.Tacview.Objects.{
  Object, ObjectUpdate, new_object, get_property, get_types, get_coordinates, update_properties,
}

pub record Client : Type 0 where
  pub reference_time : ℕ
  pub reference_point : Point
  pub cursor_time : ℕ
  pub state : List (ℕ × Object)
  pub bullseyes_idx : List (Coalition × ℕ)

abbrev pub reset : Client
reset = record {
  reference_time = 0;
  reference_point = origin;
  cursor_time = 0;
  state = [];
  bullseyes_idx = [];
}

unfoldable pub property_to_coalition : Text → Coalition
property_to_coalition p =
    if p == codes "Allies" then red else if p == codes "Enemies" then blue else neutrals

unfoldable pub is_aircraft : List Text → Bool
is_aircraft tags = contains tags (codes "FixedWing") || contains tags (codes "Rotorcraft")

unfoldable pub is_bullseye : List Text → Bool
is_bullseye tags = contains tags (codes "Bullseye")

-- time.Time.Add, of a time that is not before the zero time.
abbrev pub add_duration : ℕ → ℤ → ℕ
add_duration t (pos n) = t + n
add_duration t (negsuc n) = t - suc n

-- handleTimeFrame, given the offset that the line was parsed to.
unfoldable pub handle_time_frame : Option ℤ → Client → Client × Bool
handle_time_frame none c = (c, false)
handle_time_frame (some offset) c =
    if nat_eq c.reference_time 0
    then (c, false)
    else (record c { cursor_time = add_duration c.reference_time offset }, true)

-- What a handler leaves: the state, the fades that it sent, and whether it had no error.
pub record Outcome : Type 0 where
  pub client : Client
  pub fades : List ℕ
  pub ok : Bool

abbrev pub with_bullseye : Bool → Option Text → ℕ → Client → Option Client
with_bullseye false property id c = some c
with_bullseye true none id c = none
with_bullseye true (some property) id c =
    some (record c { bullseyes_idx = insert (property_to_coalition property) id c.bullseyes_idx })

abbrev pub failed : Client → Outcome
failed c = record { client = c; fades = []; ok = false }

abbrev pub found_or_new : ℕ → Option Object → Object
found_or_new id none = new_object id
found_or_new id (some o) = o

-- The end of updateObject.
abbrev pub finish : ObjectUpdate → Object → Client → Option Client → Outcome
finish u o c none = failed c
finish u o c (some c') =
    if u.is_removal
    then record {
      client = record c' { state = delete o.id c'.state };
      fades = o.id ∷ [];
      ok = true;
    }
    else record { client = c'; fades = []; ok = true }

abbrev pub finish_typed : ObjectUpdate → Object → Option (List Text) → Client → Outcome
finish_typed u o none c = failed c
finish_typed u o (some tags) c =
    finish u o c (with_bullseye (is_bullseye tags) (get_property (codes "Coalition") o) o.id c)

module _ (floats : Floats) where
  unfoldable pub bullseye : Coalition → Client → Option Point
  bullseye coalition c = do
    id ← lookup coalition c.bullseyes_idx
    object ← lookup id c.state
    coordinates ← get_coordinates floats c.reference_point object
    some (coordinates.location)

  -- The object is stored before anything can fail.
  unfoldable pub update_object : ObjectUpdate → Client → Outcome
  update_object u c =
      let (o, ok) =
        update_properties floats u c.reference_point (found_or_new u.id (lookup u.id c.state)) in
      let c' = record c { state = insert u.id o c.state } in
      if ok then finish_typed u o (get_types o) c' else failed c'
