-- ===== src/Tacview/Objects.antt =====
-- pkg/tacview/types/object.go: an object's properties, and its updates.
use skyeye.Common.{
  ℕ, Bool, true, false, List, [], ◌∷◌, Option, none, some, if◌then◌else◌, ◌==◌, list_Eq, lookup,
  insert, ◌>>=◌,
}
use skyeye.Common.Text.{Text, codes}
use skyeye.Trackfiles.{Point}
use skyeye.Tacview.Coordinates.{Floats, Coordinates, no_coordinates, parse, transform, split}

abbrev pub Properties : Type 0
Properties = List (Text × Text)

pub record Object : Type 0 where
  pub id : ℕ
  pub properties : Properties

pub record ObjectUpdate : Type 0 where
  pub id : ℕ
  pub is_removal : Bool
  pub properties : Properties

abbrev pub new_object : ℕ → Object
new_object id = record { id = id; properties = [] }

abbrev pub transform_key : Text
transform_key = codes "T"

unfoldable pub set_property : Text → Text → Object → Object
set_property p v o = record o { properties = insert p v o.properties }

unfoldable pub get_property : Text → Object → Option Text
get_property p o = lookup p o.properties

unfoldable pub get_types : Object → Option (List Text)
get_types o = get_property (codes "Type") o >>= (λ v. some (split b'+' v))

-- The loop over the update's properties: the transform is set aside.
unfoldable pub set_properties : Properties → Object → Object
set_properties [] o = o
set_properties ((k, v) ∷ rest) o =
    set_properties rest (if k == transform_key then o else set_property k v o)

abbrev pub new_transform : Option Text → Text
new_transform none = []
new_transform (some v) = v

module _ (floats : Floats) where
  unfoldable pub get_coordinates : Point → Object → Option Coordinates
  get_coordinates ref o = get_property transform_key o >>= (λ v. parse floats v ref no_coordinates)

  abbrev pub set_transform : Point → Option Coordinates → Object → Object × Bool
  set_transform ref none o = (o, false)
  set_transform ref (some c) o = (set_property transform_key (transform floats ref c) o, true)

  abbrev pub move : Text → Point → Option Coordinates → Object → Object × Bool
  move t ref none o = (set_property transform_key t o, true)
  move t ref (some c) o = set_transform ref (parse floats t ref c) o

  -- Object.Update, with whether it had no error; an error leaves the other properties set.
  unfoldable pub update_properties : ObjectUpdate → Point → Object → Object × Bool
  update_properties u ref o =
      let o' = set_properties u.properties o in
      let t = new_transform (lookup transform_key u.properties) in
      if t == [] then (o', true) else move t ref (get_coordinates ref o') o'
