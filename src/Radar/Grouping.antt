-- ===== src/Radar/Grouping.antt =====
-- pkg/radar/grouping.go and group.go: the group of a contact is its transitive neighbourhood. The
-- encyclopedia, the speed filter (a float64 computation) and the distance on the globe (of
-- paulmach/orb) are the parameter `Sensors`; unit.NauticalMile scales the spread of five miles.
pub mod Members
pub mod Growth
pub mod Closure
use skyeye.Common.{
  ℕ, zero, suc, ◌+◌, ◌*◌, ◌<◌, ◌≡◌, Bool, true, false, not, ◌&&◌, ◌||◌, List, [], ◌∷◌, ◌++◌, Option,
  none, some, nat_eq, ltb, if◌then◌else◌, ◌==◌, nat_Eq, map, length, contains,
}
use skyeye.Common.Text.{Text}
use skyeye.Coalitions.{Coalition}
use skyeye.Brevity.{Category, category_eq, aircraft, fixed_wing, rotary_wing}
use skyeye.Encyclopedia.Airframes.{Aircraft, Tag, fighter, attack, unarmed, has_tag, category_of}
use skyeye.Trackfiles.{Point, Trackfile, last_known, is_zero, is_last_known_point_zero}

-- Distances and lengths are whole numbers of a unit of which a nautical mile has `nautical_mile`.
pub record Sensors : Type 0 where
  pub get_aircraft_data : Text → Option Aircraft
  pub is_above_speed_filter : Trackfile → Bool
  pub distance : Point → Point → ℕ
  pub nautical_mile : ℕ

-- A group has a first contact.
pub record Group : Type 0 where
  pub first : Trackfile
  pub rest : List Trackfile

abbrev pub contacts : Group → List Trackfile
contacts g = g.first ∷ g.rest

abbrev pub id_of : Trackfile → ℕ
id_of t = t.contact.id

-- ObjectIDs; the order, by number in the source, is not used by its callers.
unfoldable pub object_ids : Group → List ℕ
object_ids g = map id_of (contacts g)

abbrev pub append_contact : Trackfile → Group → Group
append_contact t g = record g { rest = g.rest ++ t ∷ [] }

module _ (sensors : Sensors) where
  open sensors use {get_aircraft_data, is_above_speed_filter, distance, nautical_mile}

  unfoldable pub category : Group → Category
  category g = elim (get_aircraft_data g.first.contact.acmi_name) [
    | none ↦ fixed_wing
    | some known ↦ category_of known
  ]

  unfoldable pub is_valid_track : Trackfile → Bool
  is_valid_track t = not (is_zero (last_known t).point) && is_above_speed_filter t

  unfoldable pub is_match : Trackfile → Coalition → Category → Bool
  is_match t coalition filter =
      if not (nat_eq t.contact.coalition coalition)
      then false
      else if not (is_valid_track t)
      then false
      else elim (get_aircraft_data t.contact.acmi_name) [
        | none ↦ true
        | some known ↦ category_eq (category_of known) filter || category_eq filter aircraft
      ]

  -- The tag to share: the first of three, or the zero value, which is none of them.
  unfoldable pub sub_category : Trackfile → Option Tag
  sub_category t = elim (get_aircraft_data t.contact.acmi_name) [
    | none ↦ none
    | some known ↦
        if has_tag known fighter
        then some fighter
        else if has_tag known attack
        then some attack
        else if has_tag known unarmed
        then some unarmed
        else none
  ]

  unfoldable pub has_similar_tags : Trackfile → Trackfile → Bool
  has_similar_tags this other = elim (sub_category this) [
    | none ↦ true
    | some tag ↦ elim (get_aircraft_data other.contact.acmi_name) [
      | none ↦ false
      | some known ↦ has_tag known tag
    ]
  ]

  unfoldable pub is_within_spread : Trackfile → Trackfile → Bool
  is_within_spread this other =
      ltb (distance (last_known other).point (last_known this).point) (5 * nautical_mile)

  -- The checks of the loop on a contact that is not in the group yet.
  unfoldable pub is_neighbour : Category → Trackfile → Trackfile → Bool
  is_neighbour filter this other =
      is_match other this.contact.coalition filter
      && has_similar_tags this other
      && is_within_spread this other

  -- The loop over the contacts of the database; `rec` is the recursive call.
  unfoldable pub add_loop : (Trackfile → Group → Group) → Trackfile → List Trackfile → Group → Group
  add_loop rec this [] g = g
  add_loop rec this (other ∷ others) g =
      let g' =
        if contains (object_ids g) other.contact.id
        then g
        else if is_neighbour (category g) this other
        then rec other (append_contact other g)
        else g in
      add_loop rec this others g'

  -- The recursion, as deep as the fuel.
  unfoldable pub add_nearby_aircraft : ℕ → List Trackfile → Trackfile → Group → Group
  add_nearby_aircraft zero values this g = g
  add_nearby_aircraft (suc fuel) values this g =
      add_loop (add_nearby_aircraft fuel values) this values g

  -- One more than the number of contacts is fuel enough.
  unfoldable pub find_group_for_aircraft : List Trackfile → Trackfile → Group
  find_group_for_aircraft values t =
      let g : Group = record { first = t; rest = [] } in
      if is_last_known_point_zero t then g else add_nearby_aircraft (suc (length values)) values t g
