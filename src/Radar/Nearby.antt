-- ===== src/Radar/Nearby.antt =====
-- pkg/radar/nearby.go: the groups around a point, nearest first. The bound around the point and the
-- midpoint of two points are paulmach/orb's, and slices.SortFunc is the library's: they are the
-- parameters `Globe` and `Sort`. The bearing, range and aspect of the reply are left out.
pub mod Cover
use skyeye.Common.{
  ℕ, ◌+◌, ◌-◌, ◌*◌, ◌/◌, ◌≤◌, ◌<◌, ◌≡◌, ◌↔◌, Bool, true, false, not, ◌&&◌, ◌||◌, List, [], ◌∷◌,
  ◌++◌, Option, none, some, ltb, leb, if◌then◌else◌, nat_eq, nat_Eq, contains, length, IsOneOf,
}
use skyeye.Coalitions.{Coalition}
use skyeye.Brevity.{Category}
use skyeye.Trackfiles.{Point, Trackfile, last_known}
use skyeye.Radar.Grouping.{Sensors, Group, object_ids, is_match, find_group_for_aircraft}

-- The results -1, 0 and 1 of a comparison.
pub data Comparison : Type 0 where
  before same after : Comparison

-- A meter has `metre` units of length, and a bound is given by its centre and its radius.
pub record Globe : Type 0 where
  pub float_le : ℕ → ℕ → Bool
  pub midpoint : Point → Point → Point
  pub bound_contains : Point → ℕ → Point → Bool
  pub metre : ℕ

-- slices.SortFunc reorders a slice.
pub record Sort : Type 0 where
  pub sort_func : (Group → Group → Comparison) → List Group → List Group
  pub sort_func-IsOneOf :
      (compare : Group → Group → Comparison) (gs : List Group) (g : Group)
      → IsOneOf g (sort_func compare gs) ↔ IsOneOf g gs
  pub length-sort_func :
      (compare : Group → Group → Comparison) (gs : List Group)
      → length (sort_func compare gs) ≡ length gs

-- The zero and the largest float64, math.MaxFloat64.
abbrev pub max_float64 : ℕ
max_float64 = 0x7fef_ffff_ffff_ffff

pub record Area : Type 0 where
  pub interest : Point
  pub min_altitude : ℕ
  pub max_altitude : ℕ
  pub radius : ℕ
  pub coalition : Coalition
  pub filter : Category
  pub excluded_ids : List ℕ

module _ (sensors : Sensors) (globe : Globe) where
  -- The loop of group.point.
  unfoldable pub point_from : Point → List Trackfile → Point
  point_from center [] = center
  point_from center (t ∷ ts) = point_from (globe.midpoint center (last_known t).point) ts

  unfoldable pub point : Group → Point
  point g = point_from (last_known g.first).point g.rest

  unfoldable pub is_in_area : Area → Trackfile → Bool
  is_in_area area t =
      is_match sensors t area.coalition area.filter
      && globe.bound_contains area.interest area.radius (last_known t).point
      && globe.float_le area.min_altitude (last_known t).altitude
      && globe.float_le (last_known t).altitude area.max_altitude

  -- The loop over the contacts, with the IDs that were visited.
  unfoldable pub nearby_from : Area → List Trackfile → List Trackfile → List ℕ → List Group
  nearby_from area values [] visited = []
  nearby_from area values (t ∷ ts) visited =
      let g = find_group_for_aircraft sensors values t in
      let taken = g ∷ nearby_from area values ts (object_ids g ++ visited) in
      let skipped = nearby_from area values ts visited in
      if contains area.excluded_ids t.contact.id
      then skipped
      else if contains visited t.contact.id
      then skipped
      else if is_in_area area t
      then taken
      else skipped

  -- The sign of int(a - b) of two lengths, in whole meters.
  unfoldable pub compare_lengths : ℕ → ℕ → Comparison
  compare_lengths a b =
      if ltb 0 ((b - a) / globe.metre)
      then before
      else if ltb 0 ((a - b) / globe.metre)
      then after
      else same

  unfoldable pub compare_distance : Point → Group → Group → Comparison
  compare_distance interest a b =
      compare_lengths (sensors.distance interest (point a)) (sensors.distance interest (point b))

  unfoldable pub find_nearby_groups : Sort → Area → List Trackfile → List Group
  find_nearby_groups sort area values =
      sort.sort_func (compare_distance area.interest) (nearby_from area values values [])
