-- ===== src/Radar/Picture.antt =====
-- pkg/radar/picture.go: the groups of a picture and their order by threat. Where the source divides
-- float64s, the model compares exact fractions; 0 / 0, which is not a number, is none, and no
-- comparison with it holds.
pub mod Order
pub mod Count
use skyeye.Common.{
  ℕ, suc, zero, ◌+◌, ◌-◌, ◌*◌, ◌<◌, Bool, true, false, not, ◌&&◌, List, [], ◌∷◌, Option, none, some,
  ltb, if◌then◌else◌, length, take, nat_eq,
}
use skyeye.Coalitions.{Coalition}
use skyeye.Brevity.{Category, category_eq, rotary_wing}
use skyeye.Trackfiles.{Point, Trackfile, is_zero}
use skyeye.Radar.Grouping.{Sensors, Group, category}
use skyeye.Radar.Nearby.{
  Globe, Sort, Comparison, before, same, after, Area, max_float64, point, find_nearby_groups,
}
use skyeye.Radar.Threats.{group_threat_radius, is_fighter}

-- What compareThreat looks at in a group; the altitude is that of its highest stack.
pub record Standing : Type 0 where
  pub is_helo : Bool
  pub is_fighter : Bool
  pub distance : ℕ
  pub radius : ℕ
  pub altitude : ℕ

-- The numerator of weightedDistance, over the radius.
abbrev pub weight : Standing → ℕ
weight s = if ltb s.radius s.distance then s.radius * s.radius else s.distance * s.distance

abbrev pub has_weight : Standing → Bool
has_weight s = not (nat_eq s.radius 0)

-- The distance between two numbers.
abbrev pub gap : ℕ → ℕ → ℕ
gap a b = (a - b) + (b - a)

abbrev pub is_threat : Standing → Bool
is_threat s = ltb s.distance s.radius

module _ (nautical_mile : ℕ) where
  -- Weighted distances that are more than three miles apart.
  unfoldable pub is_weight_apart : Standing → Standing → Bool
  is_weight_apart a b =
      has_weight a
      && has_weight b
      && ltb (3 * nautical_mile * (a.radius * b.radius))
          (gap (weight a * b.radius) (weight b * a.radius))

  unfoldable pub compare_weight : Standing → Standing → Comparison
  compare_weight a b = if ltb (weight a * b.radius) (weight b * a.radius) then before else after

  -- Absolute distances, and then altitudes.
  unfoldable pub compare_place : Standing → Standing → Comparison
  compare_place a b =
      if ltb (3 * nautical_mile) (gap a.distance b.distance)
      then if ltb a.distance b.distance then before else after
      else if ltb b.altitude a.altitude
      then before
      else if ltb a.altitude b.altitude
      then after
      else same

  unfoldable pub compare_distances : Standing → Standing → Comparison
  compare_distances a b = if is_weight_apart a b then compare_weight a b else compare_place a b

  unfoldable pub compare_standing : Standing → Standing → Comparison
  compare_standing a b =
      if not a.is_helo && b.is_helo
      then before
      else if a.is_helo && not b.is_helo
      then after
      else if is_threat a && not (is_threat b)
      then before
      else if not (is_threat a) && is_threat b
      then after
      else if is_threat a && is_threat b && (a.is_fighter && not b.is_fighter)
      then before
      else if is_threat a && is_threat b && (not a.is_fighter && b.is_fighter)
      then after
      else compare_distances a b

-- The centre of a picture: the bullseye, until a centre is known.
unfoldable pub picture_origin : Point → Point → Point
picture_origin center bullseye = if is_zero center then bullseye else center

unfoldable pub picture_area : Point → ℕ → Coalition → Category → Area
picture_area origin radius coalition filter = record {
  interest = origin;
  min_altitude = 0;
  max_altitude = max_float64;
  radius = radius;
  coalition = coalition;
  filter = filter;
  excluded_ids = [];
}

module _ (sensors : Sensors) (globe : Globe) (altitude : Group → ℕ) where
  unfoldable pub standing : Point → Group → Standing
  standing center g = record {
    is_helo = category_eq (category sensors g) rotary_wing;
    is_fighter = is_fighter sensors g;
    distance = sensors.distance center (point sensors globe g);
    radius = group_threat_radius sensors g;
    altitude = altitude g;
  }

  unfoldable pub compare_threat : Point → Group → Group → Comparison
  compare_threat center a b =
      compare_standing sensors.nautical_mile (standing center a) (standing center b)

  -- The number of groups, and the first three.
  unfoldable pub get_picture :
      Sort → Point → Point → ℕ → Coalition → Category → List Trackfile → ℕ × List Group
  get_picture sort center bullseye radius coalition filter values =
      let area = picture_area (picture_origin center bullseye) radius coalition filter in
      let groups =
        sort.sort_func (compare_threat center)
          (find_nearby_groups sensors globe sort area values) in
      (length groups, take 3 groups)
