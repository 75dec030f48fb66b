-- ===== src/Radar/Nearest.antt =====
-- pkg/radar/nearest.go and id.go: the nearest contact, and the contact in a sector. Altitudes are the
-- bit patterns of float64s, whose comparison is the argument `float_le`; the sector's polygon and its
-- test (of paulmach/orb) are the predicate `in_sector`. The geometry of the reply is left out.
pub mod Least
pub mod Sector
use skyeye.Common.{
  ℕ, ◌*◌, Bool, true, false, not, ◌&&◌, List, [], ◌∷◌, Option, none, some, ltb, if◌then◌else◌,
  ◌>>=◌,
}
use skyeye.Common.Text.{Text}
use skyeye.Coalitions.{Coalition}
use skyeye.Brevity.{Category}
use skyeye.Trackfiles.{Point, Trackfile, last_known, is_last_known_point_zero}
use skyeye.Radar.Database.{Database, Names, get_by_id, get_by_callsign_and_coalition}
use skyeye.Radar.Grouping.{Sensors, Group, is_match, find_group_for_aircraft}

-- What a search asks for.
pub record Query : Type 0 where
  pub origin : Point
  pub min_altitude : ℕ
  pub max_altitude : ℕ
  pub radius : ℕ
  pub coalition : Coalition
  pub filter : Category

unfoldable pub find_unit : ℕ → Database → Option Trackfile
find_unit id d = get_by_id id d

-- The callsign as given, where no contact has it.
unfoldable pub find_callsign : Names → Text → Coalition → Database → Text × Option Trackfile
find_callsign names callsign coalition d =
    elim (get_by_callsign_and_coalition names callsign coalition d) [
      | none ↦ (callsign, none)
      | some (found, t) ↦ (found, some t)
    ]

-- brevity.MandatoryThreatDistance, in nautical miles
abbrev pub mandatory_threat_distance : ℕ
mandatory_threat_distance = 35

-- conf.DefaultMarginRadius, in nautical miles
abbrev pub default_margin_radius : ℕ
default_margin_radius = 3

module _ (sensors : Sensors) (float_le : ℕ → ℕ → Bool) (query : Query) where
  abbrev pub distance_to : Trackfile → ℕ
  distance_to t = sensors.distance query.origin (last_known t).point

  unfoldable pub is_in_layer : Trackfile → Bool
  is_in_layer t =
      float_le query.min_altitude (last_known t).altitude
      && float_le (last_known t).altitude query.max_altitude

  unfoldable pub is_wanted : Trackfile → Bool
  is_wanted t = is_match sensors t query.coalition query.filter && is_in_layer t

  -- The loop over the contacts, with the nearest one and its distance so far.
  unfoldable pub nearest_from : List Trackfile → ℕ → Option Trackfile → Option Trackfile
  nearest_from [] nearest_distance nearest = nearest
  nearest_from (t ∷ ts) nearest_distance nearest =
      let is_nearer = is_wanted t && ltb (distance_to t) nearest_distance in
      nearest_from ts (if is_nearer then distance_to t else nearest_distance)
        (if is_nearer then some t else nearest)

  unfoldable pub find_nearest_trackfile : List Trackfile → Option Trackfile
  find_nearest_trackfile values = nearest_from values query.radius none

  -- The group, and whether it is a threat by its distance to the point of the group.
  abbrev pub braa_group :
      (Group → Point) → List Trackfile → Option Trackfile → Option (Group × Bool)
  braa_group point values none = none
  braa_group point values (some t) =
      if is_last_known_point_zero t
      then none
      else let g = find_group_for_aircraft sensors values t in
        some (
          g,
          ltb (sensors.distance query.origin (point g))
              (mandatory_threat_distance * sensors.nautical_mile),
        )

  unfoldable pub find_nearest_group_with_braa :
      (Group → Point) → List Trackfile → Option (Group × Bool)
  find_nearest_group_with_braa point values =
      braa_group point values (find_nearest_trackfile values)

  module _ (in_sector : Point → Bool) where
    -- The tests of the loop. The distance that it compares with is never changed from the largest
    -- float, so that this comparison always holds.
    unfoldable pub is_sector_contact : Trackfile → Bool
    is_sector_contact t =
        is_wanted t
        && ltb (default_margin_radius * sensors.nautical_mile) (distance_to t)
        && in_sector (last_known t).point

    unfoldable pub sector_from : List Trackfile → Option Trackfile → Option Trackfile
    sector_from [] nearest = nearest
    sector_from (t ∷ ts) nearest = sector_from ts (if is_sector_contact t then some t else nearest)

    unfoldable pub find_nearest_group_in_sector : List Trackfile → Option Group
    find_nearest_group_in_sector values = do
      t ← sector_from values none
      some (find_group_for_aircraft sensors values t)
