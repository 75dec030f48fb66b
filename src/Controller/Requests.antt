-- ===== src/Controller/Requests.antt =====
-- pkg/controller/bogeydope.go, declare.go, snaplock.go and spiked.go: the requests that the radar's
-- searches answer. Where a bearing and a range lead, what lies 5000 feet off an altitude, which group
-- is hot and which points are in the cone of a spike are float64 geometry: the parameter `Geometry`.
pub mod Declarations
pub mod Nearest
use skyeye.Common.{
  ℕ, zero, suc, ◌*◌, Bool, true, false, not, List, [], ◌∷◌, Option, none, some, nat_eq, ltb,
  if◌then◌else◌, length,
}
use skyeye.Common.Text.{Text}
use skyeye.Coalitions.{Coalition, opposite}
use skyeye.Brevity.{Category, aircraft, fixed_wing}
use skyeye.Trackfiles.{Point, Trackfile, last_known}
use skyeye.Radar.Grouping.{Sensors, Group, object_ids}
use skyeye.Radar.Nearest.{Query, find_nearest_group_with_braa, find_nearest_group_in_sector}
use skyeye.Radar.Nearby.{Globe, Sort, Area, point, find_nearby_groups}
use skyeye.Parser.Declare.{DeclareRequest, Location, from_bullseye, from_caller}
use skyeye.Controller.Merges.{Merged, merged_with}
use skyeye.Controller.Calls.{
  Declaration, friendly, hostile, furball, clean, GroupReport, Call,
  negative_radar_contact_response, bogey_dope_response, declare_response, snaplock_response,
  spiked_response,
}
use skyeye.Controller.Handlers.{Controller, find_callsign}

-- Bearings are magnetic and in degrees, ranges in miles, altitudes in feet.
pub record Geometry : Type 0 where
  pub point_at : Point → ℕ → ℕ → Point
  pub below : ℕ → ℕ
  pub above : ℕ → ℕ
  pub is_hot : Point → Group → Bool
  pub in_cone : Point → ℕ → Point → Bool

abbrev pub lowest_altitude : ℕ
lowest_altitude = 0

-- 30480.0, the meters of 100000 feet
abbrev pub highest_altitude : ℕ
highest_altitude = 0x40dd_c400_0000_0000

-- SetDeclaration and fillInMergeDetails
unfoldable pub fill_in : Declaration → Merged → Group → GroupReport
fill_in declaration merges g =
    let count = merged_with (object_ids g) merges in
    record {
      group = g;
      declaration = if ltb 0 count then furball else declaration;
      merged_with = count;
    }

abbrev pub first_group : List Group → Option Group
first_group [] = none
first_group (g ∷ gs) = some g

-- The chain of conditions that DECLARE and SNAPLOCK have.
unfoldable pub declare_groups : List Group → List Group → Declaration
declare_groups friends hostiles =
    if nat_eq (length friends) 0
    then if nat_eq (length hostiles) 0 then clean else hostile
    else if nat_eq (length hostiles) 0
    then friendly
    else furball

-- The group of a clear answer; DECLARE fills in the merges of a hostile one.
unfoldable pub declare_report : Merged → List Group → List Group → Option GroupReport
declare_report merges [] [] = none
declare_report merges (g ∷ gs) [] =
    some (record { group = g; declaration = friendly; merged_with = 0 })
declare_report merges [] (g ∷ gs) = some (fill_in hostile merges g)
declare_report merges (f ∷ fs) (g ∷ gs) = none

abbrev pub answer_located : Text → (Text → Trackfile → Call) → Text × Option Trackfile → Call
answer_located callsign answer (found_callsign, none) = negative_radar_contact_response callsign
answer_located callsign answer (found_callsign, some t) = answer found_callsign t

-- What the four handlers begin with: the caller has to be on the radar.
unfoldable pub for_contact : Text → Option (Text × Trackfile) → (Text → Trackfile → Call) → Call
for_contact callsign found answer = answer_located callsign answer (find_callsign found)

abbrev pub bogey_dope_answer : Text → Merged → Option (Group × Bool) → Call
bogey_dope_answer callsign merges none = bogey_dope_response callsign none
bogey_dope_answer callsign merges (some (g, is_near)) =
    bogey_dope_response callsign (some (fill_in hostile merges g))

module _ (sensors : Sensors) (globe : Globe) (sort : Sort) (geometry : Geometry) where
  unfoldable pub nearest_query : Trackfile → ℕ → Coalition → Category → Query
  nearest_query t radius coalition filter = record {
    origin = (last_known t).point;
    min_altitude = lowest_altitude;
    max_altitude = highest_altitude;
    radius = radius * sensors.nautical_mile;
    coalition = coalition;
    filter = filter;
  }

  -- HandleBogeyDope
  unfoldable pub bogey_dope : Text → Trackfile → Category → List Trackfile → Controller → Call
  bogey_dope callsign t filter values c = bogey_dope_answer callsign c.merges (
      find_nearest_group_with_braa sensors globe.float_le
        (nearest_query t 300 (opposite c.coalition) filter) (point sensors globe) values)

  -- The point that HandleDeclare asks about: from the bullseye of the caller's coalition, or from the
  -- caller. A request from a bullseye that says no bearing would be a nil dereference, and the parser
  -- makes none; the bullseye stands for it.
  unfoldable pub point_of_interest : Trackfile → (Coalition → Point) → Location → Point
  point_of_interest t bullseye (from_caller bearing range) =
      geometry.point_at (last_known t).point bearing range
  point_of_interest t bullseye (from_bullseye (some (bearing, range))) =
      geometry.point_at (bullseye t.contact.coalition) bearing range
  point_of_interest t bullseye (from_bullseye none) = bullseye t.contact.coalition

  unfoldable pub declare_area : Trackfile → Point → ℕ → Coalition → Area
  declare_area t interest altitude coalition = record {
    interest = interest;
    min_altitude = if nat_eq altitude 0 then lowest_altitude else geometry.below altitude;
    max_altitude = if nat_eq altitude 0 then highest_altitude else geometry.above altitude;
    radius = 7 * sensors.nautical_mile;
    coalition = coalition;
    filter = aircraft;
    excluded_ids = t.contact.id ∷ [];
  }

  abbrev pub nearby : Area → List Trackfile → List Group
  nearby area values = find_nearby_groups sensors globe sort area values

  -- HandleDeclare
  unfoldable pub declare :
      (Coalition → Point) → Text → Trackfile → DeclareRequest → List Trackfile → Controller → Call
  declare bullseye callsign t request values c =
      let interest = point_of_interest t bullseye request.location in
      let friends = nearby (declare_area t interest request.altitude c.coalition) values in
      let hostiles =
        nearby (declare_area t interest request.altitude (opposite c.coalition)) values in
      declare_response callsign (declare_groups friends hostiles)
        (declare_report c.merges friends hostiles)

  unfoldable pub snaplock_area : Trackfile → ℕ × ℕ × ℕ → Coalition → Area
  snaplock_area t (bearing, range, altitude) coalition = record {
    interest = geometry.point_at (last_known t).point bearing range;
    min_altitude = geometry.below altitude;
    max_altitude = geometry.above altitude;
    radius = 10 * sensors.nautical_mile;
    coalition = coalition;
    filter = aircraft;
    excluded_ids = t.contact.id ∷ [];
  }

  -- The loop over the hostile groups for the first hot one.
  unfoldable pub first_hot : Point → List Group → Option Group
  first_hot origin [] = none
  first_hot origin (g ∷ gs) = if geometry.is_hot origin g then some g else first_hot origin gs

  abbrev pub or_first : Option Group → Group → Group
  or_first none g = g
  or_first (some hot) g = hot

  unfoldable pub snaplock_report : Point → Merged → List Group → List Group → Option GroupReport
  snaplock_report origin merges [] [] = none
  snaplock_report origin merges (g ∷ gs) [] = some (fill_in friendly merges g)
  snaplock_report origin merges [] (g ∷ gs) =
      some (fill_in hostile merges (or_first (first_hot origin (g ∷ gs)) g))
  snaplock_report origin merges (f ∷ fs) (g ∷ gs) = none

  -- HandleSnaplock
  unfoldable pub snaplock : Text → Trackfile → ℕ × ℕ × ℕ → List Trackfile → Controller → Call
  snaplock callsign t bra values c =
      let friends = nearby (snaplock_area t bra c.coalition) values in
      let hostiles = nearby (snaplock_area t bra (opposite c.coalition)) values in
      snaplock_response callsign (declare_groups friends hostiles)
        (snaplock_report (last_known t).point c.merges friends hostiles)

  -- HandleSpiked
  unfoldable pub spiked : Text → Trackfile → ℕ → List Trackfile → Controller → Call
  spiked callsign t bearing values c = spiked_response callsign bearing (
      find_nearest_group_in_sector sensors globe.float_le
        (nearest_query t 120 (opposite c.coalition) fixed_wing)
        (geometry.in_cone (last_known t).point bearing) values)

  unfoldable pub handle_bogey_dope :
      Text → Category → Option (Text × Trackfile) → List Trackfile → Controller → Call
  handle_bogey_dope callsign filter found values c =
      for_contact callsign found (λ found_callsign t. bogey_dope found_callsign t filter values c)

  unfoldable pub handle_declare :
      (Coalition → Point)
      → DeclareRequest
      → Option (Text × Trackfile)
      → List Trackfile
      → Controller
      → Call
  handle_declare bullseye request found values c =
      for_contact request.callsign found
        (λ found_callsign t. declare bullseye found_callsign t request values c)

  unfoldable pub handle_snaplock :
      Text → ℕ × ℕ × ℕ → Option (Text × Trackfile) → List Trackfile → Controller → Call
  handle_snaplock callsign bra found values c =
      for_contact callsign found (λ found_callsign t. snaplock found_callsign t bra values c)

  unfoldable pub handle_spiked :
      Text → ℕ → Option (Text × Trackfile) → List Trackfile → Controller → Call
  handle_spiked callsign bearing found values c =
      for_contact callsign found (λ found_callsign t. spiked found_callsign t bearing values c)
