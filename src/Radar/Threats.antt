-- ===== src/Radar/Threats.antt =====
-- pkg/radar/threat.go, enumerateGroups of grouping.go, and the threat radius of group.go: which
-- hostile groups threaten whom. The bearing, range and aspect of a reported group are left out.
pub mod Criteria
use skyeye.Common.{
  ℕ, ◌*◌, Bool, true, false, not, ◌&&◌, ◌||◌, List, [], ◌∷◌, ◌++◌, Option, none, some, ltb,
  if◌then◌else◌, nat_eq, nat_Eq, contains, length,
}
use skyeye.Coalitions.{Coalition, opposite}
use skyeye.Brevity.{aircraft, fixed_wing, rotary_wing, category_eq}
use skyeye.Encyclopedia.Airframes.{fighter, has_tag, threat_radius, sar2_ar1_threat}
use skyeye.Trackfiles.{Point, Trackfile}
use skyeye.Radar.Database.{Database, get_by_id}
use skyeye.Radar.Grouping.{
  Sensors, Group, contacts, object_ids, category, is_valid_track, find_group_for_aircraft,
}
use skyeye.Radar.Nearby.{Globe, Sort, Area, max_float64, point, find_nearby_groups}

-- A group, the IDs that it threatens, and whether it is placed by BRAA and not by bullseye.
pub record Threat : Type 0 where
  pub hostile : Group
  pub ids : List ℕ
  pub is_braa : Bool

module _ (sensors : Sensors) where
  open sensors use {get_aircraft_data, distance, nautical_mile}

  unfoldable pub contact_threat_radius : Trackfile → ℕ
  contact_threat_radius t = elim (get_aircraft_data t.contact.acmi_name) [
    | none ↦ sar2_ar1_threat * nautical_mile
    | some known ↦ threat_radius known * nautical_mile
  ]

  -- The loop over the contacts for the highest radius.
  unfoldable pub highest_radius : List Trackfile → ℕ → ℕ
  highest_radius [] highest = highest
  highest_radius (t ∷ ts) highest =
      highest_radius ts
        (if ltb highest (contact_threat_radius t) then contact_threat_radius t else highest)

  unfoldable pub group_threat_radius : Group → ℕ
  group_threat_radius g = highest_radius (contacts g) 0

  unfoldable pub is_any_fighter : List Trackfile → Bool
  is_any_fighter [] = false
  is_any_fighter (t ∷ ts) = elim (get_aircraft_data t.contact.acmi_name) [
    | none ↦ is_any_fighter ts
    | some known ↦ if has_tag known fighter then true else is_any_fighter ts
  ]

  unfoldable pub is_fighter : Group → Bool
  is_fighter g = is_any_fighter (contacts g)

  -- The loop over the contacts, with the IDs that were visited.
  unfoldable pub enumerate_from : Coalition → List Trackfile → List Trackfile → List ℕ → List Group
  enumerate_from coalition values [] visited = []
  enumerate_from coalition values (t ∷ ts) visited =
      let g = find_group_for_aircraft sensors values t in
      let taken = g ∷ enumerate_from coalition values ts (object_ids g ++ t.contact.id ∷ visited) in
      let skipped = enumerate_from coalition values ts (t.contact.id ∷ visited) in
      let seen = enumerate_from coalition values ts visited in
      if contains visited t.contact.id
      then seen
      else if not (nat_eq t.contact.coalition coalition)
      then skipped
      else if not (is_valid_track sensors t)
      then skipped
      else taken

  unfoldable pub enumerate_groups : Coalition → List Trackfile → List Group
  enumerate_groups coalition values = enumerate_from coalition values values []

  module _ (globe : Globe) (sort : Sort) (mandatory_threat_radius : ℕ) where
    unfoldable pub is_within_threat_radius : Group → Group → Bool
    is_within_threat_radius g friendly =
        let d = distance (point sensors globe g) (point sensors globe friendly) in
        ltb d (group_threat_radius g) || ltb d mandatory_threat_radius

    unfoldable pub is_helo_versus_plane : Group → Group → Bool
    is_helo_versus_plane g friendly =
        category_eq (category sensors g) rotary_wing
        && category_eq (category sensors friendly) fixed_wing

    -- The loop over the friendly groups.
    unfoldable pub threatened_ids : Group → List Group → List ℕ
    threatened_ids g [] = []
    threatened_ids g (friendly ∷ friendlies) =
        if is_within_threat_radius g friendly && not (is_helo_versus_plane g friendly)
        then object_ids friendly ++ threatened_ids g friendlies
        else threatened_ids g friendlies

    unfoldable pub threat_area : Coalition → Group → Area
    threat_area coalition g = record {
      interest = point sensors globe g;
      min_altitude = 0;
      max_altitude = max_float64;
      radius =
          if ltb (100 * nautical_mile) mandatory_threat_radius
          then mandatory_threat_radius
          else 100 * nautical_mile;
      coalition = opposite coalition;
      filter = aircraft;
      excluded_ids = [];
    }

    -- A group that threatens one contact is placed from that contact, if the database has it.
    unfoldable pub is_single : Database → List ℕ → Bool
    is_single d [] = false
    is_single d (id ∷ []) = elim (get_by_id id d) [ none ↦ false | some t ↦ true ]
    is_single d (id ∷ _ ∷ ids) = false

    abbrev pub threat_unless_empty : Database → Group → List ℕ → List Threat → List Threat
    threat_unless_empty d g [] rest = rest
    threat_unless_empty d g (id ∷ ids) rest =
        record { hostile = g; ids = id ∷ ids; is_braa = is_single d (id ∷ ids) } ∷ rest

    -- The loop over the hostile groups.
    unfoldable pub threats_of : Coalition → Database → List Trackfile → List Group → List Threat
    threats_of coalition d values [] = []
    threats_of coalition d values (g ∷ gs) =
        threat_unless_empty d g
          (threatened_ids g
            (find_nearby_groups sensors globe sort (threat_area coalition g) values))
          (threats_of coalition d values gs)

    unfoldable pub threats : Coalition → Database → List Trackfile → List Threat
    threats coalition d values = threats_of coalition d values (enumerate_groups coalition values)
