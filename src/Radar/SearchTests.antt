-- ===== src/Radar/SearchTests.antt =====
-- Searches of the radar on small inputs, and the theorems at such inputs.
use skyeye.Common.{
  ℕ, ◌≡◌, refl, inl, inr, true, false, List, [], ◌∷◌, none, some, arith, leb, All, IsOneOf,
  contains, nat_Eq,
}
use skyeye.Coalitions.{red}
use skyeye.Brevity.{aircraft, category_eq}
use skyeye.Encyclopedia.Airframes.{has_tag, tagged, tag_eq, category_of}
use skyeye.Trackfiles.{Trackfile, is_zero, is_last_known_point_zero}
use skyeye.Radar.Samples.{flight, sensors, globe, flights}
use skyeye.Radar.Database.{Database}
use skyeye.Radar.Grouping.{
  Group, object_ids, is_match, is_valid_track, category, find_group_for_aircraft,
  add_nearby_aircraft, add_loop, is_neighbour, sub_category, has_similar_tags, is_within_spread,
}
use skyeye.Radar.Nearest.{
  Query, is_wanted, is_in_layer, is_sector_contact, nearest_from, find_nearest_trackfile,
}
use skyeye.Radar.Nearest.Least.{IsFound, find_nearest_trackfile-IsFound}
use skyeye.Radar.Nearby.{before, Area, is_in_area, find_nearby_groups, nearby_from}
use skyeye.Radar.Nearby.Cover.{IsCovered, find_nearby_groups-IsCovered}
use skyeye.Radar.InsertionSort.{insertion_sort, sort_groups, put}
use skyeye.Radar.Threats.{threats}
use skyeye.Radar.Threats.Criteria.{IsThreat, threats-IsThreat}
use skyeye.Radar.Picture.{Standing, compare_standing}
use skyeye.Radar.Picture.Order.{compare_standing_cycle}

abbrev query : Query
query = record {
  origin = record { lon = 10; lat = 1 };
  min_altitude = 0;
  max_altitude = 9;
  radius = 60;
  coalition = red;
  filter = aircraft;
}

find_nearest_trackfile-IsFound_example :
    IsFound sensors leb query 60 flights none (find_nearest_trackfile sensors leb query flights)
find_nearest_trackfile-IsFound_example = find_nearest_trackfile-IsFound sensors leb query flights

nearest_red : find_nearest_trackfile sensors leb query flights ≡ some (flight 7 red 40)
unfolding find_nearest_trackfile nearest_from is_wanted is_in_layer is_match is_valid_track is_zero
    category_of has_tag tagged tag_eq category_eq
nearest_red = refl

ninth_in_sector : is_sector_contact sensors leb query (λ p. true) (flight 9 red 90) ≡ true
unfolding is_sector_contact is_wanted is_in_layer is_match is_valid_track is_zero category_of
    has_tag tagged tag_eq category_eq
ninth_in_sector = refl

abbrev area : Area
area = record {
  interest = record { lon = 35; lat = 1 };
  min_altitude = 0;
  max_altitude = 9;
  radius = 20;
  coalition = red;
  filter = aircraft;
  excluded_ids = 9 ∷ [];
}

seventh_listed : IsOneOf (flight 7 red 40) flights
unfolding IsOneOf
seventh_listed = inr (inl refl)

seventh_in_area : is_in_area sensors globe area (flight 7 red 40) ≡ true
unfolding is_in_area is_match is_valid_track is_zero category_of has_tag tagged tag_eq category_eq
seventh_in_area = refl

find_nearby_groups-IsCovered_example :
    IsCovered sensors globe area
      (flight 7 red 40)
      (find_nearby_groups sensors globe insertion_sort area flights)
unfolding contains
find_nearby_groups-IsCovered_example =
    find_nearby_groups-IsCovered sensors globe area insertion_sort flights (flight 7 red 40)
      seventh_listed refl seventh_in_area

abbrev group : Trackfile → List Trackfile → Group
group first rest = record { first = first; rest = rest }

nearby_one :
    find_nearby_groups sensors globe insertion_sort area flights
    ≡ group (flight 7 red 40) (flight 8 red 42 ∷ []) ∷ []
unfolding find_nearby_groups nearby_from sort_groups put is_in_area is_match is_valid_track is_zero
    category_of has_tag tagged tag_eq category_eq contains object_ids find_group_for_aircraft
    add_nearby_aircraft add_loop is_neighbour category sub_category has_similar_tags
    is_within_spread is_last_known_point_zero
nearby_one = refl

abbrev no_contacts : Database
no_contacts = record { contacts = []; callsign_idx = [] }

threats-IsThreat_example :
    All
      (IsThreat sensors globe insertion_sort 25 red no_contacts flights)
      (threats sensors globe insertion_sort 25 red no_contacts flights)
threats-IsThreat_example = threats-IsThreat sensors globe insertion_sort 25 red no_contacts flights

abbrev stands : ℕ → ℕ → Standing
stands distance altitude = record {
  is_helo = false;
  is_fighter = true;
  distance = distance;
  radius = 25;
  altitude = altitude;
}

compare_standing_cycle_example :
    (compare_standing 1 (stands 32 2) (stands 30 1) ≡ before)
    × (compare_standing 1 (stands 34 3) (stands 32 2) ≡ before)
    × (compare_standing 1 (stands 30 1) (stands 34 3) ≡ before)
compare_standing_cycle_example =
    compare_standing_cycle 1 (stands 30 1) (stands 32 2) (stands 34 3)
      (record { kind = refl; radius = refl; outside = omega arith; other_outside = omega arith })
      (record { kind = refl; radius = refl; outside = omega arith; other_outside = omega arith })
      (omega arith) (omega arith) (omega arith) (omega arith) (omega arith) (omega arith)
      (omega arith)
