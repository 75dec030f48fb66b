-- ===== src/Radar/Tests.antt =====
-- Runs of the radar on small inputs, and the theorems at such inputs.
use skyeye.Common.{
  ℕ, ◌-◌, ◌≤◌, ◌≡◌, refl, ◌||◌, true, List, [], ◌∷◌, Option, none, some, arith, leb, if◌then◌else◌,
  All, map, contains, lookup, list_eq, list_Eq, nat_Eq, insert,
}
use skyeye.Common.Text.{Text, codes}
use skyeye.Coalitions.{blue, red, opposite}
use skyeye.Trackfiles.{Frame, Trackfile, updates, last_known, is_zero, is_last_known_point_zero}
use skyeye.Trackfiles.Order.{IsTrack, updates_newest}
use skyeye.Radar.Database.{
  Database, Names, empty, before_bar, get_by_id, delete_contact, callsign_of, set,
}
use skyeye.Radar.Database.Lookup.{get_by_id-set}
use skyeye.Radar.Scope.{
  Scope, Updated, handle_update, handle_garbage_collection, is_expired, collect,
}
use skyeye.Radar.Scope.Collection.{IsStore}
use skyeye.Brevity.{category_eq}
use skyeye.Encyclopedia.Airframes.{
  Aircraft, no_aircraft, fixed_wing_tag, fighter, has_tag, tagged, tag_eq, category_of,
}
use skyeye.Radar.Grouping.{
  Group, Sensors, object_ids, find_group_for_aircraft, add_nearby_aircraft, add_loop, is_neighbour,
  is_match, is_valid_track, category, sub_category, has_similar_tags, is_within_spread,
}
use skyeye.Radar.Grouping.Closure.{IsGroupOf, find_group_for_aircraft_closure}
use skyeye.Radar.Merging.{
  is_candidate, is_helicopter, merges, merges_from, merges_for_group, merges_for_contact,
  is_merged_with, values_of,
}
use skyeye.Radar.Fades.{fade, fade_tick, collect_faded, collect_faded_all}
use skyeye.Radar.Fades.Settling.{fades_of, fades_settle}

abbrev frame : ℕ → ℕ → Frame
frame time lon = record {
  time = time;
  point = record { lon = lon; lat = 1 };
  altitude = 0;
  heading = 0;
}

abbrev flight : ℕ → List Frame → Trackfile
flight id track = record {
  contact = record {
    id = id;
    name = codes "Eagle | Joe";
    coalition = blue;
    acmi_name = codes "F-15C";
  };
  track = track;
}

updates_newest_example :
    let fs = frame 3 1 ∷ frame 9 2 ∷ frame 5 3 ∷ [] in
    let t = flight 1 [] in
    IsTrack (updates fs t) × All (λ f. f.time ≤ (last_known (updates fs t)).time) fs
updates_newest_example =
    updates_newest (frame 3 1 ∷ frame 9 2 ∷ frame 5 3 ∷ []) (flight 1 [])
      (record { short = omega arith; ordered = tt })

abbrev nothing : Option Text
nothing = none

no_search : (s : Text) (ks : List Text) (k : Text) → nothing ≡ some k → contains ks k ≡ true
no_search s ks k h = absurd (ground arith)

-- Every name is parsed as one callsign, and no callsign is like another.
abbrev names : Names
names = record {
  parse_pilot_callsign = λ name. some (codes "eagle");
  fuzzy_search = λ s ks. none;
  fuzzy_search-contains = no_search;
}

abbrev one_flight : Database
one_flight = record {
  contacts = (1, flight 1 []) ∷ [];
  callsign_idx = (blue, (codes "eagle", 1) ∷ []) ∷ (red, []) ∷ (3, []) ∷ [];
}

set_one : set names (flight 1 []) empty ≡ some one_flight
unfolding set callsign_of before_bar lookup insert list_eq
set_one = refl

get_by_id-set_example : get_by_id 1 one_flight ≡ some (flight 1 [])
get_by_id-set_example = get_by_id-set names (flight 1 []) empty 1 set_one

abbrev scope : Database → Scope
scope d = record {
  mission_time = 90_000_000_000;
  bullseyes = [];
  contacts = d;
  pending_fades = [];
  fade_deadline = 0;
}

abbrev contact : Updated
contact = record { labels = (flight 1 []).contact; frame = frame 7 6 }

first_update : handle_update names contact (scope empty) ≡ some (scope one_flight)
unfolding handle_update get_by_id set callsign_of before_bar lookup insert list_eq
first_update = refl

-- One contact is old, and two fly together.
abbrev contacts : List (ℕ × Trackfile)
contacts =
    (1, flight 1 (frame 1_000_000_000 10 ∷ []))
    ∷ (2, flight 2 (frame 80_000_000_000 30 ∷ []))
    ∷ (3, flight 3 (frame 80_000_000_000 32 ∷ []))
    ∷ []

abbrev sky : Scope
sky = scope (record one_flight { contacts = contacts })

contacts-IsStore : IsStore contacts
unfolding lookup
contacts-IsStore = record {
  unique = (refl, (refl, (refl, tt)));
  keyed = (refl, (refl, (refl, tt)));
}

removed_old : map (λ (t : Trackfile). t.contact.id) (handle_garbage_collection sky).1 ≡ 1 ∷ []
unfolding handle_garbage_collection collect is_expired delete_contact lookup
removed_old = refl

-- Points are on a line, a mile is one.
abbrev eagle : Aircraft
eagle = record no_aircraft { tags = fixed_wing_tag ∷ fighter ∷ [] }

abbrev sensors : Sensors
sensors = record {
  get_aircraft_data = λ name. some eagle;
  is_above_speed_filter = λ t. true;
  distance = λ p q. if leb p.lon q.lon then q.lon - p.lon else p.lon - q.lon;
  nautical_mile = 1;
}

abbrev flights : List Trackfile
flights =
    flight 1 (frame 1 10 ∷ [])
    ∷ flight 2 (frame 1 30 ∷ [])
    ∷ flight 3 (frame 1 32 ∷ [])
    ∷ flight 4 (frame 1 36 ∷ [])
    ∷ []

abbrev lead : Trackfile
lead = flight 2 (frame 1 30 ∷ [])

find_group_for_aircraft_closure_example :
    IsGroupOf sensors flights lead (find_group_for_aircraft sensors flights lead)
unfolding is_last_known_point_zero is_zero
find_group_for_aircraft_closure_example = find_group_for_aircraft_closure sensors flights lead refl

-- The fourth is no neighbour of the second, but of the third.
group_ids : object_ids (find_group_for_aircraft sensors flights lead) ≡ 2 ∷ 3 ∷ 4 ∷ []
unfolding object_ids find_group_for_aircraft add_nearby_aircraft add_loop is_neighbour is_match
    is_valid_track category category_of category_eq has_tag tagged tag_eq sub_category
    has_similar_tags is_within_spread contains is_last_known_point_zero is_zero
group_ids = refl

abbrev faded : List ℕ
faded = 2 ∷ []

fades_settle_example :
    let es = fade 2 100 ∷ fade_tick 200 ∷ fade 3 300 ∷ [] in
    let r =
      (collect_faded sensors (fade_tick 20_000_000_000) (collect_faded_all sensors es sky).0).0 in
    (r.pending_fades ≡ [])
    × (get_by_id 3 r.contacts ≡ (
        if contains (fades_of es) 3 || contains sky.pending_fades 3
        then none
        else get_by_id 3 sky.contacts))
fades_settle_example =
    fades_settle sensors (fade 2 100 ∷ fade_tick 200 ∷ fade 3 300 ∷ []) sky 20_000_000_000 3
      (omega arith) (omega arith, (tt, (omega arith, tt)))

-- A red, and a neutral two miles from the third of the blue flight.
abbrev mixed : List Trackfile
mixed = painted 5 red 30 ∷ painted 6 3 34 ∷ flights
  where
    painted : ℕ → ℕ → ℕ → Trackfile
    painted id coalition lon = record {
      contact = record {
        id = id;
        name = codes "X";
        coalition = coalition;
        acmi_name = codes "F-15C";
      };
      track = frame 1 lon ∷ [];
    }

-- The group of the second, third and fourth is merged with the red, and with the neutral.
merged_ids :
    map
      (λ (r : Group × List Trackfile). map (λ (t : Trackfile). t.contact.id) r.1)
      (merges sensors red mixed)
    ≡ (5 ∷ 6 ∷ []) ∷ []
unfolding merges merges_from is_candidate is_helicopter merges_for_group merges_for_contact
    is_merged_with values_of opposite insert object_ids find_group_for_aircraft add_nearby_aircraft
    add_loop is_neighbour is_match is_valid_track category category_of category_eq has_tag tagged
    tag_eq sub_category has_similar_tags is_within_spread contains is_last_known_point_zero is_zero
merged_ids = refl
