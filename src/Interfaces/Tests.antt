-- ===== src/Interfaces/Tests.antt =====
-- A merge from the radar to the controller.
use skyeye.Common.{
  ℕ, ◌-◌, ◌≡◌, refl, true, List, [], ◌∷◌, some, leb, if◌then◌else◌, nat_Eq, list_Eq, contains, add,
  discard, lookup, insert, delete,
}
use skyeye.Common.Text.{codes}
use skyeye.Coalitions.{Coalition, blue, red, opposite}
use skyeye.Trackfiles.{Point, Trackfile, is_zero, is_last_known_point_zero}
use skyeye.Radar.Database.{get_by_id}
use skyeye.Brevity.{category_eq}
use skyeye.Encyclopedia.Airframes.{
  Aircraft, no_aircraft, fixed_wing_tag, fighter, has_tag, tagged, tag_eq, category_of,
}
use skyeye.Radar.Grouping.{
  Sensors, object_ids, find_group_for_aircraft, add_nearby_aircraft, add_loop, is_neighbour,
  is_match, is_valid_track, category, sub_category, has_similar_tags, is_within_spread,
}
use skyeye.Radar.Merging.{
  merges, merges_from, is_candidate, is_helicopter, merges_for_group, merges_for_contact,
  is_merged_with, values_of,
}
use skyeye.Controller.Radar.{Units, Audience}
use skyeye.Controller.Merges.{
  is_merged, merge, keep, separate, friendlies_merged_with, entered_merge, exited_merge,
  update_merges_for_contact, update_friendlies, separate_others, update_hostile,
  update_merges_for_group, create_merged_call, broadcast_groups, broadcast_merges,
}
use skyeye.Interfaces.{units_of}
use skyeye.Interfaces.Merges.{reported, IsSeen, broadcast_merges-IsSeen}

abbrev flight : ℕ → Coalition → ℕ → Trackfile
flight id coalition lon = record {
  contact = record { id = id; name = codes "X"; coalition = coalition; acmi_name = codes "F-15C" };
  track =
      record { time = 1; point = record { lon = lon; lat = 1 }; altitude = 0; heading = 0 } ∷ [];
}

-- Points are on a line, a mile is one.
abbrev on_line : Point → Point → ℕ
on_line p q = if leb p.lon q.lon then q.lon - p.lon else p.lon - q.lon

abbrev eagle : Aircraft
eagle = record no_aircraft { tags = fixed_wing_tag ∷ fighter ∷ [] }

abbrev sensors : Sensors
sensors = record {
  get_aircraft_data = λ name. some eagle;
  is_above_speed_filter = λ t. true;
  distance = on_line;
  nautical_mile = 1;
}

abbrev hostile : Trackfile
hostile = flight 7 red 10

abbrev friendly : Trackfile
friendly = flight 9 blue 12

abbrev units : Units
unfolding lookup
units =
    units_of (record { contacts = (7, hostile) ∷ (9, friendly) ∷ []; callsign_idx = [] })
      (record { unique = (refl, (refl, tt)); keyed = (refl, (refl, tt)) }) on_line 1

abbrev audience : Audience
audience = record {
  is_on_frequency = λ name. true;
  parse_pilot_callsign = λ name. some (codes "eagle 1");
  requires_srs = true;
}

abbrev values : List Trackfile
values = hostile ∷ friendly ∷ []

two_miles :
    is_merged 7 9 (broadcast_merges units audience (reported (merges sensors blue values)) []).0
    ≡ true
unfolding units merges merges_from is_candidate is_helicopter merges_for_group merges_for_contact
    is_merged_with values_of opposite insert object_ids find_group_for_aircraft add_nearby_aircraft
    add_loop is_neighbour is_match is_valid_track category category_of category_eq has_tag tagged
    tag_eq sub_category has_similar_tags is_within_spread contains is_last_known_point_zero is_zero
    is_merged merge keep separate friendlies_merged_with entered_merge exited_merge
    update_merges_for_contact update_friendlies separate_others update_hostile
    update_merges_for_group create_merged_call broadcast_groups broadcast_merges lookup add discard
    delete get_by_id
two_miles = refl

broadcast_merges-IsSeen_example : IsSeen sensors blue values 7 9
broadcast_merges-IsSeen_example =
    broadcast_merges-IsSeen sensors blue values units audience [] 7 9 tt two_miles
