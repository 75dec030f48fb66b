-- ===== src/Radar/Samples.antt =====
-- Contacts on a line, on which the radar's searches and the controller's requests are run.
use skyeye.Common.{ℕ, ◌+◌, ◌-◌, ◌&&◌, true, List, [], ◌∷◌, some, leb, if◌then◌else◌}
use skyeye.Coalitions.{red, blue}
use skyeye.Encyclopedia.Airframes.{Aircraft, no_aircraft, fixed_wing_tag, fighter}
use skyeye.Trackfiles.{Frame, Trackfile}
use skyeye.Radar.Grouping.{Sensors}
use skyeye.Radar.Nearby.{Globe}

abbrev pub frame : ℕ → Frame
frame lon = record { time = 1; point = record { lon = lon; lat = 1 }; altitude = 5; heading = 0 }

abbrev pub flight : ℕ → ℕ → ℕ → Trackfile
flight id coalition lon = record {
  contact = record { id = id; name = []; coalition = coalition; acmi_name = [] };
  track = frame lon ∷ [];
}

abbrev pub eagle : Aircraft
eagle = record no_aircraft { tags = fixed_wing_tag ∷ fighter ∷ [] }

-- Points are on a line, a mile is one.
abbrev pub sensors : Sensors
sensors = record {
  get_aircraft_data = λ name. some eagle;
  is_above_speed_filter = λ t. true;
  distance = λ p q. if leb p.lon q.lon then q.lon - p.lon else p.lon - q.lon;
  nautical_mile = 1;
}

abbrev pub globe : Globe
globe = record {
  float_le = leb;
  midpoint = λ p q. p;
  bound_contains = λ p r q. leb p.lon (q.lon + r) && leb q.lon (p.lon + r);
  metre = 1;
}

abbrev pub flights : List Trackfile
flights = flight 1 blue 10 ∷ flight 7 red 40 ∷ flight 8 red 42 ∷ flight 9 red 90 ∷ []
