-- ===== src/Controller/RequestTests.antt =====
-- Requests to the controller on small inputs, and the theorems at such inputs.
use skyeye.Common.{◌*◌, ◌≡◌, refl, ◌⊎◌, false, [], none, some, All}
use skyeye.Common.Text.{codes}
use skyeye.Coalitions.{blue, opposite}
use skyeye.Brevity.{aircraft}
use skyeye.Trackfiles.{Point, Trackfile, is_last_known_point_zero, is_zero}
use skyeye.Radar.Samples.{flight, sensors, globe, flights}
use skyeye.Radar.InsertionSort.{insertion_sort}
use skyeye.Radar.Grouping.{find_group_for_aircraft}
use skyeye.Radar.Nearest.Least.{IsBeyond, IsNearest}
use skyeye.Parser.Spatial.{unknown_direction}
use skyeye.Parser.Declare.{DeclareRequest, from_caller}
use skyeye.Controller.Samples.{geometry, controller}
use skyeye.Controller.Calls.{hostile, bogey_dope_response}
use skyeye.Controller.Requests.{
  fill_in, nearest_query, declare_area, point_of_interest, handle_declare, handle_bogey_dope,
}
use skyeye.Controller.Requests.Declarations.{
  declared, declaration_of, report_of, HoldsOf, any_in, IsOfSide, handle_declare_answer,
}
use skyeye.Controller.Requests.Nearest.{handle_bogey_dope-IsNearest}

abbrev lead : Trackfile
lead = flight 1 blue 10

lead_located : is_last_known_point_zero lead ≡ false
unfolding is_last_known_point_zero is_zero
lead_located = refl

abbrev request : DeclareRequest
request = record {
  callsign = codes "eagle 1";
  location = from_caller 90 30;
  altitude = 5;
  track = unknown_direction;
}

abbrev here : Point
here = record { lon = 1; lat = 1 }

handle_declare_answer_example :
    let interest =
      point_of_interest sensors globe insertion_sort geometry lead (λ c. here) request.location in
    let area = declare_area sensors globe insertion_sort geometry lead interest request.altitude in
    let answer =
      handle_declare sensors globe insertion_sort geometry
        (λ c. here)
        request
        (some (codes "eagle 1", lead))
        flights
        controller in
    (declaration_of answer
      ≡ some (
          declared
            (any_in sensors globe (area blue) flights)
            (any_in sensors globe (area (opposite blue)) flights)))
    × HoldsOf
        (IsOfSide sensors globe insertion_sort geometry (area blue) (area (opposite blue)) flights)
        (report_of answer)
handle_declare_answer_example =
    handle_declare_answer sensors globe insertion_sort geometry (λ c. here) request
      (codes "eagle 1") lead flights controller lead_located

handle_bogey_dope-IsNearest_example :
    let q = nearest_query sensors globe insertion_sort geometry lead 300 (opposite blue) aircraft in
    let call =
      handle_bogey_dope sensors globe insertion_sort geometry
        (codes "eagle")
        aircraft
        (some (codes "eagle 1", lead))
        flights
        controller in
    ((call ≡ bogey_dope_response (codes "eagle 1") none)
      × All (IsBeyond sensors globe.float_le q (300 * 1)) flights)
    ⊎ ((u : Trackfile) × (call
          ≡ bogey_dope_response
              (codes "eagle 1")
              (some (fill_in hostile [] (find_group_for_aircraft sensors flights u))))
        × IsNearest sensors globe.float_le q (300 * 1) flights u)
handle_bogey_dope-IsNearest_example =
    handle_bogey_dope-IsNearest sensors globe insertion_sort geometry (codes "eagle")
      (codes "eagle 1") aircraft lead flights controller lead_located
