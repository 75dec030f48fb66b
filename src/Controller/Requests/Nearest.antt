-- ===== src/Controller/Requests/Nearest.antt =====
-- pkg/controller/bogeydope.go: whom BOGEY DOPE names.
use skyeye.Common.{◌*◌, ◌≡◌, refl, ◌⊎◌, inl, inr, true, false, List, none, some, arith, All}
use skyeye.Common.Text.{Text}
use skyeye.Coalitions.{opposite}
use skyeye.Brevity.{Category}
use skyeye.Trackfiles.{Trackfile, is_last_known_point_zero}
use skyeye.Radar.Grouping.{Sensors, is_match, is_valid_track, find_group_for_aircraft}
use skyeye.Radar.Nearest.{Query, is_wanted, find_nearest_group_with_braa}
use skyeye.Radar.Nearest.Least.{IsBeyond, IsNearest, IsFound, find_nearest_trackfile-IsFound}
use skyeye.Radar.Nearby.{Globe, Sort}
use skyeye.Controller.Calls.{hostile, bogey_dope_response}
use skyeye.Controller.Handlers.{Controller}
use skyeye.Controller.Requests.{Geometry, fill_in, nearest_query, bogey_dope, handle_bogey_dope}
use skyeye.Controller.Requests.Declarations.{located}

module _ (sensors : Sensors) (globe : Globe) (sort : Sort) (geometry : Geometry) where
  wanted_located :
      (q : Query) (t : Trackfile)
      → is_wanted sensors globe.float_le q t ≡ true
      → is_last_known_point_zero t ≡ false
  unfolding is_wanted is_match is_valid_track is_last_known_point_zero
  wanted_located q t h = ground arith

  -- Among the valid contacts (with a position, and faster than fifty knots) of the opposite coalition
  -- and the asked category (or of an aircraft that the encyclopedia does not have) between the lowest
  -- and the highest altitude, BOGEY DOPE of a caller who is on the radar names the group of one within
  -- 300 miles than which none is nearer to the caller, with the merges of the group; and no group only
  -- if none of them is within 300 miles. A slow or hovering hostile is not among them.
  pub handle_bogey_dope-IsNearest :
      (callsign name : Text) (filter : Category) (t : Trackfile) (values : List Trackfile)
      (c : Controller)
      → is_last_known_point_zero t ≡ false
      → let q = nearest_query sensors globe sort geometry t 300 (opposite c.coalition) filter in
        let call =
          handle_bogey_dope sensors globe sort geometry callsign filter (some (name, t)) values c in
        ((call ≡ bogey_dope_response name none)
          × All (IsBeyond sensors globe.float_le q (300 * sensors.nautical_mile)) values)
        ⊎ ((u : Trackfile) × (call
              ≡ bogey_dope_response name
                  (some (fill_in hostile c.merges (find_group_for_aircraft sensors values u))))
            × IsNearest sensors globe.float_le q (300 * sensors.nautical_mile) values u)
  unfolding handle_bogey_dope bogey_dope find_nearest_group_with_braa IsFound nearest_query
  handle_bogey_dope-IsNearest callsign name filter t values c h =
      let q = nearest_query sensors globe sort geometry t 300 (opposite c.coalition) filter in
      rw
        (located sensors globe sort geometry callsign name t
          (λ found u. bogey_dope sensors globe sort geometry found u filter values c) h)
        (elim (find_nearest_trackfile-IsFound sensors globe.float_le q values) [
          | inl (e, beyond) ↦ inl (rw e refl, beyond)
          | inr (u, e, nearest) ↦
              inr (u, rw e (rw (wanted_located q u nearest.wanted) refl), nearest)
        ])
