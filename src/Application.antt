-- ===== src/Application.antt =====
-- internal/application/control.go and parse.go: a text is parsed, and its request goes to the
-- controller's handler. The channels between the steps are left out: a text is handled in one step.
pub mod Answers
mod Tests
use skyeye.Common.{ℕ, ◌*◌, Bool, true, List, [], ◌∷◌, Option, none, some, map, ◌>>=◌}
use skyeye.Common.Text.{Text}
use skyeye.Coalitions.{Coalition, opposite}
use skyeye.Brevity.{fixed_wing}
use skyeye.Trackfiles.{Point, Trackfile}
use skyeye.Radar.Database.{Names, get_by_callsign_and_coalition}
use skyeye.Radar.Scope.{Scope, bullseye}
use skyeye.Radar.Merging.{values_of}
use skyeye.Radar.Grouping.{Sensors, Group, object_ids}
use skyeye.Radar.Nearby.{Globe, Sort}
use skyeye.Radar.Picture.{get_picture}
use skyeye.Parser.Requests.{
  Setting, Request, alpha_check_request, radio_check_request, picture_request, tripwire_request,
  bogey_dope_request, declare_request, spiked_request, snaplock_request,
  unable_to_understand_request, parse,
}
use skyeye.Controller.Calls.{Call}
use skyeye.Controller.Handlers.{
  Controller, broadcast_picture, handle_radio_check, handle_alpha_check, handle_tripwire,
  handle_unable_to_understand,
}
use skyeye.Controller.Requests.{
  Geometry, handle_bogey_dope, handle_declare, handle_snaplock, handle_spiked,
}

-- conf.DefaultPictureRadius, in nautical miles
abbrev pub default_picture_radius : ℕ
default_picture_radius = 300

-- What a handler reads: the radar, its centre point, and the clock.
pub record World : Type 0 where
  pub scope : Scope
  pub center : Point
  pub now : ℕ

abbrev pub values : World → List Trackfile
values world = values_of world.scope.contacts.contacts

module _ (sensors : Sensors) (globe : Globe) (sort : Sort) (geometry : Geometry) (names : Names)
    (altitude : Group → ℕ) where
  abbrev pub found : World → Controller → Text → Option (Text × Trackfile)
  found world c callsign =
      get_by_callsign_and_coalition names callsign c.coalition world.scope.contacts

  -- A picture that is asked for is broadcast even if no client is on frequency.
  unfoldable pub handle_picture : World → Controller → Controller × List Call
  handle_picture world c =
      let (count, groups) =
        get_picture sensors globe altitude sort world.center
          (bullseye (opposite c.coalition) world.scope)
          (default_picture_radius * sensors.nautical_mile) (opposite c.coalition) fixed_wing
          (values world) in
      broadcast_picture world.now true 0 count (map object_ids groups) c

  unfoldable pub handle_request : World → Request → Controller → Controller × List Call
  handle_request world (alpha_check_request callsign) c =
      (c, handle_alpha_check callsign (found world c callsign) ∷ [])
  handle_request world (radio_check_request callsign) c =
      (c, handle_radio_check callsign (found world c callsign) ∷ [])
  handle_request world (picture_request callsign) c = handle_picture world c
  handle_request world (tripwire_request callsign) c =
      (c, handle_tripwire callsign (found world c callsign) ∷ [])
  handle_request world (bogey_dope_request callsign filter) c = (
    c,
    handle_bogey_dope sensors globe sort geometry callsign filter (found world c callsign)
          (values world) c
        ∷ [],
  )
  handle_request world (declare_request request) c = (
    c,
    handle_declare sensors globe sort geometry (λ coalition. bullseye coalition world.scope) request
          (found world c request.callsign) (values world) c
        ∷ [],
  )
  handle_request world (spiked_request callsign bearing) c = (
    c,
    handle_spiked sensors globe sort geometry callsign bearing (found world c callsign)
          (values world) c
        ∷ [],
  )
  handle_request world (snaplock_request callsign bra) c = (
    c,
    handle_snaplock sensors globe sort geometry callsign bra (found world c callsign) (values world)
          c
        ∷ [],
  )
  handle_request world (unable_to_understand_request callsign) c =
      (c, handle_unable_to_understand (found world c callsign) ∷ [])

  -- A text without a request is not answered.
  abbrev pub handle_parsed : World → Option Request → Controller → Controller × List Call
  handle_parsed world none c = (c, [])
  handle_parsed world (some request) c = handle_request world request c

  -- `none`: the parser did not end.
  unfoldable pub handle_text :
      Setting → ℕ → World → Text → Controller → Option (Controller × List Call)
  handle_text setting fuel world text c = do
    request ← parse setting fuel text
    some (handle_parsed world request c)
