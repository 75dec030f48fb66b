-- ===== src/Interfaces/TrackTests.antt =====
-- A stream of one aircraft from Tacview to the radar.
use skyeye.Common.{ℕ, ◌≡◌, false, some, map, nat_Eq, IsOneOf, contains}
use skyeye.Radar.Database.{get_by_id}
use skyeye.Radar.Samples.{sensors}
use skyeye.Radar.Scope.{Scope, Updated}
use skyeye.Radar.Store.{updated, seen_again, handle_all}
use skyeye.Radar.Store.Agreement.{IsSound}
use skyeye.Radar.Store.Samples.{names, begun, begun-IsSound}
use skyeye.Tacview.Samples.{formats, reader, turns, idle}
use skyeye.Tacview.Stream.{handle_lines, send_updates}
use skyeye.Tacview.Stream.Once.{ids}
use skyeye.Interfaces.Tracks.{handle_all-send_updates}

handle_all-send_updates_example :
    let us = send_updates formats (handle_lines formats turns reader idle).0.client in
    (s : Scope) × (handle_all sensors names (map updated us) begun ≡ some s)
    × IsSound s
    × ((u : Updated)
        → IsOneOf u us
        → get_by_id u.labels.id s.contacts
          ≡ some (seen_again u (get_by_id u.labels.id begun.contacts)))
    × ((id : ℕ)
        → contains (ids us) id ≡ false
        → get_by_id id s.contacts ≡ get_by_id id begun.contacts)
handle_all-send_updates_example =
    handle_all-send_updates sensors names formats turns reader idle begun begun-IsSound
