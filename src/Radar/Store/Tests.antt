-- ===== src/Radar/Store/Tests.antt =====
-- A run of the scope from its start, and the refinement at this run.
use skyeye.Common.{◌≡◌, refl, inl, List, [], ◌∷◌, none, some, lookup, list_Eq}
use skyeye.Common.Text.{codes}
use skyeye.Coalitions.{red}
use skyeye.Radar.Database.{get_by_id}
use skyeye.Radar.Scope.{Scope, Updated}
use skyeye.Radar.Fades.{fade, fade_tick}
use skyeye.Radar.Samples.{sensors, frame}
use skyeye.Radar.Store.Samples.{names, begun, begun-IsSound}
use skyeye.Radar.Store.{
  Event, updated, faded, garbage_tick, set_mission_time, handle_all, Store, steps,
}
use skyeye.Radar.Store.Indexed.{IsCoalition}
use skyeye.Radar.Store.Agreement.{IsSound, Refines}
use skyeye.Radar.Store.Refinement.{handle_all-Refines}

abbrev empty_store : Store
empty_store = record { find = λ id. none; time = 0; pending = []; deadline = 0 }

abbrev sighting : Updated
sighting = record {
  labels = record { id = 7; name = codes "Joe"; coalition = red; acmi_name = codes "Su-27" };
  frame = frame 40;
}

abbrev events : List Event
events =
    updated sighting
    ∷ updated sighting
    ∷ set_mission_time 9
    ∷ garbage_tick
    ∷ faded (fade 7 1)
    ∷ faded (fade_tick 16_000_000_000)
    ∷ []

red-IsCoalition : IsCoalition red
unfolding IsCoalition
red-IsCoalition = inl refl

begun-Refines : Refines begun empty_store
unfolding get_by_id lookup
begun-Refines = record { find = λ id. refl; time = refl; pending = refl; deadline = refl }

handle_all-Refines_example :
    (s : Scope) × (handle_all sensors names events begun ≡ some s)
    × IsSound s
    × Refines s (steps events empty_store)
handle_all-Refines_example =
    handle_all-Refines sensors names events begun empty_store
      (red-IsCoalition, (red-IsCoalition, (tt, (tt, (tt, (tt, tt)))))) begun-IsSound begun-Refines
